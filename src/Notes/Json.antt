-- ===== src/Notes/Json.antt =====
-- A printer and reader for the cached values: it shows that the assumptions on json can be met,
-- and runs the tests.
use system_dashnote.Prelude.{
  ℕ, zero, suc, ◌≡◌, refl, ap, Bool, true, false, Option, none, some, List, [], ◌∷◌, ◌++◌, length,
  take, drop, ◌==◌, if◌then◌else◌,
}
use system_dashnote.Prelude.Text.{Text}
use system_dashnote.Notes.Models.{NoteRead}

pub dumps_note : NoteRead → Text → Text
dumps_note n rest =
    n.id
    ∷ n.created_by
    ∷ (if n.is_private then 1 else 0)
    ∷ length n.title
    ∷ (n.title ++ (length n.content ∷ (n.content ++ rest)))

with_content : ℕ → ℕ → ℕ → Text → Text → Option (NoteRead × Text)
with_content i a b title [] = none
with_content i a b title (m ∷ s) = some (
  record { id = i; title = title; content = take m s; is_private = b == 1; created_by = a },
  drop m s,
)

loads_note : Text → Option (NoteRead × Text)
unfolding with_content
loads_note (i ∷ a ∷ b ∷ n ∷ s) = with_content i a b (take n s) (drop n s)
loads_note _ = none

bit : (b : Bool) → ((if b then 1 else 0) == 1) ≡ b
bit true = refl
bit false = refl

take-length : (xs ys : Text) → take (length xs) (xs ++ ys) ≡ xs
take-length [] ys = refl
take-length (x ∷ xs) ys = ap (λ t. x ∷ t) (take-length xs ys)

drop-length : (xs ys : Text) → drop (length xs) (xs ++ ys) ≡ ys
drop-length [] ys = refl
drop-length (x ∷ xs) ys = drop-length xs ys

loads-dumps_note : (n : NoteRead) (rest : Text) → loads_note (dumps_note n rest) ≡ some (n, rest)
unfolding loads_note dumps_note with_content
loads-dumps_note n rest =
    rw (take-length, drop-length, take-length, drop-length) (rw (bit n.is_private) refl)

-- One value, with nothing after it.
abbrev only {ℓ} : {A : Type ℓ} → Option (A × Text) → Option A
only none = none
only (some (a, s)) = some a

pub dump : NoteRead → Text
unfolding dumps_note
dump n = dumps_note n []

pub load : Text → Option NoteRead
unfolding loads_note
load s = only (loads_note s)

pub load-dump : (n : NoteRead) → load (dump n) ≡ some n
unfolding load dump
load-dump n = ap only (loads-dumps_note n [])

dumps_each : List NoteRead → Text
unfolding dumps_note
dumps_each [] = []
dumps_each (n ∷ ns) = dumps_note n (dumps_each ns)

abbrev cons_to : NoteRead → Option (List NoteRead) → Option (List NoteRead)
cons_to n none = none
cons_to n (some ns) = some (n ∷ ns)

abbrev then_each :
    (Text → Option (List NoteRead)) → Option (NoteRead × Text) → Option (List NoteRead)
then_each f none = none
then_each f (some (n, s)) = cons_to n (f s)

loads_each : ℕ → Text → Option (List NoteRead)
unfolding loads_note
loads_each zero s = some []
loads_each (suc k) s = then_each (loads_each k) (loads_note s)

loads-dumps_each : (ns : List NoteRead) → loads_each (length ns) (dumps_each ns) ≡ some ns
unfolding loads_each dumps_each
loads-dumps_each [] = refl
loads-dumps_each (n ∷ ns) = rw (loads-dumps_note n (dumps_each ns), loads-dumps_each ns) refl

pub dump_list : List NoteRead → Text
unfolding dumps_each
dump_list ns = length ns ∷ dumps_each ns

pub load_list : Text → Option (List NoteRead)
unfolding loads_each
load_list [] = none
load_list (k ∷ s) = loads_each k s

pub load-dump_list : (ns : List NoteRead) → load_list (dump_list ns) ≡ some ns
unfolding load_list dump_list
load-dump_list ns = loads-dumps_each ns
