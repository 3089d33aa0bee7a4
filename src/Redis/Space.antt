-- ===== src/Redis/Space.antt =====
-- What a key of Redis holds, and how the documented commands change it. A command at a key of
-- another type is an error reply that changes nothing; the keys of the program are apart.
use system_dashnote.Prelude.{
  ℕ, ◌+◌, ◌-◌, Bool, true, false, Option, none, some, List, [], ◌∷◌, leb, if◌then◌else◌,
}
use system_dashnote.Prelude.Text.{Text, text_eq, elem, str, read_decimal}

pub data Value : Type 0 where
  string : Text → Value
  members : List Text → Value

pub record Entry : Type 0 where
  pub value : Value
  -- `none`: the key never expires
  pub deadline : Option ℕ

abbrev pub is_some {ℓ} : {A : Type ℓ} → Option A → Bool
is_some none = false
is_some (some _) = true

abbrev pub as_string : Value → Option Text
as_string (string t) = some t
as_string (members _) = none

abbrev pub as_members : Value → List Text
as_members (string _) = []
as_members (members ms) = ms

abbrev pub string_of : Option Entry → Option Text
string_of none = none
string_of (some e) = as_string e.value

abbrev pub members_of : Option Entry → List Text
members_of none = []
members_of (some e) = as_members e.value

abbrev pub deadline_of : Option Entry → Option ℕ
deadline_of none = none
deadline_of (some e) = e.deadline

abbrev left : ℕ → Option ℕ → Option ℕ
left now none = none
left now (some d) = some (d - now)

abbrev pub remaining : ℕ → Option Entry → Option ℕ
remaining now e = left now (deadline_of e)

abbrev number_in : Option Text → ℕ
number_in none = 0
number_in (some t) = read_decimal t

-- The number that a counter key holds; a missing key counts as 0.
abbrev pub count_of : Option Entry → ℕ
count_of e = number_in (string_of e)

abbrev pub insert_member : Text → List Text → List Text
insert_member m ms = if elem m ms then ms else m ∷ ms

abbrev pub remove_member : Text → List Text → List Text
remove_member m [] = []
remove_member m (x ∷ xs) = if text_eq m x then remove_member m xs else x ∷ remove_member m xs

abbrev add_to : Text → Value → Value
add_to m (string t) = string t
add_to m (members ms) = members (insert_member m ms)

abbrev pub with_member : Text → Option Entry → Option Entry
with_member m none = some (record { value = members (m ∷ []); deadline = none })
with_member m (some e) = some (record e { value = add_to m e.value })

-- A set that becomes empty is gone.
abbrev unless_empty : Option ℕ → List Text → Option Entry
unless_empty d [] = none
unless_empty d (x ∷ xs) = some (record { value = members (x ∷ xs); deadline = d })

abbrev remove_from : Text → Option ℕ → Value → Option Entry
remove_from m d (string t) = some (record { value = string t; deadline = d })
remove_from m d (members ms) = unless_empty d (remove_member m ms)

abbrev pub without_member : Text → Option Entry → Option Entry
without_member m none = none
without_member m (some e) = remove_from m e.deadline e.value

abbrev pub expiring : ℕ → Option Entry → Option Entry
expiring d none = none
expiring d (some e) = some (record e { deadline = some d })

abbrev pub counted : Option Entry → Option Entry
counted none = some (record { value = string (str 1); deadline = none })
counted (some e) = some (record e { value = string (str (number_in (as_string e.value) + 1)) })

abbrev kept_at : ℕ → Option ℕ → Bool
kept_at now none = true
kept_at now (some d) = if leb d now then false else true

-- What is left of an entry when the clock shows `now`.
abbrev pub surviving : ℕ → Option Entry → Option Entry
surviving now none = none
surviving now (some e) = if kept_at now e.deadline then some e else none
