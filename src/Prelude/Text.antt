-- ===== src/Prelude/Text.antt =====
-- Python's str as a list of code points, with decimal printing, for the keys that the program
-- formats.
use Prim.Native.Nat.{ℕ, zero, suc, ◌+◌, ◌-◌, ◌*◌, ◌/◌, ◌%◌, ◌<◌, ◌≤◌}
use Prim.Native.Char.{code}
use Prim.Native.String.{String}
use mathlib.Core.Path.{◌≡◌, refl, ap}
use mathlib.Core.Logic.{◌≢◌, ◌↔◌, inl, inr}
use mathlib.Core.Bool.{Bool, true, false, ◌&&◌}
use mathlib.Core.List.{List, [], ◌∷◌, ◌++◌}
use native.Mathlib.Omega.{arith}
use system_dashnote.Prelude.Tests.{ltb, ◌==◌, if◌then◌else◌, Bool-cases}
use system_dashnote.Prelude.Lists.{All}

abbrev pub Text : Type 0
Text = List ℕ

-- The code points of a literal.
abbrev pub codes : String → Text
codes String.[] = []
codes (String.◌∷◌ c s) = code c ∷ codes s

-- `s == t`
unfoldable pub text_eq : Text → Text → Bool
text_eq [] [] = true
text_eq [] (y ∷ ys) = false
text_eq (x ∷ xs) [] = false
text_eq (x ∷ xs) (y ∷ ys) = x == y && text_eq xs ys

pub text_eq_iff : (s t : Text) → (text_eq s t ≡ true) ↔ (s ≡ t)
unfolding text_eq
text_eq_iff [] [] = (λ _. refl, λ _. refl)
text_eq_iff [] (y ∷ ys) = ground arith
text_eq_iff (x ∷ xs) [] = ground arith
text_eq_iff (x ∷ xs) (y ∷ ys) = ground (arith, text_eq_iff xs ys)

pub text_eq_refl : (s : Text) → text_eq s s ≡ true
text_eq_refl s = (text_eq_iff s s).1 refl

pub text_eq_ne : (s t : Text) → s ≢ t → text_eq s t ≡ false
text_eq_ne s t h = ground (arith, text_eq_iff s t)

pub ne_of_text_eq : (s t : Text) → text_eq s t ≡ false → s ≢ t
ne_of_text_eq s t h e = ground (arith, text_eq_iff s t)

-- `x in xs` for texts.
abbrev pub elem : Text → List Text → Bool
elem x [] = false
elem x (y ∷ ys) = if text_eq x y then true else elem x ys

-- The decimal digits of `n`; `fuel` bounds their number.
decimal : ℕ → ℕ → Text
decimal zero n = []
decimal (suc fuel) n =
    let rest = decimal fuel (n / 10) in
    if ltb n 10 then (48 + n) ∷ [] else rest ++ ((48 + n % 10) ∷ [])

-- `str(n)`
unfoldable pub str : ℕ → Text
unfolding decimal
str n = decimal (suc n) n

read_from : ℕ → Text → ℕ
read_from acc [] = acc
read_from acc (c ∷ s) = read_from (acc * 10 + (c - 48)) s

-- The number that decimal digits stand for.
unfoldable pub read_decimal : Text → ℕ
unfolding read_from
read_decimal = read_from 0

read_from-append :
    (acc : ℕ) (s : Text) (c : ℕ) → read_from acc (s ++ (c ∷ [])) ≡ read_from acc s * 10 + (c - 48)
unfolding read_from
read_from-append acc [] c = refl
read_from-append acc (d ∷ s) c = read_from-append (acc * 10 + (d - 48)) s c

read-decimal_fuel : (fuel n : ℕ) → n < fuel → read_from 0 (decimal fuel n) ≡ n
unfolding decimal
read-decimal_fuel zero n h = absurd (omega arith)
read-decimal_fuel (suc fuel) n h = elim (Bool-cases (ltb n 10)) [
  | inl small ↦ rw small (unfold read_from in omega arith)
  | inr large ↦
      rw (large, read_from-append) (ground (arith, read-decimal_fuel fuel (n / 10) (ground arith)))
]

-- Reading what was printed gives the number back.
pub read_decimal-str : (n : ℕ) → read_decimal (str n) ≡ n
unfolding read_decimal str
read_decimal-str n = read-decimal_fuel (suc n) n (omega arith)

pub str-injective : (m n : ℕ) → str m ≡ str n → m ≡ n
str-injective m n h = cc (read_decimal-str m, read_decimal-str n, ap read_decimal h)

-- A code point between `0` and `9`.
abbrev pub IsDigit : ℕ → Type 0
IsDigit c = (48 ≤ c) × (c ≤ 57)

All-append-IsDigit : (s : Text) (c : ℕ) → All IsDigit s → IsDigit c → All IsDigit (s ++ (c ∷ []))
All-append-IsDigit [] c h d = (d, tt)
All-append-IsDigit (x ∷ s) c h d = (h.0, All-append-IsDigit s c h.1 d)

decimal-digits : (fuel n : ℕ) → All IsDigit (decimal fuel n)
unfolding decimal
decimal-digits zero n = tt
decimal-digits (suc fuel) n = elim (Bool-cases (ltb n 10)) [
  | inl small ↦ rw small ((omega arith, ground arith), tt)
  | inr large ↦ rw large (
      All-append-IsDigit (decimal fuel (n / 10)) (48 + n % 10) (decimal-digits fuel (n / 10))
        (omega arith, omega arith))
]

pub str-digits : (n : ℕ) → All IsDigit (str n)
unfolding str
str-digits n = decimal-digits (suc n) n

-- Two numbers followed by a separator that is no digit: both parts are determined.
digits_then :
    (s t u v : Text)
    → All IsDigit s
    → All IsDigit t
    → s ++ (58 ∷ u) ≡ t ++ (58 ∷ v)
    → (s ≡ t) × (u ≡ v)
digits_then [] [] u v hs ht e = ground arith
digits_then [] (y ∷ t) u v hs ht e = absurd (ground arith)
digits_then (x ∷ s) [] u v hs ht e = absurd (ground arith)
digits_then (x ∷ s) (y ∷ t) u v hs ht e =
    let r = digits_then s t u v hs.1 ht.1 (cc) in (cc r.0, r.1)

-- `{m}:{u}` determines `m` and `u`.
pub str-colon_injective :
    (m n : ℕ) (u v : Text) → str m ++ (58 ∷ u) ≡ str n ++ (58 ∷ v) → (m ≡ n) × (u ≡ v)
str-colon_injective m n u v e =
    let r = digits_then (str m) (str n) u v (str-digits m) (str-digits n) e in
    (str-injective m n r.0, r.1)
