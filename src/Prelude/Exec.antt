-- ===== src/Prelude/Exec.antt =====
-- Handlers that change a state and may raise. What was written before a raise stays written, so
-- the state comes back beside the exception too.
use mathlib.Core.Path.{◌≡◌, refl, ap}
use mathlib.Core.Logic.{◌⊎◌, inl, inr}
use mathlib.Core.Bool.{Bool, true, false}
use mathlib.Core.Option.{Option, none, some}
use Prim.Native.Nat.{ℕ}
use system_dashnote.Prelude.Tests.{if◌then◌else◌}
use Prim.Native.String.{String}

-- The exceptions that the modelled code raises or handles. `http` carries the status and detail of
-- an `HTTPException`.
pub data Exn : Type 0 where
  http : ℕ → String → Exn
  value_error key_error index_error jwt_error assertion_error multiple_rows : Exn
  invalid_current_password : Exn
  password_policy : String → Exn

pub data Result {ℓ} (A : Type ℓ) : Type ℓ where
  ok : A → Result A
  err : Exn → Result A

pub Result-cases {ℓ} :
    {A : Type ℓ} (r : Result A) → ((a : A) × (r ≡ ok a)) ⊎ ((e : Exn) × (r ≡ err e))
Result-cases (ok a) = inl (a, refl)
Result-cases (err e) = inr (e, refl)

abbrev pub Exec {ℓ} : Type ℓ → Type ℓ → Type ℓ
Exec S A = S → Result A × S

module _ {ℓ} {S A : Type ℓ} where
  abbrev pub pure : A → Exec S A
  pure a s = (ok a, s)

  abbrev pub raise : Exn → Exec S A
  raise e s = (err e, s)

  abbrev pub gets : (S → A) → Exec S A
  gets f s = (ok (f s), s)

  abbrev pub from_result : Result A → Exec S A
  from_result r s = (r, s)

  abbrev pub or_raise : Option A → Exn → Exec S A
  or_raise none e s = (err e, s)
  or_raise (some a) e s = (ok a, s)

module _ {S : Type 0} where
  abbrev pub modify : (S → S) → Exec S Unit
  modify f s = (ok tt, f s)

  -- `if c: raise e`
  abbrev pub raise_if : Bool → Exn → Exec S Unit
  raise_if true e s = (err e, s)
  raise_if false e s = (ok tt, s)

module _ {ℓ} {S A B : Type ℓ} where
  abbrev continue : Result A → (A → Exec S B) → Exec S B
  continue (ok a) f s = f a s
  continue (err e) f s = (err e, s)

  infixl 10 ◌>>=◌ ◌>>◌
  abbrev pub ◌>>=◌ : Exec S A → (A → Exec S B) → Exec S B
  ◌>>=◌ m f s = continue (m s).0 f (m s).1

  abbrev pub ◌>>◌ : Exec S A → Exec S B → Exec S B
  m >> n = m >>= λ _. n

module _ {ℓ} {S A B : Type ℓ} where
  -- Inversion of a chain that returned: its first step returned, and so did the rest.
  pub >>=-ok :
      (m : Exec S A) (f : A → Exec S B) {s t : S} {b : B}
      → (m >>= f) s ≡ (ok b, t)
      → (a : A) × (u : S) × (m s ≡ (ok a, u)) × (f a u ≡ (ok b, t))
  >>=-ok m f {s} {t} {b} h = go (m s) refl h
    where
      go :
          (x : Result A × S)
          → m s ≡ x
          → continue x.0 f x.1 ≡ (ok b, t)
          → (a : A) × (u : S) × (m s ≡ (ok a, u)) × (f a u ≡ (ok b, t))
      go (ok a, u) e k = (a, u, e, k)
      go (err x, u) e k = absurd (cc)

  -- A continuation that only reads leaves the state that the first step reached.
  pub >>=-state :
      (m : Exec S A) (f : A → Exec S B) (s : S)
      → ((a : A) (t : S) → (f a t).1 ≡ t)
      → ((m >>= f) s).1 ≡ (m s).1
  >>=-state m f s h = go (m s)
    where
      go : (x : Result A × S) → (continue x.0 f x.1).1 ≡ x.1
      go (ok a, u) = h a u
      go (err e, u) = refl

-- `m` keeps the property `P` of the state, whatever it returns or raises.
abbrev pub Keeps {ℓ κ} : {S A : Type ℓ} → (S → Type κ) → Exec S A → Type (ℓ ⊔ κ)
Keeps {S = S} P m = (s : S) → P s → P (m s).1

module _ {ℓ κ} {S A B : Type ℓ} (P : S → Type κ) where
  pub >>=-Keeps :
      (m : Exec S A) (f : A → Exec S B) → Keeps P m → ((a : A) → Keeps P (f a)) → Keeps P (m >>= f)
  >>=-Keeps m f h k s p = go (m s) (h s p)
    where
      go : (x : Result A × S) → P x.1 → P (continue x.0 f x.1).1
      go (ok a, u) q = k a u q
      go (err e, u) q = q

module _ {ℓ κ} {S A : Type ℓ} (P : S → Type κ) where
  pub if-Keeps : (b : Bool) (m n : Exec S A) → Keeps P m → Keeps P n → Keeps P (if b then m else n)
  if-Keeps true m n h k = h
  if-Keeps false m n h k = k

  pub or_raise-Keeps : (o : Option A) (e : Exn) → Keeps P (or_raise o e)
  or_raise-Keeps none e s p = p
  or_raise-Keeps (some a) e s p = p

module _ {ℓ} {S A : Type ℓ} where
  -- A step from `s` returns or raises.
  pub Exec-cases :
      (m : Exec S A) (s : S)
      → ((a : A) × (t : S) × (m s ≡ (ok a, t))) ⊎ ((e : Exn) × (t : S) × (m s ≡ (err e, t)))
  Exec-cases m s = go (m s) refl
    where
      go :
          (x : Result A × S)
          → m s ≡ x
          → ((a : A) × (t : S) × (m s ≡ (ok a, t))) ⊎ ((e : Exn) × (t : S) × (m s ≡ (err e, t)))
      go (ok a, t) h = inl (a, t, h)
      go (err e, t) h = inr (e, t, h)

module _ {κ} {S : Type 0} (P : S → Type κ) where
  pub raise_if-Keeps : (b : Bool) (e : Exn) → Keeps P (raise_if {S = S} b e)
  raise_if-Keeps true e s p = p
  raise_if-Keeps false e s p = p

module _ {S : Type 0} where
  -- A check that did not raise.
  pub raise_if-ok :
      (b : Bool) (e : Exn) (s t : S) → raise_if b e s ≡ (ok tt, t) → (b ≡ false) × (s ≡ t)
  raise_if-ok true e s t h = absurd (cc (h))
  raise_if-ok false e s t h = (refl, ap (λ x. x.1) h)
