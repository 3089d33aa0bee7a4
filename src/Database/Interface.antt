-- ===== src/Database/Interface.antt =====
-- One table: its rows, and the statements with their meaning.
use system_dashnote.Prelude.{
  ℕ, ◌≡◌, Bool, not, Option, none, some, List, [], ◌∷◌, ◌++◌, map, select, if◌then◌else◌,
}
use system_dashnote.Prelude.Exec.{Result, ok, err, Exn}

pub record Table (Row : Type 0) : Type 1 where
  pub State : Type 0
  pub rows : State → List Row
  -- the next value of the primary key's sequence
  pub next_id : State → ℕ
  -- SELECT … WHERE
  pub fetch : (Row → Bool) → State → List Row
  -- INSERT of a row whose key is `next_id`
  pub insert : Row → State → State
  -- UPDATE … WHERE
  pub update : (Row → Bool) → (Row → Row) → State → State
  -- DELETE … WHERE
  pub remove : (Row → Bool) → State → State
  pub fetch_lem : (p : Row → Bool) (s : State) → fetch p s ≡ select p (rows s)
  pub insert_lem : (x : Row) (s : State) → rows (insert x s) ≡ rows s ++ x ∷ []
  pub update_lem :
      (p : Row → Bool) (f : Row → Row) (s : State)
      → rows (update p f s) ≡ map (λ x. if p x then f x else x) (rows s)
  pub remove_lem :
      (p : Row → Bool) (s : State) → rows (remove p s) ≡ select (λ x. not (p x)) (rows s)

-- `result.scalar_one_or_none()`: more than one row is an exception.
abbrev pub one_or_none : {Row : Type 0} → List Row → Result (Option Row)
one_or_none [] = ok none
one_or_none (x ∷ []) = ok (some x)
one_or_none (x ∷ y ∷ xs) = err Exn.multiple_rows
