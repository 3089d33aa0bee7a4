-- ===== src/Database/Keyed.antt =====
-- A table in memory whose next id is one that no row has.
use system_dashnote.Prelude.{
  ℕ, suc, max, ◌<◌, ◌≢◌, refl, not, List, [], ◌∷◌, ◌++◌, map, select, All, All-weaken, arith,
  if◌then◌else◌,
}
use system_dashnote.Database.Interface.{Table}

module _ {Row : Type 0} (id : Row → ℕ) where
  abbrev pub next_id : List Row → ℕ
  next_id [] = 1
  next_id (t ∷ ts) = max (suc (id t)) (next_id ts)

  below-next_id : (ts : List Row) → All (λ t. id t < next_id ts) ts
  below-next_id [] = tt
  below-next_id (t ∷ ts) =
      (omega arith, All-weaken _ (λ x h. omega (arith, h)) ts (below-next_id ts))

  pub next_id-fresh : (s : List Row) → All (λ t. id t ≢ next_id s) s
  next_id-fresh s = All-weaken _ (λ t h. ground arith) s (below-next_id s)

  abbrev pub keyed_table : Table Row
  keyed_table = record {
    State = List Row;
    rows = λ s. s;
    next_id = next_id;
    fetch = select;
    insert = λ x s. s ++ x ∷ [];
    update = λ p f s. map (λ x. if p x then f x else x) s;
    remove = λ p s. select (λ x. not (p x)) s;
    fetch_lem = λ p s. refl;
    insert_lem = λ x s. refl;
    update_lem = λ p f s. refl;
    remove_lem = λ p s. refl;
  }
