-- ===== src/Database/Memory.antt =====
-- A table in memory: it shows that the assumptions of the interface can be met, and runs the tests.
use system_dashnote.Prelude.{ℕ, ◌+◌, refl, not, List, ◌∷◌, ◌++◌, [], map, select, if◌then◌else◌}
use system_dashnote.Database.Interface.{Table}

pub record Memory (Row : Type 0) : Type 0 where
  pub rows : List Row
  pub next_id : ℕ

abbrev pub table : (Row : Type 0) → Table Row
table Row = record {
  State = Memory Row;
  rows = λ s. s.rows;
  next_id = λ s. s.next_id;
  fetch = λ p s. select p s.rows;
  insert = λ x s. record { rows = s.rows ++ x ∷ []; next_id = s.next_id + 1 };
  update = λ p f s. record s { rows = map (λ x. if p x then f x else x) s.rows };
  remove = λ p s. record s { rows = select (λ x. not (p x)) s.rows };
  fetch_lem = λ p s. refl;
  insert_lem = λ x s. refl;
  update_lem = λ p f s. refl;
  remove_lem = λ p s. refl;
}
