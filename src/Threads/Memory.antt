-- ===== src/Threads/Memory.antt =====
-- Tables of threads and of messages in memory: they show that the assumptions can be met.
use system_dashnote.Prelude.{
  ℕ, ◌<◌, ◌≡◌, refl, ap, Bool-cases, inl, inr, leb, Option, some, none, List, [], ◌∷◌, ◌++◌, All,
  arith, if◌then◌else◌,
}
use system_dashnote.Prelude.Text.{Text, str, read_decimal, read_decimal-str}
use system_dashnote.Database.Memory.{table}
use system_dashnote.Database.Keyed.{keyed_table}
use system_dashnote.Threads.Models.{AiMessage, Services}

module _ {Citation : Type 0} where
  insert_by_age : AiMessage Citation → List (AiMessage Citation) → List (AiMessage Citation)
  insert_by_age m [] = m ∷ []
  insert_by_age m (n ∷ ms) =
      let rest = insert_by_age m ms in
      if leb m.created_at n.created_at then m ∷ n ∷ ms else n ∷ rest

  unfoldable pub by_age : List (AiMessage Citation) → List (AiMessage Citation)
  unfolding insert_by_age
  by_age [] = []
  by_age (m ∷ ms) = insert_by_age m (by_age ms)

  insert_by_age-append :
      (m n : AiMessage Citation) (ms : List (AiMessage Citation))
      → m.created_at < n.created_at
      → insert_by_age m (ms ++ n ∷ []) ≡ insert_by_age m ms ++ n ∷ []
  unfolding insert_by_age
  insert_by_age-append m n [] h = ground arith
  insert_by_age-append m n (x ∷ ms) h = elim (Bool-cases (leb m.created_at x.created_at)) [
    | inl e ↦ rw e refl
    | inr e ↦ rw e (ap (λ ys. x ∷ ys) (insert_by_age-append m n ms h))
  ]

  pub by_age-append :
      (ms : List (AiMessage Citation)) (n : AiMessage Citation)
      → All (λ m. m.created_at < n.created_at) ms
      → by_age (ms ++ n ∷ []) ≡ by_age ms ++ n ∷ []
  unfolding by_age insert_by_age
  by_age-append [] n h = refl
  by_age-append (m ∷ ms) n h =
      rw (by_age-append ms n h.1) (insert_by_age-append m n (by_age ms) h.0)

-- A UUID is printed as `u` and its number.
abbrev uuid : Text → Option ℕ
uuid [] = none
uuid (c ∷ s) = some (read_decimal s)

abbrev pub services : (Citation : Type 0) (limit : ℕ) → Services
services Citation limit = record {
  Citation = Citation;
  threads = keyed_table (λ t. t.id);
  messages = table (AiMessage Citation);
  latest_first = λ ts. ts;
  oldest_first = by_age;
  uuid = uuid;
  uuid_str = λ id. 117 ∷ str id;
  uuid-uuid_str = λ id. ap some (read_decimal-str id);
  uuid-empty = refl;
  isoformat = str;
  strip = λ s. s;
  ai_thread_message_limit = limit;
}
