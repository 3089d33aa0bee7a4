-- ===== src/Context/Tests.antt =====
-- Tests of the builder on a small budget, and the theorems at those.
use system_dashnote.Prelude.{ℕ, ◌*◌, ◌/◌, ◌≤◌, ◌≡◌, refl, ◌⊎◌, List, [], ◌∷◌, arith}
use system_dashnote.Prelude.Text.{codes}
use system_dashnote.Context.Prompts.{Chunk}
use system_dashnote.Context.Builder.{Message, build, fit_history, fit_chunks}
use system_dashnote.Context.Budget

abbrev seven_tenths : ℕ → ℕ
seven_tenths b = b * 7 / 10

abbrev history : List Message
history =
    (record { role = codes "user"; content = codes "hello" })
    ∷ (record { role = codes "assistant"; content = codes "hi" })
    ∷ (record { role = codes "user"; content = codes "and the newest" })
    ∷ []

abbrev large : Chunk
large = record {
  chunk_id = codes "1";
  note_id = [];
  file_id = [];
  source_type = [];
  title = codes "t";
  text = codes "a chunk over the budget";
}

abbrev small : Chunk
small = record {
  chunk_id = codes "2";
  note_id = [];
  file_id = [];
  source_type = [];
  title = codes "t";
  text = codes "ok";
}

-- The newest message is dropped, and a single large chunk exceeds the budget.
build_runs :
    let built = build seven_tenths 20 (codes "why?") history (large ∷ small ∷ []) in
    (built.history_messages_used ≡ 2)
    × (built.context_chunks ≡ large ∷ [])
    × (built.total_chars ≡ 30)
unfolding build fit_history fit_chunks
build_runs = (refl, refl, refl)

total_within_budget_example :
    let built = build seven_tenths 20 (codes "why?") history (small ∷ large ∷ []) in
    (built.total_chars ≤ 20) ⊎ (built.context_chunks_used ≡ 1)
total_within_budget_example =
    Budget.total_within_budget seven_tenths 20 (omega arith) (codes "why?") history
      (small ∷ large ∷ [])

never_without_context_example :
    (rest : List Chunk) × ((build seven_tenths 0
        (codes "why?")
        history
        (large ∷ small ∷ [])).context_chunks
      ≡ large ∷ rest)
never_without_context_example =
    Budget.never_without_context seven_tenths 0 (codes "why?") history large (small ∷ [])
