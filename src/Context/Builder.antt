-- ===== src/Context/Builder.antt =====
-- ai/memory/context_builder.py: ContextBuilder.build. Lengths are in characters.
use system_dashnote.Prelude.{
  ℕ, ◌+◌, ◌-◌, Bool, true, false, ◌&&◌, List, [], ◌∷◌, ◌++◌, length, ltb, if◌then◌else◌,
}
use system_dashnote.Prelude.Text.{Text, codes}
use system_dashnote.Context.Prompts.{Chunk, rag_system_instruction, build_rag_user_message}

-- A dict with the keys `role` and `content`.
pub record Message : Type 0 where
  pub role : Text
  pub content : Text

pub record BuiltContext : Type 0 where
  pub messages : List Message
  pub context_chunks : List Chunk
  pub history_messages_used : ℕ
  pub context_chunks_used : ℕ
  pub total_chars : ℕ

-- The loop over `history_messages`, from `history_chars` on: what it adds, and the characters then.
unfoldable pub fit_history : ℕ → ℕ → List Message → List Message × ℕ
fit_history history_budget history_chars [] = ([], history_chars)
fit_history history_budget history_chars (msg ∷ messages) =
    let msg_chars = length msg.content in
    let rest = fit_history history_budget (history_chars + msg_chars) messages in
    if ltb history_budget (history_chars + msg_chars)
    then ([], history_chars)
    else (msg ∷ rest.0, rest.1)

-- The loop over `retrieved_chunks`; `fitted` says that there is a fitted chunk already.
unfoldable pub fit_chunks : ℕ → Bool → ℕ → List Chunk → List Chunk × ℕ
fit_chunks remaining_budget fitted context_chars [] = ([], context_chars)
fit_chunks remaining_budget fitted context_chars (chunk ∷ chunks) =
    let chunk_chars = length chunk.text in
    let rest = fit_chunks remaining_budget true (context_chars + chunk_chars) chunks in
    if ltb remaining_budget (context_chars + chunk_chars) && fitted
    then ([], context_chars)
    else (chunk ∷ rest.0, rest.1)

-- `history_budget` is `int(budget * 0.7)`, in floating point.
module _ (history_budget : ℕ → ℕ) (budget : ℕ) where
  unfoldable pub build : Text → List Message → List Chunk → BuiltContext
  build question history_messages retrieved_chunks =
      let (fitted_history, history_chars) =
        fit_history (history_budget budget) 0 history_messages in
      let remaining_budget = budget - history_chars in
      let (fitted_chunks, context_chars) = fit_chunks remaining_budget false 0 retrieved_chunks in
      let user_content = build_rag_user_message question fitted_chunks in
      record {
        messages =
            (record { role = codes "system"; content = rag_system_instruction }) ∷ fitted_history
            ++ (record { role = codes "user"; content = user_content }) ∷ [];
        context_chunks = fitted_chunks;
        history_messages_used = length fitted_history;
        context_chunks_used = length fitted_chunks;
        total_chars = history_chars + context_chars;
      }
