-- ===== src/Rag/Stream.antt =====
-- ai/services/rag_service.py: RagService.stream_answer, up to the end of the stream. A client that
-- goes away in the middle of it is not modelled.
use system_dashnote.Prelude.{
  ℕ, Option, none, some, List, [], ◌∷◌, ◌++◌, map, select, take, length, if◌then◌else◌,
}
use system_dashnote.Prelude.Text.{Text, str}
use system_dashnote.Prelude.Exec.{Exec, Exn, pure, from_result, ◌>>=◌, ◌>>◌}
use system_dashnote.Context.Prompts.{Chunk}
use system_dashnote.Retrieval.Search.{SearchResult, search}
use system_dashnote.Threads.Models.{World}
use system_dashnote.Threads.Service.{truthy}
use system_dashnote.Rag.Service.{
  Rag, Asker, ThreadContext, Citation, StreamEvent, citation_from_chunk, empty_retrieval_answer,
  or_none, load_thread_context, maybe_auto_title, record_turn, built_for,
}

-- `"".join(parts)`
abbrev pub join : List Text → Text
join [] = []
join (s ∷ ss) = s ++ join ss

-- What was yielded, and the exception that broke the stream of the model, if any.
pub record Streamed : Type 0 where
  pub events : List StreamEvent
  pub broken_by : Option Exn

module _ (r : Rag) where
  -- from the answer on: it is stored unless it is empty
  unfoldable pub close :
      Asker
      → ThreadContext
      → Text
      → Text
      → List Citation
      → ℕ
      → ℕ
      → List StreamEvent
      → Exec (World r.threads) Streamed
  close a t question full_answer citations chunks_retrieved chunks_used tokens = do
    if truthy full_answer then record_turn r a t question full_answer citations else pure tt
    title ← maybe_auto_title r a t question full_answer
    pure record {
      events =
          tokens
          ++ StreamEvent.metadata citations chunks_retrieved chunks_used (or_none t.thread_id) title
            ∷ [];
      broken_by = none;
    }

  abbrev pub after_stream :
      Asker
      → ThreadContext
      → Text
      → List Chunk
      → ℕ
      → List Text
      → Option Exn
      → Exec (World r.threads) Streamed
  after_stream a t question chunks chunks_retrieved deltas (some e) =
      pure record { events = map StreamEvent.token deltas; broken_by = some e }
  after_stream a t question chunks chunks_retrieved deltas none =
      close a t question (join deltas) (map citation_from_chunk (take 5 chunks)) chunks_retrieved
        (length chunks) (map StreamEvent.token deltas)

  abbrev pub generate :
      Asker → ThreadContext → Text → List SearchResult → Exec (World r.threads) Streamed
  generate a t question [] =
      close a t question empty_retrieval_answer [] 0 0
        (StreamEvent.token empty_retrieval_answer ∷ [])
  generate a t question (x ∷ xs) = do
    let built = built_for r t question (x ∷ xs)
    (deltas, e) ← from_result (r.complete_stream built.messages)
    after_stream a t question built.context_chunks (length (x ∷ xs)) (select truthy deltas) e

  unfoldable pub stream_answer : Asker → Text → ℕ → Option Text → Exec (World r.threads) Streamed
  stream_answer a question retrieval_limit thread_id = do
    t ← load_thread_context r a thread_id
    retrieved ← search r.client question (str a.workspace_id) (str a.user_id) a.role retrieval_limit
    generate a t question retrieved
