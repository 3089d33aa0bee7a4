-- ===== src/Rag/Service.antt =====
-- ai/services/rag_service.py: RagService. Latencies, traces and scores of citations are not
-- modelled.
use system_dashnote.Prelude.{
  ℕ, Bool, true, false, not, ◌&&◌, ◌||◌, Option, none, some, List, [], ◌∷◌, map, take, length,
  String, if◌then◌else◌,
}
use system_dashnote.Prelude.Text.{Text, codes, str, text_eq}
use system_dashnote.Prelude.Exec.{Exec, Exn, Result, pure, from_result, ◌>>=◌, ◌>>◌}
use system_dashnote.Context.Prompts.{Chunk}
use system_dashnote.Context.Builder.{Message, BuiltContext, build}
use system_dashnote.Retrieval.Search.{Client, SearchResult, SourceType, search}
use system_dashnote.Threads.Models.{Services, World, Role}
use system_dashnote.Threads.Service.{truthy}
use system_dashnote.Threads.Service

pub record Citation : Type 0 where
  pub note_id : Text
  pub chunk_id : Text
  pub title : Text
  pub source_type : SourceType
  pub file_id : Text

pub record RagAnswer : Type 0 where
  pub answer : Text
  pub cited_chunk_ids : List Text

pub record ChatResult : Type 0 where
  pub answer : Text
  pub citations : List Citation
  pub chunks_retrieved : ℕ
  pub chunks_used : ℕ
  pub thread_id : Option Text

-- What `stream_answer` yields.
pub data StreamEvent : Type 0 where
  token : (content : Text) → StreamEvent
  metadata :
      (citations : List Citation) (chunks_retrieved chunks_used : ℕ) (thread_id title : Option Text)
      → StreamEvent

-- The parameters: the store of the threads, the vector store, the calls of the language model, and
-- what Python's int, str and pydantic do.
pub record Rag : Type 1 where
  pub threads : Services
  pub client : Client
  -- `acompletion_with_fallback`: the content of the response
  pub complete : List Message → Result Text
  -- with `stream=True`: its contents, none for an empty one, and the exception that ends it if any
  pub complete_stream : List Message → Result (List Text × Option Exn)
  -- `RAGAnswer.model_validate_json`
  pub validate_answer : Text → Option RagAnswer
  pub generate_thread_title : Text → Text → Text
  pub model_dump : Citation → threads.Citation
  pub role_name : Role → Text
  pub history_budget : ℕ → ℕ
  pub token_budget : ℕ

unfoldable pub empty_retrieval_answer : Text
empty_retrieval_answer =
    codes "I could not find relevant information in your notes and files for this query."

abbrev source_name : SourceType → Text
source_name SourceType.note = codes "note"
source_name SourceType.file = codes "file"

-- `_chunk_dict`
abbrev pub chunk_dict : SearchResult → Chunk
chunk_dict r = record {
  chunk_id = r.chunk_id;
  note_id = r.note_id;
  file_id = r.file_id;
  source_type = source_name r.source_type;
  title = r.title;
  text = r.chunk_text;
}

-- `_citation_from_chunk`
abbrev pub citation_from_chunk : Chunk → Citation
citation_from_chunk c = record {
  note_id = c.note_id;
  chunk_id = c.chunk_id;
  title = c.title;
  source_type = if text_eq c.source_type (codes "file") then SourceType.file else SourceType.note;
  file_id = c.file_id;
}

abbrev pub or_this : Option Chunk → Text → Chunk → Option Chunk
or_this (some d) chunk_id c = some d
or_this none chunk_id c = if text_eq c.chunk_id chunk_id then some c else none

-- `chunk_map.get(chunk_id)`: of several chunks with the key, the dict has the last
unfoldable pub chunk_map : List Chunk → Text → Option Chunk
chunk_map [] chunk_id = none
chunk_map (c ∷ cs) chunk_id = or_this (chunk_map cs chunk_id) chunk_id c

abbrev pub cite : Option Chunk → List Citation → List Citation
cite none rest = rest
cite (some c) rest = citation_from_chunk c ∷ rest

-- the loop over `rag_answer.cited_chunk_ids`
unfoldable pub grounded : List Chunk → List Text → List Citation
grounded chunks [] = []
grounded chunks (chunk_id ∷ ids) = cite (chunk_map chunks chunk_id) (grounded chunks ids)

-- `if not citations and built.context_chunks`
abbrev pub or_top : List Chunk → List Citation → List Citation
or_top chunks [] = map citation_from_chunk (take 3 chunks)
or_top chunks (c ∷ cs) = c ∷ cs

unfoldable pub citations_of : List Chunk → List Text → List Citation
citations_of chunks ids = or_top chunks (grounded chunks ids)

abbrev pub parsed : Option RagAnswer → Text → RagAnswer
parsed none raw_content = record { answer = raw_content; cited_chunk_ids = [] }
parsed (some a) raw_content = a

-- `s or None`
abbrev pub or_none : Text → Option Text
or_none s = if truthy s then some s else none

-- A caller with its role and its open session, if any.
pub record Asker : Type 0 where
  pub workspace_id : ℕ
  pub user_id : ℕ
  pub role : String
  pub has_db : Bool

-- What `_load_thread_context` returns.
pub record ThreadContext : Type 0 where
  pub thread_id : Text
  pub history : List Message
  pub created_this_request : Bool

module _ (r : Rag) where
  abbrev pub to_message : Role × Text → Message
  to_message (role, content) = record { role = r.role_name role; content = content }

  abbrev pub given : Option Text → Text
  given none = []
  given (some thread_id) = thread_id

  abbrev pub load_history : Option Text → Text → ℕ → Exec (World r.threads) (List Message)
  load_history thread_id resolved_id workspace_id = do
    messages ←
        if truthy (given thread_id)
        then Service.load_history_as_messages r.threads resolved_id workspace_id
        else pure []
    pure (map to_message messages)

  abbrev pub load_with_db : Asker → Option Text → Exec (World r.threads) ThreadContext
  load_with_db a thread_id = do
    (thread, created) ← Service.get_or_create_thread r.threads thread_id a.workspace_id a.user_id
    let resolved_id = r.threads.uuid_str thread.id
    history ← load_history thread_id resolved_id a.workspace_id
    pure record { thread_id = resolved_id; history = history; created_this_request = created }

  unfoldable pub load_thread_context : Asker → Option Text → Exec (World r.threads) ThreadContext
  load_thread_context a thread_id =
      if not a.has_db
      then pure record { thread_id = given thread_id; history = []; created_this_request = false }
      else load_with_db a thread_id

  abbrev pub auto_title : Asker → Text → Text → Text → Exec (World r.threads) (Option Text)
  auto_title a thread_id question answer = do
    let title = r.generate_thread_title question answer
    titled ← Service.set_title_for_new_thread r.threads thread_id a.workspace_id title true
    pure (if titled then some title else none)

  unfoldable pub maybe_auto_title :
      Asker → ThreadContext → Text → Text → Exec (World r.threads) (Option Text)
  maybe_auto_title a t question answer =
      if not a.has_db || (not t.created_this_request || not (truthy t.thread_id))
      then pure none
      else auto_title a t.thread_id question answer

  -- `if db is not None and resolved_thread_id: await ThreadService().persist_turn(…)`
  unfoldable pub record_turn :
      Asker → ThreadContext → Text → Text → List Citation → Exec (World r.threads) Unit
  record_turn a t question answer citations =
      if a.has_db && truthy t.thread_id
      then Service.persist_turn r.threads t.thread_id question answer (map r.model_dump citations)
          none
      else pure tt

  abbrev pub built_for : ThreadContext → Text → List SearchResult → BuiltContext
  built_for t question retrieved =
      build r.history_budget r.token_budget question t.history (map chunk_dict retrieved)

  -- The turn is stored and the thread titled; the rest of both branches of `answer`.
  unfoldable pub finish :
      Asker
      → ThreadContext
      → Text
      → Text
      → List Citation
      → ℕ
      → ℕ
      → Exec (World r.threads) ChatResult
  finish a t question answer citations chunks_retrieved chunks_used = do
    record_turn a t question answer citations
    maybe_auto_title a t question answer
    pure record {
      answer = answer;
      citations = citations;
      chunks_retrieved = chunks_retrieved;
      chunks_used = chunks_used;
      thread_id = or_none t.thread_id;
    }

  abbrev pub generate :
      Asker → ThreadContext → Text → List SearchResult → Exec (World r.threads) ChatResult
  generate a t question [] = finish a t question empty_retrieval_answer [] 0 0
  generate a t question (x ∷ xs) = do
    let built = built_for t question (x ∷ xs)
    raw_content ← from_result (r.complete built.messages)
    let rag_answer = parsed (r.validate_answer raw_content) raw_content
    let citations = citations_of built.context_chunks rag_answer.cited_chunk_ids
    finish a t question rag_answer.answer citations (length (x ∷ xs)) (length built.context_chunks)

  unfoldable pub answer : Asker → Text → ℕ → Option Text → Exec (World r.threads) ChatResult
  answer a question retrieval_limit thread_id = do
    t ← load_thread_context a thread_id
    retrieved ← search r.client question (str a.workspace_id) (str a.user_id) a.role retrieval_limit
    generate a t question retrieved
