-- ===== src/Rag/Tests.antt =====
-- Tests of the answers on a concrete store of threads and vectors, and the theorems at those.
use system_dashnote.Prelude.{ℕ, ◌≡◌, refl, true, false, some, none, [], ◌∷◌}
use system_dashnote.Prelude.Text.{Text, codes, str}
use system_dashnote.Prelude.Exec.{ok, err, http, ◌>>◌}
use system_dashnote.Auth.Models.{RequestContext}
use system_dashnote.Retrieval.Search.{Point, SourceType}
use system_dashnote.Retrieval.Memory.{client}
use system_dashnote.Threads.Models.{World, AiThread, Role}
use system_dashnote.Threads.Memory.{services}
use system_dashnote.Threads.Memory
use system_dashnote.Database.Keyed
use system_dashnote.Threads.Repository
use system_dashnote.Threads.History
use system_dashnote.Threads.Router
use system_dashnote.Rag.Service.{Rag, Citation, Asker, ChatResult, answer}
use system_dashnote.Threads.Service.{load_history_as_messages, persist_turn}
use system_dashnote.Threads.Repository.{messages_of}
use system_dashnote.Prelude.Text.{read_decimal}
use system_dashnote.Rag.Calls.{ask, rename, perform_all}
use system_dashnote.Rag.Grounding
use system_dashnote.Rag.Transcript
use system_dashnote.Rag.Deleted

abbrev point : Text → ℕ → ℕ → Text → Point
point id workspace author visibility = record {
  id = id;
  score = 9000;
  payload = record {
    workspace_id = str workspace;
    visibility = visibility;
    created_by = str author;
  };
  is_private = false;
  text = codes "text";
  chunk_text = [];
  title = codes "title";
  note_id = codes "4";
  file_id = [];
  chunk_index = 0;
}

-- The second point is another member's private note, the third is of another workspace.
abbrev rag : Rag
rag = record {
  threads = services Citation 2;
  client =
      client
        (point (codes "a") 10 3 (codes "public")
          ∷ point (codes "b") 10 3 (codes "private")
          ∷ point (codes "c") 11 3 (codes "public")
          ∷ [])
        [];
  complete = λ messages. ok (codes "raw");
  complete_stream = λ messages. ok (codes "yes" ∷ [], none);
  validate_answer = λ raw. some record {
    answer = codes "yes";
    cited_chunk_ids = codes "b" ∷ codes "a" ∷ codes "made up" ∷ [];
  };
  generate_thread_title = λ question text. question;
  model_dump = λ c. c;
  role_name = λ role. elim role [
    | Role.user ↦ codes "user"
    | Role.assistant ↦ codes "assistant"
    | Role.tool ↦ codes "tool"
  ];
  history_budget = λ n. n;
  token_budget = 1000;
}

abbrev asker : Asker
asker = record { workspace_id = 10; user_id = 7; role = "member"; has_db = true }

abbrev thread : ℕ → AiThread
thread id = record {
  id = id;
  workspace_id = 10;
  created_by = 7;
  title = none;
  is_active = true;
  created_at = 0;
  updated_at = 0;
}

abbrev start : World rag.threads
start = record { threads = thread 4 ∷ []; messages = record { rows = []; next_id = 1 }; now = 1 }

abbrev reader : RequestContext
reader = record { user_id = 8; workspace_id = 10; role = "member" }

abbrev expected : ChatResult
expected = record {
  answer = codes "yes";
  citations =
      (record {
        note_id = codes "4";
        chunk_id = codes "a";
        title = codes "title";
        source_type = SourceType.note;
        file_id = [];
      })
      ∷ [];
  chunks_retrieved = 1;
  chunks_used = 1;
  thread_id = some (codes "u4");
}

abbrev after : World rag.threads
after = (answer rag asker (codes "why?") 8 (some (codes "u4")) start).1

answer-IsRecorded_example :
    Transcript.IsRecorded rag asker refl
      (codes "why?")
      start
      (answer rag asker (codes "why?") 8 (some (codes "u4")) start)
answer-IsRecorded_example =
    Transcript.answer-IsRecorded rag asker refl (codes "why?") 8 (some (codes "u4")) start

-- The thread of the tests has as many messages as the history is cut to.
load_history-persist_turn_example :
    let w = start in
    let turn = persist_turn rag.threads (codes "u4") (codes "q") (codes "a") [] none in
    let loaded = (turn >> load_history_as_messages rag.threads (codes "u4") 10) w in
    loaded.0 ≡ ok ((Role.user, codes "q") ∷ (Role.assistant, codes "a") ∷ [])
unfolding Memory.by_age messages_of read_decimal
load_history-persist_turn_example =
    History.load_history-persist_turn rag.threads (codes "u4") 4 refl 10 Memory.by_age-append
      (thread 4) (codes "q") (codes "a") [] none start tt refl

abbrev deleted : World rag.threads
deleted = (Router.delete_thread rag.threads (codes "u4") reader start).1

deleted_runs : Router.delete_thread rag.threads (codes "u4") reader start ≡ (ok tt, deleted)
unfolding Router.delete_thread Repository.delete_thread read_decimal
deleted_runs = refl

deleted_stays_deleted_example :
    let later =
      perform_all rag
        (ask asker (codes "why?") 8 (some (codes "u4"))
          ∷ rename (codes "u4") (codes "t") reader
          ∷ [])
        deleted in
    Router.get_thread_messages rag.threads (codes "u4") reader later
    ≡ (err (http 404 "Thread not found."), later)
deleted_stays_deleted_example =
    Deleted.deleted_stays_deleted rag (Keyed.next_id-fresh (λ t. t.id)) (codes "u4") reader reader
      (ask asker (codes "why?") 8 (some (codes "u4")) ∷ rename (codes "u4") (codes "t") reader ∷ [])
      start deleted refl deleted_runs
