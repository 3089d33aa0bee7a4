-- ===== src/Threads/Repository.antt =====
-- ai_memory/repository.py: ThreadRepository. Each statement that writes is a transaction of its
-- own, after which the clock is later.
use system_dashnote.Prelude.{
  ℕ, ◌+◌, Bool, true, false, ◌&&◌, Option, none, some, List, [], ◌∷◌, ◌==◌, take,
}
use system_dashnote.Prelude.Text.{Text}
use system_dashnote.Prelude.Exec.{Exec, Result, Exn, pure, gets, modify, or_raise, ◌>>=◌, ◌>>◌}
use system_dashnote.Database.{one_or_none}
use system_dashnote.Threads.Models.{Services, World, AiThread, AiMessage, Role}

-- the conditions of the statements
abbrev pub in_workspace : ℕ → ℕ → AiThread → Bool
in_workspace id workspace_id t = t.id == id && t.workspace_id == workspace_id

abbrev pub active_in_workspace : ℕ → ℕ → AiThread → Bool
active_in_workspace id workspace_id t =
    t.id == id && (t.workspace_id == workspace_id && t.is_active)

module _ (v : Services) where
  unfoldable pub create_thread : ℕ → ℕ → Option Text → Exec (World v) AiThread
  create_thread workspace_id user_id title w =
      let thread : AiThread = record {
        id = v.threads.next_id w.threads;
        workspace_id = workspace_id;
        created_by = user_id;
        title = title;
        is_active = true;
        created_at = w.now;
        updated_at = w.now;
      } in
      (Result.ok thread, record w { threads = v.threads.insert thread w.threads; now = w.now + 1 })

  -- `uuid.UUID(thread_id)`
  abbrev pub read_uuid : Text → Exec (World v) ℕ
  read_uuid thread_id = or_raise (v.uuid thread_id) Exn.value_error

  unfoldable pub get_thread : Text → ℕ → Exec (World v) (Option AiThread)
  get_thread thread_id workspace_id = do
    id ← read_uuid thread_id
    λ w. (one_or_none (v.threads.fetch (active_in_workspace id workspace_id) w.threads), w)

  unfoldable pub list_threads : ℕ → ℕ → ℕ → World v → List AiThread
  list_threads workspace_id user_id limit w = take limit (
      v.latest_first (
        v.threads.fetch
          (λ t. t.workspace_id == workspace_id && (t.created_by == user_id && t.is_active))
          w.threads))

  -- SELECT of a thread's messages, in the order of their creation
  unfoldable pub messages_of : ℕ → World v → List (AiMessage v.Citation)
  messages_of id w = v.oldest_first (v.messages.fetch (λ m. m.thread_id == id) w.messages)

  abbrev pub limited : Text → ℕ → Option AiThread → Exec (World v) (List (AiMessage v.Citation))
  limited thread_id limit none = pure []
  limited thread_id limit (some thread) = do
    id ← read_uuid thread_id
    gets (λ w. take limit (messages_of id w))

  unfoldable pub get_recent_messages : Text → ℕ → ℕ → Exec (World v) (List (AiMessage v.Citation))
  get_recent_messages thread_id workspace_id limit = do
    thread ← get_thread thread_id workspace_id
    limited thread_id limit thread

  abbrev pub insert_message : ℕ → Role → Text → List v.Citation → Option ℕ → World v → World v
  insert_message id role content citations token_count w = record w {
    messages =
        v.messages.insert
          record {
            id = v.messages.next_id w.messages;
            thread_id = id;
            role = role;
            content = content;
            citations = citations;
            token_count = token_count;
            created_at = w.now;
          }
          w.messages;
    now = w.now + 1;
  }

  unfoldable pub save_message :
      Text → Role → Text → List v.Citation → Option ℕ → Exec (World v) Unit
  save_message thread_id role content citations token_count = do
    id ← read_uuid thread_id
    modify (insert_message id role content citations token_count)

  -- `result.rowcount > 0` of an UPDATE
  abbrev pub any_row : List AiThread → Bool
  any_row [] = false
  any_row (t ∷ ts) = true

  abbrev pub update_where : (AiThread → Bool) → (ℕ → AiThread → AiThread) → Exec (World v) Bool
  update_where p f = do
    rows ← gets (λ w. v.threads.fetch p w.threads)
    modify (λ w. record w { threads = v.threads.update p (f w.now) w.threads; now = w.now + 1 })
    pure (any_row rows)

  abbrev pub set_title : Text → ℕ → AiThread → AiThread
  set_title title now t = record t { title = some title; updated_at = now }

  abbrev pub deactivate : ℕ → AiThread → AiThread
  deactivate now t = record t { is_active = false; updated_at = now }

  unfoldable pub update_thread_title : Text → ℕ → Text → Exec (World v) Bool
  update_thread_title thread_id workspace_id title = do
    id ← read_uuid thread_id
    update_where (in_workspace id workspace_id) (set_title title)

  unfoldable pub delete_thread : Text → ℕ → Exec (World v) Bool
  delete_thread thread_id workspace_id = do
    id ← read_uuid thread_id
    update_where (active_in_workspace id workspace_id) deactivate
