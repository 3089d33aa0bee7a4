-- ===== src/Threads/Router.antt =====
-- ai_routes/threads.py: the handlers of /ai/threads. The body of a rename has passed its schema.
use system_dashnote.Prelude.{ℕ, not, List, [], ◌∷◌, map}
use system_dashnote.Prelude.Text.{Text, str}
use system_dashnote.Prelude.Exec.{Exec, Exn, http, pure, gets, or_raise, raise_if, ◌>>=◌, ◌>>◌}
use system_dashnote.Auth.Models.{RequestContext}
use system_dashnote.Threads.Models.{
  Services, World, AiThread, AiMessage, ThreadResponse, MessageResponse,
}
use system_dashnote.Threads.Repository
use system_dashnote.Threads.Service.{truthy}
use system_dashnote.Threads.Service

module _ (v : Services) where
  abbrev pub thread_response : AiThread → ThreadResponse
  thread_response t = record {
    id = v.uuid_str t.id;
    workspace_id = str t.workspace_id;
    created_by = str t.created_by;
    title = t.title;
    is_active = t.is_active;
    created_at = v.isoformat t.created_at;
    updated_at = v.isoformat t.updated_at;
  }

  abbrev pub message_response : AiMessage v.Citation → MessageResponse v.Citation
  message_response m = record {
    id = v.uuid_str m.id;
    thread_id = v.uuid_str m.thread_id;
    role = m.role;
    content = m.content;
    citations = m.citations;
    token_count = m.token_count;
    created_at = v.isoformat m.created_at;
  }

  unfoldable pub list_threads : RequestContext → Exec (World v) (List ThreadResponse)
  list_threads ctx = do
    threads ← gets (Repository.list_threads v ctx.workspace_id ctx.user_id 50)
    pure (map thread_response threads)

  abbrev pub not_found : Exn
  not_found = http 404 "Thread not found."

  -- `if thread is None: raise`
  abbrev pub get_or_404 : Text → ℕ → Exec (World v) AiThread
  get_or_404 thread_id workspace_id = do
    thread ← Repository.get_thread v thread_id workspace_id
    or_raise thread not_found

  abbrev pub checked :
      Text → ℕ → List (AiMessage v.Citation) → Exec (World v) (List (AiMessage v.Citation))
  checked thread_id workspace_id [] = do thread ← get_or_404 thread_id workspace_id; pure []
  checked thread_id workspace_id (m ∷ ms) = pure (m ∷ ms)

  unfoldable pub get_thread_messages :
      Text → RequestContext → Exec (World v) (List (MessageResponse v.Citation))
  get_thread_messages thread_id ctx = do
    messages ← Repository.get_recent_messages v thread_id ctx.workspace_id 50
    shown ← checked thread_id ctx.workspace_id messages
    pure (map message_response shown)

  unfoldable pub rename_thread : Text → Text → RequestContext → Exec (World v) ThreadResponse
  rename_thread thread_id title ctx = do
    let title = v.strip title
    raise_if (not (truthy title)) (http 422 "Title must not be empty.")
    thread ← get_or_404 thread_id ctx.workspace_id
    renamed ← Service.rename_thread v thread_id ctx.workspace_id title
    raise_if (not renamed) not_found
    refreshed ← get_or_404 thread_id ctx.workspace_id
    pure (thread_response refreshed)

  unfoldable pub delete_thread : Text → RequestContext → Exec (World v) Unit
  delete_thread thread_id ctx = do
    deleted ← Repository.delete_thread v thread_id ctx.workspace_id
    raise_if (not deleted) not_found
