-- ===== src/Threads/Service.antt =====
-- ai/memory/service.py: ThreadService.
use system_dashnote.Prelude.{
  ℕ, Bool, true, false, not, ◌||◌, Option, none, some, List, [], ◌∷◌, map, take, if◌then◌else◌,
}
use system_dashnote.Prelude.Text.{Text}
use system_dashnote.Prelude.Exec.{Exec, Exn, pure, raise, ◌>>=◌, ◌>>◌}
use system_dashnote.Threads.Models.{Services, World, AiThread, AiMessage, Role}
use system_dashnote.Threads.Repository.{
  create_thread, get_thread, update_thread_title, get_recent_messages, save_message,
}

-- `bool(s)` of a str
abbrev pub truthy : Text → Bool
truthy [] = false
truthy (c ∷ s) = true

module _ (v : Services) where
  abbrev pub owned : Option AiThread → Exec (World v) (AiThread × Bool)
  owned none = raise Exn.value_error
  owned (some thread) = pure (thread, false)

  abbrev pub create_new : ℕ → ℕ → Exec (World v) (AiThread × Bool)
  create_new workspace_id user_id = do
    thread ← create_thread v workspace_id user_id none
    pure (thread, true)

  abbrev pub get_existing : Text → ℕ → Exec (World v) (AiThread × Bool)
  get_existing thread_id workspace_id = do
    thread ← get_thread v thread_id workspace_id
    owned thread

  -- The thread, and whether this request created it.
  unfoldable pub get_or_create_thread : Option Text → ℕ → ℕ → Exec (World v) (AiThread × Bool)
  get_or_create_thread none workspace_id user_id = create_new workspace_id user_id
  get_or_create_thread (some thread_id) workspace_id user_id =
      if truthy thread_id
      then get_existing thread_id workspace_id
      else create_new workspace_id user_id

  unfoldable pub set_title_for_new_thread : Text → ℕ → Text → Bool → Exec (World v) Bool
  set_title_for_new_thread thread_id workspace_id title created_this_request =
      let cleaned = v.strip title in
      if not created_this_request || not (truthy cleaned)
      then pure false
      else update_thread_title v thread_id workspace_id (take 255 cleaned)

  unfoldable pub rename_thread : Text → ℕ → Text → Exec (World v) Bool
  rename_thread thread_id workspace_id title =
      let cleaned = v.strip title in
      if not (truthy cleaned)
      then pure false
      else update_thread_title v thread_id workspace_id (take 255 cleaned)

  -- `{"role": msg.role, "content": msg.content}`
  abbrev pub history_message : AiMessage v.Citation → Role × Text
  history_message m = (m.role, m.content)

  unfoldable pub load_history_as_messages : Text → ℕ → Exec (World v) (List (Role × Text))
  load_history_as_messages thread_id workspace_id = do
    messages ← get_recent_messages v thread_id workspace_id v.ai_thread_message_limit
    pure (map history_message messages)

  unfoldable pub persist_turn :
      Text → Text → Text → List v.Citation → Option ℕ → Exec (World v) Unit
  persist_turn thread_id user_question assistant_answer citations token_count = do
    save_message v thread_id Role.user user_question [] none
    save_message v thread_id Role.assistant assistant_answer citations token_count
