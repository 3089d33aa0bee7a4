-- ===== src/Threads/Stable.antt =====
-- Properties of the world that the service keeps because the statements that it sends keep them.
use system_dashnote.Prelude.{ℕ, Bool, not, ◌||◌, take, Option, none, some}
use system_dashnote.Prelude.Text.{Text}
use system_dashnote.Prelude.Exec.{Exn, Keeps, >>=-Keeps, if-Keeps, or_raise-Keeps}
use system_dashnote.Threads.Models.{Services, World, AiThread}
use system_dashnote.Threads.Repository.{
  read_uuid, limited, create_thread, get_thread, get_recent_messages, update_thread_title,
}
use system_dashnote.Threads.Service
use system_dashnote.Threads.Service.{
  get_or_create_thread, set_title_for_new_thread, load_history_as_messages, truthy, create_new,
  get_existing, owned,
}

module _ (v : Services) (P : World v → Type 0) where
  pub get_thread-Keeps :
      (thread_id : Text) (workspace_id : ℕ) → Keeps P (get_thread v thread_id workspace_id)
  unfolding get_thread
  get_thread-Keeps thread_id workspace_id =
      >>=-Keeps P (read_uuid v thread_id) _ (or_raise-Keeps P (v.uuid thread_id) Exn.value_error)
        (λ id w h. h)

  pub get_recent_messages-Keeps :
      (thread_id : Text) (workspace_id limit : ℕ)
      → Keeps P (get_recent_messages v thread_id workspace_id limit)
  unfolding get_recent_messages
  get_recent_messages-Keeps thread_id workspace_id limit =
      >>=-Keeps P (get_thread v thread_id workspace_id) _ (get_thread-Keeps thread_id workspace_id)
        go
    where
      go : (thread : Option AiThread) → Keeps P (limited v thread_id limit thread)
      go none = λ w h. h
      go (some thread) =
          >>=-Keeps P (read_uuid v thread_id) _
            (or_raise-Keeps P (v.uuid thread_id) Exn.value_error) (λ id w h. h)

  pub load_history-Keeps :
      (thread_id : Text) (workspace_id : ℕ)
      → Keeps P (load_history_as_messages v thread_id workspace_id)
  unfolding load_history_as_messages
  load_history-Keeps thread_id workspace_id =
      >>=-Keeps P (get_recent_messages v thread_id workspace_id v.ai_thread_message_limit) _
        (get_recent_messages-Keeps thread_id workspace_id v.ai_thread_message_limit)
        (λ messages w h. h)

module _ (v : Services) (P : World v → Type 0)
    (created : (workspace_id user_id : ℕ) (title : Option Text)
      → Keeps P (create_thread v workspace_id user_id title))
    (retitled : (thread_id : Text) (workspace_id : ℕ) (title : Text)
      → Keeps P (update_thread_title v thread_id workspace_id title)) where
  pub set_title_for_new_thread-Keeps :
      (thread_id : Text) (workspace_id : ℕ) (title : Text) (created : Bool)
      → Keeps P (set_title_for_new_thread v thread_id workspace_id title created)
  unfolding set_title_for_new_thread
  set_title_for_new_thread-Keeps thread_id workspace_id title created =
      if-Keeps P (not created || not (truthy (v.strip title))) _ _ (λ w h. h)
        (retitled thread_id workspace_id (take 255 (v.strip title)))

  create_new-Keeps : (workspace_id user_id : ℕ) → Keeps P (create_new v workspace_id user_id)
  create_new-Keeps workspace_id user_id =
      >>=-Keeps P (create_thread v workspace_id user_id none) _ (created workspace_id user_id none)
        (λ thread w h. h)

  get_existing-Keeps :
      (thread_id : Text) (workspace_id : ℕ) → Keeps P (get_existing v thread_id workspace_id)
  get_existing-Keeps thread_id workspace_id =
      >>=-Keeps P (get_thread v thread_id workspace_id) _
        (get_thread-Keeps v P thread_id workspace_id) go
    where
      go : (thread : Option AiThread) → Keeps P (owned v thread)
      go none w h = h
      go (some thread) w h = h

  pub get_or_create_thread-Keeps :
      (thread_id : Option Text) (workspace_id user_id : ℕ)
      → Keeps P (get_or_create_thread v thread_id workspace_id user_id)
  unfolding get_or_create_thread
  get_or_create_thread-Keeps none workspace_id user_id = create_new-Keeps workspace_id user_id
  get_or_create_thread-Keeps (some thread_id) workspace_id user_id =
      if-Keeps P (truthy thread_id) _ _ (get_existing-Keeps thread_id workspace_id)
        (create_new-Keeps workspace_id user_id)

  pub rename_thread-Keeps :
      (thread_id : Text) (workspace_id : ℕ) (title : Text)
      → Keeps P (Service.rename_thread v thread_id workspace_id title)
  unfolding Service.rename_thread
  rename_thread-Keeps thread_id workspace_id title =
      if-Keeps P (not (truthy (v.strip title))) _ _ (λ w h. h)
        (retitled thread_id workspace_id (take 255 (v.strip title)))
