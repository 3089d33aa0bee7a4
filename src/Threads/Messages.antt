-- ===== src/Threads/Messages.antt =====
-- Which operations on threads leave the messages as they are.
use system_dashnote.Prelude.{
  ℕ, ◌≡◌, refl, Bool, not, ◌||◌, take, Option, some, Bool-cases, inl, inr,
}
use system_dashnote.Prelude.Text.{Text}
use system_dashnote.Prelude.Exec.{Exec, Exn, Result, Keeps, >>=-Keeps, or_raise-Keeps}
use system_dashnote.Threads.Models.{Services, World}
use system_dashnote.Threads.Repository.{read_uuid, create_thread, update_thread_title}
use system_dashnote.Threads.Stable.{get_or_create_thread-Keeps}
use system_dashnote.Threads.Service.{get_or_create_thread, set_title_for_new_thread, truthy}

module _ (v : Services) (stored : v.messages.State) where
  -- The messages are the stored ones.
  abbrev pub HasMessages : World v → Type 0
  HasMessages w = w.messages ≡ stored

  update_thread_title-HasMessages :
      (thread_id : Text) (workspace_id : ℕ) (title : Text)
      → Keeps HasMessages (update_thread_title v thread_id workspace_id title)
  unfolding update_thread_title
  update_thread_title-HasMessages thread_id workspace_id title =
      >>=-Keeps HasMessages (read_uuid v thread_id) _
        (or_raise-Keeps HasMessages (v.uuid thread_id) Exn.value_error) (λ id w h. h)

  create_thread-HasMessages :
      (workspace_id user_id : ℕ) (title : Option Text)
      → Keeps HasMessages (create_thread v workspace_id user_id title)
  unfolding create_thread
  create_thread-HasMessages workspace_id user_id title w h = h

  pub get_or_create_thread-HasMessages :
      (thread_id : Option Text) (workspace_id user_id : ℕ)
      → Keeps HasMessages (get_or_create_thread v thread_id workspace_id user_id)
  get_or_create_thread-HasMessages =
      get_or_create_thread-Keeps v HasMessages create_thread-HasMessages
        update_thread_title-HasMessages

module _ (v : Services) (thread_id : Text) (id : ℕ) (known : v.uuid thread_id ≡ some id) where
  -- What a call returns, and that it leaves the messages.
  abbrev pub Returns : {A : Type 0} → Exec (World v) A → World v → Type 0
  Returns {A = A} m w =
      (x : A) × (u : World v) × (m w ≡ (Result.ok x, u)) × (u.messages ≡ w.messages)

  update_thread_title-Returns :
      (workspace_id : ℕ) (title : Text) (w : World v)
      → Returns (update_thread_title v thread_id workspace_id title) w
  unfolding update_thread_title
  update_thread_title-Returns workspace_id title w = rw known (_, _, refl, refl)

  pub set_title_for_new_thread-Returns :
      (workspace_id : ℕ) (title : Text) (created : Bool) (w : World v)
      → Returns (set_title_for_new_thread v thread_id workspace_id title created) w
  unfolding set_title_for_new_thread
  set_title_for_new_thread-Returns workspace_id title created w =
      elim (Bool-cases (not created || not (truthy (v.strip title)))) [
        | inl e ↦ rw e (_, _, refl, refl)
        | inr e ↦ rw e (update_thread_title-Returns workspace_id (take 255 (v.strip title)) w)
      ]
