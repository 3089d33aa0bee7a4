-- ===== src/Rag/Deleted.antt =====
-- A thread that was deleted.
use system_dashnote.Prelude.{
  ℕ, ◌≡◌, ◌≢◌, refl, sym, ap, ◌∙◌, Bool, true, false, not, ◌||◌, Option, none, some, List, [], ◌∷◌,
  ◌++◌, map, select, any_of, ◌==◌, All, All-append, All-map, All-weaken, Bool-cases, Option-cases,
  inl, inr, arith, if◌then◌else◌,
}
use system_dashnote.Prelude.Text.{Text}
use system_dashnote.Prelude.Exec.{
  Exn, http, ok, err, Keeps, >>=-Keeps, or_raise-Keeps, >>=-ok, raise_if-ok,
}
use system_dashnote.Auth.Models.{RequestContext}
use system_dashnote.Threads.Models.{World, AiThread, Role}
use system_dashnote.Threads.Repository.{
  active_in_workspace, in_workspace, read_uuid, any_row, set_title, deactivate, create_thread,
  update_thread_title, delete_thread, save_message, get_thread, get_recent_messages,
}
use system_dashnote.Threads.History.{get_thread_lem}
use system_dashnote.Threads.Router
use system_dashnote.Rag.Service.{Rag}
use system_dashnote.Rag.Calls.{Call, perform_all, IsStable, perform_all-Keeps}

abbrev has_id : ℕ → AiThread → Bool
has_id id t = t.id == id

-- A row of the id is in use; those of the workspace are inactive.
abbrev IsGone : ℕ → ℕ → List AiThread → Type 0
IsGone id workspace_id ts =
    (any_of (has_id id) ts ≡ true) × All (λ t. active_in_workspace id workspace_id t ≡ false) ts

any_of-append :
    (p : AiThread → Bool) (xs ys : List AiThread)
    → any_of p (xs ++ ys) ≡ (any_of p xs || any_of p ys)
any_of-append p [] ys = refl
any_of-append p (x ∷ xs) ys = ground (arith, any_of-append p xs ys)

-- An update that keeps the keys and activates nothing.
module _ (id workspace_id : ℕ) (f : AiThread → AiThread)
    (same : (t : AiThread) → has_id id (f t) ≡ has_id id t)
    (no_more : (t : AiThread)
      → active_in_workspace id workspace_id t ≡ false
      → active_in_workspace id workspace_id (f t) ≡ false) where
  map-IsGone : (ts : List AiThread) → IsGone id workspace_id ts → IsGone id workspace_id (map f ts)
  map-IsGone ts (row, inactive) =
      (rw (any_of-map ts) row, All-map _ f ts (All-weaken _ no_more ts inactive))
    where
      any_of-map : (xs : List AiThread) → any_of (has_id id) (map f xs) ≡ any_of (has_id id) xs
      any_of-map [] = refl
      any_of-map (x ∷ xs) = rw (same x, any_of-map xs) refl

other_id :
    (id n : ℕ) (ts : List AiThread) → any_of (has_id id) ts ≡ true → All (λ t. t.id ≢ n) ts → n ≢ id
other_id id n [] h k = absurd (ground arith)
other_id id n (t ∷ ts) h k = elim (Bool-cases (t.id == id)) [
  | inl e ↦ λ same. k.0 (ground arith)
  | inr e ↦ other_id id n ts (ground arith) k.1
]

module _ (r : Rag)
    (fresh : (s : r.threads.threads.State)
      → All (λ t. t.id ≢ r.threads.threads.next_id s) (r.threads.threads.rows s))
    (id workspace_id : ℕ) where
  abbrev P : World r.threads → Type 0
  P w = IsGone id workspace_id (r.threads.threads.rows w.threads)

  create_thread-IsGone :
      (workspace user : ℕ) (title : Option Text)
      → Keeps P (create_thread r.threads workspace user title)
  unfolding create_thread
  create_thread-IsGone workspace user title w (row, inactive) =
      let ts = r.threads.threads.rows w.threads in
      let other = other_id id (r.threads.threads.next_id w.threads) ts row (fresh w.threads) in
      rw (r.threads.threads.insert_lem)
        (rw (any_of-append (has_id id) ts, row) refl, All-append _ ts _ inactive (ground arith, tt))

  -- UPDATE … WHERE, with columns that stay as they are or become inactive
  update-IsGone :
      (p : AiThread → Bool) (f : AiThread → AiThread)
      → ((t : AiThread) → has_id id (f t) ≡ has_id id t)
      → ((t : AiThread)
          → active_in_workspace id workspace_id t ≡ false
          → active_in_workspace id workspace_id (f t) ≡ false)
      → (s : r.threads.threads.State) → IsGone id workspace_id (r.threads.threads.rows s)
      → IsGone id workspace_id (r.threads.threads.rows (r.threads.threads.update p f s))
  update-IsGone p f same no_more s gone = rw (r.threads.threads.update_lem) (
      map-IsGone id workspace_id (λ t. if p t then f t else t)
        (λ t. elim (Bool-cases (p t)) [ inl e ↦ rw e (same t) | inr e ↦ rw e refl ])
        (λ t h. elim (Bool-cases (p t)) [ inl e ↦ rw e (no_more t h) | inr e ↦ rw e h ])
        (r.threads.threads.rows s) gone)

  update_thread_title-IsGone :
      (thread_id : Text) (workspace : ℕ) (title : Text)
      → Keeps P (update_thread_title r.threads thread_id workspace title)
  unfolding update_thread_title
  update_thread_title-IsGone thread_id workspace title =
      >>=-Keeps P (read_uuid r.threads thread_id) _
        (or_raise-Keeps P (r.threads.uuid thread_id) Exn.value_error)
        (λ i w h.
          update-IsGone (in_workspace i workspace) (set_title r.threads title w.now) (λ t. refl)
            (λ t e. e) w.threads h)

  delete_thread-IsGone :
      (thread_id : Text) (workspace : ℕ) → Keeps P (delete_thread r.threads thread_id workspace)
  unfolding delete_thread
  delete_thread-IsGone thread_id workspace =
      >>=-Keeps P (read_uuid r.threads thread_id) _
        (or_raise-Keeps P (r.threads.uuid thread_id) Exn.value_error)
        (λ i w h.
          update-IsGone (active_in_workspace i workspace) (deactivate r.threads w.now) (λ t. refl)
            (λ t e. ground arith) w.threads h)

  save_message-IsGone :
      (thread_id : Text) (role : Role) (content : Text) (citations : List r.threads.Citation)
      (token_count : Option ℕ)
      → Keeps P (save_message r.threads thread_id role content citations token_count)
  unfolding save_message
  save_message-IsGone thread_id role content citations token_count =
      >>=-Keeps P (read_uuid r.threads thread_id) _
        (or_raise-Keeps P (r.threads.uuid thread_id) Exn.value_error) (λ i w h. h)

  IsGone-IsStable : IsStable r P
  IsGone-IsStable = record {
    created = create_thread-IsGone;
    retitled = update_thread_title-IsGone;
    deleted = delete_thread-IsGone;
    saved = save_message-IsGone;
  }

  select-none :
      (p : AiThread → Bool) (ts : List AiThread) → All (λ t. p t ≡ false) ts → select p ts ≡ []
  select-none p [] h = refl
  select-none p (t ∷ ts) h = rw h.0 (select-none p ts h.1)

  get_thread-none :
      (thread_id : Text) (w : World r.threads)
      → r.threads.uuid thread_id ≡ some id
      → P w
      → get_thread r.threads thread_id workspace_id w ≡ (ok none, w)
  get_thread-none thread_id w known h =
      rw
        (
          get_thread_lem r.threads thread_id id known workspace_id,
          r.threads.threads.fetch_lem,
          select-none (active_in_workspace id workspace_id) _ h.1,
        )
        refl

  -- a deletion that found a row
  select-row :
      (ts : List AiThread)
      → any_row r.threads (select (active_in_workspace id workspace_id) ts) ≡ true
      → any_of (has_id id) ts ≡ true
  select-row [] = λ h. absurd (ground arith)
  select-row (t ∷ ts) = elim (Bool-cases (active_in_workspace id workspace_id t)) [
    | inl e ↦ λ h. ground arith
    | inr e ↦ rw e (λ h. ground (arith, select-row ts h))
  ]

  deactivated :
      (now : ℕ) (ts : List AiThread)
      → All
          (λ t. active_in_workspace id workspace_id t ≡ false)
          (map
            (λ t. if active_in_workspace id workspace_id t then deactivate r.threads now t else t)
            ts)
  deactivated now [] = tt
  deactivated now (t ∷ ts) = (
    elim (Bool-cases (active_in_workspace id workspace_id t)) [
      | inl e ↦ rw e (ground arith)
      | inr e ↦ rw e e
    ],
    deactivated now ts,
  )

  any_of-deactivated :
      (now : ℕ) (ts : List AiThread)
      → any_of (has_id id) (
          map
            (λ t. if active_in_workspace id workspace_id t then deactivate r.threads now t else t)
            ts)
        ≡ any_of (has_id id) ts
  any_of-deactivated now [] = refl
  any_of-deactivated now (t ∷ ts) = elim (Bool-cases (active_in_workspace id workspace_id t)) [
    | inl e ↦ rw (e, any_of-deactivated now ts) refl
    | inr e ↦ rw (e, any_of-deactivated now ts) refl
  ]

  delete_thread-P :
      (thread_id : Text) (w u : World r.threads)
      → r.threads.uuid thread_id ≡ some id
      → delete_thread r.threads thread_id workspace_id w ≡ (ok true, u)
      → P u
  unfolding delete_thread
  delete_thread-P thread_id w u known = rw known (λ h.
      let p = active_in_workspace id workspace_id in
      let ts = r.threads.threads.rows w.threads in
      let updated : r.threads.threads.rows u.threads
          ≡ map (λ t. if p t then deactivate r.threads w.now t else t) ts =
        ap (λ x. r.threads.threads.rows (x.1.threads)) (sym h)
        ∙ r.threads.threads.update_lem p (deactivate r.threads w.now) w.threads in
      let found : any_row r.threads (select p ts) ≡ true =
        rw (sym (r.threads.threads.fetch_lem p w.threads)) (ground arith) in
      rw updated (rw (any_of-deactivated w.now ts) (select-row ts found), deactivated w.now ts))

  delete_thread-known :
      (thread_id : Text) (deleted : Bool) (w u : World r.threads)
      → delete_thread r.threads thread_id workspace_id w ≡ (ok deleted, u)
      → (i : ℕ) × (r.threads.uuid thread_id ≡ some i)
  unfolding delete_thread
  delete_thread-known thread_id deleted w u = elim (Option-cases (r.threads.uuid thread_id)) [
    | inl e ↦ rw e (λ h. absurd (ground arith))
    | inr known ↦ λ h. known
  ]

  get_thread_messages-none :
      (thread_id : Text) (reader : RequestContext) (w : World r.threads)
      → reader.workspace_id ≡ workspace_id
      → r.threads.uuid thread_id ≡ some id
      → P w
      → Router.get_thread_messages r.threads thread_id reader w
        ≡ (err (http 404 "Thread not found."), w)
  unfolding Router.get_thread_messages get_recent_messages
  get_thread_messages-none thread_id reader w same known gone =
      rw (same, get_thread-none thread_id w known gone, get_thread-none thread_id w known gone) refl

module _ (r : Rag)
    (fresh : (s : r.threads.threads.State)
      → All (λ t. t.id ≢ r.threads.threads.next_id s) (r.threads.threads.rows s)) where
  -- Once a thread was deleted, reading it in its workspace answers 404, whatever calls anyone makes
  -- in between. It is assumed that the database gives a new thread no id that is in use.
  pub deleted_stays_deleted :
      (thread_id : Text) (ctx reader : RequestContext) (calls : List Call) (w u : World r.threads)
      → reader.workspace_id ≡ ctx.workspace_id
      → Router.delete_thread r.threads thread_id ctx w ≡ (ok tt, u)
      → let later = perform_all r calls u in
        Router.get_thread_messages r.threads thread_id reader later
        ≡ (err (http 404 "Thread not found."), later)
  unfolding Router.delete_thread
  deleted_stays_deleted thread_id ctx reader calls w u same h =
      let (deleted, u1, d, h1) = >>=-ok (delete_thread r.threads thread_id ctx.workspace_id) _ h in
      let (id, known) = delete_thread-known r fresh 0 ctx.workspace_id thread_id deleted w u1 d in
      let (passed, same_world) = raise_if-ok (not deleted) (http 404 "Thread not found.") u1 u h1 in
      let row : deleted ≡ true = ground arith in
      let gone =
        delete_thread-P r fresh id ctx.workspace_id thread_id w u known (cc (d, row, same_world)) in
      get_thread_messages-none r fresh id ctx.workspace_id thread_id reader (perform_all r calls u)
        same known
        (perform_all-Keeps r (P r fresh id ctx.workspace_id)
          (IsGone-IsStable r fresh id ctx.workspace_id) calls u gone)
