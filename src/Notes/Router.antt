-- ===== src/Notes/Router.antt =====
-- notes/router.py: the handlers of /notes. Jobs are handed to the queue when AI is enabled; a
-- queue that fails is logged and changes nothing for the request.
use system_dashnote.Prelude.{
  ℕ, ◌≡◌, Bool, not, Option, none, some, List, [], ◌∷◌, ◌++◌, map, if◌then◌else◌,
}
use system_dashnote.Prelude.Text.{Text, codes, str}
use system_dashnote.Prelude.Exec.{
  Exec, http, Result, ok, err, pure, gets, modify, raise_if, ◌>>=◌, ◌>>◌,
}
use system_dashnote.Redis.{Redis}
use system_dashnote.Database.{Table}
use system_dashnote.Auth.Models.{RequestContext}
use system_dashnote.Notes.Models.{Note, NoteCreate, NoteUpdate, NoteRead, read_of}
use system_dashnote.Notes.Permissions.{
  is_staff, can_manage_note, can_view_note, can_view_note_fields,
}
use system_dashnote.Notes.Repository
use system_dashnote.Notes.Cache.{
  read_generation, bump_generation, get_json, set_json, key_notes_list, key_note_detail,
}

-- What is handed to the queue.
pub data Job : Type 0 where
  embed_upsert :
      (note_id workspace_id created_by : Text) (is_private : Bool) (title content : Text) → Job
  embed_delete : (note_id workspace_id created_by : Text) → Job
  note_created :
      (workspace_id note_id created_by : Text) (is_private : Bool) (title content : Text) → Job

-- The parameters of the handlers: Redis, the table, Python's json and two settings.
pub record Services : Type 1 where
  pub c : Redis
  pub t : Table Note
  pub dumps_list : List NoteRead → Text
  pub loads_list : Text → Option (List NoteRead)
  pub dumps_note : NoteRead → Text
  pub loads_note : Text → Option NoteRead
  pub default_ttl_seconds : ℕ
  pub ai_enabled : Bool
  -- `not content.strip()`
  pub is_blank : Text → Bool
  pub loads-dumps_list : (v : List NoteRead) → loads_list (dumps_list v) ≡ some v
  pub loads-dumps_note : (v : NoteRead) → loads_note (dumps_note v) ≡ some v

module _ (v : Services) where
  pub record World : Type 0 where
    pub notes : v.t.State
    pub redis : Option v.c.Store
    pub jobs : List Job

  abbrev with_job : Job → List Job → List Job
  with_job job jobs = if v.ai_enabled then jobs ++ job ∷ [] else jobs

  abbrev enqueue : Job → Exec World Unit
  enqueue job = modify (λ w. record w { jobs = with_job job w.jobs })

  -- an IndexingRequest to embed a note: with a blank content it does not validate, which is logged
  abbrev enqueue_upsert : Note → RequestContext → Text → Exec World Unit
  enqueue_upsert note ctx content =
      let job =
        embed_upsert (str note.id) (str ctx.workspace_id) (str ctx.user_id) note.is_private
          note.title content in
      modify (λ w. record w { jobs = if v.is_blank content then w.jobs else with_job job w.jobs })

  abbrev bump : RequestContext → Exec World Unit
  bump ctx = modify (λ w. record w { redis = bump_generation v.c (codes "notes") ctx w.redis })

  -- the loader of `list_notes`
  unfoldable pub load_notes : RequestContext → v.t.State → List NoteRead
  load_notes ctx s = map read_of (
      if is_staff ctx
      then Repository.list_all v.t ctx.workspace_id s
      else Repository.list_visible_for_member v.t ctx.workspace_id ctx.user_id s)

  -- `cache.aside_json(key, load)` for the lists
  abbrev pub aside : RequestContext → Text → Option (List NoteRead) → Exec World (List NoteRead)
  aside ctx key (some cached) w = (ok cached, w)
  aside ctx key none w =
      let value = load_notes ctx w.notes in
      (
        ok value,
        record w {
          redis = set_json v.c v.dumps_list v.loads_list v.default_ttl_seconds key value w.redis;
        },
      )

  unfoldable pub list_notes : RequestContext → Exec World (List NoteRead)
  list_notes ctx = do
    gen ← gets (λ w. read_generation v.c (codes "notes") ctx w.redis)
    cached ← gets (λ w. get_json v.c v.dumps_list v.loads_list (key_notes_list ctx gen) w.redis)
    aside ctx (key_notes_list ctx gen) cached

  -- `if not note: raise HTTPException(404)`
  abbrev pub or_404 : Result (Option Note) → Result Note
  or_404 (err e) = err e
  or_404 (ok none) = err (http 404 "Note not found")
  or_404 (ok (some note)) = ok note

  abbrev pub found : RequestContext → ℕ → Exec World Note
  found ctx note_id w = (or_404 (Repository.get v.t ctx.workspace_id note_id w.notes), w)

  unfoldable pub create_note : RequestContext → NoteCreate → Exec World NoteRead
  create_note ctx data_ = do
    note ← λ w.
        let (note, notes) =
          Repository.create v.t ctx.workspace_id ctx.user_id data_.title data_.content
            data_.is_private w.notes in
        (ok note, record w { notes = notes })
    bump ctx
    enqueue_upsert note ctx data_.content
    enqueue (
        note_created (str ctx.workspace_id) (str note.id) (str ctx.user_id) note.is_private
          note.title data_.content)
    pure (read_of note)

  -- the read behind the cache
  abbrev pub read_through : RequestContext → Text → ℕ → Exec World NoteRead
  read_through ctx key note_id = do
    note ← found ctx note_id
    raise_if (not (can_view_note ctx note)) (http 403 "Insufficient permissions")
    modify (λ w. record w {
      redis =
          set_json v.c v.dumps_note v.loads_note v.default_ttl_seconds key (read_of note) w.redis;
    })
    pure (read_of note)

  abbrev pub after_lookup : RequestContext → Text → ℕ → Option NoteRead → Exec World NoteRead
  after_lookup ctx key note_id none = read_through ctx key note_id
  after_lookup ctx key note_id (some cached) =
      if can_view_note_fields ctx cached.is_private cached.created_by
      then pure cached
      else read_through ctx key note_id

  unfoldable pub get_note : RequestContext → ℕ → Exec World NoteRead
  get_note ctx note_id = do
    gen ← gets (λ w. read_generation v.c (codes "notes") ctx w.redis)
    cached ←
        gets (λ w. get_json v.c v.dumps_note v.loads_note (key_note_detail ctx gen note_id) w.redis)
    after_lookup ctx (key_note_detail ctx gen note_id) note_id cached

  abbrev or_old {ℓ} : {A : Type ℓ} → Option A → A → A
  or_old none old = old
  or_old (some new) old = new

  abbrev pub edited : NoteUpdate → Note → Note
  edited data_ note = record note {
    title = or_old data_.title note.title;
    content = or_old data_.content note.content;
    is_private = or_old data_.is_private note.is_private;
  }

  unfoldable pub update_note : RequestContext → ℕ → NoteUpdate → Exec World NoteRead
  update_note ctx note_id data_ = do
    note ← found ctx note_id
    raise_if (not (can_manage_note ctx note)) (http 403 "Insufficient permissions")
    let saved = edited data_ note
    modify (λ w. record w { notes = Repository.save v.t ctx.workspace_id saved w.notes })
    bump ctx
    enqueue_upsert saved ctx saved.content
    pure (read_of saved)

  unfoldable pub delete_note : RequestContext → ℕ → Exec World Unit
  delete_note ctx note_id = do
    note ← found ctx note_id
    raise_if (not (can_manage_note ctx note)) (http 403 "Insufficient permissions")
    modify (λ w. record w { notes = Repository.delete v.t ctx.workspace_id note w.notes })
    bump ctx
    enqueue (embed_delete (str note_id) (str ctx.workspace_id) (str ctx.user_id))
    pure tt
