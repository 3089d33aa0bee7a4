-- ===== src/Notes/Stale.antt =====
-- What readers see after the agent wrote through NoteService.
use system_dashnote.Prelude.{ℕ, ◌≡◌, refl, Bool, Option, some, List, Option-cases, inl, inr}
use system_dashnote.Prelude.Text.{Text, codes}
use system_dashnote.Prelude.Exec.{ok}
use system_dashnote.Auth.Models.{RequestContext}
use system_dashnote.Notes.Models.{NoteRead}
use system_dashnote.Notes.Repository
use system_dashnote.Notes.Cache.{read_generation, get_json, key_notes_list}
use system_dashnote.Notes.Router.{Services, World, list_notes}
use system_dashnote.Notes.Service

module _ (v : Services) (int : Text → Option ℕ) where
  create-redis :
      (title content workspace_id created_by : Text) (is_private : Bool) (w : World v)
      → (Service.create_note v int title content workspace_id created_by is_private w).1.redis
        ≡ w.redis
  unfolding Service.create_note Repository.create
  create-redis title content workspace_id created_by is_private w =
      elim (Option-cases (int workspace_id)) [
        | inl bad ↦ rw bad refl
        | inr (workspace, good) ↦ rw good (elim (Option-cases (int created_by)) [
          | inl bad ↦ rw bad refl
          | inr (author, good') ↦ rw good' refl
        ])
      ]

  -- The list that a reader has in the cache, under the current generation.
  abbrev pub cached_list : RequestContext → World v → Option (List NoteRead)
  cached_list reader w =
      get_json v.c v.dumps_list v.loads_list
        (key_notes_list reader (read_generation v.c (codes "notes") reader w.redis)) w.redis

  list_notes-cached :
      (reader : RequestContext) (w w' : World v) (old : List NoteRead)
      → w'.redis ≡ w.redis
      → cached_list reader w ≡ some old
      → (list_notes v reader w').0 ≡ ok old
  unfolding list_notes
  list_notes-cached reader w w' old same cached = rw (same, cached) refl

  -- After NoteService.create_note, whatever it does, a reader whose list was in the cache is
  -- answered with that old list: the service does not begin a new generation.
  pub list_stale_after_service_create :
      (reader : RequestContext) (title content workspace_id created_by : Text) (is_private : Bool)
      (w : World v) (old : List NoteRead)
      → cached_list reader w ≡ some old
      → (list_notes v reader
          (Service.create_note v int title content workspace_id created_by is_private w).1).0
        ≡ ok old
  list_stale_after_service_create reader title content workspace_id created_by is_private w old h =
      list_notes-cached reader w _ old
        (create-redis title content workspace_id created_by is_private w) h
