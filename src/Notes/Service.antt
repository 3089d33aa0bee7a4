-- ===== src/Notes/Service.antt =====
-- notes/service.py: NoteService, through which the agent's tools write notes. `int` is Python's,
-- on the ids that come as strings; a failure is logged and raised again.
use system_dashnote.Prelude.{ℕ, Bool, Option, none, some}
use system_dashnote.Prelude.Text.{Text, str}
use system_dashnote.Prelude.Exec.{Exec, value_error, ok, pure, raise, or_raise, modify, ◌>>=◌, ◌>>◌}
use system_dashnote.Notes.Models.{Note}
use system_dashnote.Notes.Repository
use system_dashnote.Notes.Router.{Services, World}

pub record Written : Type 0 where
  pub note_id : Text
  pub title : Text

module _ (v : Services) (int : Text → Option ℕ) where
  unfoldable pub create_note : Text → Text → Text → Text → Bool → Exec (World v) Written
  create_note title content workspace_id created_by is_private = do
    workspace ← or_raise (int workspace_id) value_error
    author ← or_raise (int created_by) value_error
    note ← λ w.
        let (note, notes) =
          Repository.create v.t workspace author title content is_private w.notes in
        (ok note, record w { notes = notes })
    pure (record { note_id = str note.id; title = note.title })

  abbrev or_value_error : Option Note → Exec (World v) Note
  or_value_error none = raise value_error
  or_value_error (some note) = pure note

  unfoldable pub update_note : Text → Text → Text → Exec (World v) Written
  update_note note_id content workspace_id = do
    workspace ← or_raise (int workspace_id) value_error
    id ← or_raise (int note_id) value_error
    found ← λ w. (Repository.get v.t workspace id w.notes, w)
    note ← or_value_error found
    let saved : Note = record note { content = content }
    modify (λ w. record w { notes = Repository.save v.t workspace saved w.notes })
    pure (record { note_id = str saved.id; title = saved.title })
