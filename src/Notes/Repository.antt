-- ===== src/Notes/Repository.antt =====
-- notes/repository.py: NoteRepository of one workspace.
use system_dashnote.Prelude.{ℕ, Bool, not, ◌&&◌, ◌||◌, Option, List, ◌==◌}
use system_dashnote.Prelude.Text.{Text}
use system_dashnote.Prelude.Exec.{Result}
use system_dashnote.Database.{Table, one_or_none}
use system_dashnote.Notes.Models.{Note}

module _ (t : Table Note) (workspace_id : ℕ) where
  unfoldable pub list_all : t.State → List Note
  list_all = t.fetch (λ n. n.workspace_id == workspace_id)

  unfoldable pub list_visible_for_member : ℕ → t.State → List Note
  list_visible_for_member user_id =
      t.fetch (λ n. n.workspace_id == workspace_id && (not n.is_private || n.created_by == user_id))

  unfoldable pub get : ℕ → t.State → Result (Option Note)
  get note_id s = one_or_none (t.fetch (λ n. n.workspace_id == workspace_id && n.id == note_id) s)

  unfoldable pub create : ℕ → Text → Text → Bool → t.State → Note × t.State
  create created_by title content is_private s =
      let note : Note = record {
        id = t.next_id s;
        workspace_id = workspace_id;
        created_by = created_by;
        title = title;
        content = content;
        is_private = is_private;
      } in
      (note, t.insert note s)

  -- UPDATE and DELETE go by the primary key.
  unfoldable pub save : Note → t.State → t.State
  save note = t.update (λ n. n.id == note.id) (λ n. note)

  unfoldable pub delete : Note → t.State → t.State
  delete note = t.remove (λ n. n.id == note.id)
