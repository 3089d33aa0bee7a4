-- ===== src/Files/Repository.antt =====
-- files/repository.py. Sorting by `created_at`, the latest first, is the database's: a parameter.
use system_dashnote.Prelude.{
  ℕ, Bool, true, false, not, ◌&&◌, ◌||◌, Option, none, some, List, [], ◌∷◌, ◌==◌, length, take,
  drop, if◌then◌else◌,
}
use system_dashnote.Prelude.Text.{Text}
use system_dashnote.Prelude.Exec.{Exec, ok, http, raise_if, or_raise, modify, ◌>>=◌, ◌>>◌}
use system_dashnote.Database.{Table, one_or_none}
use system_dashnote.Auth.Models.{RequestContext}
use system_dashnote.Notes.Models.{Note}
use system_dashnote.Notes.Permissions.{is_staff}
use system_dashnote.Files.Permissions.{File, FileCreate, FileUpdate}

-- A row of note_attachments.
pub record Attachment : Type 0 where
  pub note_id : ℕ
  pub file_id : ℕ
  pub workspace_id : ℕ

pub record Tables : Type 1 where
  pub files : Table File
  pub notes : Table Note
  pub attachments : Table Attachment

module _ (t : Tables) where
  pub record Session : Type 0 where
    pub files : t.files.State
    pub notes : t.notes.State
    pub attachments : t.attachments.State

  unfoldable pub get_by_id : ℕ → ℕ → Exec Session (Option File)
  get_by_id workspace_id file_id s = (
    one_or_none (t.files.fetch (λ f. f.workspace_id == workspace_id && f.id == file_id) s.files),
    s,
  )

  -- the condition of `list_files`, for the caller's user and role
  abbrev pub visibility : RequestContext → File → Bool
  visibility ctx f =
      if is_staff ctx
      then f.workspace_id == ctx.workspace_id
      else f.workspace_id == ctx.workspace_id && (not f.is_private || f.created_by == ctx.user_id)

  unfoldable pub list_files :
      (List File → List File) → RequestContext → ℕ → ℕ → Session → List File × ℕ
  list_files newest_first ctx skip limit s = (
    take limit (drop skip (newest_first (t.files.fetch (visibility ctx) s.files))),
    length (t.files.fetch (visibility ctx) s.files),
  )

  -- `now` is the timestamp that the database sets
  unfoldable pub create : ℕ → ℕ → ℕ → FileCreate → Text → Exec Session File
  create now workspace_id user_id data_ storage_key s =
      let row : File = record {
        id = t.files.next_id s.files;
        workspace_id = workspace_id;
        created_by = user_id;
        created_at = now;
        name = data_.name;
        storage_key = storage_key;
        mime_type = data_.mime_type;
        size_bytes = data_.size_bytes;
        is_private = data_.is_private;
        description = data_.description;
      } in
      (ok row, record s { files = t.files.insert row s.files })

  abbrev or_old {ℓ} : {A : Type ℓ} → Option A → A → A
  or_old none old = old
  or_old (some new) old = new

  abbrev or_old_text : Option Text → Option Text → Option Text
  or_old_text none old = old
  or_old_text (some new) old = some new

  abbrev updated : FileUpdate → File → File
  updated data_ row = record row {
    name = or_old data_.name row.name;
    is_private = or_old data_.is_private row.is_private;
    description = or_old_text data_.description row.description;
  }

  abbrev update_found : FileUpdate → Option File → Exec Session (Option File)
  update_found data_ none s = (ok none, s)
  update_found data_ (some row) s = (
    ok (some (updated data_ row)),
    record s { files = t.files.update (λ f. f.id == row.id) (updated data_) s.files },
  )

  unfoldable pub update : ℕ → ℕ → FileUpdate → Exec Session (Option File)
  update workspace_id file_id data_ = get_by_id workspace_id file_id >>= update_found data_

  abbrev delete_found : Option File → Exec Session Bool
  delete_found none s = (ok false, s)
  delete_found (some row) s =
      (ok true, record s { files = t.files.remove (λ f. f.id == row.id) s.files })

  unfoldable pub delete : ℕ → ℕ → Exec Session Bool
  delete workspace_id file_id = get_by_id workspace_id file_id >>= delete_found

  abbrev pub file_with : ℕ → Exec Session (Option File)
  file_with file_id s = (one_or_none (t.files.fetch (λ f. f.id == file_id) s.files), s)

  abbrev pub note_with : ℕ → Exec Session (Option Note)
  note_with note_id s = (one_or_none (t.notes.fetch (λ n. n.id == note_id) s.notes), s)

  abbrev pub same_link : ℕ → ℕ → Attachment → Bool
  same_link note_id file_id a = a.note_id == note_id && a.file_id == file_id

  abbrev pub insert_unless :
      Attachment → List Attachment → t.attachments.State → t.attachments.State
  insert_unless row [] s = t.attachments.insert row s
  insert_unless row (a ∷ rest) s = s

  -- INSERT … ON CONFLICT DO NOTHING, on note and file
  abbrev pub attach : Attachment → t.attachments.State → t.attachments.State
  attach row s = insert_unless row (t.attachments.fetch (same_link row.note_id row.file_id) s) s

  unfoldable pub link_to_note : ℕ → ℕ → ℕ → Exec Session Unit
  link_to_note workspace_id note_id file_id = do
    file ← file_with file_id
    file_row ← or_raise file (http 404 "File not found.")
    raise_if (not (file_row.workspace_id == workspace_id))
        (http 403 "File is not in this workspace.")
    note ← note_with note_id
    note_row ← or_raise note (http 404 "Note not found.")
    raise_if (not (note_row.workspace_id == workspace_id))
        (http 403 "Note is not in this workspace.")
    modify (λ s. record s {
      attachments =
          attach (record { note_id = note_id; file_id = file_id; workspace_id = workspace_id })
            s.attachments;
    })
