-- ===== src/Notes/Models.antt =====
-- notes/models.py and notes/schemas.py.
use system_dashnote.Prelude.{ℕ, Bool, Option}
use system_dashnote.Prelude.Text.{Text}

-- The columns that the handlers read and write; tags and attachments are not modelled.
pub record Note : Type 0 where
  pub id : ℕ
  pub workspace_id : ℕ
  pub created_by : ℕ
  pub title : Text
  pub content : Text
  pub is_private : Bool

pub record NoteCreate : Type 0 where
  pub title : Text
  pub content : Text
  pub is_private : Bool

pub record NoteUpdate : Type 0 where
  pub title : Option Text
  pub content : Option Text
  pub is_private : Option Bool

pub record NoteRead : Type 0 where
  pub id : ℕ
  pub title : Text
  pub content : Text
  pub is_private : Bool
  pub created_by : ℕ

-- `NoteRead.model_validate(n)`
abbrev pub read_of : Note → NoteRead
read_of n = record {
  id = n.id;
  title = n.title;
  content = n.content;
  is_private = n.is_private;
  created_by = n.created_by;
}
