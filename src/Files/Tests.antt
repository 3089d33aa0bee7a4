-- ===== src/Files/Tests.antt =====
-- Tests of the files on concrete tables, and the theorems at those.
use system_dashnote.Prelude.{ℕ, ◌≡◌, refl, true, none, List, [], ◌∷◌}
use system_dashnote.Prelude.Text.{codes}
use system_dashnote.Prelude.Exec.{err, http}
use system_dashnote.Auth.Models.{RequestContext}
use system_dashnote.Database.Memory.{table}
use system_dashnote.Notes.Models.{Note}
use system_dashnote.Files.Permissions.{File}
use system_dashnote.Files.Repository.{Tables, Session, Attachment, list_files, link_to_note}
use system_dashnote.Files.Listing
use system_dashnote.Files.Links

abbrev tables : Tables
tables = record { files = table File; notes = table Note; attachments = table Attachment }

abbrev file : ℕ → ℕ → ℕ → File
file i workspace author = record {
  id = i;
  workspace_id = workspace;
  created_by = author;
  created_at = i;
  name = codes "f";
  storage_key = codes "k";
  mime_type = codes "text/plain";
  size_bytes = 3;
  is_private = true;
  description = none;
}

abbrev note : Note
note = record {
  id = 5;
  workspace_id = 10;
  created_by = 2;
  title = codes "t";
  content = codes "c";
  is_private = true;
}

abbrev start : Session tables
start = record {
  files = record { rows = file 1 10 2 ∷ file 2 10 3 ∷ file 3 20 2 ∷ []; next_id = 4 };
  notes = record { rows = note ∷ []; next_id = 6 };
  attachments = record { rows = []; next_id = 1 };
}

abbrev member : RequestContext
member = record { user_id = 2; workspace_id = 10; role = "member" }

abbrev as_is : List File → List File
as_is fs = fs

list_runs : list_files tables as_is member 0 20 start ≡ (file 1 10 2 ∷ [], 1)
unfolding list_files
list_runs = refl

link_foreign :
    link_to_note tables 10 5 3 start ≡ (err (http 403 "File is not in this workspace."), start)
unfolding link_to_note
link_foreign = refl

link_to_note-twice_example :
    link_to_note tables 10 5 1 (link_to_note tables 10 5 1 start).1
    ≡ link_to_note tables 10 5 1 start
link_to_note-twice_example = Links.link_to_note-twice tables 10 5 1 start
