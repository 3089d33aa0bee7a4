-- ===== src/Retrieval/Tests.antt =====
-- Tests of the filter, and the theorems at concrete notes.
use system_dashnote.Prelude.{◌≡◌, refl, true, false, ◌&&◌, some, none, [], ◌∷◌, arith, ◌==◌}
use system_dashnote.Prelude.Text.{codes, str, text_eq}
use system_dashnote.Auth.Models.{RequestContext}
use system_dashnote.Database.Memory.{table}
use system_dashnote.Redis.Memory.{memory}
use system_dashnote.Notes.Models.{Note, NoteUpdate}
use system_dashnote.Notes.Permissions.{can_view_note, can_view_note_fields, can_manage_note}
use system_dashnote.Notes.Repository
use system_dashnote.Notes.Router.{Services, World, embed_upsert, update_note}
use system_dashnote.Notes.Json.{dump, load, load-dump, dump_list, load_list, load-dump_list}
use system_dashnote.Retrieval.Memory.{store}
use system_dashnote.Retrieval.Filter.{build_rbac_filter, payload_of_chunk}
use system_dashnote.Retrieval.Mirror.{filter_of}
use system_dashnote.Retrieval.Mirror
use system_dashnote.Retrieval.Edit

abbrev services : Services
services = record {
  c = memory;
  t = table Note;
  dumps_list = dump_list;
  loads_list = load_list;
  dumps_note = dump;
  loads_note = load;
  default_ttl_seconds = 300;
  ai_enabled = true;
  is_blank = λ s. elim s [ [] ↦ true | c ∷ cs ↦ false ];
  loads-dumps_list = load-dump_list;
  loads-dumps_note = load-dump;
}

abbrev admin : RequestContext
admin = record { user_id = 1; workspace_id = 10; role = "admin" }

abbrev member : RequestContext
member = record { user_id = 2; workspace_id = 10; role = "member" }

abbrev note : Note
note = record {
  id = 5;
  workspace_id = 10;
  created_by = 2;
  title = codes "t";
  content = codes "c";
  is_private = true;
}

abbrev start : World services
start = record { notes = record { rows = note ∷ []; next_id = 6 }; redis = none; jobs = [] }

abbrev retitled : NoteUpdate
retitled = record { title = some (codes "u"); content = none; is_private = none }

member_runs : store.matches (filter_of store member) (payload_of_chunk (str 10) (str 2) true) ≡ true
unfolding build_rbac_filter payload_of_chunk text_eq str
member_runs = refl

filter_mirrors_permissions_example :
    store.matches (filter_of store member) (payload_of_chunk (str 10) (str 3) false)
    ≡ (10 == 10 && can_view_note_fields member false 3)
filter_mirrors_permissions_example = Mirror.filter_mirrors_permissions store member 10 3 false

edit_hides_from_author_example :
    ((update_note services admin 5 retitled start).1.jobs
      ≡ embed_upsert (str 5) (str 10) (str 1) true (codes "u") (codes "c") ∷ [])
    × (can_view_note member (record note { title = codes "u" }) ≡ true)
    × (store.matches (filter_of store member) (payload_of_chunk (str 10) (str 1) true) ≡ false)
unfolding can_manage_note Repository.get
edit_hides_from_author_example =
    Edit.edit_hides_from_author services store admin member 5 retitled start note refl refl refl
      refl (omega arith) refl refl refl
