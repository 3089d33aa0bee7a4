-- ===== src/Notes/Tests.antt =====
-- Tests of the notes on a concrete table and cache, and the theorems at those.
use system_dashnote.Prelude.{
  ℕ, ◌≡◌, refl, Bool, true, false, ◌&&◌, none, some, [], ◌∷◌, arith, map, select, ◌==◌,
}
use system_dashnote.Prelude.Text.{codes, str, text_eq}
use system_dashnote.Prelude.Exec.{ok, err, http}
use system_dashnote.Redis.Memory.{memory, empty_memory}
use system_dashnote.Database.Memory.{table}
use system_dashnote.Auth.Models.{RequestContext}
use system_dashnote.Notes.Models.{Note, NoteCreate, NoteUpdate, read_of}
use system_dashnote.Notes.Permissions.{can_view_note, can_view_note_fields, can_manage_note}
use system_dashnote.Notes.Repository
use system_dashnote.Notes.Cache.{
  read_generation, bump_generation, get_json, set_json, key_notes_list, gen_key, notes_list_variant,
}
use system_dashnote.Notes.Router.{
  Services, World, load_notes, list_notes, get_note, create_note, update_note, delete_note,
}
use system_dashnote.Notes.Json.{dump, load, load-dump, dump_list, load_list, load-dump_list}
use system_dashnote.Notes.Visibility
use system_dashnote.Notes.Fresh
use system_dashnote.Notes.Stale
use system_dashnote.Notes.Service
use system_dashnote.Notes.Authority.{create, update, delete, perform, rows_of, out_of_reach}
use system_dashnote.Notes.Authority

abbrev services : Services
services = record {
  c = memory;
  t = table Note;
  dumps_list = dump_list;
  loads_list = load_list;
  dumps_note = dump;
  loads_note = load;
  default_ttl_seconds = 300;
  ai_enabled = true;
  is_blank = λ s. elim s [ [] ↦ true | c ∷ cs ↦ false ];
  loads-dumps_list = load-dump_list;
  loads-dumps_note = load-dump;
}

abbrev caller : ℕ → RequestContext
caller u = record { user_id = u; workspace_id = 10; role = "member" }

abbrev note : ℕ → ℕ → Bool → Note
note i author private = record {
  id = i;
  workspace_id = 10;
  created_by = author;
  title = codes "t";
  content = codes "c";
  is_private = private;
}

abbrev start : World services
start = record {
  notes = record { rows = note 1 7 true ∷ note 2 7 false ∷ note 3 8 true ∷ []; next_id = 4 };
  redis = some empty_memory;
  jobs = [];
}

abbrev draft : NoteCreate
draft = record { title = codes "n"; content = codes "m"; is_private = true }

abbrev shorter : NoteUpdate
shorter = record { title = none; content = some (codes "s"); is_private = none }

-- Everything that the handlers compute through.
program : Unit {0}
unfolding list_notes get_note create_note update_note delete_note load_notes Repository.list_all
    Repository.list_visible_for_member Repository.get Repository.create Repository.save
    Repository.delete can_view_note can_view_note_fields can_manage_note read_generation
    bump_generation get_json set_json
program = tt

list_runs :
    (list_notes services (caller 8) start).0
    ≡ ok (read_of (note 2 7 false) ∷ read_of (note 3 8 true) ∷ [])
unfolding program key_notes_list
list_runs = refl

update_denied :
    (update_note services (caller 8) 1 shorter start).0 ≡ err (http 403 "Insufficient permissions")
unfolding program
update_denied = refl

load_notes-visible_example :
    load_notes services (caller 8) start.notes
    ≡ map read_of
        (select (λ n. n.workspace_id == 10 && can_view_note (caller 8) n) start.notes.rows)
load_notes-visible_example = Visibility.load_notes-visible services (caller 8) start.notes

get_note-visible_example : can_view_note_fields (caller 8) true 8 ≡ true
unfolding program
get_note-visible_example =
    Visibility.get_note-visible services (caller 8) 3 start (read_of (note 3 8 true)) refl

list_fresh_after_write_example :
    let w' = (Fresh.write services (caller 7) (caller 8) (Fresh.update 1 shorter) start).1 in
    (list_notes services (caller 8) w').0 ≡ ok (load_notes services (caller 8) w'.notes)
unfolding program
list_fresh_after_write_example =
    Fresh.list_fresh_after_write services (caller 7) (caller 8) (Fresh.update 1 shorter) start
      empty_memory refl refl refl refl

perform-out_of_reach_example :
    out_of_reach (caller 7) (rows_of services (perform services (delete 2) (caller 7) start))
    ≡ out_of_reach (caller 7) (rows_of services start)
perform-out_of_reach_example = Authority.perform-out_of_reach services (delete 2) (caller 7) start (
  (λ _. refl, (λ e. absurd (omega arith), (λ e. absurd (omega arith), tt))),
  (
    (λ e. absurd (omega arith), (λ _. refl, (λ e. absurd (omega arith), tt))),
    ((λ e. absurd (omega arith), (λ e. absurd (omega arith), (λ _. refl, tt))), tt),
  ),
)

-- The world after reader 8 has listed the notes.
abbrev listed : World services
listed = (list_notes services (caller 8) start).1

list_stale_after_service_create_example :
    (list_notes services
      (caller 8)
      (Service.create_note services
        (λ s. some 10)
        (codes "n")
        (codes "m")
        (codes "10")
        (codes "10")
        false
        listed).1).0
    ≡ ok (read_of (note 2 7 false) ∷ read_of (note 3 8 true) ∷ [])
unfolding program key_notes_list notes_list_variant gen_key text_eq str
list_stale_after_service_create_example =
    Stale.list_stale_after_service_create services (λ s. some 10) (caller 8) (codes "n") (codes "m")
      (codes "10") (codes "10") false listed
      (read_of (note 2 7 false) ∷ read_of (note 3 8 true) ∷ [])
      (load-dump_list (read_of (note 2 7 false) ∷ read_of (note 3 8 true) ∷ []))
