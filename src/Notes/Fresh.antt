-- ===== src/Notes/Fresh.antt =====
-- Reads after writes: a change of the notes makes the cached lists unreachable.
use system_dashnote.Prelude.{ℕ, ◌+◌, ◌≡◌, refl, ap, false, Option, none, some, Bool-cases, inl, inr}
use system_dashnote.Prelude.Text.{Text, codes, str, text_eq, text_eq_refl}
use system_dashnote.Prelude.Exec.{Result, ok, err, Result-cases}
use system_dashnote.Redis.Space.{Entry, string_of, count_of, counted}
use system_dashnote.Auth.Models.{RequestContext}
use system_dashnote.Notes.Models.{NoteRead, NoteCreate, NoteUpdate}
use system_dashnote.Notes.Permissions.{can_manage_note}
use system_dashnote.Notes.Cache.{
  get_json, read_generation, bump_generation, gen_key, key_notes_list,
}
use system_dashnote.Notes.Router.{
  Services, World, load_notes, list_notes, create_note, update_note, delete_note, found,
}

abbrev pub notes_key : RequestContext → Text
notes_key ctx = gen_key (codes "notes") ctx

gen-list_key_eq :
    (ctx reader : RequestContext) (g : Text)
    → text_eq (notes_key ctx) (key_notes_list reader g) ≡ false
unfolding gen_key key_notes_list text_eq
gen-list_key_eq ctx reader g = refl

same_workspace_key :
    (ctx reader : RequestContext)
    → ctx.workspace_id ≡ reader.workspace_id
    → notes_key ctx ≡ notes_key reader
unfolding gen_key
same_workspace_key ctx reader h = rw h refl

string-counted : (e : Option Entry) → string_of (counted e) ≡ some (str (count_of e + 1))
string-counted none = refl
string-counted (some e) = refl

-- A write of one of the three handlers.
pub data Write : Type 0 where
  create : (data_ : NoteCreate) → Write
  update : (note_id : ℕ) (data_ : NoteUpdate) → Write
  delete : (note_id : ℕ) → Write

module _ (v : Services) (ctx reader : RequestContext) where
  -- No list is cached yet for this reader under the generation that the next change begins.
  abbrev pub NextIsUnused : v.c.Store → Type 0
  NextIsUnused s =
      v.c.entry s (key_notes_list reader (str (count_of (v.c.entry s (notes_key ctx)) + 1))) ≡ none

  bumped_list_fresh :
      (s : v.c.Store) (w : World v)
      → ctx.workspace_id ≡ reader.workspace_id
      → NextIsUnused s
      → w.redis ≡ bump_generation v.c (codes "notes") ctx (some s)
      → (list_notes v reader w).0 ≡ ok (load_notes v reader w.notes)
  unfolding list_notes bump_generation read_generation get_json
  bumped_list_fresh s w same unused e =
      let bumped = v.c.incr (notes_key ctx) s in
      let generation : v.c.get (notes_key reader) bumped
          ≡ some (str (count_of (v.c.entry s (notes_key ctx)) + 1)) =
        rw (← same_workspace_key ctx reader same, v.c.get_lem, v.c.incr_lem, text_eq_refl)
          (string-counted (v.c.entry s (notes_key ctx))) in
      let missing : v.c.get
            (key_notes_list reader (str (count_of (v.c.entry s (notes_key ctx)) + 1))) bumped
          ≡ none =
        rw (v.c.get_lem, v.c.incr_lem, gen-list_key_eq, unused) refl in
      rw (e, generation, missing) refl

  list_fresh_after_create :
      (data_ : NoteCreate) (w : World v) (s : v.c.Store)
      → w.redis ≡ some s
      → ctx.workspace_id ≡ reader.workspace_id
      → NextIsUnused s
      → let w' = (create_note v ctx data_ w).1 in
        (list_notes v reader w').0 ≡ ok (load_notes v reader w'.notes)
  unfolding create_note
  list_fresh_after_create data_ w s stored same unused =
      bumped_list_fresh s _ same unused (ap (bump_generation v.c (codes "notes") ctx) stored)

  list_fresh_after_update :
      (note_id : ℕ) (data_ : NoteUpdate) (w : World v) (s : v.c.Store) (r : NoteRead)
      → w.redis ≡ some s
      → ctx.workspace_id ≡ reader.workspace_id
      → NextIsUnused s
      → (update_note v ctx note_id data_ w).0 ≡ ok r
      → let w' = (update_note v ctx note_id data_ w).1 in
        (list_notes v reader w').0 ≡ ok (load_notes v reader w'.notes)
  unfolding update_note
  list_fresh_after_update note_id data_ w s r stored same unused e =
      elim (Result-cases (found v ctx note_id w).0) [
        | inr (x, raised) ↦ absurd (let h = rw raised at e in cc)
        | inl (note, got) ↦
            let h = rw got at e in
            elim (Bool-cases (can_manage_note ctx note)) [
              | inr weak ↦ absurd (let h' = rw weak at h in cc)
              | inl may ↦
                  rw (got, may)
                    (bumped_list_fresh s _ same unused
                      (ap (bump_generation v.c (codes "notes") ctx) stored))
            ]
      ]

  list_fresh_after_delete :
      (note_id : ℕ) (w : World v) (s : v.c.Store)
      → w.redis ≡ some s
      → ctx.workspace_id ≡ reader.workspace_id
      → NextIsUnused s
      → (delete_note v ctx note_id w).0 ≡ ok tt
      → let w' = (delete_note v ctx note_id w).1 in
        (list_notes v reader w').0 ≡ ok (load_notes v reader w'.notes)
  unfolding delete_note
  list_fresh_after_delete note_id w s stored same unused e =
      elim (Result-cases (found v ctx note_id w).0) [
        | inr (x, raised) ↦ absurd (let h = rw raised at e in cc)
        | inl (note, got) ↦
            let h = rw got at e in
            elim (Bool-cases (can_manage_note ctx note)) [
              | inr weak ↦ absurd (let h' = rw weak at h in cc)
              | inl may ↦
                  rw (got, may)
                    (bumped_list_fresh s _ same unused
                      (ap (bump_generation v.c (codes "notes") ctx) stored))
            ]
      ]

  abbrev done : {A : Type 0} → Result A → Result (Unit {0})
  done (ok a) = ok tt
  done (err e) = err e

  abbrev pub write : Write → World v → Result (Unit {0}) × World v
  write (create data_) w = let (r, w') = create_note v ctx data_ w in (done r, w')
  write (update note_id data_) w = let (r, w') = update_note v ctx note_id data_ w in (done r, w')
  write (delete note_id) w = delete_note v ctx note_id w

  done-ok : {A : Type 0} (r : Result A) → done r ≡ ok tt → (a : A) × (r ≡ ok a)
  done-ok (ok a) h = (a, refl)
  done-ok (err e) h = absurd (cc)

  -- After a note was created, edited or deleted, every reader of the workspace lists the notes as
  -- they now are: the cache is by-passed. It is assumed that Redis is there and that no list is
  -- cached yet for the reader under the generation that the write begins.
  pub list_fresh_after_write :
      (x : Write) (w : World v) (s : v.c.Store)
      → w.redis ≡ some s
      → ctx.workspace_id ≡ reader.workspace_id
      → NextIsUnused s
      → (write x w).0 ≡ ok tt
      → let w' = (write x w).1 in (list_notes v reader w').0 ≡ ok (load_notes v reader w'.notes)
  list_fresh_after_write (create data_) w s stored same unused e =
      list_fresh_after_create data_ w s stored same unused
  list_fresh_after_write (update note_id data_) w s stored same unused e =
      let (r, h) = done-ok (update_note v ctx note_id data_ w).0 e in
      list_fresh_after_update note_id data_ w s r stored same unused h
  list_fresh_after_write (delete note_id) w s stored same unused e =
      list_fresh_after_delete note_id w s stored same unused e
