-- ===== src/Notes/Authority.antt =====
-- Which notes a request may change.
use system_dashnote.Prelude.{
  All-select, ℕ, ◌≡◌, refl, Bool, true, false, not, ◌&&◌, ◌||◌, Option, none, some, List, [], ◌∷◌,
  ◌++◌, map, arith, select, select-All, Bool-cases, inl, inr, ◌==◌, if◌then◌else◌, All,
}
use system_dashnote.Prelude.Exec.{Result, ok, err, Result-cases}
use system_dashnote.Database.{one_or_none}
use system_dashnote.Auth.Models.{RequestContext}
use system_dashnote.Auth.Passwords.{one_or_none-All}
use system_dashnote.Notes.Models.{Note, NoteCreate, NoteUpdate}
use system_dashnote.Notes.Permissions.{is_staff, can_manage_note}
use system_dashnote.Notes.Repository
use system_dashnote.Notes.Router.{
  Services, World, create_note, update_note, delete_note, found, edited, or_404,
}

-- The notes out of the reach of a caller: those of other workspaces and, unless the caller is an
-- owner or admin, those of other authors.
abbrev pub out_of_reach : RequestContext → List Note → List Note
out_of_reach ctx =
    select (λ n.
      not (n.workspace_id == ctx.workspace_id && (is_staff ctx || n.created_by == ctx.user_id)))

-- The ids are a primary key.
abbrev pub IsKeyed : List Note → Type 0
IsKeyed rows = All (λ x. All (λ y. y.id ≡ x.id → y ≡ x) rows) rows

All-both : (P Q : Note → Type 0) (xs : List Note) → All P xs → All Q xs → All (λ x. P x × Q x) xs
All-both P Q [] h k = tt
All-both P Q (x ∷ xs) h k = ((h.0, k.0), All-both P Q xs h.1 k.1)

module _ (q : Note → Bool) (note : Note) (hidden : q note ≡ false) where
  select-update :
      (saved : Note) (xs : List Note)
      → q saved ≡ false
      → All (λ y. y.id ≡ note.id → y ≡ note) xs
      → select q (map (λ n. if n.id == note.id then saved else n) xs) ≡ select q xs
  select-update saved [] h k = refl
  select-update saved (x ∷ xs) h k = elim (Bool-cases (x.id == note.id)) [
    | inl same ↦
        let e : x ≡ note = k.0 (ground arith) in
        let x_hidden : q x ≡ false = rw e hidden in
        rw (same, h, x_hidden) (select-update saved xs h k.1)
    | inr other ↦ rw (other, select-update saved xs h k.1) refl
  ]

  select-remove :
      (xs : List Note)
      → All (λ y. y.id ≡ note.id → y ≡ note) xs
      → select q (select (λ n. not (n.id == note.id)) xs) ≡ select q xs
  select-remove [] k = refl
  select-remove (x ∷ xs) k = elim (Bool-cases (x.id == note.id)) [
    | inl same ↦
        let e : x ≡ note = k.0 (ground arith) in
        let x_hidden : q x ≡ false = rw e hidden in rw (same, x_hidden) (select-remove xs k.1)
    | inr other ↦ rw other (rw (select-remove xs k.1) refl)
  ]

select-insert :
    (q : Note → Bool) (xs : List Note) (x : Note)
    → q x ≡ false
    → select q (xs ++ x ∷ []) ≡ select q xs
select-insert q [] x h = rw h refl
select-insert q (y ∷ xs) x h = rw (select-insert q xs x h) refl

pub data Request : Type 0 where
  create : NoteCreate → Request
  update : ℕ → NoteUpdate → Request
  delete : ℕ → Request

module _ (v : Services) where
  unfoldable pub perform : Request → RequestContext → World v → World v
  perform (create data_) ctx w = (create_note v ctx data_ w).1
  perform (update note_id data_) ctx w = (update_note v ctx note_id data_ w).1
  perform (delete note_id) ctx w = (delete_note v ctx note_id w).1

  abbrev pub rows_of : World v → List Note
  rows_of w = v.t.rows w.notes

  or_404-ok : (r : Result (Option Note)) (note : Note) → or_404 v r ≡ ok note → r ≡ ok (some note)
  or_404-ok (err e) note h = absurd (cc)
  or_404-ok (ok none) note h = absurd (cc)
  or_404-ok (ok (some n)) note h = ground arith

  found-lem :
      (ctx : RequestContext) (note_id : ℕ) (w : World v) (note : Note)
      → IsKeyed (rows_of w)
      → (found v ctx note_id w).0 ≡ ok note
      → ((note.workspace_id == ctx.workspace_id) ≡ true)
        × All (λ y. y.id ≡ note.id → y ≡ note) (rows_of w)
  unfolding Repository.get
  found-lem ctx note_id w note keyed e =
      let test = λ (n : Note). n.workspace_id == ctx.workspace_id && n.id == note_id in
      let P = λ (x : Note). All (λ y. y.id ≡ x.id → y ≡ x) (rows_of w) in
      let Q = λ (x : Note). test x ≡ true in
      let e' = or_404-ok (one_or_none (v.t.fetch test w.notes)) note e in
      let (y, (unique, tested), same) =
        one_or_none-All (λ x. P x × Q x) (select test (rows_of w)) {x = note}
          (All-both P Q _ (All-select P test (rows_of w) keyed) (select-All test (rows_of w)))
          (rw v.t.fetch_lem at e') in
      rw (← same) (ground (arith, tested), unique)

  hidden_from_reach :
      (ctx : RequestContext) (n : Note)
      → (n.workspace_id == ctx.workspace_id) ≡ true
      → can_manage_note ctx n ≡ true
      → not (n.workspace_id == ctx.workspace_id && (is_staff ctx || n.created_by == ctx.user_id))
        ≡ false
  unfolding can_manage_note
  hidden_from_reach ctx n h k = ground (arith, h, k)

  update-out_of_reach :
      (ctx : RequestContext) (note_id : ℕ) (data_ : NoteUpdate) (w : World v)
      → IsKeyed (rows_of w)
      → out_of_reach ctx (rows_of (update_note v ctx note_id data_ w).1)
        ≡ out_of_reach ctx (rows_of w)
  unfolding update_note Repository.save
  update-out_of_reach ctx note_id data_ w keyed = elim (Result-cases (found v ctx note_id w).0) [
    | inr (x, raised) ↦ rw raised refl
    | inl (note, got) ↦ elim (Bool-cases (can_manage_note ctx note)) [
      | inr weak ↦ rw (got, weak) refl
      | inl may ↦
          let (here, unique) = found-lem ctx note_id w note keyed got in
          let hidden = hidden_from_reach ctx note here may in
          rw (got, may, v.t.update_lem)
            (select-update _ note hidden (edited v data_ note) (rows_of w) hidden unique)
    ]
  ]

  delete-out_of_reach :
      (ctx : RequestContext) (note_id : ℕ) (w : World v)
      → IsKeyed (rows_of w)
      → out_of_reach ctx (rows_of (delete_note v ctx note_id w).1) ≡ out_of_reach ctx (rows_of w)
  unfolding delete_note Repository.delete
  delete-out_of_reach ctx note_id w keyed = elim (Result-cases (found v ctx note_id w).0) [
    | inr (x, raised) ↦ rw raised refl
    | inl (note, got) ↦ elim (Bool-cases (can_manage_note ctx note)) [
      | inr weak ↦ rw (got, weak) refl
      | inl may ↦
          let (here, unique) = found-lem ctx note_id w note keyed got in
          let hidden = hidden_from_reach ctx note here may in
          rw (got, may, v.t.remove_lem) (select-remove _ note hidden (rows_of w) unique)
    ]
  ]

  create-out_of_reach :
      (ctx : RequestContext) (data_ : NoteCreate) (w : World v)
      → out_of_reach ctx (rows_of (create_note v ctx data_ w).1) ≡ out_of_reach ctx (rows_of w)
  unfolding create_note Repository.create
  create-out_of_reach ctx data_ w = rw v.t.insert_lem (select-insert _ (rows_of w) _ (ground arith))

  -- No request on notes changes a note out of the caller's reach: the notes of other workspaces
  -- and, for members, those of other authors, stay as they are on every path of the handlers, if
  -- the ids of the notes are a primary key.
  pub perform-out_of_reach :
      (request : Request) (ctx : RequestContext) (w : World v)
      → IsKeyed (rows_of w)
      → out_of_reach ctx (rows_of (perform request ctx w)) ≡ out_of_reach ctx (rows_of w)
  unfolding perform
  perform-out_of_reach (create data_) ctx w keyed = create-out_of_reach ctx data_ w
  perform-out_of_reach (update note_id data_) ctx w keyed =
      update-out_of_reach ctx note_id data_ w keyed
  perform-out_of_reach (delete note_id) ctx w keyed = delete-out_of_reach ctx note_id w keyed
