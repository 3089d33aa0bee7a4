-- ===== src/Notes/Visibility.antt =====
-- Which notes a reader gets to see.
use system_dashnote.Prelude.{
  ℕ, ◌≡◌, refl, ap, Bool, true, ◌&&◌, Option, none, some, List, [], ◌∷◌, map, arith, select,
  Bool-cases, inl, inr, ◌==◌,
}
use system_dashnote.Prelude.Text.{Text}
use system_dashnote.Prelude.Exec.{ok, Result-cases}
use system_dashnote.Auth.Models.{RequestContext}
use system_dashnote.Notes.Models.{NoteRead, read_of}
use system_dashnote.Notes.Permissions.{is_staff, can_view_note, can_view_note_fields}
use system_dashnote.Notes.Repository.{list_all, list_visible_for_member}
use system_dashnote.Notes.Router.{
  Services, World, load_notes, get_note, after_lookup, read_through, found,
}

pub select-same :
    {A : Type 0} (p q : A → Bool) (xs : List A) → ((x : A) → p x ≡ q x) → select p xs ≡ select q xs
select-same p q [] h = refl
select-same p q (x ∷ xs) h = rw (h x, select-same p q xs h) refl

module _ (v : Services) (ctx : RequestContext) where
  -- What the list of notes loads is exactly the notes of the caller's workspace that
  -- `can_view_note` lets the caller view, in the order of the table: the condition that the SQL
  -- query writes out for members agrees with the rule in Python.
  pub load_notes-visible :
      (s : v.t.State)
      → load_notes v ctx s
        ≡ map read_of
            (select (λ n. n.workspace_id == ctx.workspace_id && can_view_note ctx n) (v.t.rows s))
  unfolding load_notes list_all list_visible_for_member can_view_note can_view_note_fields
  load_notes-visible s = elim (Bool-cases (is_staff ctx)) [
    | inl staff ↦
        rw (staff, v.t.fetch_lem)
          (ap (map read_of) (select-same _ _ (v.t.rows s) (λ n. ground arith)))
    | inr member ↦
        rw (member, v.t.fetch_lem)
          (ap (map read_of) (select-same _ _ (v.t.rows s) (λ n. ground arith)))
  ]

  read_through-visible :
      (key : Text) (note_id : ℕ) (w : World v) (r : NoteRead)
      → (read_through v ctx key note_id w).0 ≡ ok r
      → can_view_note_fields ctx r.is_private r.created_by ≡ true
  unfolding can_view_note
  read_through-visible key note_id w r e = elim (Result-cases (found v ctx note_id w).0) [
    | inr (x, raised) ↦ absurd (let h = rw raised at e in cc)
    | inl (note, got) ↦
        let h = rw got at e in
        elim (Bool-cases (can_view_note ctx note)) [
          | inr hidden ↦ absurd (let h' = rw hidden at h in cc)
          | inl shown ↦
              let same : read_of note ≡ r = (let h' = rw shown at h in ground arith) in
              rw (← same) shown
        ]
  ]

  after_lookup-visible :
      (key : Text) (note_id : ℕ) (cached : Option NoteRead) (w : World v) (r : NoteRead)
      → (after_lookup v ctx key note_id cached w).0 ≡ ok r
      → can_view_note_fields ctx r.is_private r.created_by ≡ true
  after_lookup-visible key note_id none w r e = read_through-visible key note_id w r e
  after_lookup-visible key note_id (some cached) w r e =
      elim (Bool-cases (can_view_note_fields ctx cached.is_private cached.created_by)) [
        | inr hidden ↦ read_through-visible key note_id w r (rw hidden at e)
        | inl shown ↦ let same : cached ≡ r = ground (arith, shown, e) in rw (← same) shown
      ]

  -- A note that `get_note` returns may be viewed by the caller, by its own flag and author,
  -- whatever the cache holds, stale or not.
  pub get_note-visible :
      (note_id : ℕ) (w : World v) (r : NoteRead)
      → (get_note v ctx note_id w).0 ≡ ok r
      → can_view_note_fields ctx r.is_private r.created_by ≡ true
  unfolding get_note
  get_note-visible note_id w r e = after_lookup-visible _ note_id _ w r e
