-- ===== src/Files/Links.antt =====
-- Links between files and notes stay within a workspace.
use system_dashnote.Prelude.{
  ℕ, ◌≡◌, ◌⊎◌, refl, ap, ◌∙◌, sym, true, some, List, [], ◌∷◌, ◌==◌, ==_refl, select, select-append,
  Bool-cases, inl, inr,
}
use system_dashnote.Prelude.Exec.{ok}
use system_dashnote.Notes.Models.{Note}
use system_dashnote.Files.Permissions.{File}
use system_dashnote.Files.Repository.{
  Tables, Session, Attachment, link_to_note, attach, same_link, file_with, note_with,
}
use system_dashnote.Membership.Changes.{found-cases}

module _ (t : Tables) where
  abbrev pub links_of : Session t → List Attachment
  links_of s = t.attachments.rows s.attachments

  pub link_to_note-cases :
      (w n f : ℕ) (s : Session t)
      → ((link_to_note t w n f s).1 ≡ s)
        ⊎ ((file : File) × (note : Note) × ((file_with t f s).0 ≡ ok (some file))
            × ((file.workspace_id == w) ≡ true)
            × ((note_with t n s).0 ≡ ok (some note))
            × ((note.workspace_id == w) ≡ true)
            × (link_to_note t w n f s ≡ (
              ok tt,
              record s {
                attachments =
                    attach t (record { note_id = n; file_id = f; workspace_id = w }) s.attachments;
              },
            )))
  unfolding link_to_note
  link_to_note-cases w n f s = elim (found-cases (file_with t f s).0) [
    | inl (e, raised) ↦ rw raised (inl refl)
    | inr (inl missing) ↦ rw missing (inl refl)
    | inr (inr (file, got)) ↦ elim (Bool-cases (file.workspace_id == w)) [
      | inr foreign ↦ rw (got, foreign) (inl refl)
      | inl here ↦ elim (found-cases (note_with t n s).0) [
        | inl (e, raised) ↦ rw (got, here, raised) (inl refl)
        | inr (inl missing) ↦ rw (got, here, missing) (inl refl)
        | inr (inr (note, got')) ↦ elim (Bool-cases (note.workspace_id == w)) [
          | inr foreign ↦ rw (got, here, got', foreign) (inl refl)
          | inl here' ↦
              rw (got, here, got', here') (inr (file, note, refl, here, refl, here', refl))
        ]
      ]
    ]
  ]

  attach-twice :
      (row : Attachment) (s : t.attachments.State) → attach t row (attach t row s) ≡ attach t row s
  attach-twice row s = go (t.attachments.fetch (same_link t row.note_id row.file_id) s) refl
    where
      go :
          (found : List Attachment)
          → t.attachments.fetch (same_link t row.note_id row.file_id) s ≡ found
          → attach t row (attach t row s) ≡ attach t row s
      go (a ∷ rest) e = rw (e, e) refl
      go [] e =
          let none_yet : select (same_link t row.note_id row.file_id) (t.attachments.rows s) ≡ [] =
            rw t.attachments.fetch_lem at e in
          let now_there : t.attachments.fetch (same_link t row.note_id row.file_id)
                (t.attachments.insert row s)
              ≡ row ∷ [] =
            rw
              (
                t.attachments.fetch_lem, t.attachments.insert_lem, select-append, none_yet, ==_refl,
                ==_refl,
              )
              refl in
          rw (e, now_there) refl

  abbrev linked : ℕ → ℕ → ℕ → Session t → Session t
  linked w n f s = record s {
    attachments = attach t (record { note_id = n; file_id = f; workspace_id = w }) s.attachments;
  }

  link_again :
      (w n f : ℕ) (s : Session t) (file : File) (note : Note)
      → (file_with t f s).0 ≡ ok (some file)
      → (file.workspace_id == w) ≡ true
      → (note_with t n s).0 ≡ ok (some note)
      → (note.workspace_id == w) ≡ true
      → link_to_note t w n f (linked w n f s) ≡ (ok tt, linked w n f s)
  unfolding link_to_note
  link_again w n f s file note got here got' here' =
      rw (got, here, got', here')
        (ap (λ a. (ok tt, record s { attachments = a }))
          (attach-twice (record { note_id = n; file_id = f; workspace_id = w }) s.attachments))

  -- Linking a file to a note twice does what linking it once does, and returns the same.
  pub link_to_note-twice :
      (w n f : ℕ) (s : Session t)
      → link_to_note t w n f (link_to_note t w n f s).1 ≡ link_to_note t w n f s
  link_to_note-twice w n f s = elim (link_to_note-cases w n f s) [
    | inl kept ↦ ap (link_to_note t w n f) kept
    | inr (file, note, got, here, got', here', e) ↦
        ap (λ r. link_to_note t w n f r.1) e
        ∙ link_again w n f s file note got here got' here'
        ∙ sym e
  ]
