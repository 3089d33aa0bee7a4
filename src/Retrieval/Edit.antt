-- ===== src/Retrieval/Edit.antt =====
-- What an edit by an owner or admin does to the search of the note's author.
use system_dashnote.Prelude.{ℕ, ◌≡◌, ◌≢◌, refl, true, false, [], ◌∷◌, ◌++◌, arith}
use system_dashnote.Prelude.Text.{str}
use system_dashnote.Prelude.Exec.{ok}
use system_dashnote.Auth.Models.{RequestContext}
use system_dashnote.Notes.Models.{Note, NoteUpdate}
use system_dashnote.Notes.Permissions.{
  is_staff, can_manage_note, can_view_note, can_view_note_fields,
}
use system_dashnote.Notes.Router.{Services, World, embed_upsert, update_note, found, edited}
use system_dashnote.Retrieval.Filter.{VectorStore, payload_of_chunk}
use system_dashnote.Retrieval.Mirror.{filter_of, filter_mirrors_permissions}

module _ (v : Services) (q : VectorStore) (ctx author : RequestContext) where
  seen_only_as_author :
      (w : ℕ)
      → is_staff author ≡ false
      → ctx.user_id ≢ author.user_id
      → q.matches (filter_of q author) (payload_of_chunk (str w) (str ctx.user_id) true) ≡ false
  unfolding can_view_note_fields
  seen_only_as_author w member other =
      rw (filter_mirrors_permissions q author w ctx.user_id true, member) (ground arith)

  author_sees : (n : Note) → author.user_id ≡ n.created_by → can_view_note author n ≡ true
  unfolding can_view_note can_view_note_fields
  author_sees n h = ground arith

  -- When somebody else edits a private note of a member, with AI enabled and a content that is not
  -- blank, the note is indexed under the editor: its author may view it, but the author's filter
  -- does not match the payload that is stored for it.
  pub edit_hides_from_author :
      (note_id : ℕ) (data_ : NoteUpdate) (w : World v) (note : Note)
      → (found v ctx note_id w).0 ≡ ok note
      → can_manage_note ctx note ≡ true
      → author.user_id ≡ note.created_by
      → is_staff author ≡ false
      → ctx.user_id ≢ author.user_id
      → (edited v data_ note).is_private ≡ true
      → v.ai_enabled ≡ true
      → v.is_blank (edited v data_ note).content ≡ false
      → let saved = edited v data_ note in
        ((update_note v ctx note_id data_ w).1.jobs
          ≡ w.jobs
            ++ embed_upsert
                (str saved.id)
                (str ctx.workspace_id)
                (str ctx.user_id)
                true
                saved.title
                saved.content
              ∷ [])
        × (can_view_note author saved ≡ true)
        × (q.matches
              (filter_of q author)
              (payload_of_chunk (str ctx.workspace_id) (str ctx.user_id) true)
            ≡ false)
  unfolding update_note
  edit_hides_from_author note_id data_ w note got may own member other private enabled content = (
    rw (got, may, content, enabled, private) refl,
    author_sees (edited v data_ note) own,
    seen_only_as_author ctx.workspace_id member other,
  )
