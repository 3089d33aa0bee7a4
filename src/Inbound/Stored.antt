-- ===== src/Inbound/Stored.antt =====
-- Which steps of an ingestion leave the table of ingested messages as it is.
use system_dashnote.Prelude.{ℕ, ◌≡◌, Option, none, some, List, [], ◌∷◌, length}
use system_dashnote.Prelude.Text.{Text, codes, str}
use system_dashnote.Prelude.Exec.{Keeps, >>=-Keeps, if-Keeps, from_result, pure}
use system_dashnote.Threads.Service.{truthy}
use system_dashnote.Notes.Models.{Note}
use system_dashnote.Files.Validation.{validate_file, validate_file-Keeps}
use system_dashnote.Inbound.Models.{
  Services, World, ResolvedIdentity, InboundAttachmentIn, AttachmentResult,
}
use system_dashnote.Inbound.Attachments.{
  create_row, link_row, mime_of, or_default, store_one, store_decoded, store_attachments,
  emit_file_uploaded_side_effects,
}
use system_dashnote.Inbound.Ingest.{
  Inbound, create_note, emit_upsert, emit_note_created_side_effects, store_message, title_for,
  emit_created, attach_all, after_create,
}

module _ (v : Services) (stored : v.ingests.State) where
  -- The ingested messages are the stored ones.
  abbrev pub HasIngests : World v → Type 0
  HasIngests w = w.ingests ≡ stored

  store_one-HasIngests :
      (identity : ResolvedIdentity) (note_id : ℕ) (att : InboundAttachmentIn) (raw : Text)
      → Keeps HasIngests (store_one v identity note_id att raw)
  unfolding store_one
  store_one-HasIngests identity note_id att raw =
      let detected = mime_of v att raw in
      let filename = or_default att.filename (codes "upload.bin") in
      let safe_name = v.safe_filename filename in
      let key = v.generate_storage_key (str identity.workspace_id) safe_name in
      >>=-Keeps {B = AttachmentResult} HasIngests
        (validate_file v.suffix filename (length raw) detected) _
        (validate_file-Keeps HasIngests v.suffix filename (length raw) detected)
        (λ u.
          >>=-Keeps HasIngests (from_result (v.upload key raw detected)) _ (λ w h. h)
            (λ u1.
              >>=-Keeps HasIngests (create_row v identity safe_name detected raw key) _ (λ w h. h)
                (λ row.
                  >>=-Keeps HasIngests (link_row v identity note_id row) _ (λ w h. h)
                    (λ u2.
                      >>=-Keeps HasIngests
                        (emit_file_uploaded_side_effects v identity.workspace_id identity.user_id
                          row)
                        (λ u3. pure (AttachmentResult.attached safe_name row.id)) (λ w h. h)
                        (λ u3 w h. h)))))

  store_decoded-HasIngests :
      (identity : ResolvedIdentity) (note_id : ℕ) (att : InboundAttachmentIn) (raw : Option Text)
      → Keeps HasIngests (store_decoded v identity note_id att raw)
  store_decoded-HasIngests identity note_id att none = λ w h. h
  store_decoded-HasIngests identity note_id att (some raw) =
      λ w h. store_one-HasIngests identity note_id att raw w h

  store_attachments-HasIngests :
      (identity : ResolvedIdentity) (note_id : ℕ) (atts : List InboundAttachmentIn)
      → Keeps HasIngests (store_attachments v identity note_id atts)
  unfolding store_attachments
  store_attachments-HasIngests identity note_id [] = λ w h. h
  store_attachments-HasIngests identity note_id (att ∷ atts) =
      >>=-Keeps HasIngests (store_decoded v identity note_id att (v.b64decode att.content_base64)) _
        (store_decoded-HasIngests identity note_id att (v.b64decode att.content_base64))
        (λ result.
          >>=-Keeps HasIngests (store_attachments v identity note_id atts) _
            (store_attachments-HasIngests identity note_id atts) (λ results w h. h))

  emit_upsert-HasIngests : (m : Inbound) (note : Note) → Keeps HasIngests (emit_upsert v m note)
  emit_upsert-HasIngests m note =
      if-Keeps HasIngests (truthy (v.strip m.body)) _ _ (λ w h. h) (λ w h. h)

  emit_all-HasIngests :
      (m : Inbound) (note : Note) → Keeps HasIngests (emit_note_created_side_effects v m note)
  emit_all-HasIngests m note =
      >>=-Keeps HasIngests (emit_upsert v m note) (λ u. emit_created v m note)
        (emit_upsert-HasIngests m note) (λ u w h. h)

  attach_all-HasIngests : (m : Inbound) (note : Note) → Keeps HasIngests (attach_all v m note)
  attach_all-HasIngests m note =
      >>=-Keeps {B = Note × List AttachmentResult} HasIngests
        (store_attachments v m.identity note.id m.attachments) (λ results. pure (note, results))
        (store_attachments-HasIngests m.identity note.id m.attachments) (λ results w h. h)

  pub store_message-HasIngests : (m : Inbound) → Keeps HasIngests (store_message v m)
  store_message-HasIngests m =
      >>=-Keeps HasIngests (create_note v m.identity (title_for v m) m.body) (after_create v m)
        (λ w h. h)
        (λ note.
          >>=-Keeps HasIngests (emit_note_created_side_effects v m note) (λ u. attach_all v m note)
            (emit_all-HasIngests m note) (λ u. attach_all-HasIngests m note))
