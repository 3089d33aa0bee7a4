-- ===== src/Inbound/Attachments.antt =====
-- integrations/ingest.py: _store_attachments, and its side effects (integrations/side_effects.py).
use system_dashnote.Prelude.{
  ℕ, false, Option, none, some, List, [], ◌∷◌, ◌++◌, length, if◌then◌else◌,
}
use system_dashnote.Prelude.Text.{Text, codes, str}
use system_dashnote.Prelude.Exec.{Exec, Exn, ok, err, pure, modify, from_result, ◌>>=◌, ◌>>◌}
use system_dashnote.Threads.Service.{truthy}
use system_dashnote.Files.Permissions.{File}
use system_dashnote.Files.Repository.{Session}
use system_dashnote.Files.Repository
use system_dashnote.Files.Validation.{validate_file}
use system_dashnote.Inbound.Models.{
  Services, World, ResolvedIdentity, InboundAttachmentIn, AttachmentResult, Effect,
}

-- `s or default`
abbrev pub or_default : Text → Text → Text
or_default [] s = s
or_default (c ∷ t) s = c ∷ t

abbrev pub or_empty : Option Text → Text
or_empty none = []
or_empty (some s) = s

-- `except HTTPException` and `except Exception`
abbrev pub rejection : Text → Exn → AttachmentResult
rejection filename (Exn.http status detail) = AttachmentResult.rejected filename detail
rejection filename e = AttachmentResult.rejected filename "Attachment processing failed."

module _ (v : Services) where
  -- a statement of files/repository.py
  abbrev pub in_session : {A : Type 0} → Exec (Session v.tables) A → Exec (World v) A
  in_session m w = let (r, s) = m w.session in (r, record w { session = s })

  abbrev pub emit : Effect → Exec (World v) Unit
  emit e =
      modify (λ w. record w { effects = if v.ai_enabled then w.effects ++ e ∷ [] else w.effects })

  abbrev pub emit_file_uploaded_side_effects : ℕ → ℕ → File → Exec (World v) Unit
  emit_file_uploaded_side_effects workspace_id user_id f = emit (
      Effect.file_uploaded (str workspace_id) (str f.id) (str user_id) f.name f.mime_type
        f.size_bytes f.is_private)

  abbrev pub mime_of : InboundAttachmentIn → Text → Text
  mime_of att raw = if truthy raw then v.detect_mime_type raw else or_empty att.content_type

  abbrev pub create_row : ResolvedIdentity → Text → Text → Text → Text → Exec (World v) File
  create_row identity safe_name detected raw key w =
      in_session
        (Repository.create v.tables w.now identity.workspace_id identity.user_id
          record {
            name = safe_name;
            mime_type = detected;
            size_bytes = length raw;
            is_private = false;
            description = some (codes "Inbound attachment");
          }
          key)
        w

  abbrev pub link_row : ResolvedIdentity → ℕ → File → Exec (World v) Unit
  link_row identity note_id row =
      in_session (Repository.link_to_note v.tables identity.workspace_id note_id row.id)

  -- the body of the second `try`
  unfoldable pub store_one :
      ResolvedIdentity → ℕ → InboundAttachmentIn → Text → Exec (World v) AttachmentResult
  store_one identity note_id att raw = do
    let detected = mime_of att raw
    let filename = or_default att.filename (codes "upload.bin")
    validate_file v.suffix filename (length raw) detected
    let safe_name = v.safe_filename filename
    let key = v.generate_storage_key (str identity.workspace_id) safe_name
    from_result (v.upload key raw detected)
    row ← create_row identity safe_name detected raw key
    link_row identity note_id row
    emit_file_uploaded_side_effects identity.workspace_id identity.user_id row
    pure (AttachmentResult.attached safe_name row.id)

  -- what was written before an exception stays written
  abbrev pub caught : Text → Exec (World v) AttachmentResult → Exec (World v) AttachmentResult
  caught filename m w =
      let (r, w') = m w in (elim r [ ok a ↦ ok a | err e ↦ ok (rejection filename e) ], w')

  abbrev pub store_decoded :
      ResolvedIdentity → ℕ → InboundAttachmentIn → Option Text → Exec (World v) AttachmentResult
  store_decoded identity note_id att none =
      pure (AttachmentResult.rejected att.filename "Invalid base64 content.")
  store_decoded identity note_id att (some raw) =
      caught att.filename (store_one identity note_id att raw)

  unfoldable pub store_attachments :
      ResolvedIdentity → ℕ → List InboundAttachmentIn → Exec (World v) (List AttachmentResult)
  store_attachments identity note_id [] = pure []
  store_attachments identity note_id (att ∷ atts) = do
    result ← store_decoded identity note_id att (v.b64decode att.content_base64)
    results ← store_attachments identity note_id atts
    pure (result ∷ results)
