-- ===== src/Inbound/Ingest.antt =====
-- integrations/ingest.py, integrations/idempotency.py and dump_title of integrations/enrich.py. Tags
-- are not modelled, and one request is served at a time.
use system_dashnote.Prelude.{
  ℕ, Bool, true, false, ◌&&◌, Option, none, some, List, [], take, if◌then◌else◌,
}
use system_dashnote.Prelude.Text.{Text, codes, str, text_eq}
use system_dashnote.Prelude.Exec.{Exec, ok, pure, modify, ◌>>=◌, ◌>>◌}
use system_dashnote.Database.{one_or_none}
use system_dashnote.Threads.Service.{truthy}
use system_dashnote.Notes.Models.{Note}
use system_dashnote.Notes.Repository
use system_dashnote.Notes.Router.{Job}
use system_dashnote.Inbound.Models.{
  Services, World, ResolvedIdentity, InboundAttachmentIn, InboundIdempotency, InboundIngestResponse,
  EmailInboundRequest, Effect, AttachmentResult,
}
use system_dashnote.Inbound.Attachments.{emit, store_attachments}

abbrev or_empty : Option Text → Text
or_empty none = []
or_empty (some s) = s

-- An inbound message, as `ingest_text_message` takes it.
pub record Inbound : Type 0 where
  pub channel : Text
  pub provider_message_id : Text
  pub identity : ResolvedIdentity
  pub subject : Option Text
  pub body : Text
  pub attachments : List InboundAttachmentIn

module _ (v : Services) where
  abbrev fallback_title : Text → Text
  fallback_title body =
      let line = if truthy (v.strip body) then v.first_line (v.strip body) else [] in
      if truthy line then take 80 line else codes "Inbound note"

  unfoldable pub dump_title : Option Text → Text → Text
  dump_title subject body =
      let title = v.strip (or_empty subject) in
      if truthy title then take 255 title else fallback_title body

  -- the key of the table
  abbrev pub is_key : Text → Text → InboundIdempotency → Bool
  is_key channel provider_message_id row =
      text_eq row.channel channel && text_eq row.provider_message_id provider_message_id

  unfoldable pub get_existing_ingest : Text → Text → Exec (World v) (Option InboundIdempotency)
  get_existing_ingest channel provider_message_id w =
      (one_or_none (v.ingests.fetch (is_key channel provider_message_id) w.ingests), w)

  abbrev pub record_ingest : InboundIdempotency → Exec (World v) Unit
  record_ingest row = modify (λ w. record w { ingests = v.ingests.insert row w.ingests })

  abbrev pub title_of : Option Note → Text
  title_of none = codes "Inbound note"
  title_of (some note) = note.title

  abbrev pub get_note : ℕ → ℕ → Exec (World v) (Option Note)
  get_note workspace_id note_id w =
      (Repository.get v.tables.notes workspace_id note_id w.session.notes, w)

  abbrev pub answer_duplicate : InboundIdempotency → Exec (World v) InboundIngestResponse
  answer_duplicate existing = do
    note ← get_note existing.workspace_id existing.note_id
    pure record {
      note_id = existing.note_id;
      workspace_id = existing.workspace_id;
      user_id = existing.user_id;
      title = title_of note;
      duplicate = true;
      attachments = [];
      agentic = false;
    }

  -- an IndexingRequest with a blank content does not validate, which is logged
  abbrev pub emit_upsert : Inbound → Note → Exec (World v) Unit
  emit_upsert m note =
      let job =
        Job.embed_upsert (str note.id) (str m.identity.workspace_id) (str m.identity.user_id)
          note.is_private note.title m.body in
      if truthy (v.strip m.body) then emit v (Effect.note_job job) else pure tt

  abbrev pub emit_created : Inbound → Note → Exec (World v) Unit
  emit_created m note = emit v (
      Effect.note_job (
        Job.note_created (str m.identity.workspace_id) (str note.id) (str m.identity.user_id)
          note.is_private note.title m.body))

  abbrev pub emit_note_created_side_effects : Inbound → Note → Exec (World v) Unit
  emit_note_created_side_effects m note = do emit_upsert m note; emit_created m note

  abbrev or_title : Option Text → Text → Text
  or_title none title = title
  or_title (some enriched) title = enriched

  abbrev is_some : Option Text → Bool
  is_some none = false
  is_some (some s) = true

  abbrev pub create_note : ResolvedIdentity → Text → Text → Exec (World v) Note
  create_note identity title content w =
      let (note, notes) =
        Repository.create v.tables.notes identity.workspace_id identity.user_id title content false
          w.session.notes in
      (ok note, record w { session = record w.session { notes = notes } })

  abbrev pub title_for : Inbound → Text
  title_for m =
      or_title (v.enrich_title m.subject m.body m.identity.workspace_id)
        (dump_title m.subject m.body)

  abbrev pub attach_all : Inbound → Note → Exec (World v) (Note × List AttachmentResult)
  attach_all m note = do
    attachment_results ← store_attachments v m.identity note.id m.attachments
    pure (note, attachment_results)

  abbrev pub after_create : Inbound → Note → Exec (World v) (Note × List AttachmentResult)
  after_create m note = do emit_note_created_side_effects m note; attach_all m note

  -- a new message, up to `record_ingest`
  abbrev pub store_message : Inbound → Exec (World v) (Note × List AttachmentResult)
  store_message m = do note ← create_note m.identity (title_for m) m.body; after_create m note

  abbrev pub row_for : Inbound → Note → InboundIdempotency
  row_for m note = record {
    channel = m.channel;
    provider_message_id = m.provider_message_id;
    note_id = note.id;
    workspace_id = m.identity.workspace_id;
    user_id = m.identity.user_id;
  }

  unfoldable pub ingest_new : Inbound → Exec (World v) InboundIngestResponse
  ingest_new m = do
    (note, attachment_results) ← store_message m
    record_ingest (row_for m note)
    pure record {
      note_id = note.id;
      workspace_id = m.identity.workspace_id;
      user_id = m.identity.user_id;
      title = note.title;
      duplicate = false;
      attachments = attachment_results;
      agentic = is_some (v.enrich_title m.subject m.body m.identity.workspace_id);
    }

  abbrev pub new_or_known :
      Inbound → Option InboundIdempotency → Exec (World v) InboundIngestResponse
  new_or_known m none = ingest_new m
  new_or_known m (some existing) = answer_duplicate existing

  unfoldable pub ingest_text_message : Inbound → Exec (World v) InboundIngestResponse
  ingest_text_message m = do
    existing ← get_existing_ingest m.channel m.provider_message_id
    new_or_known m existing

  abbrev pub ingest_email :
      EmailInboundRequest → ResolvedIdentity → Exec (World v) InboundIngestResponse
  ingest_email payload identity = ingest_text_message record {
    channel = codes "email";
    provider_message_id = payload.message_id;
    identity = identity;
    subject = payload.subject;
    body = payload.body;
    attachments = payload.attachments;
  }
