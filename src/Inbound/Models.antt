-- ===== src/Inbound/Models.antt =====
-- integrations/models.py and integrations/schemas.py, and the world of the inbound handlers.
use system_dashnote.Prelude.{ℕ, String, Bool, Option, List}
use system_dashnote.Prelude.Text.{Text}
use system_dashnote.Prelude.Exec.{Result}
use system_dashnote.Database.{Table}
use system_dashnote.Auth.Models.{User, WorkspaceUser}
use system_dashnote.Notes.Router.{Job}
use system_dashnote.Files.Repository.{Tables, Session}

pub record InboundIdempotency : Type 0 where
  pub channel : Text
  pub provider_message_id : Text
  pub note_id : ℕ
  pub workspace_id : ℕ
  pub user_id : ℕ

pub record WhatsAppIdentityLink : Type 0 where
  pub id : ℕ
  pub user_id : ℕ
  pub phone : Text
  pub wa_id : Option Text
  pub pending_code : Option Text
  pub verified_at : Option ℕ

pub record ResolvedIdentity : Type 0 where
  pub user_id : ℕ
  pub workspace_id : ℕ
  pub role : String
  pub email : Option String

pub record InboundAttachmentIn : Type 0 where
  pub filename : Text
  pub content_base64 : Text
  pub content_type : Option Text

pub record EmailInboundRequest : Type 0 where
  pub message_id : Text
  pub from_email : String
  pub subject : Option Text
  pub body : Text
  pub attachments : List InboundAttachmentIn

pub data AttachmentResult : Type 0 where
  attached : (filename : Text) (file_id : ℕ) → AttachmentResult
  rejected : (filename : Text) (reason : String) → AttachmentResult

pub record InboundIngestResponse : Type 0 where
  pub note_id : ℕ
  pub workspace_id : ℕ
  pub user_id : ℕ
  pub title : Text
  pub duplicate : Bool
  pub attachments : List AttachmentResult
  pub agentic : Bool

-- What is handed to the queue.
pub data Effect : Type 0 where
  note_job : Job → Effect
  file_uploaded :
      (workspace_id file_id uploaded_by : Text) (file_name mime_type : Text) (size_bytes : ℕ)
      (is_private : Bool)
      → Effect

-- The parameters: the tables, what Python and its libraries do, the store of the files, and
-- settings.
pub record Services : Type 1 where
  pub tables : Tables
  pub users : Table User
  pub members : Table WorkspaceUser
  pub links : Table WhatsAppIdentityLink
  pub ingests : Table InboundIdempotency
  pub strip_email : String → String
  pub lower_email : String → String
  pub strip : Text → Text
  -- `str.isdigit` of one character
  pub is_digit : ℕ → Bool
  -- `s.splitlines()[0]` of a text that is not empty
  pub first_line : Text → Text
  pub b64decode : Text → Option Text
  pub detect_mime_type : Text → Text
  pub suffix : Text → Text
  pub safe_filename : Text → Text
  pub generate_storage_key : Text → Text → Text
  pub upload : Text → Text → Text → Result (Unit {0})
  -- `enrich_title_and_tags`: the title that the language model proposes, if it is asked and answers
  pub enrich_title : Option Text → Text → ℕ → Option Text
  pub ai_enabled : Bool

module _ (v : Services) where
  pub record World : Type 0 where
    pub session : Session v.tables
    pub users : v.users.State
    pub members : v.members.State
    pub links : v.links.State
    pub ingests : v.ingests.State
    pub effects : List Effect
    pub now : ℕ
