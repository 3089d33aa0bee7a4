-- ===== src/Inbound/Tests.antt =====
-- Tests of the inbound messages on concrete tables, and the theorems at those.
use system_dashnote.Prelude.{ℕ, false, some, none, List, [], ◌∷◌, leb, ◌&&◌}
use system_dashnote.Prelude.Text.{Text, codes}
use system_dashnote.Prelude.Exec.{ok}
use system_dashnote.Database.Memory.{table}
use system_dashnote.Database.Keyed.{keyed_table}
use system_dashnote.Database.Keyed
use system_dashnote.Auth.Models.{User, WorkspaceUser, RequestContext}
use system_dashnote.Notes.Models.{Note}
use system_dashnote.Notes.Repository
use system_dashnote.Files.Permissions.{File}
use system_dashnote.Files.Repository.{Attachment}
use system_dashnote.Inbound.Models.{
  Services, World, WhatsAppIdentityLink, InboundIdempotency, InboundIngestResponse,
}
use system_dashnote.Inbound.Ingest.{Inbound, ingest_text_message}
use system_dashnote.Inbound.Router.{Settings}
use system_dashnote.Inbound.Requests.{webhook}
use system_dashnote.Inbound.Requests
use system_dashnote.Inbound.Phones
use system_dashnote.Inbound.Confirm

abbrev services : Services
services = record {
  tables = record { files = table File; notes = table Note; attachments = table Attachment };
  users = table User;
  members = table WorkspaceUser;
  links = keyed_table (λ l. l.id);
  ingests = table InboundIdempotency;
  strip_email = λ s. s;
  lower_email = λ s. s;
  strip = λ s. s;
  is_digit = λ c. leb 48 c && leb c 57;
  first_line = λ s. s;
  b64decode = some;
  detect_mime_type = λ raw. codes "text/plain";
  suffix = λ name. codes ".txt";
  safe_filename = λ name. name;
  generate_storage_key = λ w name. name;
  upload = λ key raw mime. ok tt;
  enrich_title = λ subject body w. none;
  ai_enabled = false;
}

abbrev link : ℕ → Text → WhatsAppIdentityLink
link user phone = record {
  id = user;
  user_id = user;
  phone = phone;
  wa_id = none;
  pending_code = none;
  verified_at = some 1;
}

abbrev start : World services
start = record {
  session = record {
    files = record { rows = []; next_id = 1 };
    notes = record { rows = []; next_id = 1 };
    attachments = record { rows = []; next_id = 1 };
  };
  users = record {
    rows =
        (record {
          id = 7;
          email = "a@b.c";
          password_hash = [];
          inbound_default_workspace_id = none;
        })
        ∷ [];
    next_id = 8;
  };
  members = record {
    rows = (record { user_id = 7; tenant_id = 10; role = "member" }) ∷ [];
    next_id = 1;
  };
  links = link 7 (codes "+1") ∷ [];
  ingests = record { rows = []; next_id = 1 };
  effects = [];
  now = 5;
}

abbrev message : Text → Text → Inbound
message id body = record {
  channel = codes "whatsapp";
  provider_message_id = id;
  identity = record { user_id = 7; workspace_id = 10; role = "member"; email = none };
  subject = none;
  body = body;
  attachments = [];
}

abbrev settings : Settings
settings = record {
  inbound_api_key = [];
  inbound_hmac_secret = [];
  whatsapp_app_secret = codes "s";
  whatsapp_verify_token = [];
  hexdigest = λ secret body. body;
  provided = λ s. s;
  read_messages = λ body. some (
      (record { message_id = codes "m2"; sender = codes "1"; type_ = codes "text"; text = body })
      ∷ []);
}

abbrev after : World services
after = (ingest_text_message services (message (codes "m1") (codes "hello")) start).1

abbrev answered : InboundIngestResponse
answered = record {
  note_id = 1;
  workspace_id = 10;
  user_id = 7;
  title = codes "hello";
  duplicate = false;
  attachments = [];
  agentic = false;
}

-- Between the two deliveries another message arrives.
abbrev requests : List Requests.Request
requests = webhook (codes "hi") (some (codes "hi")) ∷ []

abbrev later : World services
later = Requests.perform_all services settings requests after

abbrev intruder : RequestContext
intruder = record { user_id = 8; workspace_id = 10; role = "member" }
