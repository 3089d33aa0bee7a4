-- ===== src/Threads/Models.antt =====
-- ai_memory/models.py and the response schemas of ai_routes/threads.py.
use system_dashnote.Prelude.{ℕ, ◌≡◌, Bool, Option, some, none, List, []}
use system_dashnote.Prelude.Text.{Text}
use system_dashnote.Database.{Table}

-- A UUID is its number; a time is the number of the transaction of the database that it falls in.
pub record AiThread : Type 0 where
  pub id : ℕ
  pub workspace_id : ℕ
  pub created_by : ℕ
  pub title : Option Text
  pub is_active : Bool
  pub created_at : ℕ
  pub updated_at : ℕ

-- The constraint of the table admits the three roles.
pub data Role : Type 0 where
  user assistant tool : Role

-- `Citation` is a JSON object of the column `citations`.
pub record AiMessage (Citation : Type 0) : Type 0 where
  pub id : ℕ
  pub thread_id : ℕ
  pub role : Role
  pub content : Text
  pub citations : List Citation
  pub token_count : Option ℕ
  pub created_at : ℕ

pub record ThreadResponse : Type 0 where
  pub id : Text
  pub workspace_id : Text
  pub created_by : Text
  pub title : Option Text
  pub is_active : Bool
  pub created_at : Text
  pub updated_at : Text

pub record MessageResponse (Citation : Type 0) : Type 0 where
  pub id : Text
  pub thread_id : Text
  pub role : Role
  pub content : Text
  pub citations : List Citation
  pub token_count : Option ℕ
  pub created_at : Text

-- The parameters: the tables, ORDER BY on them, Python's uuid and str, and a setting.
pub record Services : Type 1 where
  pub Citation : Type 0
  pub threads : Table AiThread
  pub messages : Table (AiMessage Citation)
  -- ORDER BY updated_at DESC
  pub latest_first : List AiThread → List AiThread
  -- ORDER BY created_at ASC
  pub oldest_first : List (AiMessage Citation) → List (AiMessage Citation)
  -- `uuid.UUID(s)`, and `str(id)`
  pub uuid : Text → Option ℕ
  pub uuid_str : ℕ → Text
  pub uuid-uuid_str : (id : ℕ) → uuid (uuid_str id) ≡ some id
  pub uuid-empty : uuid [] ≡ none
  pub isoformat : ℕ → Text
  pub strip : Text → Text
  pub ai_thread_message_limit : ℕ

module _ (v : Services) where
  pub record World : Type 0 where
    pub threads : v.threads.State
    pub messages : v.messages.State
    -- the database's clock
    pub now : ℕ
