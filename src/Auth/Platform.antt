-- ===== src/Auth/Platform.antt =====
-- What auth/ calls and does not implement: JSON web tokens (jose), password hashes (passlib),
-- SHA-256, random identifiers, Redis and the database.
use system_dashnote.Prelude.{ℕ, ◌≤◌, ◌≡◌, ◌≢◌, Bool, true, Option, some, String, [], All}
use system_dashnote.Prelude.Text.{Text, str}
use system_dashnote.Redis.{Redis}
use system_dashnote.Database.{Table}
use system_dashnote.Tokens.Keys.{IsHex}
use system_dashnote.Auth.Models.{User, WorkspaceUser, Workspace}

-- The payload of a token: each claim is there or not. `exp` is in seconds.
pub record Claims : Type 0 where
  pub sub : Option Text
  pub wid : Option Text
  pub role : Option String
  pub jti : Option Text
  pub typ : Option String
  pub exp : Option ℕ

pub record Platform : Type 1 where
  pub client : Redis
  pub users : Table User
  pub memberships : Table WorkspaceUser
  pub workspaces : Table Workspace
  -- jose: a token is decoded with a secret at a time; `none` is a JWTError
  pub Token : Type 0
  pub Secret : Type 0
  pub access_secret : Secret
  pub refresh_secret : Secret
  pub encode : Claims → Secret → Token
  pub decode : ℕ → Secret → Token → Option Claims
  -- what was signed with a secret and has not expired is decoded with it
  pub decode-encode :
      (c : Claims) (k : Secret) (now exp : ℕ)
      → c.exp ≡ some exp
      → now ≤ exp
      → decode now k (encode c k) ≡ some c
  -- `int(s)`; `none` is a ValueError
  pub int : Text → Option ℕ
  pub int-str : (n : ℕ) → int (str n) ≡ some n
  -- `str(uuid4())` and the salts and secrets, by the number of the draw
  pub uuid : ℕ → Text
  pub uuid_distinct : (m n : ℕ) → uuid m ≡ uuid n → m ≡ n
  pub token_urlsafe : ℕ → Text
  -- passlib, by the number of the draw for the salt; UTF-8 length in bytes
  pub byte_length : Text → ℕ
  pub hash : ℕ → Text → Text
  pub verify : Text → Text → Bool
  pub verify-hash : (n : ℕ) (password : Text) → verify password (hash n password) ≡ true
  pub sha256_hex : Text → Text
  pub sha256_hex-IsHex : (s : Text) → All IsHex (sha256_hex s)
  pub sha256_hex-ne-nil : (s : Text) → sha256_hex s ≢ []
