-- ===== src/Auth/Memory.antt =====
-- A platform in memory: it shows that the assumptions on jose, passlib and the others can be met,
-- and runs the tests. Its hashes and signatures are of course not secure.
use system_dashnote.Prelude.{
  ℕ, ◌≤◌, ◌≡◌, refl, ◌≢◌, Bool, true, ◌&&◌, Option, none, some, [], ◌∷◌, arith, leb, ◌==◌,
  if◌then◌else◌, length,
}
use system_dashnote.Prelude.Text.{
  Text, text_eq, text_eq_refl, str, read_decimal, read_decimal-str, str-injective,
}
use system_dashnote.Redis.Memory.{memory}
use system_dashnote.Database.Memory.{table}
use system_dashnote.Auth.Models.{User, WorkspaceUser, Workspace}
use system_dashnote.Auth.Platform.{Platform, Claims}

abbrev pub not_expired : ℕ → Option ℕ → Bool
not_expired now none = true
not_expired now (some e) = leb now e

abbrev pub decode_signed : ℕ → ℕ → Claims × ℕ → Option Claims
decode_signed now k (c, k') = if k == k' && not_expired now c.exp then some c else none

pub decode_signed-lem :
    (c : Claims) (k now exp : ℕ)
    → c.exp ≡ some exp
    → now ≤ exp
    → decode_signed now k (c, k) ≡ some c
decode_signed-lem c k now exp e h = rw e (ground arith)

abbrev pub parse : Text → Option ℕ
parse s = if text_eq (str (read_decimal s)) s then some (read_decimal s) else none

pub parse-str : (n : ℕ) → parse (str n) ≡ some n
parse-str n = rw (read_decimal-str, text_eq_refl) refl

pub one-ne-nil : ◌≢◌ {A = Text} (97 ∷ []) []
one-ne-nil e = cc

abbrev pub platform : Platform
platform = record {
  client = memory;
  users = table User;
  memberships = table WorkspaceUser;
  workspaces = table Workspace;
  Token = Claims × ℕ;
  Secret = ℕ;
  access_secret = 1;
  refresh_secret = 2;
  encode = λ c k. (c, k);
  decode = decode_signed;
  decode-encode = decode_signed-lem;
  int = parse;
  int-str = parse-str;
  uuid = str;
  uuid_distinct = str-injective;
  token_urlsafe = str;
  byte_length = length;
  hash = λ n password. password;
  verify = text_eq;
  verify-hash = λ n password. text_eq_refl password;
  sha256_hex = λ s. 97 ∷ [];
  sha256_hex-IsHex = λ s. (omega arith, tt);
  sha256_hex-ne-nil = λ s. one-ne-nil;
}
