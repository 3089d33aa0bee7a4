-- ===== src/Auth/Security.antt =====
-- auth/security.py: password hashes and the creation of tokens; and the state that the handlers of
-- auth/ work on.
use system_dashnote.Prelude.{ℕ, ◌+◌, ◌*◌, Bool, false, none, some, ltb, if◌then◌else◌}
use system_dashnote.Prelude.Text.{Text}
use system_dashnote.Prelude.Exec.{Exec, value_error, ok, pure, gets, raise, ◌>>=◌}
use system_dashnote.Tokens.Store.{TokenStore}
use system_dashnote.Auth.Platform.{Platform, Claims}

-- The token store, the tables, the clock, and the number of random draws so far.
pub record World (p : Platform) : Type 0 where
  pub store : TokenStore p.client
  pub users : p.users.State
  pub memberships : p.memberships.State
  pub workspaces : p.workspaces.State
  pub clock : ℕ
  pub draws : ℕ

module _ (p : Platform) where
  -- a number that no earlier draw had
  abbrev pub draw : Exec (World p) ℕ
  draw w = (ok w.draws, record w { draws = w.draws + 1 })

  unfoldable pub password_too_long : Text → Bool
  password_too_long password = ltb 72 (p.byte_length password)

  unfoldable pub hash_password : Text → Exec (World p) Text
  unfolding password_too_long
  hash_password password =
      if password_too_long password
      then raise value_error
      else do n ← draw; pure (p.hash n password)

  unfoldable pub verify_password : Text → Text → Bool
  unfolding password_too_long
  verify_password password hashed =
      if password_too_long password then false else p.verify password hashed

  -- `payload.setdefault("jti", str(uuid4()))`
  abbrev with_jti : Claims → Exec (World p) Claims
  with_jti claims = elim claims.jti [
    | some j ↦ pure claims
    | none ↦ do n ← draw; pure (record claims { jti = some (p.uuid n) })
  ]

  unfoldable pub create_access_token : Claims → Exec (World p) p.Token
  create_access_token claims = do
    payload ← with_jti claims
    now ← gets (λ w. w.clock)
    pure (
        p.encode (record payload { typ = some "access"; exp = some (now + 15 * 60) })
          p.access_secret)

  unfoldable pub create_refresh_token : Claims → Exec (World p) p.Token
  create_refresh_token claims = do
    payload ← with_jti claims
    now ← gets (λ w. w.clock)
    pure (
        p.encode (record payload { typ = some "refresh"; exp = some (now + 30 * 86400) })
          p.refresh_secret)
