-- ===== src/Auth/Router.antt =====
-- auth/router.py: the handlers of /auth. The rate limits that stand in front of them are in
-- RateLimit; sending the mail with the reset link is not modelled.
use system_dashnote.Prelude.{
  ℕ, ◌-◌, not, Option, none, some, String, List, [], ◌∷◌, max, if◌then◌else◌,
}
use system_dashnote.Prelude.Text.{Text, str}
use system_dashnote.Prelude.Exec.{
  Exec, http, key_error, value_error, jwt_error, index_error, invalid_current_password,
  password_policy, Result, ok, err, pure, gets, modify, raise, raise_if, or_raise, ◌>>=◌, ◌>>◌,
}
use system_dashnote.Tokens.Store.{
  TokenStore, store_refresh_token, is_refresh_token_active, revoke_refresh_token,
  revoke_all_refresh_tokens, blacklist_access_token,
}
use system_dashnote.Auth.Models.{User, WorkspaceUser, RequestContext}
use system_dashnote.Auth.Platform.{Platform, Claims}
use system_dashnote.Auth.Security.{World, create_access_token, create_refresh_token}
use system_dashnote.Auth.Context.{claim_ne}
use system_dashnote.Auth.Service.{
  register_user, authenticate_user, change_password, request_password_reset,
  reset_password_with_token, workspaces_of,
}

-- `_token_ttl_seconds`
unfoldable pub token_ttl_seconds : Claims → ℕ → ℕ
token_ttl_seconds payload now = elim payload.exp [ none ↦ 1 | some exp ↦ max 1 (exp - now) ]

module _ (p : Platform) where
  pub record TokenResponse : Type 0 where
    pub access_token : p.Token
    pub refresh_token : p.Token

  abbrev pub update_store : (TokenStore p.client → TokenStore p.client) → Exec (World p) Unit
  update_store f = modify (λ w. record w { store = f w.store })

  -- what register, login, refresh and change-password share: two tokens for a payload, the second
  -- of which is recorded in the store
  unfoldable pub issue_tokens : Claims → Exec (World p) TokenResponse
  unfolding create_access_token create_refresh_token token_ttl_seconds
  issue_tokens payload = do
    access_token ← create_access_token p payload
    refresh_token ← create_refresh_token p payload
    now ← gets (λ w. w.clock)
    refresh_payload ← or_raise (p.decode now p.refresh_secret refresh_token) jwt_error
    sub ← or_raise refresh_payload.sub key_error
    user_id ← or_raise (p.int sub) value_error
    jti ← or_raise refresh_payload.jti key_error
    update_store (store_refresh_token p.client user_id jti (token_ttl_seconds refresh_payload now))
    pure (record { access_token = access_token; refresh_token = refresh_token })

  abbrev pub payload_of : Text → Text → String → Claims
  payload_of sub wid role = record {
    sub = some sub;
    wid = some wid;
    role = some role;
    jti = none;
    typ = none;
    exp = none;
  }

  abbrev bad_request_on_value_error : {A : Type 0} → Result A → Result A
  bad_request_on_value_error (ok a) = ok a
  bad_request_on_value_error (err value_error) =
      err (http 400 "Password must be <= 72 bytes for bcrypt")
  bad_request_on_value_error (err e) = err e

  abbrev pub handled : {A : Type 0} → (Result A → Result A) → Exec (World p) A → Exec (World p) A
  handled f m w = let (r, w') = m w in (f r, w')

  unfoldable pub register : String → Text → String → Exec (World p) TokenResponse
  unfolding register_user issue_tokens
  register email password workspace_name = do
    (user, workspace, membership) ←
        handled bad_request_on_value_error (register_user p email password workspace_name)
    issue_tokens (payload_of (str user.id) (str workspace.id) membership.role)

  abbrev pub first_workspace : List WorkspaceUser → Exec (World p) WorkspaceUser
  first_workspace [] = raise index_error
  first_workspace (m ∷ ms) = pure m

  -- `_tokens_for_user`
  unfoldable pub tokens_for_user : User → Exec (World p) TokenResponse
  unfolding workspaces_of issue_tokens
  tokens_for_user user = do
    members ← workspaces_of p user
    membership ← first_workspace members
    issue_tokens (payload_of (str user.id) (str membership.tenant_id) membership.role)

  unfoldable pub login : String → Text → Exec (World p) TokenResponse
  unfolding authenticate_user tokens_for_user
  login email password = do
    found ← authenticate_user p email password
    user ← or_raise found (http 401 "Invalid credentials")
    tokens_for_user user

  unfoldable pub refresh_tokens : p.Token → Exec (World p) TokenResponse
  unfolding issue_tokens
  refresh_tokens refresh_token = do
    now ← gets (λ w. w.clock)
    payload ←
        or_raise (p.decode now p.refresh_secret refresh_token)
          (http 401 "Invalid or expired refresh token")
    raise_if (claim_ne payload.typ "refresh") (http 401 "Invalid refresh token type")
    sub ← or_raise payload.sub (http 401 "Malformed refresh token")
    user_id ← or_raise (p.int sub) (http 401 "Malformed refresh token")
    jti ← or_raise payload.jti (http 401 "Malformed refresh token")
    wid ← or_raise payload.wid (http 401 "Malformed refresh token")
    role ← or_raise payload.role (http 401 "Malformed refresh token")
    active ← gets (λ w. is_refresh_token_active p.client user_id jti w.store)
    raise_if (not active) (http 401 "Refresh token revoked or unknown")
    update_store (revoke_refresh_token p.client user_id jti)
    issue_tokens (payload_of (str user_id) wid role)

  -- `except JWTError: pass`
  abbrev pub logout_refresh : Option Claims → Exec (World p) Unit
  logout_refresh none = pure tt
  logout_refresh (some payload) = if claim_ne payload.typ "refresh" then pure tt else do
    sub ← or_raise payload.sub key_error
    user_id ← or_raise (p.int sub) value_error
    jti ← or_raise payload.jti key_error
    update_store (revoke_refresh_token p.client user_id jti)

  abbrev pub logout_data : Option p.Token → Exec (World p) Unit
  logout_data none = pure tt
  logout_data (some refresh_token) = do
    now ← gets (λ w. w.clock)
    logout_refresh (p.decode now p.refresh_secret refresh_token)

  unfoldable pub logout : Option p.Token → p.Token → Exec (World p) Unit
  unfolding token_ttl_seconds
  logout refresh_token access_token = do
    now ← gets (λ w. w.clock)
    payload ←
        or_raise (p.decode now p.access_secret access_token)
          (http 401 "Invalid or expired access token")
    raise_if (claim_ne payload.typ "access") (http 401 "Invalid access token type")
    jti ← or_raise payload.jti key_error
    update_store (blacklist_access_token p.client jti (token_ttl_seconds payload now))
    logout_data refresh_token

  abbrev pub on_password_error : {A : Type 0} → Result A → Result A
  on_password_error (ok a) = ok a
  on_password_error (err invalid_current_password) = err (http 401 "Invalid credentials")
  on_password_error (err (password_policy message)) = err (http 400 message)
  on_password_error (err e) = err e

  unfoldable pub change_password_route : RequestContext → Text → Text → Exec (World p) TokenResponse
  unfolding change_password tokens_for_user
  change_password_route ctx current_password new_password = do
    user ← handled on_password_error (change_password p ctx.user_id current_password new_password)
    update_store (revoke_all_refresh_tokens p.client user.id)
    tokens_for_user user

  -- the address and token that are mailed, if any, and the answer
  unfoldable pub forgot_password : String → Exec (World p) (Option (String × Text) × String)
  unfolding request_password_reset
  forgot_password email = do
    raw_token ← request_password_reset p email
    pure (
      elim raw_token [ none ↦ none | some raw ↦ some (email, raw) ],
      "If an account exists, we sent a reset link.",
    )

  abbrev pub on_policy_error : {A : Type 0} → Result A → Result A
  on_policy_error (ok a) = ok a
  on_policy_error (err (password_policy message)) = err (http 400 message)
  on_policy_error (err e) = err e

  unfoldable pub reset_password : Text → Text → Exec (World p) Unit
  unfolding reset_password_with_token
  reset_password token new_password = do
    user ← handled on_policy_error (reset_password_with_token p token new_password)
    update_store (revoke_all_refresh_tokens p.client user.id)
