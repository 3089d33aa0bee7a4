-- ===== src/Auth/Context.antt =====
-- core/security/dependency.py and permissions.py: from a bearer token to the context of a request.
use system_dashnote.Prelude.{
  Bool, true, not, Option, none, some, String, List, str_eq, if◌then◌else◌, any_of,
}
use system_dashnote.Prelude.Exec.{
  Exec, Exn, http, key_error, value_error, jwt_error, Result, ok, err, pure, gets, raise, raise_if,
  or_raise, ◌>>=◌, ◌>>◌,
}
use system_dashnote.Tokens.Store.{is_access_token_blacklisted}
use system_dashnote.Auth.Models.{RequestContext}
use system_dashnote.Auth.Platform.{Platform}
use system_dashnote.Auth.Security.{World}

-- `payload.get(claim) != text`
abbrev pub claim_ne : Option String → String → Bool
claim_ne none t = true
claim_ne (some s) t = not (str_eq s t)

module _ (p : Platform) where
  context_in_try : p.Token → Exec (World p) RequestContext
  context_in_try token = do
    now ← gets (λ w. w.clock)
    payload ← or_raise (p.decode now p.access_secret token) jwt_error
    raise_if (claim_ne payload.typ "access") (http 401 "Invalid access token type")
    jti ← or_raise payload.jti key_error
    revoked ← gets (λ w. is_access_token_blacklisted p.client jti w.store)
    raise_if revoked (http 401 "Token has been revoked")
    sub ← or_raise payload.sub key_error
    user_id ← or_raise (p.int sub) value_error
    wid ← or_raise payload.wid key_error
    workspace_id ← or_raise (p.int wid) value_error
    role ← or_raise payload.role key_error
    pure (record { user_id = user_id; workspace_id = workspace_id; role = role })

  -- `except (JWTError, KeyError, ValueError)`
  abbrev invalid_or_expired : Exn → Exn
  invalid_or_expired jwt_error = http 401 "Invalid or expired token"
  invalid_or_expired key_error = http 401 "Invalid or expired token"
  invalid_or_expired value_error = http 401 "Invalid or expired token"
  invalid_or_expired e = e

  abbrev on_error : {A : Type 0} → (Exn → Exn) → Result A → Result A
  on_error f (ok a) = ok a
  on_error f (err e) = err (f e)

  unfoldable pub context_from_access_token : p.Token → Exec (World p) RequestContext
  unfolding context_in_try
  context_from_access_token token w =
      let (r, w') = context_in_try token w in (on_error invalid_or_expired r, w')

  abbrev none_on_http : Result RequestContext → Result (Option RequestContext)
  none_on_http (ok ctx) = ok (some ctx)
  none_on_http (err (http s d)) = ok none
  none_on_http (err e) = err e

  unfoldable pub get_optional_current_context :
      Option p.Token → Exec (World p) (Option RequestContext)
  unfolding context_from_access_token
  get_optional_current_context none w = (ok none, w)
  get_optional_current_context (some token) w =
      let (r, w') = context_from_access_token token w in (none_on_http r, w')

-- `require_roles(*allowed_roles)`: the checker that it returns
unfoldable pub require_roles : {S : Type 0} → List String → RequestContext → Exec S RequestContext
require_roles allowed_roles ctx =
    if any_of (str_eq ctx.role) allowed_roles
    then pure ctx
    else raise (http 403 "Insufficient permissions")
