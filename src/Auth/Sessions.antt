-- ===== src/Auth/Sessions.antt =====
-- What a client can rely on across requests to /auth: an access token opens its context until it
-- is logged out, a refresh token works once, and a new password ends the sessions of the user.
use system_dashnote.Prelude.{
  ℕ, ◌+◌, ◌≡◌, ◌≢◌, refl, ◌∙◌, inl, inr, false, Option, some, String, arith, Bool-cases,
  if◌then◌else◌, ==_refl,
}
use system_dashnote.Prelude.Text.{Text, str, text_eq_refl, text_eq_ne}
use system_dashnote.Prelude.Exec.{http, ok, err}
use system_dashnote.Tokens.Store.{redis, is_refresh_token_active, revoke_refresh_token}
use system_dashnote.Tokens.Refresh.{is_active-revoke_refresh_token, is_active-store_refresh_token}
use system_dashnote.Redis.{Redis}
use system_dashnote.Auth.Platform.{Platform, Claims}
use system_dashnote.Auth.Security.{World}
use system_dashnote.Auth.Router.{refresh_tokens}
use system_dashnote.Auth.Issue.{issued, after_issue, issue_tokens_lem}

module _ (p : Platform) where
  -- The claims of a refresh token that this code issued.
  abbrev pub refresh_payload : ℕ → Text → Text → String → Option ℕ → Claims
  refresh_payload u j wid role e = record {
    sub = some (str u);
    wid = some wid;
    role = some role;
    jti = some j;
    typ = some "refresh";
    exp = e;
  }

  -- The world after the refresh token `j` of `u` was exchanged.
  abbrev pub after_refresh : ℕ → Text → World p → World p
  after_refresh u j w =
      after_issue p u (record w { store = revoke_refresh_token p.client u j w.store })

  -- `/refresh` with a well-formed token: it is exchanged if it is active, and answered with 401
  -- and no change of state if it is not. The new tokens carry the workspace and role of the old
  -- one; the tables are not read.
  pub refresh_tokens_lem :
      (u : ℕ) (j wid : Text) (role : String) (e : Option ℕ) (token : p.Token) (w : World p)
      → p.decode w.clock p.refresh_secret token ≡ some (refresh_payload u j wid role e)
      → refresh_tokens p token w ≡ (
          if is_refresh_token_active p.client u j w.store
          then (ok (issued p u wid role w), after_refresh u j w)
          else (err (http 401 "Refresh token revoked or unknown"), w))
  unfolding refresh_tokens
  refresh_tokens_lem u j wid role e token w d = ground (
    arith,
    p.int-str u,
    issue_tokens_lem p u wid role (record w { store = revoke_refresh_token p.client u j w.store }),
  )

  spent :
      (u : ℕ) (j : Text) (w : World p) (s : p.client.Store)
      → w.store ≡ redis s
      → p.uuid (w.draws + 1) ≢ j
      → is_refresh_token_active p.client u j (after_refresh u j w).store ≡ false
  unfolding revoke_refresh_token
  spent u j w s stored fresh = rw stored (
      rw (is_active-store_refresh_token p.client u u (p.uuid (w.draws + 1)) j) (
        rw (text_eq_ne _ _ fresh, ==_refl u)
          (is_active-revoke_refresh_token p.client u u j j s
            ∙ (rw (==_refl u, text_eq_refl j) refl))))

  abbrev pub access_payload : ℕ → Text → Text → String → ℕ → Claims
  access_payload u j wid role exp = record {
    sub = some (str u);
    wid = some wid;
    role = some role;
    jti = some j;
    typ = some "access";
    exp = some exp;
  }

  -- After a well-formed refresh token was sent to `/refresh`, whatever the answer, sending it again
  -- is answered with 401, where Redis holds the tokens and the identifier drawn for the new token
  -- is another one.
  pub refresh_once :
      (u : ℕ) (j wid : Text) (role : String) (e : Option ℕ) (token : p.Token) (w : World p)
      (s : p.client.Store)
      → w.store ≡ redis s
      → p.decode w.clock p.refresh_secret token ≡ some (refresh_payload u j wid role e)
      → p.uuid (w.draws + 1) ≢ j
      → (refresh_tokens p token (refresh_tokens p token w).1).0
        ≡ err (http 401 "Refresh token revoked or unknown")
  refresh_once u j wid role e token w s stored d fresh =
      elim (Bool-cases (is_refresh_token_active p.client u j w.store)) [
        | inl active ↦
            rw (refresh_tokens_lem u j wid role e token w d, active)
              (rw
                (
                  refresh_tokens_lem u j wid role e token (after_refresh u j w) d,
                  spent u j w s stored fresh,
                )
                refl)
        | inr dead ↦
            let same : refresh_tokens p token w
                ≡ (err (http 401 "Refresh token revoked or unknown"), w) =
              rw (refresh_tokens_lem u j wid role e token w d, dead) refl in
            rw same (rw same refl)
      ]
