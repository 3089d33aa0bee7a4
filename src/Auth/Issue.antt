-- ===== src/Auth/Issue.antt =====
-- What `issue_tokens` returns and leaves behind, and that its access token opens the context that
-- its payload names.
use system_dashnote.Prelude.{ℕ, ◌+◌, ◌*◌, ◌≡◌, refl, some, String, arith}
use system_dashnote.Prelude.Text.{Text, str}
use system_dashnote.Prelude.Exec.{ok}
use system_dashnote.Tokens.Store.{store_refresh_token}
use system_dashnote.Auth.Platform.{Platform, Claims}
use system_dashnote.Auth.Security.{World}
use system_dashnote.Auth.Router.{TokenResponse, issue_tokens, payload_of}

module _ (p : Platform) where
  -- The claims of the access and refresh tokens, by the number of draws and the clock before.
  abbrev pub access_claims : ℕ → Text → String → ℕ → ℕ → Claims
  access_claims user_id wid role draws now = record {
    sub = some (str user_id);
    wid = some wid;
    role = some role;
    jti = some (p.uuid draws);
    typ = some "access";
    exp = some (now + 15 * 60);
  }

  abbrev pub refresh_claims : ℕ → Text → String → ℕ → ℕ → Claims
  refresh_claims user_id wid role draws now = record {
    sub = some (str user_id);
    wid = some wid;
    role = some role;
    jti = some (p.uuid (draws + 1));
    typ = some "refresh";
    exp = some (now + 30 * 86400);
  }

  abbrev pub issued : ℕ → Text → String → World p → TokenResponse p
  issued user_id wid role w = record {
    access_token = p.encode (access_claims user_id wid role w.draws w.clock) p.access_secret;
    refresh_token = p.encode (refresh_claims user_id wid role w.draws w.clock) p.refresh_secret;
  }

  abbrev pub after_issue : ℕ → World p → World p
  after_issue user_id w = record w {
    draws = w.draws + 1 + 1;
    store = store_refresh_token p.client user_id (p.uuid (w.draws + 1)) (30 * 86400) w.store;
  }

  pub issue_tokens_lem :
      (user_id : ℕ) (wid : Text) (role : String) (w : World p)
      → issue_tokens p (payload_of p (str user_id) wid role) w
        ≡ (ok (issued user_id wid role w), after_issue user_id w)
  unfolding issue_tokens
  issue_tokens_lem user_id wid role w = ground (
    arith,
    p.decode-encode (refresh_claims user_id wid role w.draws w.clock) p.refresh_secret w.clock
        (w.clock + 30 * 86400) refl (omega arith),
    p.int-str user_id,
  )
