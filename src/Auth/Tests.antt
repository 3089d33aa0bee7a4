-- ===== src/Auth/Tests.antt =====
-- Tests of auth/ and of the token store at concrete states, and the theorems at those.
use system_dashnote.Prelude.{ℕ, ◌≡◌, refl, true, false, none, some, List, [], ◌∷◌, arith}
use system_dashnote.Prelude.Text.{Text, codes, str, text_eq, read_decimal, ne_of_text_eq}
use system_dashnote.Prelude.Exec.{http, ok, err}
use system_dashnote.Redis.Memory.{memory, empty_memory}
use system_dashnote.Tokens.Store.{
  redis, is_refresh_token_active, store_refresh_token, revoke_refresh_token,
  revoke_all_refresh_tokens, is_access_token_blacklisted, store_password_reset_token,
  consume_password_reset_token, store_refresh,
}
use system_dashnote.Tokens.Refresh.{IsIndexed}
use system_dashnote.Tokens.Keys.{refresh_key, refresh_index_key}
use system_dashnote.Tokens.Refresh
use system_dashnote.Tokens.Reset
use system_dashnote.Tokens.Trace
use system_dashnote.Tokens.Trace.{Call, perform_all}
use system_dashnote.Tokens.Sessions.{is_active, is_blocked, no_sessions, specify_all}
use system_dashnote.Tokens.Refinement
use system_dashnote.Auth.Models.{RequestContext}
use system_dashnote.Auth.Platform.{Claims}
use system_dashnote.Auth.Security.{World, verify_password}
use system_dashnote.Auth.Context.{context_from_access_token}
use system_dashnote.Auth.Service.{change_password}
use system_dashnote.Auth.Router.{login, refresh_tokens, logout, change_password_route, register}
use system_dashnote.Auth.Issue.{issued, after_issue}
use system_dashnote.Auth.Sessions
use system_dashnote.Auth.Passwords
use system_dashnote.Auth.Memory.{platform}

-- Everything that a run of a handler computes through.
program : Unit {0}
unfolding login refresh_tokens logout change_password_route change_password register
    context_from_access_token is_refresh_token_active store_refresh_token revoke_refresh_token
program = tt

abbrev start : World platform
start = record {
  store = redis empty_memory;
  users = record {
    rows =
        (record {
          id = 7;
          email = "a@x.org";
          password_hash = codes "password1";
          inbound_default_workspace_id = none;
        })
        ∷ [];
    next_id = 8;
  };
  memberships = record {
    rows = (record { user_id = 7; tenant_id = 3; role = "owner" }) ∷ [];
    next_id = 2;
  };
  workspaces = record { rows = (record { id = 3; name = "w" }) ∷ []; next_id = 4 };
  clock = 1000;
  draws = 0;
}

login_wrong :
    (login platform "a@x.org" (codes "password2") start).0 ≡ err (http 401 "Invalid credentials")
unfolding program verify_password text_eq
login_wrong = refl

login_runs :
    (login platform "a@x.org" (codes "password1") start).0
    ≡ ok (issued platform 7 (str 3) "owner" start)
unfolding program verify_password text_eq str read_decimal
login_runs = refl

-- The world after the login, and the refresh token that it gave out.
abbrev signed_in : World platform
signed_in = after_issue platform 7 start

abbrev held : Claims × ℕ
held = (issued platform 7 (str 3) "owner" start).refresh_token

abbrev opened : Claims × ℕ
opened = (issued platform 7 (str 3) "owner" start).access_token

start-IsIndexed : IsIndexed memory (redis empty_memory)
start-IsIndexed u = (refl, λ j. refl)

store_refresh_token-IsIndexed_example :
    IsIndexed memory (store_refresh_token memory 7 (codes "a") 60 (redis empty_memory))
store_refresh_token-IsIndexed_example =
    Refresh.store_refresh_token-IsIndexed memory 7 (codes "a") 60 (redis empty_memory)
      start-IsIndexed

abbrev calls : List Call
calls = Call.store_refresh 7 (codes "a") 60 ∷ Call.wait 5 ∷ Call.revoke 7 (codes "b") ∷ []

revoke_all_complete_example :
    is_refresh_token_active memory 7
      (codes "a")
      (revoke_all_refresh_tokens memory 7 (perform_all memory calls (redis empty_memory)))
    ≡ false
revoke_all_complete_example =
    Trace.revoke_all_complete memory calls empty_memory 7 (codes "a") (λ k. refl)

-- In that history the token is active, as the sessions say, and a minute later it is not.
calls_run : is_active 7 (codes "a") (specify_all calls (no_sessions 0)) ≡ true
unfolding specify_all text_eq
calls_run = refl

calls_run_later :
    is_active 7
      (codes "a")
      (specify_all (Call.store_refresh 7 (codes "a") 60 ∷ Call.wait 60 ∷ []) (no_sessions 0))
    ≡ false
unfolding specify_all text_eq
calls_run_later = refl

perform_all-refines_example :
    ((u : ℕ) (j : Text)
      → is_refresh_token_active memory u j (perform_all memory calls (redis empty_memory))
        ≡ is_active u j (specify_all calls (no_sessions 0)))
    × ((j : Text)
        → is_access_token_blacklisted memory j (perform_all memory calls (redis empty_memory))
          ≡ is_blocked j (specify_all calls (no_sessions 0)))
perform_all-refines_example = Refinement.perform_all-refines memory calls empty_memory (λ k. refl)

consume_once_example :
    (consume_password_reset_token memory
      (codes "ab")
      (consume_password_reset_token memory (codes "ab") (redis empty_memory)).1).0
    ≡ none
consume_once_example = Reset.consume_once memory (codes "ab") (redis empty_memory)

consume-store_replaced_example :
    (consume_password_reset_token memory
      (codes "ab")
      (store_password_reset_token memory 7
        (codes "cd")
        9
        (store_password_reset_token memory 7 (codes "ab") 9 (redis empty_memory)).1).1).0
    ≡ none
unfolding text_eq
consume-store_replaced_example =
    Reset.consume-store_replaced memory 7 97 (codes "b") (codes "cd") 9 9 empty_memory (omega arith)
      (ne_of_text_eq _ _ refl)

refresh_tokens_lem_example : refresh_tokens platform held signed_in ≡ (
  ok (issued platform 7 (str 3) "owner" signed_in),
  Sessions.after_refresh platform 7 (str 1) signed_in,
)
unfolding program text_eq str read_decimal refresh_index_key refresh_key
refresh_tokens_lem_example =
    Sessions.refresh_tokens_lem platform 7 (str 1) (str 3) "owner" (some 2593000) held signed_in
      refl

refresh_once_example :
    (refresh_tokens platform held (refresh_tokens platform held signed_in).1).0
    ≡ err (http 401 "Refresh token revoked or unknown")
unfolding program text_eq str read_decimal
refresh_once_example =
    Sessions.refresh_once platform 7 (str 1) (str 3) "owner" (some 2593000) held signed_in
      (store_refresh memory 7 (str 1) 2592000 empty_memory) refl refl (ne_of_text_eq _ _ refl)

abbrev owner : RequestContext
owner = record { user_id = 7; workspace_id = 3; role = "owner" }
