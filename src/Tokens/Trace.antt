-- ===== src/Tokens/Trace.antt =====
-- Any sequence of calls of the token store, with waits between them.
use system_dashnote.Prelude.{ℕ, ◌≡◌, refl, ==_refl, false, none, List, [], ◌∷◌}
use system_dashnote.Prelude.Text.{Text}
use system_dashnote.Redis.{Redis}
use system_dashnote.Tokens.Store.{
  TokenStore, base, redis, is_refresh_token_active, blacklist_access_token, store_refresh_token,
  revoke_refresh_token, revoke_all_refresh_tokens, store_password_reset_token,
  consume_password_reset_token,
}
use system_dashnote.Tokens.Keys.{refresh_key}
use system_dashnote.Tokens.Refresh.{IsIndexed, store_refresh_token-IsIndexed}
use system_dashnote.Tokens.Revoke.{
  revoke_refresh_token-IsIndexed, revoke_all-IsIndexed, blacklist_access_token-IsIndexed,
  wait-IsIndexed, is_active-revoke_all,
}
use system_dashnote.Tokens.Reset.{
  store_password_reset_token-IsIndexed, consume_password_reset_token-IsIndexed,
}

pub data Call : Type 0 where
  blacklist : Text → ℕ → Call
  store_refresh : ℕ → Text → ℕ → Call
  revoke : ℕ → Text → Call
  revoke_all : ℕ → Call
  store_reset : ℕ → Text → ℕ → Call
  consume_reset : Text → Call
  wait : ℕ → Call

module _ (r : Redis) where
  abbrev wait_for : ℕ → TokenStore r → TokenStore r
  wait_for n base = base
  wait_for n (redis s) = redis (r.wait n s)

  unfoldable pub perform : Call → TokenStore r → TokenStore r
  perform (blacklist j t) st = blacklist_access_token r j t st
  perform (store_refresh u j t) st = store_refresh_token r u j t st
  perform (revoke u j) st = revoke_refresh_token r u j st
  perform (revoke_all u) st = revoke_all_refresh_tokens r u st
  perform (store_reset u d t) st = (store_password_reset_token r u d t st).1
  perform (consume_reset d) st = (consume_password_reset_token r d st).1
  perform (wait n) st = wait_for n st

  unfoldable pub perform_all : List Call → TokenStore r → TokenStore r
  unfolding perform
  perform_all [] st = st
  perform_all (c ∷ calls) st = perform_all calls (perform c st)

  pub perform-IsIndexed :
      (c : Call) (st : TokenStore r) → IsIndexed r st → IsIndexed r (perform c st)
  unfolding perform
  perform-IsIndexed (blacklist j t) st h = blacklist_access_token-IsIndexed r j t st h
  perform-IsIndexed (store_refresh u j t) st h = store_refresh_token-IsIndexed r u j t st h
  perform-IsIndexed (revoke u j) st h = revoke_refresh_token-IsIndexed r u j st h
  perform-IsIndexed (revoke_all u) st h = revoke_all-IsIndexed r u st h
  perform-IsIndexed (store_reset u d t) st h = store_password_reset_token-IsIndexed r u d t st h
  perform-IsIndexed (consume_reset d) st h = consume_password_reset_token-IsIndexed r d st h
  perform-IsIndexed (wait n) base h = tt
  perform-IsIndexed (wait n) (redis s) h = wait-IsIndexed r n s h

  -- Whatever calls are made, in any order and with any waits between them, the index of each user
  -- still lists every active refresh token of the user and outlasts it, if it did before.
  pub perform_all-IsIndexed :
      (calls : List Call) (st : TokenStore r) → IsIndexed r st → IsIndexed r (perform_all calls st)
  unfolding perform_all
  perform_all-IsIndexed [] st h = h
  perform_all-IsIndexed (c ∷ calls) st h =
      perform_all-IsIndexed calls (perform c st) (perform-IsIndexed c st h)

  perform-redis : (c : Call) (s : r.Store) → (s' : r.Store) × (perform c (redis s) ≡ redis s')
  unfolding perform blacklist_access_token store_refresh_token revoke_refresh_token
      revoke_all_refresh_tokens store_password_reset_token consume_password_reset_token
  perform-redis (blacklist j t) s = (_, refl)
  perform-redis (store_refresh u j t) s = (_, refl)
  perform-redis (revoke u j) s = (_, refl)
  perform-redis (revoke_all u) s = (_, refl)
  perform-redis (store_reset u d t) s = (_, refl)
  perform-redis (consume_reset d) s = (_, refl)
  perform-redis (wait n) s = (_, refl)

  perform_all-redis :
      (calls : List Call) (s : r.Store) → (s' : r.Store) × (perform_all calls (redis s) ≡ redis s')
  unfolding perform_all
  perform_all-redis [] s = (s, refl)
  perform_all-redis (c ∷ calls) s =
      let (s1, e) = perform-redis c s in let (s2, f) = perform_all-redis calls s1 in (s2, rw e f)

  -- After any calls and waits from a Redis with no entries, `revoke_all_refresh_tokens` leaves no
  -- refresh token of the user active: after it, the store answers that none is.
  pub revoke_all_complete :
      (calls : List Call) (s : r.Store) (u : ℕ) (j : Text)
      → ((k : Text) → r.entry s k ≡ none)
      → is_refresh_token_active r u j (revoke_all_refresh_tokens r u (perform_all calls (redis s)))
        ≡ false
  revoke_all_complete calls s u j empty =
      let start : IsIndexed r (redis s) =
        λ w. (rw empty refl, λ k. rw (empty (refresh_key w k)) refl) in
      let (s', e) = perform_all-redis calls s in
      let kept : IsIndexed r (redis s') = rw e at (perform_all-IsIndexed calls (redis s) start) in
      rw (e, is_active-revoke_all r u u j s' kept, ==_refl u) refl
