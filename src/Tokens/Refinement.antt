-- ===== src/Tokens/Refinement.antt =====
-- The token store on Redis implements the sessions of Tokens/Sessions.antt.
use system_dashnote.Prelude.{ℕ, ◌≡◌, refl, none, List, [], ◌∷◌}
use system_dashnote.Prelude.Text.{Text}
use system_dashnote.Redis.{Redis}
use system_dashnote.Tokens.Store.{
  redis, is_access_token_blacklisted, is_refresh_token_active, blacklist_access_token,
  store_refresh_token, revoke_refresh_token, revoke_all_refresh_tokens, store_password_reset_token,
  consume_password_reset_token,
}
use system_dashnote.Tokens.Refresh.{IsIndexed}
use system_dashnote.Tokens.Trace.{
  Call, blacklist, store_refresh, revoke, revoke_all, store_reset, consume_reset, wait, perform,
  perform_all, perform-IsIndexed,
}
use system_dashnote.Tokens.Sessions.{
  Sessions, no_sessions, is_active, is_blocked, specify, specify_all,
}
use system_dashnote.Tokens.Represents.{Represents, is_some-kept}
use system_dashnote.Tokens.Steps.{
  wait-Represents, blacklist-Represents, store-Represents, revoke-Represents, revoke_all-Represents,
  reset-Represents, consume-Represents,
}

module _ (r : Redis) where
  perform-Implements :
      (c : Call) (s : r.Store) (a : Sessions)
      → IsIndexed r (redis s)
      → Represents r s a
      → (s' : r.Store) × (perform r c (redis s) ≡ redis s') × Represents r s' (specify c a)
  unfolding perform blacklist_access_token store_refresh_token revoke_refresh_token
      revoke_all_refresh_tokens store_password_reset_token consume_password_reset_token
  perform-Implements (blacklist j t) s a i h = (_, refl, blacklist-Represents r j t s a h)
  perform-Implements (store_refresh u j t) s a i h = (_, refl, store-Represents r u j t s a h)
  perform-Implements (revoke u j) s a i h = (_, refl, revoke-Represents r u j s a h)
  perform-Implements (revoke_all u) s a i h = (_, refl, revoke_all-Represents r u s a i h)
  perform-Implements (store_reset u d t) s a i h =
      (_, refl, unfold specify in reset-Represents r u d _ s a h)
  perform-Implements (consume_reset d) s a i h =
      (_, refl, unfold specify in consume-Represents r _ d s a h)
  perform-Implements (wait n) s a i h = (_, refl, wait-Represents r n s a h)

  perform_all-Implements :
      (calls : List Call) (s : r.Store) (a : Sessions)
      → IsIndexed r (redis s)
      → Represents r s a
      → (s' : r.Store) × (perform_all r calls (redis s) ≡ redis s')
        × Represents r s' (specify_all calls a)
  unfolding perform_all specify_all
  perform_all-Implements [] s a i h = (s, refl, h)
  perform_all-Implements (c ∷ calls) s a i h =
      let (s1, e, h1) = perform-Implements c s a i h in
      let (s2, f, h2) =
        perform_all-Implements calls s1 (specify c a) (rw e at (perform-IsIndexed r c (redis s) i))
          h1 in
      (s2, rw e f, h2)

  -- After any calls of the token store and any waits, from a Redis with no entries, the store answers
  -- which refresh tokens are active and which access tokens are blacklisted exactly as the sessions
  -- do: a token is active if it was stored, not revoked since, alone or with all tokens of its user,
  -- and has not ended, and an access token is blacklisted from the call on until its time is over.
  pub perform_all-refines :
      (calls : List Call) (s : r.Store)
      → ((k : Text) → r.entry s k ≡ none)
      → ((u : ℕ) (j : Text)
          → is_refresh_token_active r u j (perform_all r calls (redis s))
            ≡ is_active u j (specify_all calls (no_sessions (r.now s))))
        × ((j : Text)
            → is_access_token_blacklisted r j (perform_all r calls (redis s))
              ≡ is_blocked j (specify_all calls (no_sessions (r.now s))))
  unfolding is_refresh_token_active is_access_token_blacklisted
  perform_all-refines calls s empty =
      let a = specify_all calls (no_sessions (r.now s)) in
      let (s', e, h) =
        perform_all-Implements calls s (no_sessions (r.now s))
          (λ w. (rw empty refl, λ k. rw empty refl))
          (refl, λ u j. rw empty refl, λ j. rw empty refl) in
      (
        λ u j. rw (e, r.exists_lem) (is_some-kept a.clock (a.ends u j) _ (h.1 u j)),
        λ j. rw (e, r.exists_lem) (is_some-kept a.clock (a.blocked j) _ (h.2 j)),
      )
