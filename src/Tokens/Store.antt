-- ===== src/Tokens/Store.antt =====
-- The methods of BaseTokenStore and RedisTokenStore (core/redis/redis.py). `base` is the store that
-- `get_token_store` falls back on when there is no Redis client: it keeps nothing.
use system_dashnote.Prelude.{
  ℕ, Bool, true, false, Option, none, some, List, [], ◌∷◌, ltb, if◌then◌else◌, max,
}
use system_dashnote.Prelude.Text.{Text, text_eq, codes, str, read_decimal}
use system_dashnote.Redis.{Redis}
use system_dashnote.Tokens.Keys.{
  access_key, refresh_key, refresh_index_key, reset_key, reset_user_key,
}

pub data TokenStore (r : Redis) : Type 0 where
  base : TokenStore r
  redis : r.Store → TokenStore r

-- `ttl`, or the `remaining` seconds if those are more
abbrev pub longer : ℕ → Option ℕ → ℕ
longer ttl none = ttl
longer ttl (some remaining) = if ltb ttl remaining then remaining else ttl

module _ (r : Redis) where
  -- `get_token_store`, for the client that `get_async_redis` returns
  unfoldable pub get_token_store : Option r.Store → TokenStore r
  get_token_store none = base
  get_token_store (some client) = redis client

  unfoldable pub is_access_token_blacklisted : Text → TokenStore r → Bool
  is_access_token_blacklisted jti base = false
  is_access_token_blacklisted jti (redis s) = r.exists (access_key jti) s

  unfoldable pub blacklist_access_token : Text → ℕ → TokenStore r → TokenStore r
  blacklist_access_token jti ttl_seconds base = base
  blacklist_access_token jti ttl_seconds (redis s) =
      redis (r.setex (access_key jti) (max 1 ttl_seconds) (codes "1") s)

  unfoldable pub store_refresh : ℕ → Text → ℕ → r.Store → r.Store
  store_refresh user_id jti ttl s =
      let index_key = refresh_index_key user_id in
      let s1 = r.setex (refresh_key user_id jti) ttl (codes "1") s in
      let s2 = r.sadd index_key jti s1 in r.expire index_key (longer ttl (r.ttl index_key s2)) s2

  unfoldable pub store_refresh_token : ℕ → Text → ℕ → TokenStore r → TokenStore r
  unfolding store_refresh
  store_refresh_token user_id jti ttl_seconds base = base
  store_refresh_token user_id jti ttl_seconds (redis s) =
      redis (store_refresh user_id jti (max 1 ttl_seconds) s)

  unfoldable pub is_refresh_token_active : ℕ → Text → TokenStore r → Bool
  is_refresh_token_active user_id jti base = true
  is_refresh_token_active user_id jti (redis s) = r.exists (refresh_key user_id jti) s

  unfoldable pub revoke_refresh_token : ℕ → Text → TokenStore r → TokenStore r
  revoke_refresh_token user_id jti base = base
  revoke_refresh_token user_id jti (redis s) =
      redis (r.srem (refresh_index_key user_id) jti (r.delete (refresh_key user_id jti) s))

  -- the loop of `revoke_all_refresh_tokens`
  unfoldable pub delete_each : ℕ → List Text → r.Store → r.Store
  delete_each user_id [] s = s
  delete_each user_id (jti ∷ members) s =
      delete_each user_id members (r.delete (refresh_key user_id jti) s)

  unfoldable pub revoke_all_refresh_tokens : ℕ → TokenStore r → TokenStore r
  unfolding delete_each
  revoke_all_refresh_tokens user_id base = base
  revoke_all_refresh_tokens user_id (redis s) =
      let index_key = refresh_index_key user_id in
      redis (r.delete index_key (delete_each user_id (r.smembers index_key s) s))

  -- `if old: delete(reset_key(old))`; the empty text is false
  unfoldable pub drop_old : Option Text → r.Store → r.Store
  drop_old none s = s
  drop_old (some []) s = s
  drop_old (some (c ∷ old)) s = r.delete (reset_key (c ∷ old)) s

  unfoldable pub store_password_reset_token : ℕ → Text → ℕ → TokenStore r → Bool × TokenStore r
  unfolding drop_old
  store_password_reset_token user_id digest ttl_seconds base = (false, base)
  store_password_reset_token user_id digest ttl_seconds (redis s) =
      let ttl = max 1 ttl_seconds in
      let user_key = reset_user_key user_id in
      let s1 = drop_old (r.get user_key s) s in
      let s2 = r.setex (reset_key digest) ttl (str user_id) s1 in
      (true, redis (r.setex user_key ttl digest s2))

  -- `if pointer is not None and pointer == digest: delete(user_key)`
  unfoldable pub drop_pointer : Option Text → Text → ℕ → r.Store → r.Store
  drop_pointer none digest user_id s = s
  drop_pointer (some pointer) digest user_id s =
      if text_eq pointer digest then r.delete (reset_user_key user_id) s else s

  unfoldable pub consume : Option Text → Text → r.Store → Option ℕ × r.Store
  unfolding drop_pointer
  consume none digest s = (none, s)
  consume (some raw) digest s =
      let user_id = read_decimal raw in
      let s1 = r.delete (reset_key digest) s in
      (some user_id, drop_pointer (r.get (reset_user_key user_id) s1) digest user_id s1)

  unfoldable pub consume_password_reset_token : Text → TokenStore r → Option ℕ × TokenStore r
  unfolding consume
  consume_password_reset_token digest base = (none, base)
  consume_password_reset_token digest (redis s) =
      let (user, s') = consume (r.get (reset_key digest) s) digest s in (user, redis s')
