-- ===== src/RateLimit/Limiter.antt =====
-- core/security/rate_limit.py: RateLimiter and the limiters that the program sets up. `time` is
-- `int(time.time())`, which the server reads from its own clock and not from that of Redis.
use system_dashnote.Prelude.{
  ℕ, ◌*◌, ◌/◌, Option, none, some, [], ◌∷◌, ◌++◌, max, ltb, ◌==◌, if◌then◌else◌,
}
use system_dashnote.Prelude.Text.{Text, codes, str}
use system_dashnote.Redis.{Redis}
use system_dashnote.Auth.Models.{RequestContext}

pub record RateLimiter : Type 0 where
  pub scope : Text
  pub limit : ℕ
  pub window_seconds : ℕ

abbrev non_empty : Text → Text
non_empty [] = codes "unknown"
non_empty (c ∷ s) = c ∷ s

-- `_client_host`: the address of the client, when there is one and it is not empty
unfoldable pub client_host : Option Text → Text
client_host none = codes "unknown"
client_host (some host) = non_empty host

-- `build_rate_limit_identity`
unfoldable pub build_rate_limit_identity : Option RequestContext → Option Text → Text
unfolding client_host
build_rate_limit_identity none client = client_host client
build_rate_limit_identity (some ctx) client = str ctx.user_id

unfoldable pub window_index : RateLimiter → ℕ → ℕ
window_index limiter time = time / limiter.window_seconds

-- `f"rate_limit:{self.scope}:{identity}:{self._window_index()}"`
unfoldable pub redis_key : RateLimiter → Text → ℕ → Text
redis_key limiter identity time =
    codes "rate_limit:"
    ++ (limiter.scope ++ (58 ∷ (identity ++ (58 ∷ str (window_index limiter time)))))

-- Nothing raised, or an HTTP 429 with its Retry-After header.
pub data Verdict : Type 0 where
  passed : Verdict
  limited : (retry_after : ℕ) → Verdict

-- `max(1, ttl) if ttl is not None and ttl > 0 else self.window_seconds`
abbrev pub retry_after : ℕ → Option ℕ → ℕ
retry_after window none = window
retry_after window (some ttl) = if ltb 0 ttl then max 1 ttl else window

module _ (c : Redis) (limiter : RateLimiter) where
  -- `check` from the INCR on, at the key of the window
  unfoldable pub count_request : Text → c.Store → Verdict × c.Store
  count_request key s =
      let current = c.incr_reply key s in
      let s1 = c.incr key s in
      let s2 = if current == 1 then c.expire key (limiter.window_seconds * 2) s1 else s1 in
      if ltb limiter.limit current
      then (limited (retry_after limiter.window_seconds (c.ttl key s2)), s2)
      else (passed, s2)

  -- `check` with a connection to Redis
  unfoldable pub check_redis : ℕ → Option RequestContext → Option Text → c.Store → Verdict × c.Store
  check_redis time ctx client =
      count_request (redis_key limiter (build_rate_limit_identity ctx client) time)

  -- `check`; without Redis every request passes
  unfoldable pub check :
      ℕ → Option RequestContext → Option Text → Option c.Store → Verdict × Option c.Store
  unfolding check_redis
  check time ctx client none = (passed, none)
  check time ctx client (some s) =
      let (verdict, s') = check_redis time ctx client s in (verdict, some s')

abbrev pub global_limiter : RateLimiter
global_limiter = record { scope = codes "global"; limit = 100; window_seconds = 60 }

abbrev pub auth_login_limiter : RateLimiter
auth_login_limiter = record { scope = codes "auth_login"; limit = 5; window_seconds = 60 }

abbrev pub auth_forgot_limiter : RateLimiter
auth_forgot_limiter = record { scope = codes "auth_forgot"; limit = 5; window_seconds = 60 }

abbrev pub auth_reset_limiter : RateLimiter
auth_reset_limiter = record { scope = codes "auth_reset"; limit = 5; window_seconds = 60 }

abbrev pub auth_change_limiter : RateLimiter
auth_change_limiter = record {
  scope = codes "auth_change_password";
  limit = 5;
  window_seconds = 60;
}

-- The dependencies that the routes stand behind.
module _ (c : Redis) (time : ℕ) (ctx : Option RequestContext) (client : Option Text) where
  abbrev pub enforce_global_rate_limit : Option c.Store → Verdict × Option c.Store
  enforce_global_rate_limit = check c global_limiter time ctx client

  abbrev pub enforce_auth_login_rate_limit : Option c.Store → Verdict × Option c.Store
  enforce_auth_login_rate_limit = check c auth_login_limiter time ctx client

  abbrev pub enforce_auth_forgot_rate_limit : Option c.Store → Verdict × Option c.Store
  enforce_auth_forgot_rate_limit = check c auth_forgot_limiter time ctx client

  abbrev pub enforce_auth_reset_rate_limit : Option c.Store → Verdict × Option c.Store
  enforce_auth_reset_rate_limit = check c auth_reset_limiter time ctx client

  abbrev pub enforce_auth_change_password_rate_limit : Option c.Store → Verdict × Option c.Store
  enforce_auth_change_password_rate_limit = check c auth_change_limiter time ctx client
