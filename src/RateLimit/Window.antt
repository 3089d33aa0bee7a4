-- ===== src/RateLimit/Window.antt =====
-- What the limiter admits within one window.
use system_dashnote.Prelude.{
  ℕ, suc, ◌+◌, ◌-◌, ◌*◌, ◌<◌, ◌≤◌, ◌≡◌, refl, ap, ◌∙◌, true, false, Option, none, some, List, [],
  ◌∷◌, arith, min, ltb, ◌==◌, length, All, Bool-cases, inl, inr, if◌then◌else◌,
}
use system_dashnote.Prelude.Text.{Text, text_eq_refl, read_decimal-str}
use system_dashnote.Redis.{Redis}
use system_dashnote.Redis.Space.{Entry, count_of, deadline_of, counted, expiring, surviving}
use system_dashnote.Auth.Models.{RequestContext}
use system_dashnote.RateLimit.Limiter.{
  RateLimiter, Verdict, passed, limited, count_request, check_redis, redis_key, window_index,
  build_rate_limit_identity,
}

count-counted : (e : Option Entry) → count_of (counted e) ≡ count_of e + 1
count-counted none = read_decimal-str 1
count-counted (some e) = read_decimal-str _

deadline-counted : (e : Option Entry) → deadline_of (counted e) ≡ deadline_of e
deadline-counted none = refl
deadline-counted (some e) = refl

-- The entry of a counter that stands at `n` and expires at `d`.
abbrev pub Running : ℕ → ℕ → Option Entry → Type 0
Running n d e = (count_of e ≡ n) × (deadline_of e ≡ some d)

Running-surviving : (n d now : ℕ) (e : Option Entry) → now < d → Running n d e → surviving now e ≡ e
Running-surviving n d now none h r = refl
Running-surviving n d now (some e) h r = rw r.1 (ground arith)

module _ (c : Redis) (limiter : RateLimiter) (key : Text) where
  -- the first request of a window
  count_request-first :
      (s : c.Store)
      → c.entry s key ≡ none
      → 1 ≤ limiter.limit
      → ((count_request c limiter key s).0 ≡ passed)
        × Running 1
            (c.now s + limiter.window_seconds * 2)
            (c.entry (count_request c limiter key s).1 key)
        × (c.now (count_request c limiter key s).1 ≡ c.now s)
  unfolding count_request
  count_request-first s h l =
      let counted_once : c.incr_reply key s ≡ 1 =
        c.incr_reply_lem key s ∙ ap (λ e. count_of e + 1) h in
      let enough : ltb limiter.limit 1 ≡ false = ground arith in
      let entry : c.entry (c.expire key (limiter.window_seconds * 2) (c.incr key s)) key
          ≡ expiring (c.now s + limiter.window_seconds * 2) (counted none) =
        rw (c.expire_lem, text_eq_refl, c.incr_lem, text_eq_refl, c.now-incr, h) refl in
      rw (counted_once, enough)
        (refl, (rw entry (read_decimal-str 1), rw entry refl), rw (c.now-expire, c.now-incr) refl)

  -- a later one
  count_request-Running :
      (n d : ℕ) (s : c.Store)
      → Running (suc n) d (c.entry s key)
      → c.now s < d
      → ((count_request c limiter key s).0
          ≡ (if ltb (suc n) limiter.limit then passed else limited (d - c.now s)))
        × Running (suc (suc n)) d (c.entry (count_request c limiter key s).1 key)
        × (c.now (count_request c limiter key s).1 ≡ c.now s)
  unfolding count_request
  count_request-Running n d s r h =
      let reply : c.incr_reply key s ≡ suc (suc n) = c.incr_reply_lem key s ∙ ground (arith, r.0) in
      let not_first : (suc (suc n) == 1) ≡ false = ground arith in
      let entry : c.entry (c.incr key s) key ≡ counted (c.entry s key) =
        rw (c.incr_lem, text_eq_refl) refl in
      let after : Running (suc (suc n)) d (c.entry (c.incr key s) key) = rw entry (
        count-counted (c.entry s key) ∙ ground (arith, r.0),
        deadline-counted (c.entry s key) ∙ r.1,
      ) in
      let time : c.ttl key (c.incr key s) ≡ some (d - c.now s) =
        rw (c.ttl_lem, after.1, c.now-incr) refl in
      elim (Bool-cases (ltb limiter.limit (suc (suc n)))) [
        | inl over ↦
            let at_limit : ltb (suc n) limiter.limit ≡ false = ground arith in
            rw (reply, not_first, over, at_limit) (rw time (ground arith), after, c.now-incr key s)
        | inr under ↦
            let below : ltb (suc n) limiter.limit ≡ true = ground arith in
            rw (reply, not_first, under, below) (refl, after, c.now-incr key s)
      ]

-- A request of one client: the seconds that have passed at Redis since the one before, and the
-- time that the server reads.
pub record Arrival : Type 0 where
  pub pause : ℕ
  pub time : ℕ

abbrev pub pauses : List Arrival → ℕ
pauses [] = 0
pauses (a ∷ rest) = a.pause + pauses rest

abbrev pub admitted : List Verdict → ℕ
admitted [] = 0
admitted (passed ∷ vs) = suc (admitted vs)
admitted (limited r ∷ vs) = admitted vs

module _ (c : Redis) (limiter : RateLimiter) (ctx : Option RequestContext)
    (client : Option Text) where
  -- The verdicts on the requests, in order.
  unfoldable pub serve : List Arrival → c.Store → List Verdict
  unfolding check_redis
  serve [] s = []
  serve (a ∷ rest) s =
      let (verdict, s') = check_redis c limiter a.time ctx client (c.wait a.pause s) in
      verdict ∷ serve rest s'

  pub identity_key : ℕ → Text
  identity_key time = redis_key limiter (build_rate_limit_identity ctx client) time

  -- The key depends on the window only.
  same_window :
      (t u : ℕ) → window_index limiter t ≡ window_index limiter u → identity_key t ≡ identity_key u
  unfolding identity_key redis_key
  same_window t u h = rw h refl

  admitted-Running :
      (n d t : ℕ) (arrivals : List Arrival) (s : c.Store)
      → Running (suc n) d (c.entry s (identity_key t))
      → c.now s + pauses arrivals < d
      → All (λ a. window_index limiter a.time ≡ window_index limiter t) arrivals
      → admitted (serve arrivals s) ≡ min (length arrivals) (limiter.limit - suc n)
  unfolding serve check_redis identity_key
  admitted-Running n d t [] s r h w = omega arith
  admitted-Running n d t (a ∷ rest) s r h w =
      let key : redis_key limiter (build_rate_limit_identity ctx client) a.time
          ≡ redis_key limiter (build_rate_limit_identity ctx client) t =
        same_window a.time t w.0 in
      let waited = c.wait a.pause s in
      let kept : c.entry waited (identity_key t) ≡ c.entry s (identity_key t) =
        c.wait_lem a.pause s _
        ∙ Running-surviving (suc n) d (c.now s + a.pause) _ (omega arith) r in
      let (verdict, after, clock) =
        count_request-Running c limiter (identity_key t) n d waited (rw kept r)
          (rw c.now-wait (omega arith)) in
      let rest_lem =
        admitted-Running (suc n) d t rest (count_request c limiter (identity_key t) waited).1 after
          (rw (clock, c.now-wait) (omega arith)) w.1 in
      elim (Bool-cases (ltb (suc n) limiter.limit)) [
        | inl below ↦
            let room : suc n < limiter.limit = ground arith in
            rw (key, verdict, below) (omega (arith, rest_lem))
        | inr over ↦
            let full : limiter.limit ≤ suc n = ground arith in
            rw (key, verdict, over) (omega (arith, rest_lem))
      ]

  -- In a window in which the client has not been counted yet, exactly the first `limit` requests
  -- pass, and all when there are fewer. The server's times all lie in the window, the limit is at
  -- least 1, and less than two windows pass at Redis after the first request.
  pub admits_up_to_limit :
      (t : ℕ) (first : Arrival) (rest : List Arrival) (s : c.Store)
      → 1 ≤ limiter.limit
      → c.entry s (identity_key t) ≡ none
      → pauses rest < limiter.window_seconds * 2
      → All (λ a. window_index limiter a.time ≡ window_index limiter t) (first ∷ rest)
      → admitted (serve (first ∷ rest) s) ≡ min (length (first ∷ rest)) limiter.limit
  unfolding serve check_redis identity_key
  admits_up_to_limit t a rest s l h p w =
      let key : redis_key limiter (build_rate_limit_identity ctx client) a.time
          ≡ redis_key limiter (build_rate_limit_identity ctx client) t =
        same_window a.time t w.0 in
      let waited = c.wait a.pause s in
      let kept : c.entry waited (identity_key t) ≡ none = c.wait_lem a.pause s _ ∙ rw h refl in
      let (verdict, after, clock) = count_request-first c limiter (identity_key t) waited kept l in
      let rest_lem =
        admitted-Running 0 _ t rest (count_request c limiter (identity_key t) waited).1 after
          (rw clock (omega arith)) w.1 in
      rw (key, verdict) (omega (arith, rest_lem))
