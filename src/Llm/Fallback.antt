-- ===== src/Llm/Fallback.antt =====
-- shared/llm/fallback.py: acompletion_with_fallback.
use system_dashnote.Prelude.{
  ℕ, Bool, true, false, ◌||◌, ◌&&◌, Option, none, some, List, [], ◌∷◌, any_of, if◌then◌else◌, ◌==◌,
}
use system_dashnote.Prelude.Text.{Text, codes}
use system_dashnote.Llm.Provider.{Provider, Attempt, answered, failed, timed_out, Failure}
use system_dashnote.Llm.Retry.{acompletion_with_retry}
use system_dashnote.Llm.Candidates.{State, remember, mark_gone, candidates}

abbrev starts_with : Text → Text → Bool
starts_with [] s = true
starts_with (c ∷ p) [] = false
starts_with (c ∷ p) (d ∷ s) = c == d && starts_with p s

-- `pattern in s`
unfoldable pub contains : Text → Text → Bool
contains p [] = starts_with p []
contains p (c ∷ s) = starts_with p (c ∷ s) || contains p s

abbrev has_status : ℕ → Option ℕ → Bool
has_status code none = false
has_status code (some status) = status == code

-- `lower` is Python's `str.lower`.
module _ (lower : Text → Text) where
  unfoldable pub is_model_gone : Failure → Bool
  unfolding contains
  is_model_gone exc =
      let msg = lower exc.message in
      exc.not_found
      || (has_status 410 exc.status_code
          || any_of (λ p. contains p msg)
              (codes " 410"
                ∷ codes "error code: 410"
                ∷ codes "end of life"
                ∷ codes "no longer available"
                ∷ []))

  unfoldable pub is_rate_limited : Failure → Bool
  unfolding contains
  is_rate_limited exc =
      let msg = lower exc.message in
      exc.rate_limit
      || (has_status 429 exc.status_code
          || any_of (λ p. contains p msg)
              (codes " 429"
                ∷ codes "error code: 429"
                ∷ codes "rate limit"
                ∷ codes "rate-limit"
                ∷ codes "ratelimit"
                ∷ codes "quota exceeded"
                ∷ codes "resource exhausted"
                ∷ []))

  module _ (p : Provider) (max_retries : ℕ) (stream : Bool) where
    -- A response as it is, or a `_ReplayStream`: the first chunk, if any, and the rest.
    pub data Reply : Type 0 where
      plain : p.Response → Reply
      replay : (first : Option p.Piece) (rest : p.Response) → Reply

    abbrev as_plain : Attempt p.Response × p.World → Attempt Reply × p.World
    as_plain (answered r, w) = (answered (plain r), w)
    as_plain (failed e, w) = (failed e, w)
    as_plain (timed_out, w) = (timed_out, w)

    abbrev as_replay : p.Response → Attempt (Option p.Piece) × p.World → Attempt Reply × p.World
    as_replay r (answered first, w) = (answered (replay first r), w)
    as_replay r (failed e, w) = (failed e, w)
    as_replay r (timed_out, w) = (timed_out, w)

    abbrev pub first_chunk_stream : p.Response → p.World → Attempt Reply × p.World
    first_chunk_stream r w = as_replay r (p.wait_for (p.next_chunk r) w)

    abbrev opened : Attempt p.Response × p.World → Attempt Reply × p.World
    opened (answered r, w) =
        let chunk = first_chunk_stream r w in
        if p.has_aiter r then chunk else (answered (plain r), w)
    opened (failed e, w) = (failed e, w)
    opened (timed_out, w) = (timed_out, w)

    -- `_invoke_candidate`
    unfoldable pub invoke_candidate : Text → p.World → Attempt Reply × p.World
    invoke_candidate model w =
        if stream
        then opened (p.wait_for (p.acompletion true model) w)
        else as_plain (p.wait_for (acompletion_with_retry p model max_retries) w)

    -- What the call returns or raises.
    pub data Outcome : Type 0 where
      reply : Reply → Outcome
      raised : Failure → Outcome
      llm_unavailable : Outcome

    pub record Process : Type 0 where
      pub state : State
      pub world : p.World

    -- `except Exception`: the candidate is given up, or `none` if the exception goes on
    abbrev pub given_up : Text → Failure → State → Option State
    given_up model exc s =
        if is_model_gone exc
        then some (mark_gone model s)
        else if is_rate_limited exc
        then some (mark_gone model s)
        else none

    abbrev pub after_failure :
        (Process → Outcome × Process) → Failure → State → p.World → Option State → Outcome × Process
    after_failure next exc st w none = (raised exc, record { state = st; world = w })
    after_failure next exc st w (some st') = next (record { state = st'; world = w })

    abbrev pub after_attempt :
        (Process → Outcome × Process) → Text → State → Attempt Reply × p.World → Outcome × Process
    after_attempt next model st (answered r, w) =
        (reply r, record { state = remember model st; world = w })
    after_attempt next model st (timed_out, w) = next (record { state = st; world = w })
    after_attempt next model st (failed exc, w) =
        after_failure next exc st w (given_up model exc st)

    -- The loop of `acompletion_with_fallback` over the candidates.
    unfoldable pub walk : List Text → Process → Outcome × Process
    walk [] s = (llm_unavailable, s)
    walk (model ∷ models) s =
        after_attempt (walk models) model s.state (invoke_candidate model s.world)

    unfoldable pub acompletion_with_fallback : List Text → Option Text → Process → Outcome × Process
    acompletion_with_fallback configured explicit s =
        walk (candidates configured explicit s.state) s
