-- ===== src/Llm/Provider.antt =====
-- The hosted models, which the program reaches through LiteLLM under the timeouts of asyncio: a
-- parameter. An exception is read through the four things that the code asks of it.
use system_dashnote.Prelude.{ℕ, ◌≡◌, ◌⊎◌, Bool, Option}
use system_dashnote.Prelude.Text.{Text}

pub record Failure : Type 0 where
  -- `isinstance(exc, NotFoundError)`, `isinstance(exc, RateLimitError)`
  pub not_found : Bool
  pub rate_limit : Bool
  -- `isinstance(exc, RETRYABLE_EXCEPTIONS)`
  pub retryable : Bool
  -- `getattr(exc, "status_code", None)`
  pub status_code : Option ℕ
  -- `str(exc)`
  pub message : Text

pub data Attempt (A : Type 0) : Type 0 where
  answered : A → Attempt A
  failed : Failure → Attempt A
  timed_out : Attempt A

pub record Provider : Type 1 where
  pub World : Type 0
  pub Response : Type 0
  pub Piece : Type 0
  -- `litellm.acompletion` for a model
  pub acompletion : Bool → Text → World → Attempt Response × World
  -- `hasattr(result, "__aiter__")` and the next chunk of a stream, `none` at its end
  pub has_aiter : Response → Bool
  pub next_chunk : Response → World → Attempt (Option Piece) × World
  -- `asyncio.wait_for` under the wall clock: the outcome of the call, or a timeout
  pub wait_for : {A : Type 0} → (World → Attempt A × World) → World → Attempt A × World
  pub wait_for_lem :
      {A : Type 0} (call : World → Attempt A × World) (w : World)
      → ((wait_for call w).0 ≡ Attempt.timed_out) ⊎ (wait_for call w ≡ call w)
