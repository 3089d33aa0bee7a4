-- ===== src/Llm/Retry.antt =====
-- shared/llm/retry.py: acompletion_with_retry. The decorator of tenacity calls again while the
-- exception is retryable and the number of the attempt is below LLM_MAX_RETRIES; then it raises
-- the last exception. The waits between the attempts change nothing that is modelled.
use system_dashnote.Prelude.{ℕ, suc, zero, ◌-◌, Bool, false, if◌then◌else◌}
use system_dashnote.Prelude.Text.{Text}
use system_dashnote.Llm.Provider.{Provider, Attempt, answered, failed, timed_out}

module _ (p : Provider) (model : Text) where
  abbrev pub retry_on : Attempt p.Response → Bool
  retry_on (answered a) = false
  retry_on (failed e) = e.retryable
  retry_on timed_out = false

  -- The attempts from the first on, when `further` more are allowed after it, with their number.
  unfoldable pub attempts : ℕ → p.World → (Attempt p.Response × p.World) × ℕ
  attempts zero w = (p.acompletion false model w, 1)
  attempts (suc further) w =
      let first = p.acompletion false model w in
      let rest = attempts further first.1 in
      if retry_on first.0 then (rest.0, suc rest.1) else (first, 1)

  unfoldable pub acompletion_with_retry : ℕ → p.World → Attempt p.Response × p.World
  acompletion_with_retry max_retries w = (attempts (max_retries - 1) w).0
