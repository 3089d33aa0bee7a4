-- ===== src/Llm/Tests.antt =====
-- Tests of the walk with a provider whose model `a` is gone, and the theorems at those.
use system_dashnote.Prelude.{
  ℕ, ◌+◌, ◌≡◌, refl, true, false, none, some, List, [], ◌∷◌, inr, if◌then◌else◌,
}
use system_dashnote.Prelude.Text.{Text, codes, text_eq}
use system_dashnote.Llm.Provider.{Provider, Attempt, answered, failed, Failure}
use system_dashnote.Llm.Retry.{attempts, acompletion_with_retry}
use system_dashnote.Llm.Retry
use system_dashnote.Llm.Candidates.{
  reset_fallback_state, candidates, llm_model_candidates, remember, mark_gone,
}
use system_dashnote.Llm.Fallback.{
  llm_unavailable, Process, acompletion_with_fallback, walk, invoke_candidate, is_model_gone,
}
use system_dashnote.Llm.Walk
use system_dashnote.Llm.Cache.{IsConsistent}
use system_dashnote.Llm.Cache
use system_dashnote.Llm.Order.{IsListOfModels}
use system_dashnote.Llm.Order

abbrev gone : Failure
gone = record {
  not_found = true;
  rate_limit = false;
  retryable = false;
  status_code = some 404;
  message = [];
}

abbrev busy : Failure
busy = record {
  not_found = false;
  rate_limit = false;
  retryable = true;
  status_code = none;
  message = [];
}

abbrev reply_of : Text → Attempt Text
reply_of m =
    if text_eq m (codes "a")
    then failed gone
    else if text_eq m (codes "b")
    then answered m
    else failed busy

-- The world counts the calls.
abbrev provider : Provider
provider = record {
  World = ℕ;
  Response = Text;
  Piece = Text;
  acompletion = λ stream m w. (reply_of m, w + 1);
  has_aiter = λ r. false;
  next_chunk = λ r w. (answered none, w);
  wait_for = λ call w. call w;
  wait_for_lem = λ call w. inr refl;
}

abbrev as_is : Text → Text
as_is s = s

abbrev models : List Text
models = codes "a" ∷ codes "b" ∷ []

abbrev start : Process as_is provider 3 false
start = record { state = reset_fallback_state; world = 0 }

abbrev ended : Process as_is provider 3 false
ended = record {
  state = record { cached_model = some (codes "b"); skip = codes "a" ∷ [] };
  world = 2;
}

-- Everything that a call computes through.
program : Unit {0}
unfolding acompletion_with_fallback acompletion_with_retry attempts walk candidates invoke_candidate
    text_eq is_model_gone remember mark_gone llm_model_candidates
program = tt

only_gone : walk as_is provider 3 false (codes "a" ∷ []) start ≡ (
  llm_unavailable,
  record { state = record { cached_model = none; skip = codes "a" ∷ [] }; world = 1 },
)
unfolding program
only_gone = refl

settings_run :
    llm_model_candidates as_is (codes "a") (codes "b,a,,c") ≡ codes "a" ∷ codes "b" ∷ codes "c" ∷ []
unfolding program
settings_run = refl

acompletion-IsConsistent_example :
    IsConsistent (acompletion_with_fallback as_is provider 3 false models none start).1.state
acompletion-IsConsistent_example =
    Cache.acompletion-IsConsistent as_is provider 3 false models none start (λ m e. refl)

llm_model_candidates-IsListOfModels_example :
    IsListOfModels (llm_model_candidates as_is (codes "a") (codes "b,a,,c"))
llm_model_candidates-IsListOfModels_example =
    Order.llm_model_candidates-IsListOfModels as_is (codes "a") (codes "b,a,,c")
