-- ===== src/Llm/Candidates.antt =====
-- config.py: llm_model_candidates, and shared/llm/fallback.py: the state of the process and the
-- order in which the models are tried.
use system_dashnote.Prelude.{
  Bool, true, false, not, ◌&&◌, ◌||◌, Option, none, some, List, [], ◌∷◌, ◌++◌, select,
  if◌then◌else◌, ◌==◌,
}
use system_dashnote.Prelude.Text.{Text, text_eq, elem}

abbrev pub empty : Text → Bool
empty [] = true
empty (c ∷ s) = false

-- The loop of `llm_model_candidates` over the stripped names, with `seen` the models so far.
unfoldable pub unique_from : List Text → List Text → List Text
unique_from seen [] = []
unique_from seen (model ∷ rest) =
    let fresh = unique_from (model ∷ seen) rest in
    let others = unique_from seen rest in
    if empty model || elem model seen then others else model ∷ fresh

-- `text.split(",")`
abbrev pub cut : Text → Text → List Text
cut acc [] = acc ∷ []
cut acc (c ∷ s) =
    let next = cut [] s in let more = cut (acc ++ c ∷ []) s in if c == 44 then acc ∷ next else more

abbrev pub stripped : (Text → Text) → List Text → List Text
stripped strip [] = []
stripped strip (x ∷ xs) = strip x ∷ stripped strip xs

-- `llm_model_candidates`; `strip` is Python's
unfoldable pub llm_model_candidates : (Text → Text) → Text → Text → List Text
unfolding unique_from
llm_model_candidates strip llm_model llm_model_fallbacks =
    unique_from [] (stripped strip (llm_model ∷ cut [] llm_model_fallbacks))

-- `_cached_model` and `_skip`
pub record State : Type 0 where
  pub cached_model : Option Text
  pub skip : List Text

abbrev pub reset_fallback_state : State
reset_fallback_state = record { cached_model = none; skip = [] }

abbrev pub discard : Text → List Text → List Text
discard model = select (λ m. not (text_eq m model))

-- `_remember`
unfoldable pub remember : Text → State → State
remember model s = record { cached_model = some model; skip = discard model s.skip }

abbrev pub unless_equal : Text → Option Text → Option Text
unless_equal model none = none
unless_equal model (some m) = if text_eq m model then none else some m

-- `_mark_gone`
unfoldable pub mark_gone : Text → State → State
mark_gone model s = record {
  cached_model = unless_equal model s.cached_model;
  skip = if elem model s.skip then s.skip else model ∷ s.skip;
}

abbrev pub or_else : List Text → List Text → List Text
or_else [] ys = ys
or_else (x ∷ xs) ys = x ∷ xs

-- `if explicit and explicit not in ordered`
abbrev pub with_explicit : Option Text → List Text → List Text
with_explicit none ordered = ordered
with_explicit (some explicit) ordered =
    if empty explicit || elem explicit ordered then ordered else explicit ∷ ordered

-- `if _cached_model and _cached_model in ordered`
abbrev pub cached_first : Option Text → List Text → List Text
cached_first none ordered = ordered
cached_first (some m) ordered =
    if not (empty m) && elem m ordered then m ∷ discard m ordered else ordered

-- `_candidates`, for the models of the settings
unfoldable pub candidates : List Text → Option Text → State → List Text
candidates configured explicit s =
    let ordered = cached_first s.cached_model (with_explicit explicit configured) in
    or_else (select (λ m. not (elem m s.skip)) ordered) ordered
