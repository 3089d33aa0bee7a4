-- ===== src/Llm/Cache.antt =====
-- The model that answered last, and the models that are skipped.
use system_dashnote.Prelude.{
  ℕ, ◌≡◌, refl, Bool, false, Option, none, some, List, [], ◌∷◌, arith, Bool-cases, inl, inr,
  if◌then◌else◌,
}
use system_dashnote.Prelude.Text.{Text, elem, text_eq_iff}
use system_dashnote.Llm.Provider.{Provider, Attempt, answered, failed, timed_out, Failure}
use system_dashnote.Llm.Candidates.{State, remember, mark_gone, candidates, discard, unless_equal}
use system_dashnote.Llm.Fallback.{
  Reply, Process, walk, after_attempt, after_failure, given_up, invoke_candidate,
  acompletion_with_fallback, is_model_gone, is_rate_limited,
}

-- The cached model is not among the skipped ones.
abbrev pub IsConsistent : State → Type 0
IsConsistent s = (m : Text) → s.cached_model ≡ some m → elem m s.skip ≡ false

pub elem-discard : (m : Text) (xs : List Text) → elem m (discard m xs) ≡ false
elem-discard m [] = refl
elem-discard m (x ∷ xs) = ground (arith, elem-discard m xs, text_eq_iff x m, text_eq_iff m x)

remember-IsConsistent : (model : Text) (s : State) → IsConsistent (remember model s)
unfolding remember
remember-IsConsistent model s m e = ground (arith, elem-discard m s.skip)

mark_gone-IsConsistent :
    (model : Text) (s : State) → IsConsistent s → IsConsistent (mark_gone model s)
unfolding mark_gone
mark_gone-IsConsistent model s h m e = go s.cached_model s.skip (h m) e
  where
    go :
        (c : Option Text) (skip : List Text)
        → (c ≡ some m → elem m skip ≡ false)
        → unless_equal model c ≡ some m
        → elem m (if elem model skip then skip else model ∷ skip) ≡ false
    go none skip k e = absurd (cc)
    go (some x) skip k e = ground (arith, k, text_eq_iff m model, text_eq_iff x model)

module _ (lower : Text → Text) (p : Provider) (max_retries : ℕ) (stream : Bool) where
  given_up-IsConsistent :
      (model : Text) (exc : Failure) (st st' : State)
      → given_up lower p max_retries stream model exc st ≡ some st'
      → IsConsistent st
      → IsConsistent st'
  given_up-IsConsistent model exc st st' e h = elim (Bool-cases (is_model_gone lower exc)) [
    | inl gone ↦
        let same : mark_gone model st ≡ st' = ground (arith, gone, e) in
        rw (← same) (mark_gone-IsConsistent model st h)
    | inr there ↦ elim (Bool-cases (is_rate_limited lower exc)) [
      | inl limited ↦
          let same : mark_gone model st ≡ st' = ground (arith, there, limited, e) in
          rw (← same) (mark_gone-IsConsistent model st h)
      | inr other ↦ absurd (ground (arith, there, other, e))
    ]
  ]

  walk-IsConsistent :
      (models : List Text) (s : Process lower p max_retries stream)
      → IsConsistent s.state
      → IsConsistent (walk lower p max_retries stream models s).1.state
  unfolding walk
  walk-IsConsistent [] s h = h
  walk-IsConsistent (model ∷ models) s h =
      go (walk-IsConsistent models) (invoke_candidate lower p max_retries stream model s.world)
    where
      failure :
          ((u : Process lower p max_retries stream)
            → IsConsistent u.state
            → IsConsistent (walk lower p max_retries stream models u).1.state)
          → (exc : Failure) (w : p.World) (st' : Option State)
          → given_up lower p max_retries stream model exc s.state ≡ st'
          → IsConsistent
              (after_failure lower p max_retries stream
                (walk lower p max_retries stream models)
                exc
                s.state
                w
                st').1.state
      failure rest exc w none e = h
      failure rest exc w (some st') e =
          rest (record { state = st'; world = w }) (given_up-IsConsistent model exc s.state st' e h)

      go :
          ((u : Process lower p max_retries stream)
            → IsConsistent u.state
            → IsConsistent (walk lower p max_retries stream models u).1.state)
          → (a : Attempt (Reply lower p max_retries stream) × p.World)
          → IsConsistent
              (after_attempt lower p max_retries stream
                (walk lower p max_retries stream models)
                model
                s.state
                a).1.state
      go rest (answered r, w) = remember-IsConsistent model s.state
      go rest (timed_out, w) = rest (record { state = s.state; world = w }) h
      go rest (failed exc, w) = failure rest exc w _ refl

  -- Every call, whatever it returns or raises, keeps the cached model out of the skipped ones.
  pub acompletion-IsConsistent :
      (configured : List Text) (explicit : Option Text) (s : Process lower p max_retries stream)
      → IsConsistent s.state
      → IsConsistent
          (acompletion_with_fallback lower p max_retries stream configured explicit s).1.state
  unfolding acompletion_with_fallback
  acompletion-IsConsistent configured explicit s h =
      walk-IsConsistent (candidates configured explicit s.state) s h
