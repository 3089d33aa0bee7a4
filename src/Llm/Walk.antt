-- ===== src/Llm/Walk.antt =====
-- Which candidates a call tries, and when it gives up.
use system_dashnote.Prelude.{ℕ, ◌≡◌, Bool, Option, none, some, List, [], ◌∷◌, ◌⊎◌}
use system_dashnote.Prelude.Text.{Text}
use system_dashnote.Llm.Provider.{Provider, Attempt, answered, failed, timed_out, Failure}
use system_dashnote.Llm.Candidates.{State, remember}
use system_dashnote.Llm.Fallback.{
  Reply, Outcome, reply, raised, Process, after_attempt, given_up, invoke_candidate,
}

module _ (lower : Text → Text) (p : Provider) (max_retries : ℕ) (stream : Bool) where
  abbrev Answer : Type 0
  Answer = Reply lower p max_retries stream

  abbrev Proc : Type 0
  Proc = Process lower p max_retries stream

  abbrev with_world : p.World → Option State → Option Proc
  with_world w none = none
  with_world w (some st) = some (record { state = st; world = w })

  -- The process after an attempt that the walk goes on from: a timeout, or a model that is gone or
  -- limited.
  abbrev pub moved_on : Text → State → Attempt Answer × p.World → Option Proc
  moved_on model st (answered r, w) = none
  moved_on model st (timed_out, w) = some (record { state = st; world = w })
  moved_on model st (failed exc, w) =
      with_world w (given_up lower p max_retries stream model exc st)

  -- All models are tried in their order, and the walk goes on from each.
  abbrev pub Exhausts : List Text → Proc → Proc → Type 0
  Exhausts [] s t = s ≡ t
  Exhausts (m ∷ ms) s t =
      (u : Proc) × (moved_on m s.state (invoke_candidate lower p max_retries stream m s.world)
        ≡ some u)
      × Exhausts ms u t

  abbrev Next : Type 0
  Next = Proc → Outcome lower p max_retries stream × Proc

  abbrev after :
      Next → Text → State → Attempt Answer × p.World → Outcome lower p max_retries stream × Proc
  after = after_attempt lower p max_retries stream

  -- An attempt answers, is moved on from, or raises.
  abbrev AttemptCases : Next → Text → State → Attempt Answer × p.World → Type 0
  AttemptCases next model st a =
      ((r : Answer) × (w : p.World) × (a ≡ (answered r, w))
        × (moved_on model st a ≡ none)
        × (after next model st a ≡ (reply r, record { state = remember model st; world = w })))
      ⊎ (((u : Proc) × (moved_on model st a ≡ some u) × (after next model st a ≡ next u))
          ⊎ ((exc : Failure) × (t : Proc) × (moved_on model st a ≡ none)
              × (after next model st a ≡ (raised exc, t))))
