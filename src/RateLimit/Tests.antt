-- ===== src/RateLimit/Tests.antt =====
-- Tests of the limiter at concrete arrivals, and the theorem at those.
use system_dashnote.Prelude.{ℕ, ◌≡◌, refl, none, some, List, [], ◌∷◌, arith}
use system_dashnote.Prelude.Text.{codes, str, text_eq, read_decimal}
use system_dashnote.Redis.Memory.{memory, empty_memory}
use system_dashnote.RateLimit.Limiter.{
  passed, limited, auth_login_limiter, count_request, redis_key, build_rate_limit_identity,
  window_index,
}
use system_dashnote.RateLimit.Window.{Arrival, serve, admitted}
use system_dashnote.RateLimit.Window

abbrev at : ℕ → ℕ → Arrival
at pause time = record { pause = pause; time = time }

abbrev six : List Arrival
six = at 0 601 ∷ at 2 603 ∷ at 1 604 ∷ at 1 605 ∷ at 1 606 ∷ at 4 610 ∷ []

six_runs :
    serve memory auth_login_limiter none (some (codes "1.2.3.4")) six empty_memory
    ≡ passed ∷ passed ∷ passed ∷ passed ∷ passed ∷ limited 111 ∷ []
unfolding serve count_request text_eq redis_key build_rate_limit_identity str window_index
    read_decimal
six_runs = refl

admits_up_to_limit_example :
    admitted (serve memory auth_login_limiter none (some (codes "1.2.3.4")) six empty_memory) ≡ 5
unfolding window_index
admits_up_to_limit_example =
    Window.admits_up_to_limit memory auth_login_limiter none (some (codes "1.2.3.4")) 600 (at 0 601)
      (at 2 603 ∷ at 1 604 ∷ at 1 605 ∷ at 1 606 ∷ at 4 610 ∷ []) empty_memory (omega arith) refl
      (omega arith) (refl, (refl, (refl, (refl, (refl, (refl, tt))))))
