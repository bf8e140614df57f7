-- ===== src/Limits/Throttle/Samples.antt =====
-- agent/limits.py: the login throttle on small inputs, and the theorems at them.
use ai_advent_challenge_9_v.Prelude.{
  ◌*◌, ◌≤◌, ◌≡◌, refl, true, false, none, some, List, [], ◌∷◌, arith,
}
use ai_advent_challenge_9_v.Limits.Clock.{second}
use ai_advent_challenge_9_v.Limits.Throttle.{
  Key, same_key, LoginSettings, get, put, Call, attempt, reset, min_by, victim, evict_loop, evict,
  record_failure, blocked_seconds, register_attempt, perform, perform_all,
}
use ai_advent_challenge_9_v.Limits.Throttle.Bounded.{IsBounded, perform_all-IsBounded}
use ai_advent_challenge_9_v.Limits.Throttle.Attempts.{guesses, guesses-le_max_failed}

abbrev settings : LoginSettings
settings = record { max_failed_attempts = 2; lockout_seconds = 300 }

abbrev anna : Key
anna = record { username = "anna"; address = "10.0.0.7" }

abbrev boris : Key
boris = record { username = "boris"; address = "10.0.0.7" }

program : Unit {0}
unfolding perform_all perform register_attempt blocked_seconds record_failure evict evict_loop
    victim min_by get put same_key
program = tt

-- Four guesses of anna in a row, with one of boris between them and a login of his.
abbrev calls : List Call
calls =
    attempt 5 6 anna
    ∷ attempt 7 8 boris
    ∷ attempt 9 10 anna
    ∷ reset boris
    ∷ attempt 11 12 anna
    ∷ attempt 13 14 anna
    ∷ []

third_is_refused :
    (register_attempt settings
      (1 * second)
      (1 * second)
      anna
      (perform_all settings (attempt 5 6 anna ∷ attempt 9 10 anna ∷ []) [])).0
    ≡ (some 300, false)
unfolding program
third_is_refused = refl

block_starts :
    (register_attempt settings 9 10 anna (perform_all settings (attempt 5 6 anna ∷ []) [])).0
    ≡ (none, true)
unfolding program
block_starts = refl

two_guesses : guesses settings anna 5 calls [] ≡ 2
unfolding program
two_guesses = refl

perform_all-IsBounded_example : IsBounded (perform_all settings calls [])
perform_all-IsBounded_example = perform_all-IsBounded settings calls

guesses-le_max_failed_example : guesses settings anna 5 calls [] ≤ 2
unfolding program
guesses-le_max_failed_example =
    guesses-le_max_failed settings anna 5 calls [] (omega arith) refl (ground arith) (omega arith)
