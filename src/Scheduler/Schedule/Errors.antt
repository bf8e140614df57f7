-- ===== src/Scheduler/Schedule/Errors.antt =====
-- ScheduleValidationError as a result: agent/schedule.py raises it, and nothing catches it inside.
use ai_advent_challenge_9_v.Prelude.{
  ℕ, ◌≡◌, refl, ◌⊎◌, inl, inr, Bool, true, false, Option, none, some,
}

pub data ScheduleError : Type 0 where
  bad_schedule run_at_past cron_invalid max_runs_invalid max_runs_too_large : ScheduleError
  min_interval : (minimum : ℕ) → ScheduleError

pub data Checked (A : Type 0) : Type 0 where
  ok : A → Checked A
  invalid : ScheduleError → Checked A

-- `abbrev`s, which the tactics see through in a `do` block.
abbrev pub ◌>>=◌ : {A B : Type 0} (step : Checked A) (rest : A → Checked B) → Checked B
invalid e >>= rest = invalid e
ok value >>= rest = rest value

abbrev pub ◌>>◌ : {A B : Type 0} (step : Checked A) (next : Checked B) → Checked B
step >> next = step >>= λ _. next

infixl 5 ◌>>=◌
infixl 5 ◌>>◌
abbrev pub require : Bool → ScheduleError → Checked (Unit {0})
require true e = ok tt
require false e = invalid e

abbrev pub of_option : {A : Type 0} → Option A → ScheduleError → Checked A
of_option none e = invalid e
of_option (some a) e = ok a

-- A block that succeeds has had a result at each step.
pub >>=-eq-ok :
    {A B : Type 0} (step : Checked A) (rest : A → Checked B) {result : B}
    → (step >>= rest) ≡ ok result
    → (value : A) × (step ≡ ok value) × (rest value ≡ ok result)
>>=-eq-ok (invalid e) rest same = cc
>>=-eq-ok (ok value) rest same = (value, refl, same)

pub require-eq-ok : (b : Bool) (e : ScheduleError) {u : Unit {0}} → require b e ≡ ok u → b ≡ true
require-eq-ok true e h = refl
require-eq-ok false e h = cc

pub of_option-eq-ok :
    {A : Type 0} (o : Option A) (e : ScheduleError) {a : A} → of_option o e ≡ ok a → o ≡ some a
of_option-eq-ok none e h = cc
of_option-eq-ok (some x) e h = cc

pub Checked-cases :
    {A : Type 0} (m : Checked A) → ((a : A) × (m ≡ ok a)) ⊎ ((e : ScheduleError) × (m ≡ invalid e))
Checked-cases (ok a) = inl (a, refl)
Checked-cases (invalid e) = inr (e, refl)
