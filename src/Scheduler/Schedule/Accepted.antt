-- ===== src/Scheduler/Schedule/Accepted.antt =====
-- agent/schedule.py: the schedules that are accepted, and when their first run is.
use mathlib.Core.Bool.{beq}
use ai_advent_challenge_9_v.Prelude.{
  ℕ, ◌+◌, ◌*◌, ◌≤◌, ◌<◌, ◌≡◌, ◌⊎◌, Option, none, some, String, arith, Bool-cases, inl, inr,
}
use ai_advent_challenge_9_v.Strings.{Text}
use ai_advent_challenge_9_v.Scheduler.Schedule.Errors.{ok, Checked-cases}
use ai_advent_challenge_9_v.Scheduler.Schedule.Slots.{next_cron_run-lt}
use ai_advent_challenge_9_v.Scheduler.Schedule.{
  ScheduleType, once, interval, cron, Number, nat, negative, not_int, ScheduleSpec, Instant, second,
  last_instant, max_span_seconds, Calendar, validate_max_runs, build_interval, parse_run_at,
  build_once, build_delayed, build_cron, build_kind, is_given, is_filled, or_empty,
  parse_schedule_type, validate_cron, build_schedule_spec, initial_next_run, max_runs_limit,
}

-- A schedule as it is accepted at `now`: exactly the fields of its kind are set, an interval and a
-- count of runs in their ranges, and a one-shot time lies in the future.
abbrev pub InRunRange : Option ℕ → Type 0
InRunRange none = Unit
InRunRange (some n) = (0 < n) × (n ≤ max_runs_limit)

pub data IsAccepted (minimum : ℕ) (now : Instant) (spec : ScheduleSpec) : Type 0 where
  accepted_once :
      (target : Instant)
      → now < target
      → target ≤ now + max_span_seconds * second
      → spec ≡ record {
        schedule_type = once;
        run_at = some target;
        interval_seconds = none;
        cron_expr = none;
        max_runs = none;
      }
      → IsAccepted minimum now spec
  accepted_interval :
      (seconds : ℕ) (runs : Option ℕ)
      → minimum ≤ seconds
      → seconds ≤ max_span_seconds
      → InRunRange runs
      → spec ≡ record {
        schedule_type = interval;
        run_at = none;
        interval_seconds = some seconds;
        cron_expr = none;
        max_runs = runs;
      }
      → IsAccepted minimum now spec
  accepted_cron :
      (expr : Text) (runs : Option ℕ)
      → InRunRange runs
      → spec ≡ record {
        schedule_type = cron;
        run_at = none;
        interval_seconds = none;
        cron_expr = some expr;
        max_runs = runs;
      }
      → IsAccepted minimum now spec

validate_max_runs-range :
    (max_runs : Option Number) (runs : Option ℕ)
    → validate_max_runs max_runs ≡ ok runs
    → InRunRange runs
unfolding validate_max_runs
validate_max_runs-range max_runs none h = tt
validate_max_runs-range none (some n) h = cc
validate_max_runs-range (some (nat m)) (some n) h = ground arith
validate_max_runs-range (some (negative m)) (some n) h = cc
validate_max_runs-range (some not_int) (some n) h = cc

build_interval-IsAccepted :
    (minimum : ℕ) (seconds max_runs : Option Number) (now : Instant) (spec : ScheduleSpec)
    → build_interval minimum seconds max_runs ≡ ok spec
    → IsAccepted minimum now spec
unfolding build_interval
build_interval-IsAccepted minimum (some (nat n)) max_runs now spec h =
    elim (Checked-cases (validate_max_runs max_runs)) [
      | inr (e, wrong) ↦ ground arith
      | inl (runs, found) ↦
          accepted_interval n runs (ground arith) (ground arith)
            (validate_max_runs-range max_runs runs found) (ground arith)
    ]
build_interval-IsAccepted minimum (some (negative n)) max_runs now spec h = cc
build_interval-IsAccepted minimum (some not_int) max_runs now spec h = cc
build_interval-IsAccepted minimum none max_runs now spec h = cc

module _ (calendar : Calendar) (now : Instant) (spec : ScheduleSpec) (minimum : ℕ) where
  build_delayed-IsAccepted :
      (delay : Option Number) (run_at : Option Text)
      → build_delayed calendar delay run_at now ≡ ok spec
      → IsAccepted minimum now spec
  unfolding build_delayed
  build_delayed-IsAccepted (some (nat n)) run_at h =
      accepted_once (now + n * second) (ground arith) (ground arith) (ground arith)
  build_delayed-IsAccepted (some (negative n)) run_at h = cc
  build_delayed-IsAccepted (some not_int) run_at h = cc
  build_delayed-IsAccepted none run_at h =
      elim (Checked-cases (parse_run_at calendar (or_empty run_at))) [
        | inr (e, wrong) ↦ ground arith
        | inl (target, found) ↦ accepted_once target (ground arith) (ground arith) (ground arith)
      ]

  build_once-IsAccepted :
      (delay : Option Number) (run_at : Option Text)
      → build_once calendar delay run_at now ≡ ok spec
      → IsAccepted minimum now spec
  unfolding build_once
  build_once-IsAccepted delay run_at h =
      elim (Bool-cases (beq (is_given delay) (is_filled run_at))) [
        | inl both ↦ ground arith
        | inr one ↦ build_delayed-IsAccepted delay run_at (rw one at h)
      ]

  build_cron-IsAccepted :
      (expr : Option Text) (max_runs : Option Number)
      → build_cron calendar expr max_runs ≡ ok spec
      → IsAccepted minimum now spec
  unfolding build_cron
  build_cron-IsAccepted none max_runs h = cc
  build_cron-IsAccepted (some expr) max_runs h =
      elim (Checked-cases (validate_cron calendar expr)) [
        | inr (e, wrong) ↦ ground arith
        | inl (normalized, found) ↦ elim (Checked-cases (validate_max_runs max_runs)) [
          | inr (e, wrong) ↦ ground arith
          | inl (runs, counted) ↦
              accepted_cron normalized runs (validate_max_runs-range max_runs runs counted)
                (ground arith)
        ]
      ]

  build_kind-IsAccepted :
      (kind : Option ScheduleType) (delay : Option Number) (run_at : Option Text)
      (seconds : Option Number) (expr : Option Text) (max_runs : Option Number)
      → build_kind calendar kind minimum delay run_at seconds expr max_runs now ≡ ok spec
      → IsAccepted minimum now spec
  unfolding build_kind
  build_kind-IsAccepted none delay run_at seconds expr max_runs h = cc
  build_kind-IsAccepted (some once) delay run_at seconds expr max_runs h =
      build_once-IsAccepted delay run_at h
  build_kind-IsAccepted (some interval) delay run_at seconds expr max_runs h =
      build_interval-IsAccepted minimum seconds max_runs now spec h
  build_kind-IsAccepted (some cron) delay run_at seconds expr max_runs h =
      build_cron-IsAccepted expr max_runs h

  -- Whatever the request's arguments, a schedule that is accepted has exactly the fields of its
  -- kind set, an interval and a count of runs in their ranges, and a one-shot time lies ahead, at
  -- most ten years.
  pub build_schedule_spec-IsAccepted :
      (schedule_type : String) (delay : Option Number) (run_at : Option Text)
      (seconds : Option Number) (expr : Option Text) (max_runs : Option Number)
      → build_schedule_spec calendar schedule_type minimum delay run_at seconds expr max_runs now
        ≡ ok spec
      → IsAccepted minimum now spec
  unfolding build_schedule_spec
  build_schedule_spec-IsAccepted schedule_type delay run_at seconds expr max_runs h =
      build_kind-IsAccepted (parse_schedule_type schedule_type) delay run_at seconds expr max_runs h

  -- The first run of an accepted schedule lies in the future, for every kind of schedule, when the
  -- minimum interval is positive.
  pub initial_next_run-lt :
      (slot : Instant)
      → 0 < minimum
      → IsAccepted minimum now spec
      → initial_next_run calendar spec now ≡ ok slot
      → now < slot
  unfolding initial_next_run
  initial_next_run-lt slot positive (accepted_once target ahead near e) h = ground arith
  initial_next_run-lt slot positive (accepted_interval seconds runs low high range e) h =
      ground arith
  initial_next_run-lt slot positive (accepted_cron expr runs range e) h =
      ground (arith, next_cron_run-lt calendar expr now slot)

  -- An accepted schedule that is not a cron expression has a first run, when ten years from now are
  -- within the calendar and the minimum interval is positive.
  pub initial_next_run_total :
      0 < minimum
      → now + max_span_seconds * second ≤ last_instant
      → IsAccepted minimum now spec
      → (spec.schedule_type ≡ cron)
        ⊎ ((slot : Instant) × (initial_next_run calendar spec now ≡ ok slot))
  unfolding initial_next_run
  initial_next_run_total positive room (accepted_once target ahead near e) =
      inr (target, ground arith)
  initial_next_run_total positive room (accepted_interval seconds runs low high range e) =
      inr (now + seconds * second, ground arith)
  initial_next_run_total positive room (accepted_cron expr runs range e) = inl (ground arith)
