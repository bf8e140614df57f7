-- ===== src/Scheduler/Schedule/Requested.antt =====
-- agent/schedule.py: what an accepted schedule takes from its request.
use mathlib.Core.Bool.{beq}
use ai_advent_challenge_9_v.Prelude.{
  ℕ, ◌+◌, ◌*◌, ◌≡◌, refl, ◌⊎◌, [], ◌∷◌, false, Option, none, some, String, arith, Bool-cases,
  Option-cases, inl, inr,
}
use ai_advent_challenge_9_v.Strings.{Text}
use ai_advent_challenge_9_v.Scheduler.Schedule.Errors.{
  Checked, ok, invalid, bad_schedule, Checked-cases,
}
use ai_advent_challenge_9_v.Scheduler.Schedule.Accepted.{IsAccepted, build_schedule_spec-IsAccepted}
use ai_advent_challenge_9_v.Scheduler.Schedule.Readings.{
  IsCount, IsCronOf, IsOneShot, validate_max_runs-IsCount, validate_cron-IsCronOf,
  parse_run_at-IsTimeOf, parse_schedule_type-eq,
}
use ai_advent_challenge_9_v.Scheduler.Schedule.{
  ScheduleType, once, interval, cron, Number, nat, negative, not_int, ScheduleSpec, Instant, second,
  Calendar, validate_max_runs, build_interval, parse_run_at, build_once, build_delayed, build_cron,
  build_kind, is_given, is_filled, parse_schedule_type, validate_cron, build_schedule_spec,
}

module _ (calendar : Calendar) where
  -- The kind is the one that the request names, and the values are its own.
  pub data IsRequested (schedule_type : String) (delay : Option Number) (run_at : Option Text)
      (seconds : Option Number) (expr : Option Text) (max_runs : Option Number) (now : Instant)
      (spec : ScheduleSpec) : Type 0 where
    requested_once :
        (target : Instant)
        → schedule_type ≡ "once"
        → IsOneShot calendar delay run_at now target
        → spec.schedule_type ≡ once
        → spec.run_at ≡ some target
        → IsRequested schedule_type delay run_at seconds expr max_runs now spec
    requested_interval :
        (n : ℕ)
        → schedule_type ≡ "interval"
        → seconds ≡ some (nat n)
        → IsCount max_runs spec.max_runs
        → spec.schedule_type ≡ interval
        → spec.interval_seconds ≡ some n
        → IsRequested schedule_type delay run_at seconds expr max_runs now spec
    requested_cron :
        (text normalized : Text)
        → schedule_type ≡ "cron"
        → expr ≡ some text
        → IsCronOf calendar text normalized
        → IsCount max_runs spec.max_runs
        → spec.schedule_type ≡ cron
        → spec.cron_expr ≡ some normalized
        → IsRequested schedule_type delay run_at seconds expr max_runs now spec

  module _ (schedule_type : String) (seconds : Option Number) (max_runs : Option Number)
      (now : Instant) (minimum : ℕ) (spec : ScheduleSpec) where
    build_delayed-IsRequested :
        (delay : Option Number) (run_at expr : Option Text)
        → schedule_type ≡ "once"
        → beq (is_given delay) (is_filled run_at) ≡ false
        → build_delayed calendar delay run_at now ≡ ok spec
        → IsRequested schedule_type delay run_at seconds expr max_runs now spec
    unfolding build_delayed
    build_delayed-IsRequested (some (nat n)) none expr name one h =
        requested_once (now + n * second) name (inl (n, refl, refl, ground arith, refl))
          (ground arith) (ground arith)
    build_delayed-IsRequested (some (nat n)) (some []) expr name one h =
        requested_once (now + n * second) name (inl (n, refl, refl, ground arith, refl))
          (ground arith) (ground arith)
    build_delayed-IsRequested (some (nat n)) (some (c ∷ s)) expr name one h = cc
    build_delayed-IsRequested (some (negative n)) run_at expr name one h = cc
    build_delayed-IsRequested (some not_int) run_at expr name one h = cc
    build_delayed-IsRequested none none expr name one h = cc
    build_delayed-IsRequested none (some []) expr name one h = cc
    build_delayed-IsRequested none (some (c ∷ s)) expr name one h =
        elim (Checked-cases (parse_run_at calendar (c ∷ s))) [
          | inr (e, wrong) ↦ ground arith
          | inl (target, found) ↦
              requested_once target name
                (inr (c ∷ s, refl, refl, parse_run_at-IsTimeOf calendar (c ∷ s) target found))
                (ground arith) (ground arith)
        ]

    build_interval-IsRequested :
        (given : Option Number) (delay : Option Number) (run_at expr : Option Text)
        → schedule_type ≡ "interval"
        → build_interval minimum given max_runs ≡ ok spec
        → IsRequested schedule_type delay run_at given expr max_runs now spec
    unfolding build_interval
    build_interval-IsRequested (some (nat n)) delay run_at expr name h =
        elim (Checked-cases (validate_max_runs max_runs)) [
          | inr (e, wrong) ↦ ground arith
          | inl (runs, found) ↦
              let same : spec.max_runs ≡ runs = ground arith in
              requested_interval n name refl
                (rw same (validate_max_runs-IsCount max_runs runs found)) (ground arith)
                (ground arith)
        ]
    build_interval-IsRequested (some (negative n)) delay run_at expr name h = cc
    build_interval-IsRequested (some not_int) delay run_at expr name h = cc
    build_interval-IsRequested none delay run_at expr name h = cc

    build_cron-IsRequested :
        (delay : Option Number) (run_at expr : Option Text)
        → schedule_type ≡ "cron"
        → build_cron calendar expr max_runs ≡ ok spec
        → IsRequested schedule_type delay run_at seconds expr max_runs now spec
    unfolding build_cron
    build_cron-IsRequested delay run_at none name h = cc
    build_cron-IsRequested delay run_at (some text) name h =
        elim (Checked-cases (validate_cron calendar text)) [
          | inr (e, wrong) ↦ ground arith
          | inl (normalized, found) ↦ elim (Checked-cases (validate_max_runs max_runs)) [
            | inr (e, wrong) ↦ ground arith
            | inl (runs, counted) ↦
                let same : spec.max_runs ≡ runs = ground arith in
                requested_cron text normalized name refl
                  (validate_cron-IsCronOf calendar text normalized found)
                  (rw same (validate_max_runs-IsCount max_runs runs counted)) (ground arith)
                  (ground arith)
          ]
        ]

    build_kind-IsRequested :
        (kind : ScheduleType) (delay : Option Number) (run_at expr : Option Text)
        → ((schedule_type ≡ "once") × (kind ≡ once))
          ⊎ ((schedule_type ≡ "interval") × (kind ≡ interval))
          ⊎ ((schedule_type ≡ "cron") × (kind ≡ cron))
        → build_kind calendar (some kind) minimum delay run_at seconds expr max_runs now ≡ ok spec
        → IsRequested schedule_type delay run_at seconds expr max_runs now spec
    unfolding build_kind build_once
    build_kind-IsRequested kind delay run_at expr (inl (name, e)) h =
        let done = rw e at h in
        elim (Bool-cases (beq (is_given delay) (is_filled run_at))) [
          | inl both ↦
              let bad : Path (Checked ScheduleSpec) (invalid bad_schedule) (ok spec) =
                rw both at done in
              cc
          | inr one ↦ build_delayed-IsRequested delay run_at expr name one (rw one at done)
        ]
    build_kind-IsRequested kind delay run_at expr (inr (inl (name, e))) h =
        build_interval-IsRequested seconds delay run_at expr name (rw e at h)
    build_kind-IsRequested kind delay run_at expr (inr (inr (name, e))) h =
        build_cron-IsRequested delay run_at expr name (rw e at h)

    -- Whatever the request's arguments, an accepted schedule is of the kind that the request names
    -- and has exactly the fields of its kind. A one-shot time is the request's delay after now or
    -- its timestamp's instant, the other not being given, and lies ahead, at most ten years. An
    -- interval is the request's own, from the minimum to ten years. A cron expression has five
    -- fields and a match, and is the request's text, of 1 to 100 characters without its outer
    -- blanks, with one blank between two fields. A count of runs is the request's own, from 1 to
    -- 1,000,000.
    pub build_schedule_spec-IsRequested :
        (delay : Option Number) (run_at expr : Option Text)
        → build_schedule_spec calendar schedule_type minimum delay run_at seconds expr max_runs now
          ≡ ok spec
        → IsAccepted minimum now spec
          × IsRequested schedule_type delay run_at seconds expr max_runs now spec
    unfolding build_schedule_spec
    build_schedule_spec-IsRequested delay run_at expr h = (
      build_schedule_spec-IsAccepted calendar now spec minimum schedule_type delay run_at seconds
          expr max_runs h,
      elim (Option-cases (parse_schedule_type schedule_type)) [
        | inl e ↦
            let bad : Path (Checked ScheduleSpec) (invalid bad_schedule) (ok spec) = rw e at h in cc
        | inr (kind, e) ↦
            build_kind-IsRequested kind delay run_at expr
              (parse_schedule_type-eq schedule_type kind e) (rw e at h)
      ],
    )
