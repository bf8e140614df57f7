-- ===== src/Scheduler/Schedule.antt =====
-- agent/schedule.py: when a job runs, and which schedules are accepted.
pub mod Errors
pub mod Slots
pub mod Accepted
pub mod Readings
pub mod Requested
use text.Mathlib.Text.{◌==◌ as str_eq}
use mathlib.Core.Bool.{beq}
use ai_advent_challenge_9_v.Prelude.{
  ℕ, zero, suc, ◌+◌, ◌-◌, ◌*◌, ◌/◌, Bool, true, false, not, ◌&&◌, ◌||◌, Option, none, some, List,
  [], ◌∷◌, String, ◌==◌, ltb, leb, if◌then◌else◌, length,
}
use ai_advent_challenge_9_v.Strings.{Text, strip, split, join_spaces}
use ai_advent_challenge_9_v.Scheduler.Schedule.Errors.{
  Checked, ok, invalid, ◌>>=◌, ◌>>◌, of_option, require, ScheduleError, bad_schedule, run_at_past,
  cron_invalid, max_runs_invalid, max_runs_too_large, min_interval,
}

pub data ScheduleType : Type 0 where
  once interval cron : ScheduleType

-- An argument of a request: an integer, or a value of another type.
pub data Number : Type 0 where
  nat : ℕ → Number
  negative : ℕ → Number
  not_int : Number

pub record ScheduleSpec : Type 0 where
  pub schedule_type : ScheduleType
  pub run_at : Option ℕ
  pub interval_seconds : Option ℕ
  pub cron_expr : Option Text
  pub max_runs : Option ℕ

-- An instant, or a wall-clock reading, in microseconds from datetime.min.
abbrev pub Instant : Type 0
Instant = ℕ

abbrev pub second : ℕ
second = 1000000

-- datetime.max
abbrev pub last_instant : Instant
last_instant = 315537897599999999

abbrev pub max_span_seconds : ℕ
max_span_seconds = 315360000

abbrev pub max_runs_limit : ℕ
max_runs_limit = 1000000

abbrev pub cron_max_length : ℕ
cron_max_length = 100

-- What `datetime.fromisoformat` returns: a wall-clock reading, or an instant.
pub data IsoTime : Type 0 where
  naive : ℕ → IsoTime
  aware : Instant → IsoTime

-- What the code takes from outside: the next match of a cron expression after a wall-clock time,
-- the conversions between instants and the zone's wall-clock times, and the reading of an ISO
-- timestamp; `none` stands for the exceptions that the code catches.
pub record Calendar : Type 0 where
  pub cron_next : Text → ℕ → Option ℕ
  pub to_local : Instant → Option ℕ
  pub from_local : ℕ → (fold : Bool) → Option Instant
  pub from_iso : Text → Option IsoTime

-- `_add_seconds`
unfoldable pub add_seconds : Instant → ℕ → Checked Instant
add_seconds value seconds =
    if leb (value + seconds * second) last_instant
    then ok (value + seconds * second)
    else invalid bad_schedule

unfoldable pub next_interval_run : Instant → ℕ → Instant → Checked Instant
unfolding add_seconds
next_interval_run anchor interval_seconds now =
    if ltb now anchor
    then ok anchor
    else add_seconds anchor (interval_seconds * ((now - anchor) / (interval_seconds * second) + 1))

-- `_validate_max_runs`
unfoldable pub validate_max_runs : Option Number → Checked (Option ℕ)
validate_max_runs none = ok none
validate_max_runs (some (nat n)) =
    if ltb n 1
    then invalid max_runs_invalid
    else if ltb max_runs_limit n
    then invalid max_runs_too_large
    else ok (some n)
validate_max_runs (some _) = invalid max_runs_invalid

-- `ScheduleType(schedule_type)`
unfoldable pub parse_schedule_type : String → Option ScheduleType
parse_schedule_type name =
    if str_eq name "once"
    then some once
    else if str_eq name "interval"
    then some interval
    else if str_eq name "cron"
    then some cron
    else none

unfoldable pub build_interval : ℕ → Option Number → Option Number → Checked ScheduleSpec
unfolding validate_max_runs
build_interval minimum (some (nat seconds)) max_runs =
    if ltb seconds minimum
    then invalid (min_interval minimum)
    else if ltb max_span_seconds seconds
    then invalid bad_schedule
    else do
      runs ← validate_max_runs max_runs
      ok (record {
        schedule_type = interval;
        run_at = none;
        interval_seconds = some seconds;
        cron_expr = none;
        max_runs = runs;
      })
build_interval minimum (some (negative n)) max_runs = invalid (min_interval minimum)
build_interval minimum (some not_int) max_runs = invalid bad_schedule
build_interval minimum none max_runs = invalid bad_schedule

abbrev is_given : Option Number → Bool
is_given none = false
is_given (some _) = true

abbrev is_filled : Option Text → Bool
is_filled none = false
is_filled (some []) = false
is_filled (some (c ∷ s)) = true

abbrev or_empty : Option Text → Text
or_empty none = []
or_empty (some s) = s

module _ (calendar : Calendar) where
  open calendar use {cron_next, to_local, from_local, from_iso}

  unfoldable pub validate_cron : Text → Checked Text
  validate_cron expr = do
    let stripped = strip expr
    require (not (length stripped == 0) && leb (length stripped) cron_max_length) cron_invalid
    let fields = split stripped
    require (length fields == 5) cron_invalid
    let normalized = join_spaces fields
    of_option (cron_next normalized (63082281600 * second)) cron_invalid
    ok normalized

  -- The second occurrence of a reading, and otherwise what the next rounds find.
  second_fold : Checked Instant → Instant → ℕ → Checked Instant
  second_fold again after local_next = do
    second_time ← of_option (from_local local_next true) bad_schedule
    if ltb after second_time then ok second_time else again

  -- The `for` loop of `next_cron_run`, over the rounds left.
  unfoldable pub next_cron_from : ℕ → Text → Instant → ℕ → Checked Instant
  unfolding second_fold
  next_cron_from zero expr after cursor = invalid cron_invalid
  next_cron_from (suc rounds) expr after cursor = do
    local_next ← of_option (cron_next expr cursor) cron_invalid
    candidate ← of_option (from_local local_next false) bad_schedule
    let again = next_cron_from rounds expr after local_next
    if ltb after candidate then ok candidate else second_fold again after local_next

  abbrev pub max_fold_steps : ℕ
  max_fold_steps = 1000

  unfoldable pub next_cron_run : Text → Instant → Checked Instant
  unfolding next_cron_from
  next_cron_run expr after = do
    cursor ← of_option (to_local after) bad_schedule
    next_cron_from max_fold_steps expr after cursor

  abbrev to_instant : IsoTime → Checked Instant
  to_instant (naive reading) = of_option (from_local reading false) bad_schedule
  to_instant (aware instant) = ok instant

  unfoldable pub parse_run_at : Text → Checked Instant
  parse_run_at value = do
    parsed ← of_option (from_iso (strip value)) bad_schedule
    to_instant parsed

  abbrev once_spec : Instant → ScheduleSpec
  once_spec target = record {
    schedule_type = once;
    run_at = some target;
    interval_seconds = none;
    cron_expr = none;
    max_runs = none;
  }

  -- `_build_once`, after the check that exactly one of the two is given.
  build_delayed : Option Number → Option Text → Instant → Checked ScheduleSpec
  unfolding add_seconds parse_run_at
  build_delayed (some (nat seconds)) run_at now = do
    require (leb 1 seconds && leb seconds max_span_seconds) bad_schedule
    target ← add_seconds now seconds
    ok (once_spec target)
  build_delayed (some _) run_at now = invalid bad_schedule
  build_delayed none run_at now = do
    target ← parse_run_at (or_empty run_at)
    require (not (leb target now)) run_at_past
    latest ← add_seconds now max_span_seconds
    require (not (ltb latest target)) bad_schedule
    ok (once_spec target)

  unfoldable pub build_once : Option Number → Option Text → Instant → Checked ScheduleSpec
  unfolding build_delayed
  build_once delay_seconds run_at now =
      if beq (is_given delay_seconds) (is_filled run_at)
      then invalid bad_schedule
      else build_delayed delay_seconds run_at now

  build_cron : Option Text → Option Number → Checked ScheduleSpec
  unfolding validate_cron validate_max_runs
  build_cron none max_runs = invalid cron_invalid
  build_cron (some expr) max_runs = do
    normalized ← validate_cron expr
    runs ← validate_max_runs max_runs
    ok (record {
      schedule_type = cron;
      run_at = none;
      interval_seconds = none;
      cron_expr = some normalized;
      max_runs = runs;
    })

  build_kind :
      Option ScheduleType
      → ℕ
      → Option Number
      → Option Text
      → Option Number
      → Option Text
      → Option Number
      → Instant
      → Checked ScheduleSpec
  unfolding build_once build_interval build_cron
  build_kind none minimum delay run_at seconds expr max_runs now = invalid bad_schedule
  build_kind (some once) minimum delay run_at seconds expr max_runs now =
      build_once delay run_at now
  build_kind (some interval) minimum delay run_at seconds expr max_runs now =
      build_interval minimum seconds max_runs
  build_kind (some cron) minimum delay run_at seconds expr max_runs now = build_cron expr max_runs

  -- `minimum` is the setting SCHEDULER_MIN_INTERVAL_SECONDS, or the caller's override.
  unfoldable pub build_schedule_spec :
      String
      → ℕ
      → (delay_seconds : Option Number) (run_at : Option Text) (interval_seconds : Option Number)
        (expr : Option Text) (max_runs : Option Number) (now : Instant)
      → Checked ScheduleSpec
  unfolding build_kind parse_schedule_type
  build_schedule_spec schedule_type minimum delay run_at seconds expr max_runs now =
      build_kind (parse_schedule_type schedule_type) minimum delay run_at seconds expr max_runs now

  initial_of : ScheduleType → Option Instant → Option ℕ → Option Text → Instant → Checked Instant
  unfolding add_seconds next_cron_run
  initial_of once (some run_at) seconds expr now = ok run_at
  initial_of interval run_at (some seconds) expr now = add_seconds now seconds
  initial_of cron run_at seconds (some expr) now = next_cron_run expr now
  initial_of _ _ _ _ now = invalid bad_schedule

  unfoldable pub initial_next_run : ScheduleSpec → Instant → Checked Instant
  unfolding initial_of
  initial_next_run spec now =
      initial_of spec.schedule_type spec.run_at spec.interval_seconds spec.cron_expr now

  unfoldable pub next_run_after_claim :
      ScheduleType → (old_next now : Instant) → Option ℕ → Option Text → Checked (Option Instant)
  unfolding next_interval_run next_cron_run
  next_run_after_claim once old_next now seconds expr = ok none
  next_run_after_claim interval old_next now (some seconds) expr = do
    slot ← next_interval_run old_next seconds now
    ok (some slot)
  next_run_after_claim cron old_next now seconds (some expr) = do
    slot ← next_cron_run expr now
    ok (some slot)
  next_run_after_claim _ _ _ _ _ = invalid bad_schedule

  unfoldable pub next_run_on_resume :
      ScheduleType → Option Instant → Option ℕ → Option Text → Instant → Checked Instant
  unfolding initial_of
  next_run_on_resume kind run_at seconds expr now = initial_of kind run_at seconds expr now
