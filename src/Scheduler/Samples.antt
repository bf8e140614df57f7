-- ===== src/Scheduler/Samples.antt =====
-- agent/scheduler.py and its neighbours on small inputs, and the theorems at them.
use ai_advent_challenge_9_v.Prelude.{
  ℕ, ◌+◌, ◌*◌, ◌<◌, ◌≡◌, refl, ◌⊎◌, true, false, none, some, List, [], ◌∷◌, arith, length,
}
use ai_advent_challenge_9_v.Strings.{is_space, lstrip, strip}
use ai_advent_challenge_9_v.Scheduler.Schedule.{
  interval, cron, nat, ScheduleSpec, Instant, second, Calendar, next_interval_run,
  build_schedule_spec, initial_next_run, next_run_after_claim, next_run_on_resume,
}
use ai_advent_challenge_9_v.Scheduler.Schedule.Errors.{ok}
use ai_advent_challenge_9_v.Scheduler.Schedule.Slots.{
  IsNextSlot, next_interval_run-IsNextSlot, next_run_after_claim-lt,
}
use ai_advent_challenge_9_v.Scheduler.Schedule.Accepted.{
  IsAccepted, build_schedule_spec-IsAccepted, initial_next_run-lt, initial_next_run_total,
}
use ai_advent_challenge_9_v.Scheduler.Schedule.Requested.{
  IsRequested, build_schedule_spec-IsRequested,
}
use ai_advent_challenge_9_v.Scheduler.Tables.{
  ScheduledTask, TaskRun, Db, Env, active, running, success, schedule, find_task, find_run,
  has_running_run, update_where, update_run, insert_run,
}
use ai_advent_challenge_9_v.Scheduler.Service.{
  Outcome, started, claim_slot, record_outcome, finish_run, recover_orphaned_runs, start_manual_run,
  manual_run,
}
use ai_advent_challenge_9_v.Scheduler.Service.Claims.{IsRefused, claim_slot-exclusive}
use ai_advent_challenge_9_v.Scheduler.Control.{
  CreateEnv, Request, store_task, validate_text_fields, create_scheduled_task, get_owned_task,
  pause_task, resume_task, cancel_task, run_task_now,
}
use ai_advent_challenge_9_v.Prelude.{map}
use ai_advent_challenge_9_v.Scheduler.Listing.{get_owned_run}
use ai_advent_challenge_9_v.Scheduler.Calls.{
  Call, claim, finish, recover, start, create, pause, resume, perform_all, claim_and_announce, tick,
}
use ai_advent_challenge_9_v.Scheduler.Calls.Sound.{IsSound}
use ai_advent_challenge_9_v.Scheduler.Calls.Recovery.{
  IsRecovered, recover_orphaned_runs-IsRecovered,
}
use ai_advent_challenge_9_v.Scheduler.Calls.All.{perform_all-IsSound}
use ai_advent_challenge_9_v.Scheduler.Calls.Started.{IsStarted}
use ai_advent_challenge_9_v.Scheduler.Calls.Picks.{IsBatch}
use ai_advent_challenge_9_v.Scheduler.Calls.Batch.{claims, tick-perform_all}

-- A zone without shifts, and a cron expression that matches a minute after its start.
abbrev utc : Calendar
utc = record {
  cron_next = λ expr after. some (after + 60 * second);
  to_local = λ instant. some instant;
  from_local = λ reading fold. some reading;
  from_iso = λ s. none;
}

program : Unit {0}
unfolding perform_all tick claim_and_announce claim_slot finish_run record_outcome
    recover_orphaned_runs run_task_now start_manual_run create_scheduled_task pause_task resume_task
    cancel_task get_owned_task find_task find_run update_where update_run insert_run has_running_run
    validate_text_fields strip lstrip is_space build_schedule_spec initial_next_run
    next_run_after_claim next_interval_run store_task next_run_on_resume get_owned_run
program = tt

-- Ten minutes late, the next run is not one of the missed ones.
next_interval_run-IsNextSlot_example : IsNextSlot (100 * second) 60 (700 * second) (760 * second)
unfolding program
next_interval_run-IsNextSlot_example =
    next_interval_run-IsNextSlot (100 * second) 60 (700 * second) (760 * second) (omega arith) refl

next_run_after_claim-lt_example : 700 * second < 760 * second
unfolding program
next_run_after_claim-lt_example =
    next_run_after_claim-lt utc interval (100 * second) (700 * second) (some 60) none (760 * second)
      (λ e. ground arith) refl

abbrev every_minute : ScheduleSpec
every_minute = record {
  schedule_type = interval;
  run_at = none;
  interval_seconds = some 60;
  cron_expr = none;
  max_runs = some 1;
}

every_minute-IsAccepted : IsAccepted 60 (5 * second) every_minute
unfolding program
every_minute-IsAccepted =
    build_schedule_spec-IsAccepted utc (5 * second) every_minute 60 "interval" none none
      (some (nat 60)) none (some (nat 1)) refl

build_schedule_spec-IsRequested_example :
    IsAccepted 60 (5 * second) every_minute
    × IsRequested utc "interval" none none
        (some (nat 60))
        none
        (some (nat 1))
        (5 * second)
        every_minute
unfolding program
build_schedule_spec-IsRequested_example =
    build_schedule_spec-IsRequested utc "interval" (some (nat 60)) (some (nat 1)) (5 * second) 60
      every_minute none none none refl

initial_next_run-lt_example : 5 * second < 65 * second
unfolding program
initial_next_run-lt_example =
    initial_next_run-lt utc (5 * second) every_minute 60 (65 * second) (omega arith)
      every_minute-IsAccepted refl

initial_next_run_total_example :
    (every_minute.schedule_type ≡ cron)
    ⊎ ((slot : Instant) × (initial_next_run utc every_minute (5 * second) ≡ ok slot))
initial_next_run_total_example =
    initial_next_run_total utc (5 * second) every_minute 60 (omega arith) (omega arith)
      every_minute-IsAccepted

abbrev job : ScheduledTask
job = record {
  id = 1;
  user_id = 7;
  origin_chat_id = none;
  title = 104 ∷ [];
  prompt = 112 ∷ [];
  model = 109 ∷ [];
  provider_id = none;
  schedule_type = interval;
  run_at = none;
  interval_seconds = some 60;
  cron_expr = none;
  max_runs = some 1;
  run_count = 0;
  next_run_at = some (65 * second);
  status = active;
  created_at = 5 * second;
  updated_at = 5 * second;
}

abbrev empty : Db
empty = record { tasks = []; runs = [] }

abbrev one_job : Db
one_job = record { tasks = job ∷ []; runs = [] }

abbrev with_key : ℕ → Env
with_key key = record { new_run_id = key; commits = true }

abbrev create_env : CreateEnv
create_env = record {
  min_interval_seconds = 60;
  max_active_tasks = 20;
  owns_provider = λ user provider. false;
  new_task_id = 1;
  commits = true;
  refreshes = true;
}

abbrev request : Request
request = record {
  title = 32 ∷ 104 ∷ [];
  prompt = 112 ∷ [];
  model = 109 ∷ 10 ∷ [];
  schedule_type = "interval";
  provider_id = none;
  delay_seconds = none;
  run_at = none;
  interval_seconds = some (nat 60);
  cron = none;
  max_runs = some (nat 1);
  origin_chat_id = none;
}

abbrev finished : Outcome
finished = record {
  status = success;
  result_text = some (111 ∷ []);
  error = none;
  tool_trace = none;
}

create_makes_the_job :
    (create_scheduled_task utc create_env 7 request (5 * second) empty).1 ≡ one_job
unfolding program
create_makes_the_job = refl

abbrev the_run : TaskRun
the_run = record {
  id = 9;
  scheduled_task_id = 1;
  user_id = 7;
  status = running;
  trigger = schedule;
  scheduled_for = some (65 * second);
  started_at = 70 * second;
  finished_at = none;
  is_late = false;
  model = 109 ∷ [];
  result_text = none;
  error = none;
  tool_trace = none;
}

claim_slot-exclusive_example :
    let after = (claim_slot utc (with_key 9) 60 job (70 * second) one_job one_job).1 in
    IsRefused after (claim_slot utc (with_key 10) 60 job (71 * second) one_job after)
unfolding program
claim_slot-exclusive_example =
    claim_slot-exclusive utc (with_key 9) (with_key 10) 60 job (70 * second) (71 * second) one_job
      one_job one_job the_run (λ e. ground arith) (λ old e. ground arith) refl

-- A job's whole life: it is claimed, started again by hand while it runs, and ends.
abbrev life : List Call
life =
    create create_env 7 request (5 * second)
    ∷ pause true 7 1 (6 * second)
    ∷ resume true 7 1 (7 * second)
    ∷ claim (with_key 9) 1 (70 * second)
    ∷ start (with_key 10) 7 1 (71 * second)
    ∷ finish 9 finished (80 * second)
    ∷ recover (90 * second)
    ∷ []

empty-IsSound : IsSound empty
unfolding find_task
empty-IsSound = record {
  unique = tt;
  one_running = λ id. omega arith;
  in_budget = λ id t h. cc;
  none_stuck = λ id t h. cc;
}

perform_all-IsSound_example : IsSound (perform_all utc 60 life empty)
unfolding program
perform_all-IsSound_example =
    perform_all-IsSound utc 60 life empty empty-IsSound
      (tt, (tt, (tt, (refl, (refl, (refl, (tt, tt)))))))

recover_orphaned_runs-IsRecovered_example :
    IsRecovered (recover_orphaned_runs (90 * second) (record one_job { runs = the_run ∷ [] }))
recover_orphaned_runs-IsRecovered_example =
    recover_orphaned_runs-IsRecovered (90 * second) (record one_job { runs = the_run ∷ [] })

tick-perform_all_example :
    (picked : List ScheduledTask) × IsBatch (70 * second) one_job.tasks picked
    × ((tick utc 60 with_key (70 * second) one_job).1
        ≡ perform_all utc 60
            (claims utc 60 with_key 0 (map (λ t. t.id) picked) (70 * second))
            one_job)
    × IsStarted
        (length picked)
        one_job
        (tick utc 60 with_key (70 * second) one_job).0
        (tick utc 60 with_key (70 * second) one_job).1
tick-perform_all_example = tick-perform_all utc 60 with_key (70 * second) one_job

-- The job's one run has ended and its completion has not been committed yet: a manual start is let
-- through, and the job has started two runs.
abbrev between : Db
between =
    (record_outcome 9 finished (80 * second)
      (claim_slot utc (with_key 9) 60 job (70 * second) one_job one_job).1).1

start_in_between :
    (start_manual_run (with_key 10) job (80 * second) between).0
    ≡ started (manual_run (with_key 10) job (80 * second))
unfolding program
start_in_between = refl
