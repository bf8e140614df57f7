-- ===== src/Scheduler/Service.antt =====
-- agent/scheduler.py: claims, manual runs, outcomes, completion and recovery, each as what its
-- transactions do to the tables.
pub mod Rows
pub mod Claims
use ai_advent_challenge_9_v.Prelude.{
  ℕ, zero, suc, ◌+◌, ◌-◌, ◌*◌, Bool, true, false, not, ◌&&◌, ◌||◌, Option, none, some, List, [],
  ◌∷◌, ◌++◌, ◌==◌, ltb, leb, if◌then◌else◌, length, select, map,
}
use ai_advent_challenge_9_v.Prelude.Sort.{sort_by}
use ai_advent_challenge_9_v.Strings.{Text}
use ai_advent_challenge_9_v.Scheduler.Schedule.Errors.{Checked, ok, invalid, ScheduleError}
use ai_advent_challenge_9_v.Scheduler.Schedule.{
  ScheduleType, once, interval, cron, Instant, second, Calendar, next_run_after_claim,
}
use ai_advent_challenge_9_v.Scheduler.Tables.{
  Db, Env, RunError, RunStatus, RunTrigger, ScheduledTask, ScheduledTaskStatus, TaskRun,
  aborted_delete, active, cancelled, completed, failed, find_run, find_task, has_running_run,
  headless_error, insert_run, interrupted_restart, interrupted_stop, is_active, is_live, is_running,
  is_set, manual, paused, rowcount, running, runs_job, schedule, skipped, skipped_overlap, slot_is,
  success, timed_out, unexpected, update_run, update_where,
}

pub data Claim : Type 0 where
  no_claim database_error : Claim
  claimed : TaskRun → Claim
  bad_schedule_of_job : ScheduleError → Claim

-- `run_count + 1 >= max_runs`
abbrev pub reaches_max : Option ℕ → ℕ → Bool
reaches_max none run_count = false
reaches_max (some m) run_count = leb m (run_count + 1)

-- The slot that a claim stores: none if this run is the last.
abbrev pub slot_after : ScheduledTask → Bool → Option Instant → Option Instant
slot_after task overlap new_next =
    if not overlap && reaches_max task.max_runs task.run_count then none else new_next

-- The WHERE clause of the claim.
abbrev pub claimable : ℕ → Instant → ScheduledTask → Bool
claimable task_id old_next t =
    t.id == task_id && is_active t.status && slot_is t.next_run_at old_next

abbrev pub take_slot : Bool → Option Instant → Instant → ScheduledTask → ScheduledTask
take_slot overlap new_next now t = record t {
  next_run_at = new_next;
  run_count = t.run_count + (if overlap then 0 else 1);
  updated_at = now;
}

abbrev pub claimed_run : Env → ℕ → ScheduledTask → Instant → Instant → Bool → TaskRun
claimed_run env threshold task old_next now overlap = record {
  id = env.new_run_id;
  scheduled_task_id = task.id;
  user_id = task.user_id;
  status = if overlap then skipped else running;
  trigger = schedule;
  scheduled_for = some old_next;
  started_at = now;
  finished_at = if overlap then some now else none;
  is_late = ltb (old_next + threshold * second) now;
  model = task.model;
  result_text = none;
  error = if overlap then some skipped_overlap else none;
  tool_trace = none;
}

abbrev pub commit_claim :
    Env → Db → List ScheduledTask → TaskRun → Option (List TaskRun) → Claim × Db
commit_claim env db tasks r none = (no_claim, db)
commit_claim env db tasks r (some runs) =
    if env.commits then (claimed r, record { tasks = tasks; runs = runs }) else (database_error, db)

-- The transaction of `claim_slot`, once the old slot, the overlap and the new slot are known.
unfoldable pub claim_transaction :
    Env → ℕ → ScheduledTask → Instant → Instant → Bool → Option Instant → Db → Claim × Db
unfolding insert_run
claim_transaction env threshold task old_next now overlap new_next db =
    if rowcount (claimable task.id old_next) db.tasks == 1
    then (let r = claimed_run env threshold task old_next now overlap in
        commit_claim env db
          (update_where (claimable task.id old_next)
            (take_slot overlap (slot_after task overlap new_next) now) db.tasks)
          r (insert_run r db.runs))
    else (no_claim, db)

unfoldable pub claim_checked :
    Env → ℕ → ScheduledTask → Instant → Instant → Bool → Checked (Option Instant) → Db → Claim × Db
unfolding claim_transaction
claim_checked env threshold task old_next now overlap (invalid e) db = (bad_schedule_of_job e, db)
claim_checked env threshold task old_next now overlap (ok new_next) db =
    claim_transaction env threshold task old_next now overlap new_next db

module _ (calendar : Calendar) where
  unfoldable pub claim_old :
      Env → ℕ → ScheduledTask → Option Instant → Instant → Db → Db → Claim × Db
  unfolding claim_checked
  claim_old env threshold task none now seen db = (no_claim, db)
  claim_old env threshold task (some old_next) now seen db =
      claim_checked env threshold task old_next now (has_running_run task.id seen.runs)
        (next_run_after_claim calendar task.schedule_type old_next now task.interval_seconds
          task.cron_expr)
        db

  -- `task` is the caller's copy of the row, `seen` the tables when the overlap is looked up, and
  -- `db` the tables when the transaction runs: other sessions may have committed in between.
  -- `threshold` is SCHEDULER_LATE_THRESHOLD_SECONDS, here a whole number.
  unfoldable pub claim_slot :
      Env → (threshold : ℕ) → (task : ScheduledTask) → (now : Instant) → (seen db : Db) → Claim × Db
  unfolding claim_old
  claim_slot env threshold task now seen db =
      claim_old env threshold task task.next_run_at now seen db

-- The WHERE clause of `finalize_task`.
abbrev pub finalizable : ℕ → Db → ScheduledTask → Bool
finalizable task_id db t =
    t.id == task_id
    && is_live t.status
    && not (is_set t.next_run_at)
    && not (has_running_run task_id db.runs)

-- `finalize_task`, with a commit that succeeds.
unfoldable pub finalize_task : ℕ → Instant → Db → Db
finalize_task task_id now db = record db {
  tasks =
      update_where (finalizable task_id db) (λ t. record t { status = completed; updated_at = now })
        db.tasks;
}

-- The outcome that a run ends with.
pub record Outcome : Type 0 where
  pub status : RunStatus
  pub result_text : Option Text
  pub error : Option RunError
  pub tool_trace : Option Text

abbrev pub with_outcome : Outcome → Instant → TaskRun → TaskRun
with_outcome outcome now r = record r {
  status = outcome.status;
  finished_at = some now;
  result_text = outcome.result_text;
  error = outcome.error;
  tool_trace = outcome.tool_trace;
}

-- The first transaction of `_finish_run`: only a running run takes an outcome.
abbrev pub record_found : ℕ → Outcome → Instant → Db → Option TaskRun → Option TaskRun × Db
record_found run_id outcome now db none = (none, db)
record_found run_id outcome now db (some r) =
    if is_running r.status
    then (some r, record db { runs = update_run run_id (with_outcome outcome now) db.runs })
    else (none, db)

unfoldable pub record_outcome : ℕ → Outcome → Instant → Db → Option TaskRun × Db
unfolding find_run
record_outcome run_id outcome now db = record_found run_id outcome now db (find_run run_id db.runs)

unfoldable pub finish_recorded : Instant → Option TaskRun × Db → Db
finish_recorded now (none, db) = db
finish_recorded now (some r, db) = finalize_task r.scheduled_task_id now db

-- `_finish_run`: the outcome, then the completion of the job, both with commits that succeed.
unfoldable pub finish_run : ℕ → Outcome → Instant → Db → Db
unfolding finish_recorded
finish_run run_id outcome now db = finish_recorded now (record_outcome run_id outcome now db)

abbrev pub interrupt : Instant → TaskRun → TaskRun
interrupt now r =
    if is_running r.status
    then record r { status = failed; finished_at = some now; error = some interrupted_restart }
    else r

unfoldable pub finalize_all : List ℕ → Instant → Db → Db
finalize_all [] now db = db
finalize_all (task_id ∷ ids) now db = finalize_all ids now (finalize_task task_id now db)

-- Live jobs with no next slot.
abbrev pub is_exhausted : ScheduledTask → Bool
is_exhausted t = is_live t.status && not (is_set t.next_run_at)

-- `recover_orphaned_runs`: what a dead process left running fails, then exhausted jobs end.
unfoldable pub recover_orphaned_runs : Instant → Db → Db
unfolding finalize_all
recover_orphaned_runs now db =
    finalize_all (map (λ t. t.id) (select is_exhausted db.tasks)) now
      (record db { runs = map (interrupt now) db.runs })

pub data Start : Type 0 where
  started : TaskRun → Start
  already_finished already_active start_failed : Start

abbrev pub manual_run : Env → ScheduledTask → Instant → TaskRun
manual_run env task now = record {
  id = env.new_run_id;
  scheduled_task_id = task.id;
  user_id = task.user_id;
  status = running;
  trigger = manual;
  scheduled_for = none;
  started_at = now;
  finished_at = none;
  is_late = false;
  model = task.model;
  result_text = none;
  error = none;
  tool_trace = none;
}

abbrev is_once : ScheduleType → Bool
is_once once = true
is_once _ = false

-- `exhausts`, on the row being updated.
abbrev pub exhausts : ScheduledTask → Bool
exhausts t = is_once t.schedule_type || reaches_max t.max_runs t.run_count

abbrev pub take_manual : Instant → ScheduledTask → ScheduledTask
take_manual now t = record t {
  run_count = t.run_count + 1;
  next_run_at = if exhausts t then none else t.next_run_at;
  updated_at = now;
}

abbrev pub commit_start :
    Env → Db → List ScheduledTask → TaskRun → Option (List TaskRun) → Start × Db
commit_start env db tasks r none = (already_active, db)
commit_start env db tasks r (some runs) =
    if env.commits then (started r, record { tasks = tasks; runs = runs }) else (start_failed, db)

abbrev pub startable : ℕ → ScheduledTask → Bool
startable task_id t = t.id == task_id && is_live t.status

-- `start_manual_run`: the transaction that counts and records the run.
unfoldable pub start_manual_run : Env → ScheduledTask → Instant → Db → Start × Db
unfolding insert_run
start_manual_run env task now db =
    if rowcount (startable task.id) db.tasks == 1
    then commit_start env db (update_where (startable task.id) (take_manual now) db.tasks)
        (manual_run env task now) (insert_run (manual_run env task now) db.runs)
    else (already_finished, db)
