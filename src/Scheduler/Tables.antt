-- ===== src/Scheduler/Tables.antt =====
-- The scheduler tables of shared/models.py, and the statements that the scheduler runs on them.
use ai_advent_challenge_9_v.Prelude.{
  ℕ, Bool, true, false, ◌&&◌, ◌||◌, Option, none, some, List, [], ◌∷◌, ◌++◌, ◌==◌, if◌then◌else◌,
  length, select,
}
use ai_advent_challenge_9_v.Strings.{Text}
use ai_advent_challenge_9_v.Scheduler.Schedule.{ScheduleType, Instant}

pub data ScheduledTaskStatus : Type 0 where
  active paused completed cancelled : ScheduledTaskStatus

pub data RunStatus : Type 0 where
  running success failed skipped : RunStatus

pub data RunTrigger : Type 0 where
  schedule manual : RunTrigger

-- The failure texts of a run.
pub data RunError : Type 0 where
  skipped_overlap interrupted_restart interrupted_stop aborted_delete timed_out : RunError
  headless_error unexpected : Text → RunError

pub record ScheduledTask : Type 0 where
  pub id : ℕ
  pub user_id : ℕ
  pub origin_chat_id : Option ℕ
  pub title : Text
  pub prompt : Text
  pub model : Text
  pub provider_id : Option ℕ
  pub schedule_type : ScheduleType
  pub run_at : Option Instant
  pub interval_seconds : Option ℕ
  pub cron_expr : Option Text
  pub max_runs : Option ℕ
  pub run_count : ℕ
  pub next_run_at : Option Instant
  pub status : ScheduledTaskStatus
  pub created_at : Instant
  pub updated_at : Instant

pub record TaskRun : Type 0 where
  pub id : ℕ
  pub scheduled_task_id : ℕ
  pub user_id : ℕ
  pub status : RunStatus
  pub trigger : RunTrigger
  pub scheduled_for : Option Instant
  pub started_at : Instant
  pub finished_at : Option Instant
  pub is_late : Bool
  pub model : Text
  pub result_text : Option Text
  pub error : Option RunError
  pub tool_trace : Option Text

pub record Db : Type 0 where
  pub tasks : List ScheduledTask
  pub runs : List TaskRun

-- The key that the database gives to a new run, and whether its commit comes back.
pub record Env : Type 0 where
  pub new_run_id : ℕ
  pub commits : Bool

abbrev pub is_running : RunStatus → Bool
is_running running = true
is_running _ = false

-- `status.in_([ACTIVE, PAUSED])`
abbrev pub is_live : ScheduledTaskStatus → Bool
is_live active = true
is_live paused = true
is_live _ = false

abbrev pub is_active : ScheduledTaskStatus → Bool
is_active active = true
is_active _ = false

abbrev pub is_set : Option Instant → Bool
is_set none = false
is_set (some t) = true

-- `next_run_at == old_next`, false where one side is NULL
abbrev pub slot_is : Option Instant → Instant → Bool
slot_is none old_next = false
slot_is (some t) old_next = t == old_next

abbrev pub runs_job : ℕ → TaskRun → Bool
runs_job task_id r = r.scheduled_task_id == task_id && is_running r.status

-- `_has_running_run`
unfoldable pub has_running_run : ℕ → List TaskRun → Bool
has_running_run task_id [] = false
has_running_run task_id (r ∷ runs) = runs_job task_id r || has_running_run task_id runs

unfoldable pub find_task : ℕ → List ScheduledTask → Option ScheduledTask
find_task task_id [] = none
find_task task_id (t ∷ tasks) = if t.id == task_id then some t else find_task task_id tasks

-- An UPDATE of the rows that a WHERE clause selects, and the rows that it selects.
unfoldable pub update_where :
    (ScheduledTask → Bool)
    → (ScheduledTask → ScheduledTask)
    → List ScheduledTask
    → List ScheduledTask
update_where p f [] = []
update_where p f (t ∷ tasks) = (if p t then f t else t) ∷ update_where p f tasks

abbrev pub rowcount : (ScheduledTask → Bool) → List ScheduledTask → ℕ
rowcount p tasks = length (select p tasks)

-- The unique index uq_taskrun_one_running refuses a second running row of a job.
unfoldable pub insert_run : TaskRun → List TaskRun → Option (List TaskRun)
unfolding has_running_run
insert_run r runs =
    if is_running r.status && has_running_run r.scheduled_task_id runs
    then none
    else some (runs ++ r ∷ [])

unfoldable pub find_run : ℕ → List TaskRun → Option TaskRun
find_run run_id [] = none
find_run run_id (r ∷ runs) = if r.id == run_id then some r else find_run run_id runs

unfoldable pub update_run : ℕ → (TaskRun → TaskRun) → List TaskRun → List TaskRun
update_run run_id f [] = []
update_run run_id f (r ∷ runs) = (if r.id == run_id then f r else r) ∷ update_run run_id f runs
