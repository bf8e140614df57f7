-- ===== src/Scheduler/Control.antt =====
-- agent/scheduler_ops.py: the user's operations on scheduled jobs.
use ai_advent_challenge_9_v.Prelude.{
  ℕ, String, Bool, true, false, not, ◌&&◌, ◌||◌, Option, none, some, List, [], ◌∷◌, ◌++◌, ◌==◌, ltb,
  leb, if◌then◌else◌, length, select,
}
use ai_advent_challenge_9_v.Strings.{Text, strip}
use ai_advent_challenge_9_v.Scheduler.Schedule.Errors.{Checked, ok, invalid, ScheduleError}
use ai_advent_challenge_9_v.Scheduler.Schedule.{
  Instant, Calendar, Number, ScheduleSpec, build_schedule_spec, initial_next_run,
  next_run_on_resume,
}
use ai_advent_challenge_9_v.Scheduler.Tables.{
  failed, aborted_delete, ScheduledTaskStatus, active, paused, cancelled, ScheduledTask, TaskRun,
  Db, Env, is_live, is_active, is_set, find_task, update_where, rowcount,
}
use ai_advent_challenge_9_v.Scheduler.Service
use ai_advent_challenge_9_v.Scheduler.Service.{
  finish_run, Start, started, already_finished, already_active, start_failed, start_manual_run,
}

pub data OpsError : Type 0 where
  not_found database_error : OpsError
  validation : ScheduleError → OpsError
  title_prompt_required title_too_long prompt_too_long model_required model_too_long : OpsError
  provider_not_found : OpsError
  too_many_tasks : (limit : ℕ) → OpsError
  not_active not_paused already_done already_running final_run_in_progress : OpsError

pub data Outcome (A : Type 0) : Type 0 where
  done : A → Outcome A
  raised : OpsError → Outcome A

abbrev pub title_max_length : ℕ
title_max_length = 200

abbrev pub prompt_max_length : ℕ
prompt_max_length = 4000

abbrev pub model_max_length : ℕ
model_max_length = 200

abbrev is_blank : Text → Bool
is_blank [] = true
is_blank (c ∷ s) = false

-- `_validate_text_fields`: the stripped texts, or the first error.
unfoldable pub validate_text_fields : Text → Text → Text → Outcome (Text × Text × Text)
validate_text_fields raw_title raw_prompt raw_model =
    let title = strip raw_title in
    let prompt = strip raw_prompt in
    let model = strip raw_model in
    if is_blank title || is_blank prompt
    then raised title_prompt_required
    else if ltb title_max_length (length title)
    then raised title_too_long
    else if ltb prompt_max_length (length prompt)
    then raised prompt_too_long
    else if is_blank model
    then raised model_required
    else if ltb model_max_length (length model)
    then raised model_too_long
    else done (title, prompt, model)

-- `_count_live_tasks`
unfoldable pub count_live_tasks : ℕ → List ScheduledTask → ℕ
count_live_tasks user_id tasks =
    length (select (λ t. t.user_id == user_id && is_live t.status) tasks)

-- The request of a new job.
pub record Request : Type 0 where
  pub title : Text
  pub prompt : Text
  pub model : Text
  pub schedule_type : String
  pub provider_id : Option ℕ
  pub delay_seconds : Option Number
  pub run_at : Option Text
  pub interval_seconds : Option Number
  pub cron : Option Text
  pub max_runs : Option Number
  pub origin_chat_id : Option ℕ

-- The settings SCHEDULER_MIN_INTERVAL_SECONDS and SCHEDULER_MAX_ACTIVE_TASKS_PER_USER, what
-- `get_provider` finds, the key of the new row, and whether its commit and refresh come back.
pub record CreateEnv : Type 0 where
  pub min_interval_seconds : ℕ
  pub max_active_tasks : ℕ
  pub owns_provider : (user_id provider_id : ℕ) → Bool
  pub new_task_id : ℕ
  pub commits : Bool
  pub refreshes : Bool

abbrev pub is_own_provider : CreateEnv → ℕ → Option ℕ → Bool
is_own_provider env user_id none = true
is_own_provider env user_id (some p) = env.owns_provider user_id p

abbrev pub new_task :
    CreateEnv → ℕ → Request → Text × Text × Text → ScheduleSpec → Instant → Instant → ScheduledTask
new_task env user_id request texts spec slot now = record {
  id = env.new_task_id;
  user_id = user_id;
  origin_chat_id = request.origin_chat_id;
  title = texts.0;
  prompt = texts.1;
  model = texts.2;
  provider_id = request.provider_id;
  schedule_type = spec.schedule_type;
  run_at = spec.run_at;
  interval_seconds = spec.interval_seconds;
  cron_expr = spec.cron_expr;
  max_runs = spec.max_runs;
  run_count = 0;
  next_run_at = some slot;
  status = active;
  created_at = now;
  updated_at = now;
}

-- The limit, and the row: a commit that comes back stays when the refresh fails.
unfoldable pub store_task : CreateEnv → ℕ → ScheduledTask → Db → Outcome ScheduledTask × Db
unfolding count_live_tasks
store_task env user_id task db =
    if leb env.max_active_tasks (count_live_tasks user_id db.tasks)
    then (raised (too_many_tasks env.max_active_tasks), db)
    else if not env.commits
    then (raised database_error, db)
    else (
      if env.refreshes then done task else raised database_error,
      record db { tasks = db.tasks ++ task ∷ [] },
    )

abbrev check_owner : ℕ → Option ScheduledTask → Option ScheduledTask
check_owner user_id none = none
check_owner user_id (some t) = if t.user_id == user_id then some t else none

-- `none` is the SchedulerNotFoundError.
unfoldable pub get_owned_task : ℕ → ℕ → Db → Option ScheduledTask
get_owned_task user_id task_id db = check_owner user_id (find_task task_id db.tasks)

abbrev on_owned :
    Db
    → Option ScheduledTask
    → (ScheduledTask → Outcome ScheduledTask × Db)
    → Outcome ScheduledTask × Db
on_owned db none k = (raised not_found, db)
on_owned db (some t) k = k t

-- The WHERE clause of `_guarded_transition`.
abbrev pub guarded : ℕ → (ScheduledTaskStatus → Bool) → ScheduledTask → Bool
guarded task_id expected t = t.id == task_id && expected t.status && is_set t.next_run_at

abbrev pub is_paused : ScheduledTaskStatus → Bool
is_paused paused = true
is_paused _ = false

-- `_guarded_transition` and the answer to it: `commits` says whether the commit comes back.
abbrev pub guarded_transition :
    Bool
    → ℕ
    → (ScheduledTaskStatus → Bool)
    → (ScheduledTask → ScheduledTask)
    → ScheduledTask
    → Db
    → Outcome ScheduledTask × Db
guarded_transition commits task_id expected values task db =
    if not commits
    then (raised database_error, db)
    else if rowcount (guarded task_id expected) db.tasks == 1
    then (
      done (values task),
      record db { tasks = update_where (guarded task_id expected) values db.tasks },
    )
    else (raised final_run_in_progress, db)

abbrev pub set_pause : Instant → ScheduledTask → ScheduledTask
set_pause now t = record t { status = paused; updated_at = now }

abbrev pub set_resume : Instant → Instant → ScheduledTask → ScheduledTask
set_resume next now t = record t { status = active; next_run_at = some next; updated_at = now }

abbrev pub set_cancel : Instant → ScheduledTask → ScheduledTask
set_cancel now t = record t { status = cancelled; next_run_at = none; updated_at = now }

unfoldable pub pause_task : Bool → (user_id task_id : ℕ) → Instant → Db → Outcome ScheduledTask × Db
pause_task commits user_id task_id now db = on_owned db (get_owned_task user_id task_id db) λ t.
    if not (is_active t.status)
    then (raised not_active, db)
    else if not (is_set t.next_run_at)
    then (raised final_run_in_progress, db)
    else guarded_transition commits task_id is_active (set_pause now) t db

unfoldable pub cancel_task :
    Bool → (user_id task_id : ℕ) → Instant → Db → Outcome ScheduledTask × Db
cancel_task commits user_id task_id now db = on_owned db (get_owned_task user_id task_id db) λ t.
    if not (is_live t.status)
    then (raised already_done, db)
    else if commits
    then (
      done (set_cancel now t),
      record db { tasks = update_where (λ u. u.id == t.id) (set_cancel now) db.tasks },
    )
    else (raised database_error, db)

abbrev pub store_at :
    CreateEnv → ℕ → (Instant → ScheduledTask) → Db → Checked Instant → Outcome ScheduledTask × Db
store_at env user_id task_at db (invalid e) = (raised (validation e), db)
store_at env user_id task_at db (ok slot) = store_task env user_id (task_at slot) db

module _ (calendar : Calendar) where
  unfoldable pub create_scheduled :
      CreateEnv
      → ℕ
      → Request
      → Text × Text × Text
      → Instant
      → Db
      → Checked ScheduleSpec
      → Outcome ScheduledTask × Db
  create_scheduled env user_id request texts now db (invalid e) = (raised (validation e), db)
  create_scheduled env user_id request texts now db (ok spec) =
      store_at env user_id (λ slot. new_task env user_id request texts spec slot now) db
        (initial_next_run calendar spec now)

  abbrev pub spec_of : CreateEnv → Request → Instant → Checked ScheduleSpec
  spec_of env r now =
      build_schedule_spec calendar r.schedule_type env.min_interval_seconds r.delay_seconds r.run_at
        r.interval_seconds r.cron r.max_runs now

  unfoldable pub create_validated :
      CreateEnv
      → ℕ
      → Request
      → Instant
      → Db
      → Outcome (Text × Text × Text)
      → Outcome ScheduledTask × Db
  unfolding create_scheduled
  create_validated env user_id request now db (raised e) = (raised e, db)
  create_validated env user_id request now db (done texts) =
      if not (is_own_provider env user_id request.provider_id)
      then (raised provider_not_found, db)
      else create_scheduled env user_id request texts now db (spec_of env request now)

  unfoldable pub create_scheduled_task :
      CreateEnv → (user_id : ℕ) → Request → Instant → Db → Outcome ScheduledTask × Db
  unfolding create_validated
  create_scheduled_task env user_id request now db =
      create_validated env user_id request now db
        (validate_text_fields request.title request.prompt request.model)

  unfoldable pub resume_at :
      Bool → ℕ → Instant → ScheduledTask → Db → Checked Instant → Outcome ScheduledTask × Db
  resume_at commits task_id now t db (invalid e) = (raised (validation e), db)
  resume_at commits task_id now t db (ok next) =
      guarded_transition commits task_id is_paused (set_resume next now) t db

  unfoldable pub resume_task :
      Bool → (user_id task_id : ℕ) → Instant → Db → Outcome ScheduledTask × Db
  unfolding resume_at
  resume_task commits user_id task_id now db = on_owned db (get_owned_task user_id task_id db) λ t.
      if not (is_paused t.status)
      then (raised not_paused, db)
      else if not (is_set t.next_run_at)
      then (raised final_run_in_progress, db)
      else resume_at commits task_id now t db
          (next_run_on_resume calendar t.schedule_type t.run_at t.interval_seconds t.cron_expr now)

-- `run_task_now`
abbrev pub of_start : Start × Db → Outcome TaskRun × Db
of_start (started r, db) = (done r, db)
of_start (already_finished, db) = (raised already_done, db)
of_start (already_active, db) = (raised already_running, db)
of_start (start_failed, db) = (raised database_error, db)

abbrev pub run_owned : Env → Instant → Db → Option ScheduledTask → Outcome TaskRun × Db
run_owned env now db none = (raised not_found, db)
run_owned env now db (some t) =
    if is_live t.status then of_start (start_manual_run env t now db) else (raised already_done, db)

unfoldable pub run_task_now : Env → (user_id task_id : ℕ) → Instant → Db → Outcome TaskRun × Db
run_task_now env user_id task_id now db = run_owned env now db (get_owned_task user_id task_id db)

abbrev pub aborted : Service.Outcome
aborted = record {
  status = failed;
  result_text = none;
  error = some aborted_delete;
  tool_trace = none;
}

-- `abort_task_runs`, for the runs of the job that the service holds: each records its failure.
unfoldable pub abort_task_runs : (in_flight : List ℕ) → Instant → Db → Db
abort_task_runs [] now db = db
abort_task_runs (run_id ∷ in_flight) now db =
    abort_task_runs in_flight now (finish_run run_id aborted now db)

-- The deletion of a job, and by the foreign key of its runs.
unfoldable pub delete_rows : ℕ → Db → Db
delete_rows task_id db = record {
  tasks = select (λ t. not (t.id == task_id)) db.tasks;
  runs = select (λ r. not (r.scheduled_task_id == task_id)) db.runs;
}

-- Whether the two commits of `delete_task` come back, and the runs in flight at its two aborts.
pub record DeleteEnv : Type 0 where
  pub cancel_commits : Bool
  pub delete_commits : Bool
  pub in_flight : List ℕ
  pub late : List ℕ

abbrev pub delete_cancelled : DeleteEnv → ℕ → Instant → Db → Outcome (Unit {0}) × Db
delete_cancelled env task_id now db =
    let aborted_db = abort_task_runs env.in_flight now db in
    if env.delete_commits
    then (done tt, abort_task_runs env.late now (delete_rows task_id aborted_db))
    else (raised database_error, aborted_db)

abbrev pub delete_owned :
    DeleteEnv → ℕ → Instant → Db → Option ScheduledTask → Outcome (Unit {0}) × Db
delete_owned env task_id now db none = (raised not_found, db)
delete_owned env task_id now db (some t) =
    if env.cancel_commits
    then delete_cancelled env task_id now
        (record db { tasks = update_where (λ u. u.id == task_id) (set_cancel now) db.tasks })
    else (raised database_error, db)

unfoldable pub delete_task :
    DeleteEnv → (user_id task_id : ℕ) → Instant → Db → Outcome (Unit {0}) × Db
unfolding abort_task_runs delete_rows
delete_task env user_id task_id now db =
    delete_owned env task_id now db (get_owned_task user_id task_id db)
