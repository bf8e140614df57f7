-- ===== src/Scheduler/Service/Rows.antt =====
-- agent/scheduler.py: lookups in the two tables after what the transactions do to them.
use ai_advent_challenge_9_v.Prelude.{
  ℕ, ◌+◌, ◌≤◌, ◌≡◌, refl, ◌≢◌, inl, inr, Bool, false, ◌||◌, Option, none, some, List, [], ◌∷◌, ◌++◌,
  arith, length, select, if◌then◌else◌, Bool-cases,
}
use ai_advent_challenge_9_v.Scheduler.Tables.{
  ScheduledTask, TaskRun, is_running, runs_job, has_running_run, find_task, update_where, rowcount,
  find_run, update_run,
}

abbrev pub updated :
    (ScheduledTask → Bool)
    → (ScheduledTask → ScheduledTask)
    → Option ScheduledTask
    → Option ScheduledTask
updated p f none = none
updated p f (some t) = some (if p t then f t else t)

-- An UPDATE that keeps the keys, seen through the key.
pub find_task-update_where :
    (p : ScheduledTask → Bool) (f : ScheduledTask → ScheduledTask)
    → ((t : ScheduledTask) → (f t).id ≡ t.id)
    → (id : ℕ) (ts : List ScheduledTask)
    → find_task id (update_where p f ts) ≡ updated p f (find_task id ts)
unfolding find_task update_where
find_task-update_where p f same id [] = refl
find_task-update_where p f same id (t ∷ ts) =
    ground (arith, same t, find_task-update_where p f same id ts)

pub find_task-id :
    (id : ℕ) (ts : List ScheduledTask) (t : ScheduledTask) → find_task id ts ≡ some t → t.id ≡ id
unfolding find_task
find_task-id id [] t h = cc
find_task-id id (x ∷ ts) t h = ground (arith, find_task-id id ts t)

-- No row is selected again when the update makes every selected row fail the test.
pub rowcount-update_where :
    (p : ScheduledTask → Bool) (f : ScheduledTask → ScheduledTask)
    → ((t : ScheduledTask) → p (f t) ≡ false)
    → (ts : List ScheduledTask) → rowcount p (update_where p f ts) ≡ 0
unfolding update_where
rowcount-update_where p f fails [] = refl
rowcount-update_where p f fails (t ∷ ts) = elim (Bool-cases (p t)) [
  | inl e ↦ rw e (rw (fails t) (rowcount-update_where p f fails ts))
  | inr e ↦ rw e (rw e (rowcount-update_where p f fails ts))
]

-- The number of running runs of a job.
abbrev pub running_runs : ℕ → List TaskRun → ℕ
running_runs id runs = length (select (runs_job id) runs)

pub has_running_run-iff_zero :
    (id : ℕ) (runs : List TaskRun) → has_running_run id runs ≡ false → running_runs id runs ≡ 0
unfolding has_running_run
has_running_run-iff_zero id [] h = refl
has_running_run-iff_zero id (r ∷ runs) h = ground (arith, has_running_run-iff_zero id runs)

pub running_runs-append :
    (id : ℕ) (runs : List TaskRun) (r : TaskRun)
    → running_runs id (runs ++ r ∷ []) ≡ running_runs id runs + (if runs_job id r then 1 else 0)
running_runs-append id [] r = ground arith
running_runs-append id (x ∷ runs) r = ground (arith, running_runs-append id runs r)

pub has_running_run-append :
    (id : ℕ) (runs : List TaskRun) (r : TaskRun)
    → has_running_run id (runs ++ r ∷ []) ≡ has_running_run id runs || runs_job id r
unfolding has_running_run
has_running_run-append id [] r = ground arith
has_running_run-append id (x ∷ runs) r = ground (arith, has_running_run-append id runs r)

-- Every key names one run.
abbrev pub HasUniqueRuns : List TaskRun → Type 0
HasUniqueRuns [] = Unit
HasUniqueRuns (r ∷ runs) = (find_run r.id runs ≡ none) × HasUniqueRuns runs

pub find_run-append :
    (id : ℕ) (runs : List TaskRun) (r : TaskRun)
    → find_run id runs ≡ none
    → id ≢ r.id
    → find_run id (runs ++ r ∷ []) ≡ none
unfolding find_run
find_run-append id [] r h ne = ground arith
find_run-append id (x ∷ runs) r h ne = ground (arith, find_run-append id runs r)

pub append-HasUniqueRuns :
    (runs : List TaskRun) (r : TaskRun)
    → HasUniqueRuns runs
    → find_run r.id runs ≡ none
    → HasUniqueRuns (runs ++ r ∷ [])
unfolding find_run
append-HasUniqueRuns [] r unique fresh = (refl, tt)
append-HasUniqueRuns (x ∷ runs) r unique fresh = (
  find_run-append x.id runs r unique.0 (ground arith),
  append-HasUniqueRuns runs r unique.1 (ground arith),
)

-- The outcome of a run: the key and the job stay.
module _ (f : TaskRun → TaskRun) (same_id : (r : TaskRun) → (f r).id ≡ r.id)
    (same_job : (r : TaskRun) → (f r).scheduled_task_id ≡ r.scheduled_task_id) where
  find_run-update_run_absent :
      (id run_id : ℕ) (runs : List TaskRun)
      → find_run id runs ≡ none
      → find_run id (update_run run_id f runs) ≡ none
  unfolding find_run update_run
  find_run-update_run_absent id run_id [] h = refl
  find_run-update_run_absent id run_id (r ∷ runs) h =
      ground (arith, same_id r, find_run-update_run_absent id run_id runs)

  pub update_run-HasUniqueRuns :
      (run_id : ℕ) (runs : List TaskRun)
      → HasUniqueRuns runs
      → HasUniqueRuns (update_run run_id f runs)
  unfolding update_run
  update_run-HasUniqueRuns run_id [] unique = tt
  update_run-HasUniqueRuns run_id (r ∷ runs) unique = (
    ground (arith, same_id r, find_run-update_run_absent r.id run_id runs),
    update_run-HasUniqueRuns run_id runs unique.1,
  )

  update_run_absent :
      (run_id : ℕ) (runs : List TaskRun)
      → find_run run_id runs ≡ none
      → update_run run_id f runs ≡ runs
  unfolding find_run update_run
  update_run_absent run_id [] h = refl
  update_run_absent run_id (r ∷ runs) h = ground (arith, update_run_absent run_id runs)

  -- Other jobs run what they ran.
  pub has_running_run-update_run :
      (run_id job : ℕ) (runs : List TaskRun) (r : TaskRun)
      → HasUniqueRuns runs
      → find_run run_id runs ≡ some r
      → r.scheduled_task_id ≢ job
      → has_running_run job (update_run run_id f runs) ≡ has_running_run job runs
  unfolding find_run update_run has_running_run
  has_running_run-update_run run_id job [] r unique h ne = refl
  has_running_run-update_run run_id job (x ∷ runs) r unique h ne = ground (
    arith,
    same_job x,
    update_run_absent run_id runs,
    has_running_run-update_run run_id job runs r,
  )

  pub running_runs-update_run :
      ((r : TaskRun) → is_running (f r).status ≡ false)
      → (run_id job : ℕ) (runs : List TaskRun)
      → running_runs job (update_run run_id f runs) ≤ running_runs job runs
  unfolding update_run
  running_runs-update_run ends run_id job [] = omega arith
  running_runs-update_run ends run_id job (r ∷ runs) =
      ground (arith, ends r, running_runs-update_run ends run_id job runs)
