-- ===== src/Scheduler/Calls/Delete.antt =====
-- agent/scheduler_ops.py: a deletion takes the job with its runs, and keeps the invariant.
use ai_advent_challenge_9_v.Prelude.{
  ℕ, ◌≤◌, ◌≡◌, refl, ◌≢◌, inl, inr, Bool, not, none, some, List, [], ◌∷◌, arith, ◌==◌, Bool-cases,
  Option-cases, select,
}
use ai_advent_challenge_9_v.Scheduler.Schedule.{Instant}
use ai_advent_challenge_9_v.Scheduler.Tables.{
  ScheduledTask, TaskRun, Db, find_task, find_run, update_where, has_running_run,
}
use ai_advent_challenge_9_v.Scheduler.Service.{finish_run}
use ai_advent_challenge_9_v.Scheduler.Service.Rows.{running_runs, HasUniqueRuns}
use ai_advent_challenge_9_v.Scheduler.Control.{
  DeleteEnv, aborted, abort_task_runs, delete_rows, delete_task, get_owned_task, set_cancel,
}
use ai_advent_challenge_9_v.Scheduler.Calls.Sound.{IsSound, update-IsSound}
use ai_advent_challenge_9_v.Scheduler.Calls.Finish.{finish_run-IsSound}
use ai_advent_challenge_9_v.Scheduler.Calls.Create.{same-InBudget}

abort_task_runs-IsSound :
    (in_flight : List ℕ) (now : Instant) (db : Db)
    → IsSound db
    → IsSound (abort_task_runs in_flight now db)
unfolding abort_task_runs
abort_task_runs-IsSound [] now db sound = sound
abort_task_runs-IsSound (run_id ∷ in_flight) now db sound =
    abort_task_runs-IsSound in_flight now (finish_run run_id aborted now db)
      (finish_run-IsSound run_id aborted now db refl sound)

module _ (task_id : ℕ) where
  abbrev other_task : ScheduledTask → Bool
  other_task t = not (t.id == task_id)

  abbrev other_run : TaskRun → Bool
  other_run r = not (r.scheduled_task_id == task_id)

  find_task-select :
      (id : ℕ) (ts : List ScheduledTask) (t : ScheduledTask)
      → find_task id (select other_task ts) ≡ some t
      → (find_task id ts ≡ some t) × (id ≢ task_id)
  unfolding find_task
  find_task-select id [] t h = cc
  find_task-select id (x ∷ ts) t h = elim (Bool-cases (other_task x)) [
    | inl e ↦ elim (Bool-cases (x.id == id)) [
      | inl here ↦ (ground arith, λ same. ground arith)
      | inr there ↦
          let (found, other) = find_task-select id ts t (ground arith) in (ground arith, other)
    ]
    | inr e ↦ let (found, other) = find_task-select id ts t (ground arith) in (ground arith, other)
  ]

  find_run-select_absent :
      (id : ℕ) (runs : List TaskRun)
      → find_run id runs ≡ none
      → find_run id (select other_run runs) ≡ none
  unfolding find_run
  find_run-select_absent id [] h = refl
  find_run-select_absent id (r ∷ runs) h = ground (arith, find_run-select_absent id runs)

  select-HasUniqueRuns :
      (runs : List TaskRun) → HasUniqueRuns runs → HasUniqueRuns (select other_run runs)
  select-HasUniqueRuns [] unique = tt
  select-HasUniqueRuns (r ∷ runs) unique = elim (Bool-cases (other_run r)) [
    | inl e ↦ rw e (find_run-select_absent r.id runs unique.0, select-HasUniqueRuns runs unique.1)
    | inr e ↦ rw e (select-HasUniqueRuns runs unique.1)
  ]

  running_runs-select :
      (id : ℕ) (runs : List TaskRun)
      → running_runs id (select other_run runs) ≤ running_runs id runs
  running_runs-select id [] = omega arith
  running_runs-select id (r ∷ runs) = ground (arith, running_runs-select id runs)

  has_running_run-select :
      (id : ℕ) (runs : List TaskRun)
      → id ≢ task_id
      → has_running_run id (select other_run runs) ≡ has_running_run id runs
  unfolding has_running_run
  has_running_run-select id [] other = refl
  has_running_run-select id (r ∷ runs) other = ground (arith, has_running_run-select id runs)

  delete_rows-IsSound : (db : Db) → IsSound db → IsSound (delete_rows task_id db)
  unfolding delete_rows
  delete_rows-IsSound db sound = record {
    unique = select-HasUniqueRuns db.runs sound.unique;
    one_running = λ id.
        let fewer = running_runs-select id db.runs in let one = sound.one_running id in omega arith;
    in_budget = λ id t h.
        let (found, other) = find_task-select id db.tasks t h in sound.in_budget id t found;
    none_stuck = λ id t h stuck.
        let (found, other) = find_task-select id db.tasks t h in
        rw (has_running_run-select id db.runs other) (sound.none_stuck id t found stuck);
  }

pub delete_task-IsSound :
    (env : DeleteEnv) (user_id task_id : ℕ) (now : Instant) (db : Db)
    → IsSound db
    → IsSound (delete_task env user_id task_id now db).1
unfolding delete_task
delete_task-IsSound env user_id task_id now db sound =
    elim (Option-cases (get_owned_task user_id task_id db)) [
      | inl absent ↦ rw absent sound
      | inr (t, owned) ↦ rw owned (elim (Bool-cases env.cancel_commits) [
        | inr broken ↦ rw broken sound
        | inl stays ↦ rw stays (
            let cancelled_db = record db {
              tasks = update_where (λ u. u.id == task_id) (set_cancel now) db.tasks;
            } in
            let cancelled_sound =
              update-IsSound (λ u. u.id == task_id) (set_cancel now) (λ u. refl) db
                (λ u e b. same-InBudget u.max_runs u (set_cancel now u) refl (λ h. cc) b)
                (λ u e h. cc) sound in
            let aborted_sound =
              abort_task_runs-IsSound env.in_flight now cancelled_db cancelled_sound in
            elim (Bool-cases env.delete_commits) [
              | inr kept ↦ rw kept aborted_sound
              | inl gone ↦ rw gone (
                  abort_task_runs-IsSound env.late now _ (
                    delete_rows-IsSound task_id (abort_task_runs env.in_flight now cancelled_db)
                      aborted_sound))
            ])
      ])
    ]
