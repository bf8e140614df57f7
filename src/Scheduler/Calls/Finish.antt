-- ===== src/Scheduler/Calls/Finish.antt =====
-- agent/scheduler.py: the end of a run keeps the invariant.
use ai_advent_challenge_9_v.Prelude.{
  ℕ, ◌≤◌, ◌≡◌, refl, ◌≢◌, inl, inr, true, false, Option, none, some, arith, ◌==◌, Bool-cases,
  Option-cases,
}
use ai_advent_challenge_9_v.Scheduler.Schedule.{Instant}
use ai_advent_challenge_9_v.Scheduler.Tables.{
  ScheduledTask, TaskRun, Db, completed, is_running, find_task, find_run, update_run,
  has_running_run,
}
use ai_advent_challenge_9_v.Scheduler.Service.{
  Outcome, is_exhausted, finalizable, finalize_task, with_outcome, record_outcome, finish_recorded,
  finish_run,
}
use ai_advent_challenge_9_v.Scheduler.Service.Rows.{
  find_task-id, running_runs, HasUniqueRuns, has_running_run-update_run, running_runs-update_run,
  update_run-HasUniqueRuns,
}
use ai_advent_challenge_9_v.Scheduler.Calls.Sound.{
  InBudget, AllInBudget, IsSound, update_where-origin, update-AllInBudget, update-IsSound,
}

abbrev pub complete : Instant → ScheduledTask → ScheduledTask
complete now t = record t { status = completed; updated_at = now }

pub complete-InBudget :
    (now : Instant) (limit : Option ℕ) (t : ScheduledTask)
    → InBudget limit t
    → InBudget limit (complete now t)
complete-InBudget now none t b = tt
complete-InBudget now (some m) t b = (b.0, λ h. cc)

pub finalize_task-IsSound :
    (id : ℕ) (now : Instant) (db : Db) → IsSound db → IsSound (finalize_task id now db)
unfolding finalize_task
finalize_task-IsSound id now db sound =
    update-IsSound (finalizable id db) (complete now) (λ t. refl) db
      (λ t e b. complete-InBudget now t.max_runs t b) (λ t e h. cc) sound

-- With a job's stuck row out of consideration, completing that job restores the invariant.
finalize_task-restores :
    (job : ℕ) (now : Instant) (db : Db)
    → HasUniqueRuns db.runs
    → ((id : ℕ) → running_runs id db.runs ≤ 1)
    → AllInBudget db
    → ((id : ℕ) (t : ScheduledTask)
        → job ≢ id
        → find_task id db.tasks ≡ some t
        → is_exhausted t ≡ true
        → has_running_run id db.runs ≡ true)
    → IsSound (finalize_task job now db)
unfolding finalize_task
finalize_task-restores job now db unique one budget others = record {
  unique = unique;
  one_running = one;
  in_budget =
      update-AllInBudget (finalizable job db) (complete now) (λ t. refl) db
        (λ id t found e b. complete-InBudget now t.max_runs t b) budget;
  none_stuck = λ id u h stuck.
      let (t, found, came) =
        update_where-origin (finalizable job db) (complete now) (λ t. refl) id db.tasks u h in
      let keyed = find_task-id id db.tasks t found in
      elim (Bool-cases (job == id)) [
        | inl same ↦ ground arith
        | inr other ↦ ground (arith, others id t)
      ];
}

module _ (run_id : ℕ) (outcome : Outcome) (now : Instant) (db : Db)
    (ends : is_running outcome.status ≡ false) where
  finish_recorded-IsSound :
      (run : TaskRun)
      → find_run run_id db.runs ≡ some run
      → IsSound db
      → IsSound (
          finalize_task run.scheduled_task_id now
            (record db { runs = update_run run_id (with_outcome outcome now) db.runs }))
  finish_recorded-IsSound run found sound =
      finalize_task-restores run.scheduled_task_id now
        (record db { runs = update_run run_id (with_outcome outcome now) db.runs })
        (update_run-HasUniqueRuns (with_outcome outcome now) (λ r. refl) (λ r. refl) run_id db.runs
          sound.unique)
        (λ id.
          let fewer =
            running_runs-update_run (with_outcome outcome now) (λ r. refl) (λ r. refl) (λ r. ends)
              run_id id db.runs in
          let one = sound.one_running id in omega arith)
        sound.in_budget
        (λ id t other at stuck.
          rw
            (has_running_run-update_run (with_outcome outcome now) (λ r. refl) (λ r. refl) run_id id
              db.runs run sound.unique found other)
            (sound.none_stuck id t at stuck))

  pub finish_run-IsSound : IsSound db → IsSound (finish_run run_id outcome now db)
  unfolding finish_run record_outcome finish_recorded
  finish_run-IsSound sound = elim (Option-cases (find_run run_id db.runs)) [
    | inl absent ↦ rw absent sound
    | inr (run, found) ↦ rw found (elim (Bool-cases (is_running run.status)) [
      | inl live ↦ rw live (finish_recorded-IsSound run found sound)
      | inr ended ↦ rw ended sound
    ])
  ]
