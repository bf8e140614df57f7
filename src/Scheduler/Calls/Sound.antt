-- ===== src/Scheduler/Calls/Sound.antt =====
-- agent/scheduler.py: the invariant of the scheduler's tables, and updates of jobs that keep it.
use ai_advent_challenge_9_v.Prelude.{
  ℕ, ◌≤◌, ◌<◌, ◌≡◌, inl, inr, Bool, true, ◌&&◌, Option, none, some, List, arith, if◌then◌else◌,
  Bool-cases, Option-cases,
}
use ai_advent_challenge_9_v.Scheduler.Tables.{
  ScheduledTask, Db, is_live, is_set, find_task, update_where, has_running_run,
}
use ai_advent_challenge_9_v.Scheduler.Service.{is_exhausted}
use ai_advent_challenge_9_v.Scheduler.Service.Rows.{
  find_task-update_where, running_runs, HasUniqueRuns,
}

-- A job has started at most max_runs runs, and fewer while it has a next slot.
abbrev pub InBudget : Option ℕ → ScheduledTask → Type 0
InBudget none t = Unit
InBudget (some m) t =
    (t.run_count ≤ m) × ((is_live t.status && is_set t.next_run_at) ≡ true → t.run_count < m)

abbrev pub AllInBudget : Db → Type 0
AllInBudget db =
    (id : ℕ) (t : ScheduledTask) → find_task id db.tasks ≡ some t → InBudget t.max_runs t

-- A job that is live without a next slot has a run in flight: none is stuck.
abbrev pub NoneStuck : Db → Type 0
NoneStuck db =
    (id : ℕ) (t : ScheduledTask)
    → find_task id db.tasks ≡ some t
    → is_exhausted t ≡ true
    → has_running_run id db.runs ≡ true

pub record IsSound (db : Db) : Type 0 where
  pub unique : HasUniqueRuns db.runs
  pub one_running : (id : ℕ) → running_runs id db.runs ≤ 1
  pub in_budget : AllInBudget db
  pub none_stuck : NoneStuck db

module _ (p : ScheduledTask → Bool) (f : ScheduledTask → ScheduledTask)
    (same_id : (t : ScheduledTask) → (f t).id ≡ t.id) where
  -- The row under a key after an update, with the row that it came from.
  pub update_where-origin :
      (id : ℕ) (ts : List ScheduledTask) (u : ScheduledTask)
      → find_task id (update_where p f ts) ≡ some u
      → (t : ScheduledTask) × (find_task id ts ≡ some t) × (u ≡ (if p t then f t else t))
  update_where-origin id ts u h =
      let seen = find_task-update_where p f same_id id ts in
      elim (Option-cases (find_task id ts)) [
        | inl absent ↦ ground arith
        | inr (t, found) ↦ (t, found, ground arith)
      ]

  pub update-AllInBudget :
      (db : Db)
      → ((id : ℕ) (t : ScheduledTask)
          → find_task id db.tasks ≡ some t
          → p t ≡ true
          → InBudget t.max_runs t
          → InBudget (f t).max_runs (f t))
      → AllInBudget db
      → (id : ℕ) (u : ScheduledTask) → find_task id (update_where p f db.tasks) ≡ some u
      → InBudget u.max_runs u
  update-AllInBudget db keeps all id u h =
      let (t, found, came) = update_where-origin id db.tasks u h in
      elim (Bool-cases (p t)) [
        | inl e ↦
            let came' : u ≡ f t = ground arith in rw came' (keeps id t found e (all id t found))
        | inr e ↦ let came' : u ≡ t = ground arith in rw came' (all id t found)
      ]

  -- An update that keeps budgets and takes no slot away keeps the invariant.
  pub update-IsSound :
      (db : Db)
      → ((t : ScheduledTask) → p t ≡ true → InBudget t.max_runs t → InBudget (f t).max_runs (f t))
      → ((t : ScheduledTask) → p t ≡ true → is_exhausted (f t) ≡ true → is_exhausted t ≡ true)
      → IsSound db
      → IsSound (record db { tasks = update_where p f db.tasks })
  update-IsSound db keeps slots sound = record {
    unique = sound.unique;
    one_running = sound.one_running;
    in_budget = update-AllInBudget db (λ id t found e b. keeps t e b) sound.in_budget;
    none_stuck = λ id u h stuck.
        let (t, found, came) = update_where-origin id db.tasks u h in
        sound.none_stuck id t found (elim (Bool-cases (p t)) [
          | inl e ↦ slots t e (let came' : u ≡ f t = ground arith in rw came' at stuck)
          | inr e ↦ let came' : u ≡ t = ground arith in rw came' at stuck
        ]);
  }
