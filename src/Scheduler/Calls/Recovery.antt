-- ===== src/Scheduler/Calls/Recovery.antt =====
-- agent/scheduler.py: what recover_orphaned_runs leaves, and that it keeps the invariant.
use ai_advent_challenge_9_v.Prelude.{
  ℕ, ◌≡◌, refl, inl, inr, Bool, true, false, ◌||◌, none, some, List, [], ◌∷◌, arith, ◌==◌,
  Bool-cases, select, map,
}
use ai_advent_challenge_9_v.Scheduler.Schedule.{Instant}
use ai_advent_challenge_9_v.Scheduler.Tables.{
  ScheduledTask, TaskRun, Db, find_task, find_run, has_running_run,
}
use ai_advent_challenge_9_v.Scheduler.Service.{
  is_exhausted, finalizable, finalize_task, finalize_all, interrupt, recover_orphaned_runs,
}
use ai_advent_challenge_9_v.Scheduler.Service.Rows.{find_task-id, running_runs, HasUniqueRuns}
use ai_advent_challenge_9_v.Scheduler.Calls.Sound.{
  AllInBudget, IsSound, update_where-origin, update-AllInBudget,
}
use ai_advent_challenge_9_v.Scheduler.Calls.Finish.{
  complete, complete-InBudget, finalize_task-IsSound,
}

-- What a restart leaves of the runs.
has_running_run-interrupt :
    (now : Instant) (id : ℕ) (runs : List TaskRun)
    → has_running_run id (map (interrupt now) runs) ≡ false
unfolding has_running_run
has_running_run-interrupt now id [] = refl
has_running_run-interrupt now id (r ∷ runs) = ground (arith, has_running_run-interrupt now id runs)

running_runs-interrupt :
    (now : Instant) (id : ℕ) (runs : List TaskRun) → running_runs id (map (interrupt now) runs) ≡ 0
running_runs-interrupt now id [] = refl
running_runs-interrupt now id (r ∷ runs) = ground (arith, running_runs-interrupt now id runs)

find_run-interrupt :
    (now : Instant) (id : ℕ) (runs : List TaskRun)
    → find_run id runs ≡ none
    → find_run id (map (interrupt now) runs) ≡ none
unfolding find_run
find_run-interrupt now id [] h = refl
find_run-interrupt now id (r ∷ runs) h = ground (arith, find_run-interrupt now id runs)

interrupt-HasUniqueRuns :
    (now : Instant) (runs : List TaskRun)
    → HasUniqueRuns runs
    → HasUniqueRuns (map (interrupt now) runs)
interrupt-HasUniqueRuns now [] unique = tt
interrupt-HasUniqueRuns now (r ∷ runs) unique =
    let fresh = find_run-interrupt now r.id runs unique.0 in
    (ground arith, interrupt-HasUniqueRuns now runs unique.1)

abbrev names : ℕ → List ℕ → Bool
names id [] = false
names id (j ∷ ids) = j == id || names id ids

names-exhausted :
    (id : ℕ) (ts : List ScheduledTask) (t : ScheduledTask)
    → find_task id ts ≡ some t
    → is_exhausted t ≡ true
    → names id (map (λ t. t.id) (select is_exhausted ts)) ≡ true
unfolding find_task
names-exhausted id [] t h stuck = cc
names-exhausted id (x ∷ ts) t h stuck = ground (arith, names-exhausted id ts t)

finalize_all-runs :
    (ids : List ℕ) (now : Instant) (db : Db) → (finalize_all ids now db).runs ≡ db.runs
unfolding finalize_all finalize_task
finalize_all-runs [] now db = refl
finalize_all-runs (id ∷ ids) now db = finalize_all-runs ids now (finalize_task id now db)

-- With nothing running, a completion leaves no row of its job exhausted.
finalizable-exhausted :
    (j : ℕ) (db : Db) (t : ScheduledTask)
    → has_running_run j db.runs ≡ false
    → finalizable j db t ≡ false
    → is_exhausted t ≡ true
    → (j == t.id) ≡ false
finalizable-exhausted j db t quiet kept stuck = ground arith

finalize_task-ends :
    (j : ℕ) (now : Instant) (db : Db)
    → has_running_run j db.runs ≡ false
    → (id : ℕ) (v : ScheduledTask) → find_task id (finalize_task j now db).tasks ≡ some v
    → is_exhausted v ≡ true
    → ((j == id) ≡ false)
      × (t : ScheduledTask) × (find_task id db.tasks ≡ some t)
      × (is_exhausted t ≡ true)
unfolding finalize_task
finalize_task-ends j now db quiet id v there still =
    let (t, found, came) =
      update_where-origin (finalizable j db) (complete now) (λ t. refl) id db.tasks v there in
    let keyed = find_task-id id db.tasks t found in
    elim (Bool-cases (finalizable j db t)) [
      | inl e ↦
          let came' : v ≡ complete now t = rw e at came in (let still' = rw came' at still in cc)
      | inr e ↦
          let came' : v ≡ t = rw e at came in
          let still' = rw came' at still in
          (rw (← keyed) (finalizable-exhausted j db t quiet e still'), t, found, still')
    ]

-- No job that is named stays exhausted when nothing runs, and none becomes exhausted.
finalize_all-ends :
    (ids : List ℕ) (now : Instant) (db : Db)
    → ((id : ℕ) → has_running_run id db.runs ≡ false)
    → (id : ℕ) (u : ScheduledTask) → find_task id (finalize_all ids now db).tasks ≡ some u
    → is_exhausted u ≡ true
    → (names id ids ≡ false)
      × (t : ScheduledTask) × (find_task id db.tasks ≡ some t)
      × (is_exhausted t ≡ true)
unfolding finalize_all finalize_task
finalize_all-ends [] now db idle id u h stuck = (refl, u, h, stuck)
finalize_all-ends (j ∷ ids) now db idle id u h stuck =
    let (unnamed, v, there, still) =
      finalize_all-ends ids now (finalize_task j now db) idle id u h stuck in
    let (other, t, found, stuck') = finalize_task-ends j now db (idle j) id v there still in
    (rw other unnamed, t, found, stuck')

finalize_all-IsSound :
    (ids : List ℕ) (now : Instant) (db : Db) → IsSound db → IsSound (finalize_all ids now db)
unfolding finalize_all
finalize_all-IsSound [] now db sound = sound
finalize_all-IsSound (id ∷ ids) now db sound =
    finalize_all-IsSound ids now (finalize_task id now db) (finalize_task-IsSound id now db sound)

finalize_all-AllInBudget :
    (ids : List ℕ) (now : Instant) (db : Db)
    → AllInBudget db
    → AllInBudget (finalize_all ids now db)
unfolding finalize_all finalize_task
finalize_all-AllInBudget [] now db budget = budget
finalize_all-AllInBudget (id ∷ ids) now db budget =
    finalize_all-AllInBudget ids now (finalize_task id now db) (
      update-AllInBudget (finalizable id db) (complete now) (λ t. refl) db
        (λ j t found e b. complete-InBudget now t.max_runs t b) budget)

-- No run is marked as running, and no job waits for one.
pub record IsRecovered (db : Db) : Type 0 where
  pub idle : (id : ℕ) → has_running_run id db.runs ≡ false
  pub ended : (id : ℕ) (t : ScheduledTask) → find_task id db.tasks ≡ some t → is_exhausted t ≡ false

-- Whatever a dead process left in the tables, after the recovery no run is marked as running and
-- no live job lacks a next slot.
pub recover_orphaned_runs-IsRecovered :
    (now : Instant) (db : Db) → IsRecovered (recover_orphaned_runs now db)
unfolding recover_orphaned_runs
recover_orphaned_runs-IsRecovered now db =
    let ids = map (λ t. t.id) (select is_exhausted db.tasks) in
    let interrupted = record db { runs = map (interrupt now) db.runs } in
    record {
      idle = λ id.
          rw (finalize_all-runs ids now interrupted) (has_running_run-interrupt now id db.runs);
      ended = λ id u h. elim (Bool-cases (is_exhausted u)) [
        | inr done ↦ done
        | inl stuck ↦
            let (unnamed, t, found, was) =
              finalize_all-ends ids now interrupted (λ j. has_running_run-interrupt now j db.runs)
                id u h stuck in
            let named = names-exhausted id db.tasks t found was in cc
      ];
    }

pub recover_orphaned_runs-IsSound :
    (now : Instant) (db : Db) → IsSound db → IsSound (recover_orphaned_runs now db)
unfolding recover_orphaned_runs
recover_orphaned_runs-IsSound now db sound =
    let ids = map (λ t. t.id) (select is_exhausted db.tasks) in
    let interrupted = record db { runs = map (interrupt now) db.runs } in
    let recovered = recover_orphaned_runs-IsRecovered now db in
    record {
      unique =
          rw (finalize_all-runs ids now interrupted)
            (interrupt-HasUniqueRuns now db.runs sound.unique);
      one_running = λ id.
          rw (finalize_all-runs ids now interrupted)
            (let none_left = running_runs-interrupt now id db.runs in omega arith);
      in_budget = finalize_all-AllInBudget ids now interrupted sound.in_budget;
      none_stuck = λ id u h stuck. let over = recovered.ended id u h in cc;
    }
