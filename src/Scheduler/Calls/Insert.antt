-- ===== src/Scheduler/Calls/Insert.antt =====
-- agent/scheduler.py: claims and manual starts keep the invariant.
use ai_advent_challenge_9_v.Prelude.{
  ℕ, ◌≤◌, ◌<◌, ◌≡◌, refl, inl, inr, Bool, true, false, ◌&&◌, ◌||◌, Option, none, some, List, [],
  ◌∷◌, ◌++◌, arith, ◌==◌, Bool-cases, Option-cases,
}
use ai_advent_challenge_9_v.Scheduler.Schedule.{Calendar, Instant, next_run_after_claim}
use ai_advent_challenge_9_v.Scheduler.Schedule.Errors.{Checked-cases}
use ai_advent_challenge_9_v.Scheduler.Tables.{
  ScheduledTask, TaskRun, Db, Env, is_live, is_set, is_running, find_task, find_run, update_where,
  insert_run, has_running_run, runs_job, rowcount,
}
use ai_advent_challenge_9_v.Scheduler.Service.{
  claimable, take_slot, slot_after, claimed_run, claim_transaction, claim_checked, claim_old,
  claim_slot, is_exhausted, start_manual_run, startable, take_manual, manual_run,
}
use ai_advent_challenge_9_v.Scheduler.Service.Rows.{
  find_task-id, running_runs, append-HasUniqueRuns, running_runs-append, has_running_run-append,
  has_running_run-iff_zero,
}
use ai_advent_challenge_9_v.Scheduler.Calls.Sound.{
  InBudget, IsSound, update_where-origin, update-AllInBudget,
}

-- What the unique index lets in.
insert_run-eq-some :
    (r : TaskRun) (runs runs' : List TaskRun)
    → insert_run r runs ≡ some runs'
    → (runs' ≡ runs ++ r ∷ [])
      × ((is_running r.status && has_running_run r.scheduled_task_id runs) ≡ false)
unfolding insert_run
insert_run-eq-some r runs runs' h = (ground arith, ground arith)

-- A run of a job is inserted and the rows of the job change in the same transaction.
module _ (p : ScheduledTask → Bool) (f : ScheduledTask → ScheduledTask)
    (same_id : (t : ScheduledTask) → (f t).id ≡ t.id) (r : TaskRun)
    (of_job : (t : ScheduledTask) → p t ≡ true → t.id ≡ r.scheduled_task_id) (db : Db)
    (sound : IsSound db) where
  one_running-append :
      (is_running r.status && has_running_run r.scheduled_task_id db.runs) ≡ false
      → (id : ℕ) → running_runs id (db.runs ++ r ∷ []) ≤ 1
  one_running-append free id =
      let added = running_runs-append id db.runs r in
      let before = sound.one_running id in
      elim (Bool-cases (runs_job id r)) [
        | inr other ↦ ground arith
        | inl this ↦ elim (Bool-cases (has_running_run id db.runs)) [
          | inl busy ↦ ground arith
          | inr quiet ↦ let zero = has_running_run-iff_zero id db.runs quiet in ground arith
        ]
      ]

  insert-IsSound :
      (runs' : List TaskRun)
      → insert_run r db.runs ≡ some runs'
      → find_run r.id db.runs ≡ none
      → (is_running r.status || has_running_run r.scheduled_task_id db.runs) ≡ true
      → ((t : ScheduledTask)
          → find_task r.scheduled_task_id db.tasks ≡ some t
          → p t ≡ true
          → InBudget t.max_runs t
          → InBudget (f t).max_runs (f t))
      → IsSound (record { tasks = update_where p f db.tasks; runs = runs' })
  insert-IsSound runs' inserted fresh busy keeps =
      let (same, free) = insert_run-eq-some r db.runs runs' inserted in
      record {
        unique = rw same (append-HasUniqueRuns db.runs r sound.unique fresh);
        one_running = rw same (one_running-append free);
        in_budget =
            update-AllInBudget p f same_id db
              (λ id t found e b.
                let keyed = find_task-id id db.tasks t found in
                let job = of_job t e in
                let at : id ≡ r.scheduled_task_id = ground arith in keeps t (rw at at found) e b)
              sound.in_budget;
        none_stuck = λ id u h stuck.
            let (t, found, came) = update_where-origin p f same_id id db.tasks u h in
            let keyed = find_task-id id db.tasks t found in
            rw same (
              rw has_running_run-append (elim (Bool-cases (p t)) [
                | inl e ↦ let job = of_job t e in ground arith
                | inr e ↦
                    let came' : u ≡ t = rw e at came in
                    let old = sound.none_stuck id t found (rw came' at stuck) in ground arith
              ]));
      }

-- The snapshot of a claim is the row itself, so its count of runs is the row's.
take_slot-InBudget :
    (limit : Option ℕ) (old_next now : Instant) (overlap : Bool) (new_next : Option Instant)
    (t : ScheduledTask)
    → t.max_runs ≡ limit
    → claimable t.id old_next t ≡ true
    → InBudget limit t
    → InBudget limit (take_slot overlap (slot_after t overlap new_next) now t)
take_slot-InBudget none old_next now overlap new_next t e h b = tt
take_slot-InBudget (some m) old_next now overlap new_next t e h b =
    elim (Option-cases t.next_run_at) [
      | inl gone ↦ ground arith
      | inr (slot, set) ↦
          let room : t.run_count < m = b.1 (ground arith) in
          elim (Bool-cases overlap) [
            | inl skip ↦ (ground arith, λ h. ground arith)
            | inr go ↦ (ground arith, λ h. ground arith)
          ]
    ]

module _ (env : Env) (threshold : ℕ) (task : ScheduledTask) (now : Instant) (db : Db)
    (sound : IsSound db) (stored : find_task task.id db.tasks ≡ some task)
    (fresh : find_run env.new_run_id db.runs ≡ none) where
  claim_transaction-IsSound :
      (old_next : Instant) (new_next : Option Instant)
      → let overlap = has_running_run task.id db.runs in
        IsSound (claim_transaction env threshold task old_next now overlap new_next db).1
  unfolding claim_transaction
  claim_transaction-IsSound old_next new_next =
      let overlap = has_running_run task.id db.runs in
      let r = claimed_run env threshold task old_next now overlap in
      elim (Bool-cases (rowcount (claimable task.id old_next) db.tasks == 1)) [
        | inr lost ↦ rw lost sound
        | inl won ↦ rw won (elim (Option-cases (insert_run r db.runs)) [
          | inl busy ↦ rw busy sound
          | inr (runs', inserted) ↦ rw inserted (elim (Bool-cases env.commits) [
            | inr broken ↦ rw broken sound
            | inl stays ↦ rw stays (
                insert-IsSound (claimable task.id old_next)
                  (take_slot overlap (slot_after task overlap new_next) now) (λ t. refl) r
                  (λ t e. ground arith) db sound runs' inserted fresh (ground arith)
                  (λ t found e b.
                    let same : t ≡ task = ground arith in
                    rw same (
                      take_slot-InBudget task.max_runs old_next now overlap new_next task refl
                        (rw same at e) (rw same at b))))
          ])
        ])
      ]

  pub claim_slot-IsSound :
      (calendar : Calendar) → IsSound (claim_slot calendar env threshold task now db db).1
  unfolding claim_slot claim_old claim_checked
  claim_slot-IsSound calendar = elim (Option-cases task.next_run_at) [
    | inl none_set ↦ rw none_set sound
    | inr (old_next, set) ↦
        rw set
          (elim (Checked-cases (
            next_run_after_claim calendar task.schedule_type old_next now task.interval_seconds
              task.cron_expr)) [
                | inr (e, wrong) ↦ rw wrong sound
                | inl (new_next, next) ↦ rw next (claim_transaction-IsSound old_next new_next)
              ])
  ]

take_manual-InBudget :
    (limit : Option ℕ) (now : Instant) (t : ScheduledTask)
    → t.max_runs ≡ limit
    → (is_live t.status && is_set t.next_run_at) ≡ true
    → InBudget limit t
    → InBudget limit (take_manual now t)
take_manual-InBudget none now t e set b = tt
take_manual-InBudget (some m) now t e set b =
    let room : t.run_count < m = b.1 set in (ground arith, λ h. ground arith)

-- A live job with no run in flight has a next slot, hence room for a run.
module _ (env : Env) (task : ScheduledTask) (now : Instant) (db : Db) (sound : IsSound db)
    (fresh : find_run env.new_run_id db.runs ≡ none) where
  take_manual-has_room :
      (t : ScheduledTask)
      → find_task task.id db.tasks ≡ some t
      → is_live t.status ≡ true
      → has_running_run task.id db.runs ≡ false
      → (is_live t.status && is_set t.next_run_at) ≡ true
  take_manual-has_room t found live quiet = elim (Bool-cases (is_exhausted t)) [
    | inl stuck ↦ let busy = sound.none_stuck task.id t found stuck in cc
    | inr fine ↦ ground arith
  ]

  pub start_manual_run-IsSound : IsSound (start_manual_run env task now db).1
  unfolding start_manual_run
  start_manual_run-IsSound =
      let r = manual_run env task now in
      elim (Bool-cases (rowcount (startable task.id) db.tasks == 1)) [
        | inr lost ↦ rw lost sound
        | inl won ↦ rw won (elim (Option-cases (insert_run r db.runs)) [
          | inl busy ↦ rw busy sound
          | inr (runs', inserted) ↦ rw inserted (elim (Bool-cases env.commits) [
            | inr broken ↦ rw broken sound
            | inl stays ↦ rw stays (
                insert-IsSound (startable task.id) (take_manual now) (λ t. refl) r
                  (λ t e. ground arith) db sound runs' inserted fresh refl
                  (λ t found e b.
                    let (same, free) = insert_run-eq-some r db.runs runs' inserted in
                    take_manual-InBudget t.max_runs now t refl
                      (take_manual-has_room t found (ground arith) free) b))
          ])
        ])
      ]
