-- ===== src/Scheduler/Calls/Started.antt =====
-- agent/scheduler.py: the runs that the claims of a tick add and start.
use mathlib.Core.List.{append_assoc, append-nil}
use ai_advent_challenge_9_v.Prelude.{
  ℕ, suc, ◌≤◌, ◌≡◌, refl, ap, sym, ◌∙◌, inl, inr, Bool, true, false, not, ◌&&◌, Option, none, some,
  List, [], ◌∷◌, ◌++◌, ◌==◌, arith, length, length-append, select, map, Bool-cases,
}
use ai_advent_challenge_9_v.Scheduler.Schedule.Errors.{Checked, ok, invalid}
use ai_advent_challenge_9_v.Scheduler.Schedule.{Calendar, Instant, next_run_after_claim}
use ai_advent_challenge_9_v.Scheduler.Tables.{
  ScheduledTask, TaskRun, Db, Env, is_running, has_running_run, insert_run, find_task, rowcount,
}
use ai_advent_challenge_9_v.Scheduler.Service.{
  Claim, no_claim, database_error, claimed, bad_schedule_of_job, claimable, claimed_run,
  commit_claim, claim_transaction, claim_checked, claim_old, claim_slot, finalize_task,
}
use ai_advent_challenge_9_v.Scheduler.Calls.{
  is_skipped, after_claim, claim_found, claim_and_announce, note_started, tick_ids,
}

-- A claim that succeeds appends its run, running or skipped; any other leaves the runs.
abbrev Appends : Db → Claim × Db → Type 0
Appends db (claimed r, after) =
    (after.runs ≡ db.runs ++ r ∷ []) × (is_skipped r.status ≡ not (is_running r.status))
Appends db (no_claim, after) = after.runs ≡ db.runs
Appends db (database_error, after) = after.runs ≡ db.runs
Appends db (bad_schedule_of_job e, after) = after.runs ≡ db.runs

insert_run-eq_some :
    (r : TaskRun) (runs after : List TaskRun)
    → insert_run r runs ≡ some after
    → after ≡ runs ++ r ∷ []
unfolding insert_run
insert_run-eq_some r runs after h =
    elim (Bool-cases (is_running r.status && has_running_run r.scheduled_task_id runs)) [
      | inl e ↦ let bad : Path (Option (List TaskRun)) none (some after) = rw e at h in cc
      | inr e ↦
          let same : Path (Option (List TaskRun)) (some (runs ++ r ∷ [])) (some after) =
            rw e at h in
          cc
    ]

commit_claim-Appends :
    (env : Env) (db : Db) (tasks : List ScheduledTask) (r : TaskRun) (o : Option (List TaskRun))
    → insert_run r db.runs ≡ o
    → is_skipped r.status ≡ not (is_running r.status)
    → Appends db (commit_claim env db tasks r o)
commit_claim-Appends env db tasks r none h kind = refl
commit_claim-Appends env db tasks r (some runs) h kind = elim (Bool-cases env.commits) [
  | inl e ↦ rw e (insert_run-eq_some r db.runs runs h, kind)
  | inr e ↦ rw e refl
]

claimed_run-status :
    (env : Env) (threshold : ℕ) (task : ScheduledTask) (old now : Instant) (overlap : Bool)
    → let r = claimed_run env threshold task old now overlap in
      is_skipped r.status ≡ not (is_running r.status)
claimed_run-status env threshold task old now true = refl
claimed_run-status env threshold task old now false = refl

claim_transaction-Appends :
    (env : Env) (threshold : ℕ) (task : ScheduledTask) (old now : Instant) (overlap : Bool)
    (new : Option Instant) (db : Db)
    → Appends db (claim_transaction env threshold task old now overlap new db)
unfolding claim_transaction
claim_transaction-Appends env threshold task old now overlap new db =
    elim (Bool-cases (rowcount (claimable task.id old) db.tasks == 1)) [
      | inl e ↦ rw e (
          commit_claim-Appends env db _ (claimed_run env threshold task old now overlap) _ refl
            (claimed_run-status env threshold task old now overlap))
      | inr e ↦ rw e refl
    ]

claim_checked-Appends :
    (env : Env) (threshold : ℕ) (task : ScheduledTask) (old now : Instant) (overlap : Bool)
    (new : Checked (Option Instant)) (db : Db)
    → Appends db (claim_checked env threshold task old now overlap new db)
unfolding claim_checked
claim_checked-Appends env threshold task old now overlap (invalid e) db = refl
claim_checked-Appends env threshold task old now overlap (ok new) db =
    claim_transaction-Appends env threshold task old now overlap new db

-- The keys of the running ones.
abbrev pub running_ids : List TaskRun → List ℕ
running_ids runs = map (λ r. r.id) (select (λ r. is_running r.status) runs)

-- The runs grow by at most `limit` at the end, and the keys are those of the new running ones.
abbrev pub IsStarted : ℕ → Db → List ℕ → Db → Type 0
IsStarted limit db started after =
    (new : List TaskRun) × (after.runs ≡ db.runs ++ new)
    × (started ≡ running_ids new)
    × (length new ≤ limit)

running_ids-append :
    (first rest : List TaskRun)
    → running_ids (first ++ rest) ≡ running_ids first ++ running_ids rest
running_ids-append [] rest = refl
running_ids-append (r ∷ first) rest =
    let later = running_ids-append first rest in
    elim (Bool-cases (is_running r.status)) [
      | inl e ↦ rw e (ap (λ ids. r.id ∷ ids) later)
      | inr e ↦ rw e later
    ]

both_ids :
    {first rest : List ℕ} (new more : List TaskRun)
    → first ≡ running_ids new
    → rest ≡ running_ids more
    → first ++ rest ≡ running_ids (new ++ more)
both_ids new more one other = rw one (rw other (sym (running_ids-append new more)))

module _ (calendar : Calendar) (threshold : ℕ) where
  claim_slot-Appends :
      (env : Env) (task : ScheduledTask) (slot : Option Instant) (now : Instant) (seen db : Db)
      → Appends db (claim_old calendar env threshold task slot now seen db)
  unfolding claim_old
  claim_slot-Appends env task none now seen db = refl
  claim_slot-Appends env task (some old) now seen db =
      claim_checked-Appends env threshold task old now (has_running_run task.id seen.runs)
        (next_run_after_claim calendar task.schedule_type old now task.interval_seconds
          task.cron_expr)
        db

  after_claim-IsStarted :
      (task_id : ℕ) (now : Instant) (db : Db) (answer : Claim × Db)
      → Appends db answer
      → let noted = after_claim calendar threshold task_id now answer in
        IsStarted 1 db (note_started calendar threshold noted.0 []) noted.1
  unfolding after_claim finalize_task
  after_claim-IsStarted task_id now db (no_claim, after) same =
      ([], same ∙ sym (append-nil db.runs), refl, omega arith)
  after_claim-IsStarted task_id now db (database_error, after) same =
      ([], same ∙ sym (append-nil db.runs), refl, omega arith)
  after_claim-IsStarted task_id now db (bad_schedule_of_job e, after) same =
      ([], same ∙ sym (append-nil db.runs), refl, omega arith)
  after_claim-IsStarted task_id now db (claimed r, after) (grown, kind) =
      elim (Bool-cases (is_running r.status)) [
        | inl e ↦
            let kept : is_skipped r.status ≡ false = rw e at kind in
            rw kept (r ∷ [], grown, rw e refl, omega arith)
        | inr e ↦
            let dropped : is_skipped r.status ≡ true = rw e at kind in
            rw dropped (r ∷ [], grown, rw e refl, omega arith)
      ]

  claim_found-IsStarted :
      (env : Env) (task_id : ℕ) (now : Instant) (db : Db) (o : Option ScheduledTask)
      → let noted = claim_found calendar threshold env task_id now db o in
        IsStarted 1 db (note_started calendar threshold noted.0 []) noted.1
  unfolding claim_found claim_slot
  claim_found-IsStarted env task_id now db none = ([], sym (append-nil db.runs), refl, omega arith)
  claim_found-IsStarted env task_id now db (some task) =
      after_claim-IsStarted task.id now db (claim_slot calendar env threshold task now db db)
        (claim_slot-Appends env task task.next_run_at now db db)

  note_started-append :
      (id : Option ℕ) (started : List ℕ)
      → note_started calendar threshold id started
        ≡ note_started calendar threshold id [] ++ started
  note_started-append none started = refl
  note_started-append (some id) started = refl

  pub tick_ids-IsStarted :
      (envs : ℕ → Env) (k : ℕ) (ids : List ℕ) (now : Instant) (db : Db)
      → let answer = tick_ids calendar threshold envs k ids now db in
        IsStarted (length ids) db answer.0 answer.1
  unfolding tick_ids claim_and_announce
  tick_ids-IsStarted envs k [] now db = ([], sym (append-nil db.runs), refl, omega arith)
  tick_ids-IsStarted envs k (id ∷ ids) now db =
      let noted = claim_and_announce calendar threshold (envs k) id now db in
      let (new, grown, one, short) =
        claim_found-IsStarted (envs k) id now db (find_task id db.tasks) in
      let (more, grown', rest, short') = tick_ids-IsStarted envs (suc k) ids now noted.1 in
      let size = length-append new more in
      (
        new ++ more,
        grown' ∙ ap (λ runs. runs ++ more) grown ∙ append_assoc db.runs new more,
        note_started-append noted.0 (tick_ids calendar threshold envs (suc k) ids now noted.1).0
            ∙ both_ids new more one rest,
        omega arith,
      )
