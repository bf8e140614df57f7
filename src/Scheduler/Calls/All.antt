-- ===== src/Scheduler/Calls/All.antt =====
-- agent/scheduler.py and agent/scheduler_ops.py: what holds of the scheduler's tables after any
-- sequence of calls.
use ai_advent_challenge_9_v.Prelude.{
  ℕ, ◌≡◌, inl, inr, none, List, [], ◌∷◌, Bool-cases, Option-cases,
}
use ai_advent_challenge_9_v.Scheduler.Schedule.{Calendar, Instant}
use ai_advent_challenge_9_v.Scheduler.Tables.{Db, Env, find_task, find_run}
use ai_advent_challenge_9_v.Scheduler.Service.{
  Claim, claimed, no_claim, database_error, bad_schedule_of_job, claim_slot,
}
use ai_advent_challenge_9_v.Scheduler.Service.Rows.{find_task-id}
use ai_advent_challenge_9_v.Scheduler.Calls.{
  Call, claim, finish, recover, start, create, delete, pause, resume, cancel, is_skipped,
  after_claim, claim_and_announce, claim_found, perform, perform_all, IsAdmissible,
}
use ai_advent_challenge_9_v.Scheduler.Calls.Sound.{IsSound}
use ai_advent_challenge_9_v.Scheduler.Calls.Finish.{finalize_task-IsSound, finish_run-IsSound}
use ai_advent_challenge_9_v.Scheduler.Calls.Recovery.{recover_orphaned_runs-IsSound}
use ai_advent_challenge_9_v.Scheduler.Calls.Insert.{claim_slot-IsSound}
use ai_advent_challenge_9_v.Scheduler.Calls.Delete.{delete_task-IsSound}
use ai_advent_challenge_9_v.Scheduler.Calls.Create.{
  create_scheduled_task-IsSound, pause_task-IsSound, cancel_task-IsSound, resume_task-IsSound,
  run_task_now-IsSound,
}

module _ (calendar : Calendar) (threshold : ℕ) where
  after_claim-IsSound :
      (id : ℕ) (now : Instant) (answer : Claim × Db)
      → IsSound answer.1
      → IsSound (after_claim calendar threshold id now answer).1
  unfolding after_claim
  after_claim-IsSound id now (claimed run, db) sound = elim (Bool-cases (is_skipped run.status)) [
    | inl skip ↦ rw skip (finalize_task-IsSound id now db sound)
    | inr go ↦ rw go sound
  ]
  after_claim-IsSound id now (no_claim, db) sound = sound
  after_claim-IsSound id now (database_error, db) sound = sound
  after_claim-IsSound id now (bad_schedule_of_job e, db) sound = sound

  claim_and_announce-IsSound :
      (env : Env) (id : ℕ) (now : Instant) (db : Db)
      → IsSound db
      → find_run env.new_run_id db.runs ≡ none
      → IsSound (claim_and_announce calendar threshold env id now db).1
  unfolding claim_and_announce claim_found
  claim_and_announce-IsSound env id now db sound fresh =
      elim (Option-cases (find_task id db.tasks)) [
        | inl absent ↦ rw absent sound
        | inr (task, found) ↦ rw found (
            after_claim-IsSound task.id now (claim_slot calendar env threshold task now db db) (
              claim_slot-IsSound env threshold task now db sound
                (let keyed = find_task-id id db.tasks task found in cc) fresh calendar))
      ]

  perform-IsSound :
      (call : Call) (db : Db)
      → IsSound db
      → IsAdmissible call db
      → IsSound (perform calendar threshold call db)
  unfolding perform
  perform-IsSound (claim env id now) db sound fresh =
      claim_and_announce-IsSound env id now db sound fresh
  perform-IsSound (finish run_id outcome now) db sound ends =
      finish_run-IsSound run_id outcome now db ends sound
  perform-IsSound (recover now) db sound _ = recover_orphaned_runs-IsSound now db sound
  perform-IsSound (start env user_id id now) db sound fresh =
      run_task_now-IsSound env user_id id now db sound fresh
  perform-IsSound (create env user_id request now) db sound _ =
      create_scheduled_task-IsSound calendar env user_id request now db sound
  perform-IsSound (delete env user_id id now) db sound _ =
      delete_task-IsSound env user_id id now db sound
  perform-IsSound (pause commits user_id id now) db sound _ =
      pause_task-IsSound commits user_id id now db sound
  perform-IsSound (resume commits user_id id now) db sound _ =
      resume_task-IsSound commits user_id id now db sound calendar
  perform-IsSound (cancel commits user_id id now) db sound _ =
      cancel_task-IsSound commits user_id id now db sound

  -- Each call is admissible where it is made.
  abbrev pub AllAdmissible : List Call → Db → Type 0
  AllAdmissible [] db = Unit
  AllAdmissible (call ∷ calls) db =
      IsAdmissible call db × AllAdmissible calls (perform calendar threshold call db)

  -- Any sequence of claims, ends of runs, recoveries, manual starts, creations, deletions, pauses,
  -- resumptions and cancellations keeps this: no job has two running runs, no job has started more than max_runs
  -- runs or as many while it has a next slot, and a live job without a next slot has a run in
  -- flight. Each new run has a new key, and each run ends with an end status.
  pub perform_all-IsSound :
      (calls : List Call) (db : Db)
      → IsSound db
      → AllAdmissible calls db
      → IsSound (perform_all calendar threshold calls db)
  unfolding perform_all
  perform_all-IsSound [] db sound _ = sound
  perform_all-IsSound (call ∷ calls) db sound admissible =
      perform_all-IsSound calls (perform calendar threshold call db)
        (perform-IsSound call db sound admissible.0) admissible.1
