-- ===== src/Scheduler/Calls.antt =====
-- agent/scheduler.py: the poll of due jobs; and what the database sees of the scheduler, as a
-- sequence of calls.
pub mod Sound
pub mod Finish
pub mod Recovery
pub mod Insert
pub mod Create
pub mod Delete
pub mod All
pub mod Started
pub mod Picks
pub mod Batch
use ai_advent_challenge_9_v.Prelude.{
  ℕ, zero, suc, ◌+◌, ◌≡◌, Bool, true, false, not, ◌&&◌, Option, none, some, List, [], ◌∷◌, leb, ltb,
  if◌then◌else◌, select, map,
}
use ai_advent_challenge_9_v.Prelude.Sort.{sort_by}
use ai_advent_challenge_9_v.Scheduler.Schedule.{Calendar, Instant}
use ai_advent_challenge_9_v.Scheduler.Tables.{
  ScheduledTask, RunStatus, skipped, Db, Env, is_active, is_running, find_task, find_run,
}
use ai_advent_challenge_9_v.Scheduler.Service.{
  Claim, claimed, no_claim, Outcome, claim_slot, finalize_task, finish_run, recover_orphaned_runs,
}
use ai_advent_challenge_9_v.Scheduler.Control.{
  CreateEnv, DeleteEnv, Request, delete_task, create_scheduled_task, pause_task, resume_task,
  cancel_task, run_task_now,
}

abbrev pub tick_batch_limit : ℕ
tick_batch_limit = 20

abbrev pub is_skipped : RunStatus → Bool
is_skipped skipped = true
is_skipped _ = false

abbrev pub due_by : Instant → Option Instant → Bool
due_by now none = false
due_by now (some slot) = leb slot now

abbrev pub is_due : Instant → ScheduledTask → Bool
is_due now t = is_active t.status && due_by now t.next_run_at

-- `ORDER BY next_run_at`, where NULL is the least.
abbrev pub earlier : Option Instant → Option Instant → Bool
earlier _ none = false
earlier none (some b) = true
earlier (some a) (some b) = ltb a b

abbrev pub slot_before : ScheduledTask → ScheduledTask → Bool
slot_before t u = earlier t.next_run_at u.next_run_at

unfoldable pub take : {A : Type 0} → ℕ → List A → List A
take zero xs = []
take (suc n) [] = []
take (suc n) (x ∷ xs) = x ∷ take n xs

-- The query of `tick`: slots that are equal keep the table's order.
unfoldable pub due_ids : Instant → List ScheduledTask → List ℕ
unfolding take
due_ids now tasks =
    map (λ t. t.id) (take tick_batch_limit (sort_by slot_before (select (is_due now) tasks)))

module _ (calendar : Calendar) (threshold : ℕ) where
  -- A skipped slot may have been the job's last.
  unfoldable pub after_claim : ℕ → Instant → Claim × Db → Option ℕ × Db
  after_claim task_id now (claimed run, db) =
      if is_skipped run.status then (none, finalize_task task_id now db) else (some run.id, db)
  after_claim task_id now (_, db) = (none, db)

  unfoldable pub claim_found : Env → ℕ → Instant → Db → Option ScheduledTask → Option ℕ × Db
  unfolding after_claim
  claim_found env task_id now db none = (none, db)
  claim_found env task_id now db (some task) =
      after_claim task.id now (claim_slot calendar env threshold task now db db)

  -- `_claim_and_announce`
  unfoldable pub claim_and_announce : Env → (task_id : ℕ) → Instant → Db → Option ℕ × Db
  unfolding claim_found
  claim_and_announce env task_id now db =
      claim_found env task_id now db (find_task task_id db.tasks)

  abbrev pub note_started : Option ℕ → List ℕ → List ℕ
  note_started none started = started
  note_started (some run_id) started = run_id ∷ started

  -- The loop of `tick`: each claim meets its own environment, and one that fails stops no other.
  unfoldable pub tick_ids : (ℕ → Env) → ℕ → List ℕ → Instant → Db → List ℕ × Db
  tick_ids envs k [] now db = ([], db)
  tick_ids envs k (task_id ∷ ids) now db =
      let (run_id, db') = claim_and_announce (envs k) task_id now db in
      let (started, db'') = tick_ids envs (suc k) ids now db' in (note_started run_id started, db'')

  unfoldable pub tick : (ℕ → Env) → Instant → Db → List ℕ × Db
  unfolding tick_ids due_ids
  tick envs now db = tick_ids envs 0 (due_ids now db.tasks) now db

pub data Call : Type 0 where
  claim : Env → (task_id : ℕ) → Instant → Call
  finish : (run_id : ℕ) → Outcome → Instant → Call
  recover : Instant → Call
  start : Env → (user_id task_id : ℕ) → Instant → Call
  create : CreateEnv → (user_id : ℕ) → Request → Instant → Call
  delete : DeleteEnv → (user_id task_id : ℕ) → Instant → Call
  pause resume cancel : (commits : Bool) (user_id task_id : ℕ) → Instant → Call

module _ (calendar : Calendar) (threshold : ℕ) where
  unfoldable pub perform : Call → Db → Db
  perform (claim env task_id now) db = (claim_and_announce calendar threshold env task_id now db).1
  perform (finish run_id outcome now) db = finish_run run_id outcome now db
  perform (recover now) db = recover_orphaned_runs now db
  perform (start env user_id task_id now) db = (run_task_now env user_id task_id now db).1
  perform (create env user_id request now) db =
      (create_scheduled_task calendar env user_id request now db).1
  perform (delete env user_id task_id now) db = (delete_task env user_id task_id now db).1
  perform (pause commits user_id task_id now) db = (pause_task commits user_id task_id now db).1
  perform (resume commits user_id task_id now) db =
      (resume_task calendar commits user_id task_id now db).1
  perform (cancel commits user_id task_id now) db = (cancel_task commits user_id task_id now db).1

  unfoldable pub perform_all : List Call → Db → Db
  unfolding perform
  perform_all [] db = db
  perform_all (call ∷ calls) db = perform_all calls (perform call db)

-- What the program and the database see to: the key of a new run is new, and a run ends with an
-- end status.
abbrev pub IsAdmissible : Call → Db → Type 0
IsAdmissible (claim env task_id now) db = find_run env.new_run_id db.runs ≡ none
IsAdmissible (start env user_id task_id now) db = find_run env.new_run_id db.runs ≡ none
IsAdmissible (finish run_id outcome now) db = is_running outcome.status ≡ false
IsAdmissible _ db = Unit
