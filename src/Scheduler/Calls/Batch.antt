-- ===== src/Scheduler/Calls/Batch.antt =====
-- agent/scheduler.py: what a tick picks, and what it starts.
use ai_advent_challenge_9_v.Prelude.{ℕ, suc, ◌≡◌, refl, List, [], ◌∷◌, arith, length, map}
use ai_advent_challenge_9_v.Scheduler.Schedule.{Calendar, Instant}
use ai_advent_challenge_9_v.Scheduler.Tables.{ScheduledTask, Db, Env}
use ai_advent_challenge_9_v.Scheduler.Calls.Started.{IsStarted, tick_ids-IsStarted}
use ai_advent_challenge_9_v.Scheduler.Calls.Picks.{IsBatch, picks, picks-IsBatch}
use ai_advent_challenge_9_v.Scheduler.Calls.{
  Call, claim, due_ids, tick_ids, tick, claim_and_announce, perform_all,
}

length-map : {A B : Type 0} (f : A → B) (xs : List A) → length (map f xs) ≡ length xs
length-map f [] = refl
length-map f (x ∷ xs) = let rest = length-map f xs in omega arith

module _ (calendar : Calendar) (threshold : ℕ) where
  -- The claims that a tick makes.
  abbrev pub claims : (ℕ → Env) → ℕ → List ℕ → Instant → List Call
  claims envs k [] now = []
  claims envs k (id ∷ ids) now = claim (envs k) id now ∷ claims envs (suc k) ids now

  tick_ids-perform_all :
      (envs : ℕ → Env) (k : ℕ) (ids : List ℕ) (now : Instant) (db : Db)
      → (tick_ids calendar threshold envs k ids now db).1
        ≡ perform_all calendar threshold (claims envs k ids now) db
  unfolding tick_ids perform_all
  tick_ids-perform_all envs k [] now db = refl
  tick_ids-perform_all envs k (id ∷ ids) now db =
      tick_ids-perform_all envs (suc k) ids now
        (claim_and_announce calendar threshold (envs k) id now db).1

  -- There is a batch of jobs such that a tick is one claim for each of them, one after the other:
  -- at most TICK_BATCH_LIMIT active jobs of the table whose slot has come, in the order of their
  -- slots, and a due job is left out only when the batch is full and none of it has a later slot.
  -- The table of runs keeps its rows and grows by at most one for each job of the batch, and the
  -- runs that the tick starts are those of the new rows that are running.
  pub tick-perform_all :
      (envs : ℕ → Env) (now : Instant) (db : Db)
      → (picked : List ScheduledTask) × IsBatch now db.tasks picked
        × ((tick calendar threshold envs now db).1
            ≡ perform_all calendar threshold (claims envs 0 (map (λ t. t.id) picked) now) db)
        × IsStarted
            (length picked)
            db
            (tick calendar threshold envs now db).0
            (tick calendar threshold envs now db).1
  unfolding tick due_ids
  tick-perform_all envs now db =
      let picked = picks now db.tasks in
      let same = length-map (λ t. t.id) picked in
      let (new, grown, ids, short) =
        tick_ids-IsStarted calendar threshold envs 0 (map (λ t. t.id) picked) now db in
      (
        picked,
        picks-IsBatch now db.tasks,
        tick_ids-perform_all envs 0 (map (λ t. t.id) picked) now db,
        (new, grown, ids, omega arith),
      )
