-- ===== src/Scheduler/Listing.antt =====
-- agent/scheduler_ops.py: what the user reads, list_scheduled_tasks, list_task_runs, get_owned_run.
pub mod Order
use mathlib.Core.List.{Perm, Memᴰ}
use mathlib.Core.List.Perm
use ai_advent_challenge_9_v.Prelude.{
  ℕ, zero, suc, ◌≤◌, ◌<◌, ◌≡◌, refl, ◌⊎◌, select-mem, Bool, true, false, not, ◌&&◌, ◌||◌, Option,
  none, some, List, [], ◌∷◌, arith, ◌==◌, ltb, select, if◌then◌else◌, inl, inr, Bool-cases,
}
use ai_advent_challenge_9_v.Prelude.Sort.{sort_by, IsSorted, sort_by-perm, sort_by-IsSorted}
use ai_advent_challenge_9_v.Prelude.Ordered.{
  IsOrdered, IsSorted-IsOrdered, mem-select, sort_by-mem, mem-sort_by,
}
use ai_advent_challenge_9_v.Prelude.Stable.{lexical, sort_by-IsLexical}
use ai_advent_challenge_9_v.Scheduler.Schedule.{Instant}
use ai_advent_challenge_9_v.Scheduler.Tables.{
  ScheduledTask, ScheduledTaskStatus, active, paused, completed, cancelled, TaskRun, Db, is_live,
  is_set, find_task, find_run,
}
use ai_advent_challenge_9_v.Scheduler.Control.{get_owned_task}

abbrev pub newer : ScheduledTask → ScheduledTask → Bool
newer t u = ltb u.created_at t.created_at

abbrev pub rank : Bool → ℕ
rank false = 0
rank true = 1

abbrev pub slot_or_zero : Option Instant → ℕ
slot_or_zero none = 0
slot_or_zero (some slot) = slot

abbrev pub key_before : ℕ → ℕ → ℕ → ℕ → ℕ → ℕ → Bool
key_before a b c x y z = ltb a x || (a == x && (ltb b y || (b == y && ltb c z)))

abbrev pub dead : ScheduledTask → ℕ
dead t = rank (not (is_live t.status))

abbrev pub unset : ScheduledTask → ℕ
unset t = rank (not (is_set t.next_run_at))

abbrev pub slot : ScheduledTask → ℕ
slot t = slot_or_zero t.next_run_at

-- The tuple that the rows are sorted by: live ones first, those without a slot last, then by slot.
abbrev pub fires_before : ScheduledTask → ScheduledTask → Bool
fires_before t u = key_before (dead t) (unset t) (slot t) (dead u) (unset u) (slot u)

-- `statuses` is none where the caller gives no set, or an empty one.
abbrev pub is_listed : ℕ → Option (ScheduledTaskStatus → Bool) → ScheduledTask → Bool
is_listed user_id none t = t.user_id == user_id
is_listed user_id (some statuses) t = t.user_id == user_id && statuses t.status

unfoldable pub list_scheduled_tasks :
    ℕ → Option (ScheduledTaskStatus → Bool) → List ScheduledTask → List ScheduledTask
list_scheduled_tasks user_id statuses tasks =
    sort_by fires_before (sort_by newer (select (is_listed user_id statuses) tasks))

-- `started_at DESC, id DESC`
abbrev run_newer : TaskRun → TaskRun → Bool
run_newer r s = ltb s.started_at r.started_at || (s.started_at == r.started_at && ltb s.id r.id)

unfoldable pub take : ℕ → List TaskRun → List TaskRun
take zero runs = []
take (suc n) [] = []
take (suc n) (r ∷ runs) = r ∷ take n runs

abbrev pub runs_of : ℕ → ℕ → ℕ → List TaskRun → List TaskRun
unfolding take
runs_of user_id task_id limit runs =
    take limit (
      sort_by run_newer (select (λ r. r.scheduled_task_id == task_id && r.user_id == user_id) runs))

abbrev pub if_owned : {A : Type 0} → Option ScheduledTask → A → Option A
if_owned none a = none
if_owned (some t) a = some a

-- `none` is the SchedulerNotFoundError, here and below.
unfoldable pub list_task_runs : (user_id task_id limit : ℕ) → Db → Option (List TaskRun)
list_task_runs user_id task_id limit db =
    if_owned (get_owned_task user_id task_id db) (runs_of user_id task_id limit db.runs)

abbrev pub with_task : ℕ → TaskRun → Option ScheduledTask → Option (TaskRun × ScheduledTask)
with_task user_id run none = none
with_task user_id run (some task) = if task.user_id == user_id then some (run, task) else none

abbrev pub owned_run : ℕ → Db → Option TaskRun → Option (TaskRun × ScheduledTask)
owned_run user_id db none = none
owned_run user_id db (some run) =
    if run.user_id == user_id
    then with_task user_id run (find_task run.scheduled_task_id db.tasks)
    else none

unfoldable pub get_owned_run : (user_id run_id : ℕ) → Db → Option (TaskRun × ScheduledTask)
get_owned_run user_id run_id db = owned_run user_id db (find_run run_id db.runs)

with_task-eq_some :
    (user_id : ℕ) (r run : TaskRun) (o : Option ScheduledTask) (task : ScheduledTask)
    → with_task user_id r o ≡ some (run, task)
    → (r ≡ run) × (o ≡ some task) × (task.user_id ≡ user_id)
with_task-eq_some user_id r run none task h = cc
with_task-eq_some user_id r run (some t) task h = elim (Bool-cases (t.user_id == user_id)) [
  | inr foreign ↦ ground arith
  | inl mine ↦
      let owner : t.user_id ≡ user_id = ground arith in
      let same : Path (Option (TaskRun × ScheduledTask)) (some (r, t)) (some (run, task)) =
        rw mine at h in
      (cc, cc, cc)
]

owned_run-eq_some :
    (user_id : ℕ) (db : Db) (o : Option TaskRun) (run : TaskRun) (task : ScheduledTask)
    → owned_run user_id db o ≡ some (run, task)
    → (o ≡ some run)
      × (find_task run.scheduled_task_id db.tasks ≡ some task)
      × (run.user_id ≡ user_id)
      × (task.user_id ≡ user_id)
owned_run-eq_some user_id db none run task h = cc
owned_run-eq_some user_id db (some r) run task h = elim (Bool-cases (r.user_id == user_id)) [
  | inr alien ↦ ground arith
  | inl own ↦
      let owner : r.user_id ≡ user_id = ground arith in
      let (same, there, mine) =
        with_task-eq_some user_id r run (find_task r.scheduled_task_id db.tasks) task
          (rw own at h) in
      (cc, cc, cc, mine)
]

-- What get_owned_run returns is the user's own run of that key, with the run's own job, which is the
-- user's too.
pub get_owned_run_lem :
    (user_id run_id : ℕ) (db : Db) (run : TaskRun) (task : ScheduledTask)
    → get_owned_run user_id run_id db ≡ some (run, task)
    → (find_run run_id db.runs ≡ some run)
      × (find_task run.scheduled_task_id db.tasks ≡ some task)
      × (run.user_id ≡ user_id)
      × (task.user_id ≡ user_id)
unfolding get_owned_run
get_owned_run_lem user_id run_id db run task h =
    owned_run-eq_some user_id db (find_run run_id db.runs) run task h
