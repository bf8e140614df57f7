-- ===== src/Tasks/Rows.antt =====
-- agent/tasks.py: how a look-up by key reads the task table after a write.
use ai_advent_challenge_9_v.Prelude.{
  ℕ, ◌≡◌, Option, none, some, List, [], ◌∷◌, ◌++◌, arith, ◌==◌, if◌then◌else◌,
}
use ai_advent_challenge_9_v.Tasks.{Task, TaskState, find_task, update_task}

abbrev pub replaced : Task → Option Task → Option Task
replaced task none = none
replaced task (some _) = some task

abbrev pub or_new : Option Task → Option Task → Option Task
or_new none found = found
or_new (some t) found = some t

-- The state in a row, if there is one.
abbrev pub state_of : Option Task → Option TaskState
state_of none = none
state_of (some task) = some task.state

pub find_task-update_task :
    (j : ℕ) (task : Task) (ts : List Task)
    → find_task j (update_task task ts)
      ≡ (if task.id == j then replaced task (find_task j ts) else find_task j ts)
unfolding find_task update_task
find_task-update_task j task [] = ground arith
find_task-update_task j task (t ∷ ts) = ground (arith, find_task-update_task j task ts)

pub find_task-append :
    (j : ℕ) (task : Task) (ts : List Task)
    → find_task j (ts ++ task ∷ [])
      ≡ or_new (find_task j ts) (if task.id == j then some task else none)
unfolding find_task
find_task-append j task [] = ground arith
find_task-append j task (t ∷ ts) = ground (arith, find_task-append j task ts)

pub find_task-id : (j : ℕ) (task : Task) (ts : List Task) → find_task j ts ≡ some task → task.id ≡ j
unfolding find_task
find_task-id j task [] h = ground arith
find_task-id j task (t ∷ ts) h = ground (arith, find_task-id j task ts)
