-- ===== src/Tasks/History.antt =====
-- agent/tasks.py: the transition rows against the state that the task rows hold.
use ai_advent_challenge_9_v.Prelude.{
  ℕ, ◌≡◌, refl, Bool, true, false, not, ◌&&◌, Option, none, some, List, [], ◌∷◌, ◌++◌, arith, ◌==◌,
  if◌then◌else◌,
}
use ai_advent_challenge_9_v.Tasks.{
  TaskState, planning, execution, validation, done, cancelled, TaskTransition, Store, Env, Op,
  state_eq, find_task, perform, perform_all,
}
use ai_advent_challenge_9_v.Tasks.Rows.{state_of, find_task-update_task, find_task-append}
use ai_advent_challenge_9_v.Tasks.Steps.{
  allowed, Step, unchanged, refused, toggled, moved, created, user_of, chat_of, perform-Step,
}

abbrev same_option : Option TaskState → Option TaskState → Bool
same_option none none = true
same_option (some a) (some b) = state_eq a b
same_option _ _ = false

-- An accepted row of the task moves it on; a row that does not start where the last one ended, or
-- that is no allowed move, breaks the history.
abbrev pub follow : ℕ → Option TaskState → TaskTransition → Option TaskState
follow id now r =
    if r.task_id == id && not r.rejected
    then if same_option r.from_state now && allowed r.from_state r.to_state
      then some r.to_state
      else none
    else now

abbrev pub replay : ℕ → Option TaskState → List TaskTransition → Option TaskState
replay id now [] = now
replay id now (r ∷ rs) = replay id (follow id now r) rs

replay-append :
    (id : ℕ) (now : Option TaskState) (rs : List TaskTransition) (r : TaskTransition)
    → replay id now (rs ++ r ∷ []) ≡ follow id (replay id now rs) r
replay-append id now [] r = refl
replay-append id now (x ∷ rs) r = replay-append id (follow id now x) rs r

-- The accepted rows of each task, replayed from its creation, end in the state that its row holds,
-- and a key with no task has no accepted rows.
abbrev pub IsConsistent : Store → Type 0
IsConsistent s = (id : ℕ) → replay id none s.transitions ≡ state_of (find_task id s.tasks)

-- The database gives a new row a key that no row has.
abbrev pub IsFresh : Env → Store → Type 0
IsFresh env s = find_task env.new_task_id s.tasks ≡ none

state_eq_refl : (a : TaskState) → state_eq a a ≡ true
state_eq_refl planning = refl
state_eq_refl execution = refl
state_eq_refl validation = refl
state_eq_refl done = refl
state_eq_refl cancelled = refl

Step-IsConsistent :
    (new_id user chat : ℕ) (s u : Store)
    → find_task new_id s.tasks ≡ none
    → Step new_id user chat s u
    → IsConsistent s
    → IsConsistent u
Step-IsConsistent new_id user chat s u fresh (unchanged e) h id = rw e (h id)
Step-IsConsistent new_id user chat s u fresh (refused old r owned off from e) h id =
    rw e (rw replay-append (ground (arith, h id)))
Step-IsConsistent new_id user chat s u fresh (toggled old new owned rev same live e) h id =
    rw e (rw find_task-update_task (ground (arith, h id)))
Step-IsConsistent new_id user chat s u fresh (moved old new r owned rev legal key off from to e) h
      id =
    rw e (rw (replay-append, find_task-update_task) (ground (arith, h id, state_eq_refl old.state)))
Step-IsConsistent new_id user chat s u fresh (created new r key us ch st rk off from to e) h id =
    rw e (rw (replay-append, find_task-append) (ground (arith, h id)))

-- One call, whatever it is, whoever makes it and whatever the database answers, keeps every task's
-- history consistent, given that a new row gets a fresh key.
pub perform-IsConsistent :
    (env : Env) (op : Op) (s : Store)
    → IsFresh env s
    → IsConsistent s
    → IsConsistent (perform env op s).1
perform-IsConsistent env op s fresh h =
    Step-IsConsistent env.new_task_id (user_of op) (chat_of op) s (perform env op s).1 fresh
      (perform-Step env op s) h

-- Each call meets a new key.
abbrev pub AllFresh : List (Env × Op) → Store → Type 0
AllFresh [] s = Unit
AllFresh ((env, op) ∷ calls) s = IsFresh env s × AllFresh calls (perform env op s).1

-- Any sequence of calls from a consistent store, whose new rows get fresh keys, leaves every task's
-- history consistent: replayed from the creation, its accepted rows end in the stored state.
pub perform_all-IsConsistent :
    (calls : List (Env × Op)) (s : Store)
    → AllFresh calls s
    → IsConsistent s
    → IsConsistent (perform_all calls s)
unfolding perform_all
perform_all-IsConsistent [] s fresh h = h
perform_all-IsConsistent ((env, op) ∷ calls) s fresh h =
    perform_all-IsConsistent calls (perform env op s).1 fresh.1
      (perform-IsConsistent env op s fresh.0 h)
