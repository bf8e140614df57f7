-- ===== src/Tasks/Failures.antt =====
-- agent/tasks.py: what a call leaves behind when it raises.
use ai_advent_challenge_9_v.Prelude.{String, ◌≡◌, some, [], ◌∷◌, ◌++◌, arith}
use ai_advent_challenge_9_v.Tasks.{
  Store, Env, Error, err, task_not_found, illegal_transition, database_error, Op, create,
  transition, pause, cancel, row, perform,
}

-- The note that a refused call's row carries.
abbrev pub note_of : Op → String
note_of (transition u c t new_state note) = note
note_of _ = ""

-- What the error says about the tables that the call leaves.
abbrev pub Left : Env → String → Store → Store → Error → Type 0
Left env note s u (task_not_found id) = u ≡ s
Left env note s u (illegal_transition id from to reason) = u ≡ record s {
  transitions = s.transitions ++ row env 0 id (some from) to note (some reason) ∷ [];
}
Left env note s u database_error = Unit

-- A call that raises TaskNotFoundError changes nothing; one that raises IllegalTransitionError
-- changes no task and adds exactly one row, marked as rejected and holding the reason raised.
pub perform_error :
    (env : Env) (op : Op) (s : Store) (e : Error)
    → (perform env op s).0 ≡ err e
    → Left env (note_of op) s (perform env op s).1 e
unfolding perform
perform_error env op s database_error h = tt
perform_error env (create u c title description goal) s (task_not_found id) h = ground arith
perform_error env (transition u c t new_state note) s (task_not_found id) h = ground arith
perform_error env (pause u c t is_paused) s (task_not_found id) h = ground arith
perform_error env (cancel u c t) s (task_not_found id) h = ground arith
perform_error env (create u c ti d g) s (illegal_transition id from to reason) h = ground arith
perform_error env (transition u c t n note) s (illegal_transition id from to reason) h =
    ground arith
perform_error env (pause u c t is_paused) s (illegal_transition id from to reason) h = ground arith
perform_error env (cancel u c t) s (illegal_transition id from to reason) h = ground arith
