-- ===== src/Tasks/Progress.antt =====
-- agent/tasks.py: a task that has not ended can be brought to its end.
use ai_advent_challenge_9_v.Prelude.{ℕ, ◌≡◌, refl, true, false, some, List, [], ◌∷◌, arith, map}
use ai_advent_challenge_9_v.Tasks.{
  TaskState, planning, execution, validation, done, cancelled, Task, Store, Env, Op, transition,
  is_terminal, find_task, transition_task, perform, perform_all, get_owned_task,
}
use ai_advent_challenge_9_v.Tasks.Rows.{find_task-update_task, find_task-id}
use ai_advent_challenge_9_v.Tasks.Outcomes.{◌⟶◌, start, check, finish, ⟶-is_legal}

-- The row with the key `id` is the caller's and is in the given state.
abbrev pub Holds : ℕ → ℕ → ℕ → TaskState → Store → Type 0
Holds user chat id state s =
    (task : Task) × (find_task id s.tasks ≡ some task)
    × (task.user_id ≡ user)
    × (task.chat_id ≡ chat)
    × (task.state ≡ state)

-- The states to pass through from here to `done`.
abbrev pub route : TaskState → List TaskState
route planning = execution ∷ validation ∷ done ∷ []
route execution = validation ∷ done ∷ []
route validation = done ∷ []
route _ = []

module _ (env : Env) (saves : env.commits ≡ true) (user chat id : ℕ) where
  transition_task-Holds :
      (s : Store) (a b : TaskState)
      → a ⟶ b
      → Holds user chat id a s
      → Holds user chat id b (transition_task env s user chat id b "").1
  unfolding transition_task get_owned_task
  transition_task-Holds s a b edge (task, found, us, ch, st) = (
    record task { state = b; updated_at = env.clock 0 },
    ground (
      arith,
      ⟶-is_legal edge,
      find_task-id id task s.tasks,
      find_task-update_task id (record task { state = b; updated_at = env.clock 0 }) s.tasks,
    ),
    us,
    ch,
    refl,
  )

  abbrev pub finishing_calls : TaskState → List (Env × Op)
  finishing_calls a = map (λ b. (env, transition user chat id b "")) (route a)

  -- Wherever a task of the caller stands, as long as it has not ended, at most three calls of
  -- `transition_task` bring it to `done`, when the commits succeed.
  pub finishing_calls-Holds :
      (s : Store) (a : TaskState)
      → is_terminal a ≡ false
      → Holds user chat id a s
      → Holds user chat id done (perform_all (finishing_calls a) s)
  unfolding perform_all perform
  finishing_calls-Holds s planning live h = transition_task-Holds _ validation done finish (
      transition_task-Holds _ execution validation check
        (transition_task-Holds s planning execution start h))
  finishing_calls-Holds s execution live h =
      transition_task-Holds _ validation done finish
        (transition_task-Holds s execution validation check h)
  finishing_calls-Holds s validation live h = transition_task-Holds s validation done finish h
  finishing_calls-Holds s done live h = cc
  finishing_calls-Holds s cancelled live h = cc
