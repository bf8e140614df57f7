-- ===== src/Tasks/Guards.antt =====
-- agent/tasks.py: what the guards of the writing calls protect, over any sequence of calls.
use ai_advent_challenge_9_v.Prelude.{
  ℕ, ◌≡◌, refl, ◌∙◌, ◌≢◌, ◌⊎◌, true, false, none, some, List, [], ◌∷◌, ◌++◌, arith, ◌==◌, select,
  All,
}
use ai_advent_challenge_9_v.Tasks.{
  Task, TaskTransition, Store, Env, Op, is_terminal, find_task, perform, perform_all, TaskState,
}
use ai_advent_challenge_9_v.Tasks.Rows.{find_task-update_task, find_task-append}
use ai_advent_challenge_9_v.Tasks.History.{AllFresh}
use ai_advent_challenge_9_v.Tasks.Steps.{
  allowed, Step, unchanged, refused, toggled, moved, created, user_of, chat_of, perform-Step,
}

not-allowed-IsTerminal : (a b : TaskState) → allowed (some a) b ≡ true → is_terminal a ≡ false
not-allowed-IsTerminal a b h = ground arith

module _ (new_id user chat : ℕ) (s u : Store) (id : ℕ) (task : Task)
    (found : find_task id s.tasks ≡ some task) where
  Step-keeps_terminal :
      is_terminal task.state ≡ true → Step new_id user chat s u → find_task id u.tasks ≡ some task
  Step-keeps_terminal stop (unchanged e) = rw e found
  Step-keeps_terminal stop (refused old r owned off from e) = rw e found
  Step-keeps_terminal stop (toggled old new owned rev same live e) =
      rw e (rw find_task-update_task (ground arith))
  Step-keeps_terminal stop (moved old new r owned rev legal key off from to e) =
      rw e (rw find_task-update_task (ground (arith, not-allowed-IsTerminal old.state new.state)))
  Step-keeps_terminal stop (created new r key us ch st rk off from to e) =
      rw e (rw find_task-append (ground arith))

-- A done or cancelled task is frozen: whatever calls follow, its row is never touched again.
pub perform_all-keeps_terminal :
    (calls : List (Env × Op)) (s : Store) (id : ℕ) (task : Task)
    → find_task id s.tasks ≡ some task
    → is_terminal task.state ≡ true
    → find_task id (perform_all calls s).tasks ≡ some task
unfolding perform_all
perform_all-keeps_terminal [] s id task found stop = found
perform_all-keeps_terminal ((env, op) ∷ calls) s id task found stop =
    perform_all-keeps_terminal calls (perform env op s).1 id task
      (Step-keeps_terminal env.new_task_id (user_of op) (chat_of op) s (perform env op s).1 id task
        found stop (perform-Step env op s))
      stop

abbrev pub rows_of : ℕ → List TaskTransition → List TaskTransition
rows_of id = select (λ r. r.task_id == id)

rows_of-append_ne :
    (id : ℕ) (rs : List TaskTransition) (r : TaskTransition)
    → r.task_id ≢ id
    → rows_of id (rs ++ r ∷ []) ≡ rows_of id rs
rows_of-append_ne id [] r h = ground arith
rows_of-append_ne id (x ∷ rs) r h = ground (arith, rows_of-append_ne id rs r h)

-- The call is made for another user or in another chat.
abbrev pub IsStranger : ℕ → ℕ → Task → Type 0
IsStranger user chat task = (task.user_id ≢ user) ⊎ (task.chat_id ≢ chat)

-- The task's row and its history are the same in both stores.
abbrev pub SameTask : ℕ → Task → Store → Store → Type 0
SameTask id task s u =
    (find_task id u.tasks ≡ some task) × (rows_of id u.transitions ≡ rows_of id s.transitions)

module _ (new_id user chat : ℕ) (s u : Store) (id : ℕ) (task : Task)
    (found : find_task id s.tasks ≡ some task) (fresh : find_task new_id s.tasks ≡ none)
    (stranger : IsStranger user chat task) where
  Step-keeps_strangers : Step new_id user chat s u → SameTask id task s u
  Step-keeps_strangers (unchanged e) = rw e (found, refl)
  Step-keeps_strangers (refused old r owned off from e) =
      rw e (found, rows_of-append_ne id s.transitions r (λ same. ground arith))
  Step-keeps_strangers (toggled old new owned rev same live e) =
      rw e (rw find_task-update_task (ground arith), refl)
  Step-keeps_strangers (moved old new r owned rev legal key off from to e) = rw e (
    rw find_task-update_task (ground arith),
    rows_of-append_ne id s.transitions r (λ same. ground arith),
  )
  Step-keeps_strangers (created new r key us ch st rk off from to e) = rw e (
    rw find_task-append (ground arith),
    rows_of-append_ne id s.transitions r (λ same. ground arith),
  )

-- None of the calls is made by the task's owner in the task's chat.
abbrev pub AllStrangers : Task → List (Env × Op) → Type 0
AllStrangers task = All (λ call. IsStranger (user_of call.1) (chat_of call.1) task)

-- Tenant isolation: a task's row and history are the same after any calls of other users or in
-- other chats, whatever task key the calls name.
pub perform_all-keeps_strangers :
    (calls : List (Env × Op)) (s : Store) (id : ℕ) (task : Task)
    → find_task id s.tasks ≡ some task
    → AllFresh calls s
    → AllStrangers task calls
    → SameTask id task s (perform_all calls s)
unfolding perform_all
perform_all-keeps_strangers [] s id task found fresh strangers = (found, refl)
perform_all-keeps_strangers ((env, op) ∷ calls) s id task found fresh strangers =
    let (found', same) =
      Step-keeps_strangers env.new_task_id (user_of op) (chat_of op) s (perform env op s).1 id task
        found fresh.0 strangers.0 (perform-Step env op s) in
    let (final, same') =
      perform_all-keeps_strangers calls (perform env op s).1 id task found' fresh.1 strangers.1 in
    (final, same' ∙ same)
