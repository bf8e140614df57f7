-- ===== src/Tasks.antt =====
-- agent/tasks.py and the task tables of shared/models.py: the life of a chat's task.
pub mod Rows
pub mod Steps
pub mod History
pub mod Guards
mod Samples
pub mod Listing
pub mod Progress
pub mod Failures
pub mod Outcomes
use ai_advent_challenge_9_v.Prelude.{
  ℕ, String, Bool, true, false, not, ◌&&◌, ◌||◌, Option, none, some, List, [], ◌∷◌, ◌++◌, ◌==◌,
  if◌then◌else◌,
}

pub data TaskState : Type 0 where
  planning execution validation done cancelled : TaskState

-- The texts of the refusals: a constructor for each f-string, with what it interpolates.
pub data Reason : Type 0 where
  cannot_move : (task_id : ℕ) (from_state to_state : TaskState) (legal : List TaskState) → Reason
  cannot_be_paused cannot_be_resumed : (task_id : ℕ) (state : TaskState) → Reason
  not_paused : (task_id : ℕ) → Reason
  already_terminal : (task_id : ℕ) (state : TaskState) → Reason

pub record Task : Type 0 where
  pub id : ℕ
  pub user_id : ℕ
  pub chat_id : ℕ
  pub title : String
  pub description : String
  pub goal : String
  pub state : TaskState
  pub is_paused : Bool
  pub delegate_to : Option String
  pub created_at : ℕ
  pub updated_at : ℕ

pub record TaskTransition : Type 0 where
  pub id : ℕ
  pub task_id : ℕ
  pub from_state : Option TaskState
  pub to_state : TaskState
  pub note : String
  pub rejected : Bool
  pub rejection_reason : Option Reason
  pub created_at : ℕ

-- What is committed in the two tables, in the order of insertion.
pub record Store : Type 0 where
  pub tasks : List Task
  pub transitions : List TaskTransition

abbrev pub empty_store : Store
empty_store = record { tasks = []; transitions = [] }

-- What one call meets outside: the successive readings of the clock, the keys that the database
-- gives to new rows, and whether its flush, commit and refresh come back without an exception.
pub record Env : Type 0 where
  pub clock : ℕ → ℕ
  pub new_task_id : ℕ
  pub new_row_id : ℕ
  pub flushes : Bool
  pub commits : Bool
  pub refreshes : Bool

pub data Error : Type 0 where
  task_not_found : (task_id : ℕ) → Error
  illegal_transition : (task_id : ℕ) (from_state to_state : TaskState) (reason : Reason) → Error
  database_error : Error

pub data Result (A : Type 0) : Type 0 where
  err : (raised : Error) → Result A
  ok : A → Result A

-- `_FORWARD_EDGES`
abbrev pub forward_edge : TaskState → Option TaskState
forward_edge planning = some execution
forward_edge execution = some validation
forward_edge validation = some done
forward_edge _ = none

-- `_BACKWARD_EDGES`
abbrev pub backward_edge : TaskState → Option TaskState
backward_edge execution = some planning
backward_edge validation = some execution
backward_edge _ = none

-- `_TERMINAL_STATES`
abbrev pub is_terminal : TaskState → Bool
is_terminal done = true
is_terminal cancelled = true
is_terminal _ = false

abbrev pub state_eq : TaskState → TaskState → Bool
state_eq planning planning = true
state_eq execution execution = true
state_eq validation validation = true
state_eq done done = true
state_eq cancelled cancelled = true
state_eq _ _ = false

abbrev append_edge : Option TaskState → List TaskState → List TaskState
append_edge none targets = targets
append_edge (some target) targets = targets ++ target ∷ []

unfoldable pub legal_targets : TaskState → List TaskState
legal_targets from_state =
    if is_terminal from_state
    then []
    else append_edge (backward_edge from_state) (append_edge (forward_edge from_state) [])

abbrev contains_state : TaskState → List TaskState → Bool
contains_state s [] = false
contains_state s (t ∷ ts) = state_eq t s || contains_state s ts

unfoldable pub is_legal_transition : TaskState → TaskState → Bool
unfolding legal_targets
is_legal_transition from_state to_state = contains_state to_state (legal_targets from_state)

-- `session.get(Task, task_id)`
unfoldable pub find_task : ℕ → List Task → Option Task
find_task task_id [] = none
find_task task_id (t ∷ ts) = if t.id == task_id then some t else find_task task_id ts

-- What the commit of a changed row writes back.
unfoldable pub update_task : Task → List Task → List Task
update_task task [] = []
update_task task (t ∷ ts) = (if t.id == task.id then task else t) ∷ update_task task ts

abbrev check_owner : ℕ → ℕ → Option Task → Option Task
check_owner user_id chat_id none = none
check_owner user_id chat_id (some task) =
    if not (task.chat_id == chat_id) || not (task.user_id == user_id) then none else some task

-- `none` is the TaskNotFoundError.
unfoldable pub get_owned_task : Store → ℕ → ℕ → ℕ → Option Task
get_owned_task s user_id chat_id task_id = check_owner user_id chat_id (find_task task_id s.tasks)

abbrev is_refusal : Option Reason → Bool
is_refusal none = false
is_refusal (some _) = true

abbrev row : Env → ℕ → ℕ → Option TaskState → TaskState → String → Option Reason → TaskTransition
row env reading task_id from_state to_state note reason = record {
  id = env.new_row_id;
  task_id = task_id;
  from_state = from_state;
  to_state = to_state;
  note = note;
  rejected = is_refusal reason;
  rejection_reason = reason;
  created_at = env.clock reading;
}

-- `commit` then `refresh`: a failed commit is rolled back, a failed refresh raises after it.
abbrev commit_task : Env → Store → Store → Task → Result Task × Store
commit_task env before after task =
    if env.commits
    then (if env.refreshes then ok task else err database_error, after)
    else (err database_error, before)

-- The refusals: one more row is committed and IllegalTransitionError is raised.
abbrev refuse : Env → Store → Task → TaskState → String → Reason → Result Task × Store
refuse env s task to_state note reason =
    if env.commits
    then (
      err (illegal_transition task.id task.state to_state reason),
      record s {
        transitions =
            s.transitions ++ row env 0 task.id (some task.state) to_state note (some reason) ∷ [];
      },
    )
    else (err database_error, s)

unfoldable pub create_task :
    Env → Store → (user_id chat_id : ℕ) (title description goal : String) → Result Task × Store
create_task env s user_id chat_id title description goal =
    let task : Task = record {
      id = env.new_task_id;
      user_id = user_id;
      chat_id = chat_id;
      title = title;
      description = description;
      goal = goal;
      state = planning;
      is_paused = false;
      delegate_to = none;
      created_at = env.clock 0;
      updated_at = env.clock 1;
    } in
    if env.flushes
    then commit_task env s
        (record {
          tasks = s.tasks ++ task ∷ [];
          transitions = s.transitions ++ row env 2 task.id none planning "" none ∷ [];
        })
        task
    else (err database_error, s)

-- The rest of `transition_task`, once the task is loaded.
transition_owned : Env → Store → TaskState → String → Task → Result Task × Store
transition_owned env s new_state note task =
    if not (is_legal_transition task.state new_state)
    then refuse env s task new_state note
        (cannot_move task.id task.state new_state (legal_targets task.state))
    else (let moved = record task { state = new_state; updated_at = env.clock 0 } in
        commit_task env s
          (record {
            tasks = update_task moved s.tasks;
            transitions =
                s.transitions ++ row env 1 task.id (some task.state) new_state note none ∷ [];
          })
          moved)

abbrev on_owned : Store → ℕ → Option Task → (Task → Result Task × Store) → Result Task × Store
on_owned s task_id none k = (err (task_not_found task_id), s)
on_owned s task_id (some task) k = k task

unfoldable pub transition_task :
    Env → Store → (user_id chat_id task_id : ℕ) → TaskState → String → Result Task × Store
unfolding transition_owned
transition_task env s user_id chat_id task_id new_state note =
    on_owned s task_id (get_owned_task s user_id chat_id task_id)
      (transition_owned env s new_state note)

-- `rejection_reason` of `set_paused`
abbrev pause_refusal : Task → Bool → Option Reason
pause_refusal task is_paused =
    if is_terminal task.state
    then some (
        if is_paused
        then cannot_be_paused task.id task.state
        else cannot_be_resumed task.id task.state)
    else if not is_paused && not task.is_paused
    then some (not_paused task.id)
    else none

pause_owned : Env → Store → Bool → Task → Option Reason → Result Task × Store
pause_owned env s is_paused task (some reason) = refuse env s task task.state "" reason
pause_owned env s is_paused task none =
    let toggled = record task { is_paused = is_paused; updated_at = env.clock 0 } in
    commit_task env s (record s { tasks = update_task toggled s.tasks }) toggled

unfoldable pub set_paused : Env → Store → (user_id chat_id task_id : ℕ) → Bool → Result Task × Store
unfolding pause_owned
set_paused env s user_id chat_id task_id is_paused =
    on_owned s task_id (get_owned_task s user_id chat_id task_id)
      (λ task. pause_owned env s is_paused task (pause_refusal task is_paused))

cancel_owned : Env → Store → Task → Result Task × Store
cancel_owned env s task =
    if is_terminal task.state
    then refuse env s task cancelled "" (already_terminal task.id task.state)
    else (let stopped = record task { state = cancelled; updated_at = env.clock 0 } in
        commit_task env s
          (record {
            tasks = update_task stopped s.tasks;
            transitions =
                s.transitions ++ row env 1 task.id (some task.state) cancelled "" none ∷ [];
          })
          stopped)

unfoldable pub cancel_task : Env → Store → (user_id chat_id task_id : ℕ) → Result Task × Store
unfolding cancel_owned
cancel_task env s user_id chat_id task_id =
    on_owned s task_id (get_owned_task s user_id chat_id task_id) (cancel_owned env s)

-- A call of one of the writing operations, with its arguments, and any sequence of them.
pub data Op : Type 0 where
  create : (user_id chat_id : ℕ) (title description goal : String) → Op
  transition : (user_id chat_id task_id : ℕ) (new_state : TaskState) (note : String) → Op
  pause : (user_id chat_id task_id : ℕ) (is_paused : Bool) → Op
  cancel : (user_id chat_id task_id : ℕ) → Op

unfoldable pub perform : Env → Op → Store → Result Task × Store
unfolding create_task transition_task set_paused cancel_task
perform env (create u c title description goal) s = create_task env s u c title description goal
perform env (transition u c t new_state note) s = transition_task env s u c t new_state note
perform env (pause u c t is_paused) s = set_paused env s u c t is_paused
perform env (cancel u c t) s = cancel_task env s u c t

unfoldable pub perform_all : List (Env × Op) → Store → Store
perform_all [] s = s
perform_all ((env, op) ∷ calls) s = perform_all calls (perform env op s).1
