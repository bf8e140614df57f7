-- ===== src/Tasks/Steps.antt =====
-- agent/tasks.py: what one writing call may do to the two tables, as a relation. It is stated
-- with a transition table of its own and without the code's guards, edges or edge lists.
use ai_advent_challenge_9_v.Prelude.{
  ℕ, String, ◌≡◌, refl, Bool, true, false, Option, none, some, [], ◌∷◌, ◌++◌, arith, Bool-cases,
  Option-cases, inl, inr,
}
use ai_advent_challenge_9_v.Tasks.{
  TaskState, planning, execution, validation, done, cancelled, Task, TaskTransition, Store, Env,
  Result, Op, create, transition, pause, cancel, is_terminal, is_legal_transition, find_task,
  update_task, get_owned_task, create_task, transition_task, set_paused, cancel_task, perform,
  pause_refusal, on_owned, commit_task, refuse, Reason,
}
use ai_advent_challenge_9_v.Tasks.Rows.{find_task-id}

-- The moves of a task's life: creation, one step forward, one step back, and cancelling.
abbrev pub allowed : Option TaskState → TaskState → Bool
allowed none planning = true
allowed (some planning) execution = true
allowed (some execution) validation = true
allowed (some execution) planning = true
allowed (some validation) done = true
allowed (some validation) execution = true
allowed (some planning) cancelled = true
allowed (some execution) cancelled = true
allowed (some validation) cancelled = true
allowed _ _ = false

pub is_legal_transition-allowed :
    (a b : TaskState) → is_legal_transition a b ≡ true → allowed (some a) b ≡ true
unfolding is_legal_transition
is_legal_transition-allowed a b h = ground arith

-- `new` is a later version of the row `old`.
pub record IsRevision (old new : Task) : Type 0 where
  pub same_id : new.id ≡ old.id
  pub same_user : new.user_id ≡ old.user_id
  pub same_chat : new.chat_id ≡ old.chat_id
  pub same_title : new.title ≡ old.title
  pub same_description : new.description ≡ old.description
  pub same_goal : new.goal ≡ old.goal
  pub same_creation : new.created_at ≡ old.created_at

-- The row with the key `id` belongs to the caller.
pub record IsOwned (user chat : ℕ) (s : Store) (old : Task) (id : ℕ) : Type 0 where
  pub found : find_task id s.tasks ≡ some old
  pub keyed : old.id ≡ id
  pub of_user : old.user_id ≡ user
  pub of_chat : old.chat_id ≡ chat

pub data Step (new_id user chat : ℕ) (s u : Store) : Type 0 where
  unchanged : u ≡ s → Step new_id user chat s u
  refused :
      (old : Task) (r : TaskTransition)
      → IsOwned user chat s old r.task_id
      → r.rejected ≡ true
      → r.from_state ≡ some old.state
      → u ≡ record { tasks = s.tasks; transitions = s.transitions ++ r ∷ [] }
      → Step new_id user chat s u
  toggled :
      (old new : Task)
      → IsOwned user chat s old new.id
      → IsRevision old new
      → new.state ≡ old.state
      → is_terminal old.state ≡ false
      → u ≡ record { tasks = update_task new s.tasks; transitions = s.transitions }
      → Step new_id user chat s u
  moved :
      (old new : Task) (r : TaskTransition)
      → IsOwned user chat s old new.id
      → IsRevision old new
      → allowed (some old.state) new.state ≡ true
      → r.task_id ≡ new.id
      → r.rejected ≡ false
      → r.from_state ≡ some old.state
      → r.to_state ≡ new.state
      → u ≡ record { tasks = update_task new s.tasks; transitions = s.transitions ++ r ∷ [] }
      → Step new_id user chat s u
  created :
      (new : Task) (r : TaskTransition)
      → new.id ≡ new_id
      → new.user_id ≡ user
      → new.chat_id ≡ chat
      → new.state ≡ planning
      → r.task_id ≡ new.id
      → r.rejected ≡ false
      → r.from_state ≡ none
      → r.to_state ≡ planning
      → u ≡ record { tasks = s.tasks ++ new ∷ []; transitions = s.transitions ++ r ∷ [] }
      → Step new_id user chat s u

pub get_owned_task-IsOwned :
    (s : Store) (user chat id : ℕ) (old : Task)
    → get_owned_task s user chat id ≡ some old
    → IsOwned user chat s old id
unfolding get_owned_task
get_owned_task-IsOwned s user chat id old h = elim (Option-cases (find_task id s.tasks)) [
  | inl absent ↦ ground arith
  | inr (task, found) ↦ ground (arith, find_task-id id task s.tasks)
]

module _ (env : Env) (user chat : ℕ) (s : Store) where
  on_owned-Step :
      (id : ℕ) (o : Option Task) (k : Task → Result Task × Store)
      → get_owned_task s user chat id ≡ o
      → ((old : Task) → IsOwned user chat s old old.id → Step env.new_task_id user chat s (k old).1)
      → Step env.new_task_id user chat s (on_owned s id o k).1
  on_owned-Step id none k e step = unchanged refl
  on_owned-Step id (some old) k e step =
      let owned = get_owned_task-IsOwned s user chat id old e in
      step old (record {
        found = simp owned.keyed owned.found;
        keyed = refl;
        of_user = owned.of_user;
        of_chat = owned.of_chat;
      })

  commit_task-Step :
      (after : Store) (task : Task)
      → Step env.new_task_id user chat s after
      → Step env.new_task_id user chat s (commit_task env s after task).1
  commit_task-Step after task step = elim (Bool-cases env.commits) [
    | inl e ↦ rw e step
    | inr e ↦ rw e (unchanged refl)
  ]

  refuse-Step :
      (old : Task) (to_state : TaskState) (note : String) (reason : Reason)
      → IsOwned user chat s old old.id
      → Step env.new_task_id user chat s (refuse env s old to_state note reason).1
  refuse-Step old to_state note reason owned = elim (Bool-cases env.commits) [
    | inl e ↦ rw e (refused old _ owned refl refl refl)
    | inr e ↦ rw e (unchanged refl)
  ]

  transition_task-Step :
      (id : ℕ) (new_state : TaskState) (note : String)
      → Step env.new_task_id user chat s (transition_task env s user chat id new_state note).1
  unfolding transition_task
  transition_task-Step id new_state note = on_owned-Step id _ _ refl λ old owned.
      elim (Bool-cases (is_legal_transition old.state new_state)) [
        | inl e ↦ rw e (
            commit_task-Step _ _ (
              moved old (record old { state = new_state; updated_at = env.clock 0 }) _ owned
                (ground arith) (is_legal_transition-allowed _ _ e) refl refl refl refl refl))
        | inr e ↦ rw e (refuse-Step old new_state note _ owned)
      ]

  cancel_task-Step : (id : ℕ) → Step env.new_task_id user chat s (cancel_task env s user chat id).1
  unfolding cancel_task
  cancel_task-Step id = on_owned-Step id _ _ refl λ old owned.
      elim (Bool-cases (is_terminal old.state)) [
        | inl e ↦ rw e (refuse-Step old cancelled "" _ owned)
        | inr e ↦ rw e (
            commit_task-Step _ _ (
              moved old (record old { state = cancelled; updated_at = env.clock 0 }) _ owned
                (ground arith) (ground arith) refl refl refl refl refl))
      ]

  set_paused-Step :
      (id : ℕ) (is_paused : Bool)
      → Step env.new_task_id user chat s (set_paused env s user chat id is_paused).1
  unfolding set_paused
  set_paused-Step id is_paused = on_owned-Step id _ _ refl λ old owned.
      elim (Option-cases (pause_refusal old is_paused)) [
        | inl e ↦ rw e (
            commit_task-Step _ _ (
              toggled old (record old { is_paused = is_paused; updated_at = env.clock 0 }) owned
                (ground arith) refl (ground arith) refl))
        | inr (reason, e) ↦ rw e (refuse-Step old old.state "" reason owned)
      ]

  create_task-Step :
      (title description goal : String)
      → Step env.new_task_id user chat s (create_task env s user chat title description goal).1
  unfolding create_task
  create_task-Step title description goal = elim (Bool-cases env.flushes) [
    | inl e ↦ rw e (commit_task-Step _ _ (created _ _ refl refl refl refl refl refl refl refl refl))
    | inr e ↦ rw e (unchanged refl)
  ]

abbrev pub user_of : Op → ℕ
user_of (create u c title description goal) = u
user_of (transition u c t new_state note) = u
user_of (pause u c t is_paused) = u
user_of (cancel u c t) = u

abbrev pub chat_of : Op → ℕ
chat_of (create u c title description goal) = c
chat_of (transition u c t new_state note) = c
chat_of (pause u c t is_paused) = c
chat_of (cancel u c t) = c

-- Every call, on every branch, does one of the five things or nothing.
pub perform-Step :
    (env : Env) (op : Op) (s : Store)
    → Step env.new_task_id (user_of op) (chat_of op) s (perform env op s).1
unfolding perform
perform-Step env (create u c title description goal) s =
    create_task-Step env u c s title description goal
perform-Step env (transition u c t new_state note) s =
    transition_task-Step env u c s t new_state note
perform-Step env (pause u c t is_paused) s = set_paused-Step env u c s t is_paused
perform-Step env (cancel u c t) s = cancel_task-Step env u c s t
