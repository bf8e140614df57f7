-- ===== src/Tasks/Outcomes.antt =====
-- agent/tasks.py: what each result of a call says about the store.
use ai_advent_challenge_9_v.Prelude.{
  ℕ, String, ◌≡◌, refl, ◌↔◌, ap, inl, inr, true, none, some, [], ◌∷◌, ◌++◌, arith, Option-cases,
}
use ai_advent_challenge_9_v.Tasks.{
  TaskState, planning, execution, validation, done, Task, Store, Env, ok, err, task_not_found,
  is_legal_transition, find_task, update_task, get_owned_task, row, transition_task,
}
use ai_advent_challenge_9_v.Tasks.Rows.{find_task-update_task}
use ai_advent_challenge_9_v.Tasks.Steps.{get_owned_task-IsOwned}

-- The transition graph: one step forward or one step back, and neither out of an end state.
infix 40 ◌⟶◌
pub data ◌⟶◌ : TaskState → TaskState → Type 0 where
  start : planning ⟶ execution
  check : execution ⟶ validation
  finish : validation ⟶ done
  replan : execution ⟶ planning
  rework : validation ⟶ execution

pub ⟶-is_legal : {a b : TaskState} → a ⟶ b → is_legal_transition a b ≡ true
unfolding is_legal_transition
⟶-is_legal start = refl
⟶-is_legal check = refl
⟶-is_legal finish = refl
⟶-is_legal replan = refl
⟶-is_legal rework = refl

is_legal-⟶ : (a b : TaskState) → is_legal_transition a b ≡ true → a ⟶ b
unfolding is_legal_transition
is_legal-⟶ a b h = grind (arith, start, check, finish, replan, rework)

-- `_is_legal_transition` decides the graph.
pub is_legal_transition_iff : (a b : TaskState) → (is_legal_transition a b ≡ true) ↔ (a ⟶ b)
is_legal_transition_iff a b = (is_legal-⟶ a b, ⟶-is_legal)

module _ (env : Env) (s : Store) (user chat id : ℕ) (new_state : TaskState) (note : String) where
  -- What a successful `transition_task` has done.
  pub record IsMoved (task : Task) (u : Store) : Type 0 where
    pub old : Task
    pub found : find_task id s.tasks ≡ some old
    pub of_user : old.user_id ≡ user
    pub of_chat : old.chat_id ≡ chat
    pub edge : old.state ⟶ new_state
    pub result : task ≡ record old { state = new_state; updated_at = env.clock 0 }
    pub stored : find_task id u.tasks ≡ some task
    pub logged :
        u.transitions ≡ s.transitions ++ row env 1 id (some old.state) new_state note none ∷ []

  -- The tables after a move of `old`.
  abbrev pub after_move : Task → Store
  after_move old = record {
    tasks = update_task (record old { state = new_state; updated_at = env.clock 0 }) s.tasks;
    transitions = s.transitions ++ row env 1 old.id (some old.state) new_state note none ∷ [];
  }

  moved_lem :
      (old : Task)
      → get_owned_task s user chat id ≡ some old
      → is_legal_transition old.state new_state ≡ true
      → IsMoved (record old { state = new_state; updated_at = env.clock 0 }) (after_move old)
  moved_lem old e legal =
      let owned = get_owned_task-IsOwned s user chat id old e in
      record {
        old = old;
        found = owned.found;
        of_user = owned.of_user;
        of_chat = owned.of_chat;
        edge = is_legal-⟶ _ _ legal;
        result = refl;
        stored = rw find_task-update_task (ground arith);
        logged = simp owned.keyed;
      }

  transition_task-eq_ok :
      (old task : Task)
      → get_owned_task s user chat id ≡ some old
      → (transition_task env s user chat id new_state note).0 ≡ ok task
      → (is_legal_transition old.state new_state ≡ true)
        × (record old { state = new_state; updated_at = env.clock 0 } ≡ task)
        × ((transition_task env s user chat id new_state note).1 ≡ after_move old)
  unfolding transition_task
  transition_task-eq_ok old task e h = ground arith

  transition_task-of_none :
      get_owned_task s user chat id ≡ none
      → transition_task env s user chat id new_state note ≡ (err (task_not_found id), s)
  unfolding transition_task
  transition_task-of_none e = rw e

  -- A move that succeeds went along one edge of the graph, from the stored state of a task of the
  -- caller, and has changed that task's row and added one accepted row to its history.
  pub transition_task-IsMoved :
      (task : Task)
      → (transition_task env s user chat id new_state note).0 ≡ ok task
      → IsMoved task (transition_task env s user chat id new_state note).1
  transition_task-IsMoved task h = elim (Option-cases (get_owned_task s user chat id)) [
    | inl e ↦ cc (ap (λ r. r.0) (transition_task-of_none e))
    | inr (old, e) ↦
        let (legal, same, after) = transition_task-eq_ok old task e h in
        rw (after, ← same) (moved_lem old e legal)
  ]
