-- ===== src/Tasks/Samples.antt =====
-- agent/tasks.py: a task's life on small inputs, and the theorems at them.
use mathlib.Core.List.{Perm}
use ai_advent_challenge_9_v.Prelude.{
  ℕ, ◌+◌, ◌≡◌, refl, inl, true, false, not, ◌&&◌, none, some, List, [], ◌∷◌, arith, ◌==◌, select,
}
use ai_advent_challenge_9_v.Tasks.{
  planning, execution, done, cancelled, cannot_move, Task, Store, empty_store, Env,
  illegal_transition, Op, create, transition, pause, cancel, is_terminal, is_legal_transition,
  find_task, update_task, perform, perform_all, transition_task, get_owned_task,
}
use ai_advent_challenge_9_v.Tasks.History.{IsConsistent, perform_all-IsConsistent}
use ai_advent_challenge_9_v.Tasks.Guards.{
  SameTask, perform_all-keeps_terminal, perform_all-keeps_strangers,
}
use ai_advent_challenge_9_v.Tasks.Outcomes.{
  ◌⟶◌, IsMoved, is_legal_transition_iff, transition_task-IsMoved,
}
use ai_advent_challenge_9_v.Tasks.Failures.{perform_error, Left}
use ai_advent_challenge_9_v.Tasks.Progress.{Holds, finishing_calls, finishing_calls-Holds}
use ai_advent_challenge_9_v.Tasks.Listing.{IsOpen, IsOlder, list_open_tasks, list_open_tasks_lem}
use ai_advent_challenge_9_v.Prelude.Ordered.{IsOrdered}
use mathlib.Core.List.{Memᴰ}

-- The clock starts at the given reading, and the database gives the key to a new row.
abbrev at_time : ℕ → ℕ → Env
at_time reading key = record {
  clock = λ k. reading + k;
  new_task_id = key;
  new_row_id = reading;
  flushes = true;
  commits = true;
  refreshes = true;
}

abbrev broken : Env
broken = record (at_time 90 9) { commits = false }

abbrev life : List (Env × Op)
life =
    (at_time 10 1, create 7 3 "trip" "" "")
    ∷ (at_time 20 2, transition 7 3 1 execution "go")
    ∷ (at_time 30 2, transition 7 3 1 done "")
    ∷ (at_time 40 2, create 8 4 "other" "" "")
    ∷ (at_time 50 3, pause 7 3 1 true)
    ∷ (at_time 60 3, cancel 7 3 1)
    ∷ []

abbrev intruder : List (Env × Op)
intruder =
    (at_time 70 5, cancel 8 4 1)
    ∷ (at_time 80 5, transition 8 4 1 planning "")
    ∷ (at_time 85 5, create 8 4 "third" "" "")
    ∷ []

abbrev trip : Task
trip = record {
  id = 1;
  user_id = 7;
  chat_id = 3;
  title = "trip";
  description = "";
  goal = "";
  state = planning;
  is_paused = false;
  delegate_to = none;
  created_at = 10;
  updated_at = 11;
}

abbrev one_task : Store
one_task = record { tasks = trip ∷ []; transitions = [] }

abbrev stopped : Store
stopped = record one_task { tasks = record trip { state = cancelled } ∷ [] }

-- What the tests see through.
program : Unit {0}
unfolding perform_all perform find_task update_task is_legal_transition get_owned_task
    list_open_tasks
program = tt

life_ends_cancelled :
    find_task 1 (perform_all life empty_store).tasks
    ≡ some (record trip { state = cancelled; is_paused = true; updated_at = 60 })
unfolding program
life_ends_cancelled = refl

perform_all-IsConsistent_example : IsConsistent (perform_all life empty_store)
unfolding program
perform_all-IsConsistent_example =
    perform_all-IsConsistent life empty_store (refl, (refl, (refl, (refl, (refl, (refl, tt))))))
      (λ id. refl)

perform_all-keeps_terminal_example :
    find_task 1 (perform_all ((at_time 99 4, transition 7 3 1 execution "") ∷ life) stopped).tasks
    ≡ some (record trip { state = cancelled })
unfolding find_task
perform_all-keeps_terminal_example =
    perform_all-keeps_terminal ((at_time 99 4, transition 7 3 1 execution "") ∷ life) stopped 1
      (record trip { state = cancelled }) refl refl

perform_all-keeps_strangers_example : SameTask 1 trip one_task (perform_all intruder one_task)
unfolding program
perform_all-keeps_strangers_example =
    perform_all-keeps_strangers intruder one_task 1 trip refl (refl, (refl, (refl, tt)))
      (inl (omega arith), (inl (omega arith), (inl (omega arith), tt)))

is_legal_transition_iff_example :
    ((is_legal_transition planning execution ≡ true) → planning ⟶ execution)
    × ((planning ⟶ execution) → is_legal_transition planning execution ≡ true)
is_legal_transition_iff_example = is_legal_transition_iff planning execution

abbrev started : Task
started = record trip { state = execution; updated_at = 20 }

transition_task-IsMoved_example :
    IsMoved
      (at_time 20 2)
      one_task
      7
      3
      1
      execution
      "go"
      started
      (transition_task (at_time 20 2) one_task 7 3 1 execution "go").1
unfolding program
transition_task-IsMoved_example =
    transition_task-IsMoved (at_time 20 2) one_task 7 3 1 execution "go" started refl

perform_error_example :
    Left
      (at_time 30 2)
      "x"
      one_task
      (perform (at_time 30 2) (transition 7 3 1 done "x") one_task).1
      (illegal_transition 1 planning done (cannot_move 1 planning done (execution ∷ [])))
unfolding program
perform_error_example =
    perform_error (at_time 30 2) (transition 7 3 1 done "x") one_task
      (illegal_transition 1 planning done (cannot_move 1 planning done (execution ∷ []))) refl

finishing_calls-Holds_example :
    Holds 7 3 1 done (perform_all (finishing_calls (at_time 20 2) refl 7 3 1 planning) one_task)
unfolding find_task
finishing_calls-Holds_example =
    finishing_calls-Holds (at_time 20 2) refl 7 3 1 one_task planning refl
      (trip, refl, refl, refl, refl)

list_open_tasks_lem_example :
    let listed = list_open_tasks one_task 3 in
    ((t : Task) → Memᴰ t listed → Memᴰ t one_task.tasks × (t.chat_id ≡ 3) × IsOpen t.state)
    × ((t : Task) → Memᴰ t one_task.tasks → t.chat_id ≡ 3 → IsOpen t.state → Memᴰ t listed)
    × Perm listed (select (λ t. t.chat_id == 3 && not (is_terminal t.state)) one_task.tasks)
    × IsOrdered IsOlder listed
list_open_tasks_lem_example = list_open_tasks_lem one_task 3
