-- ===== src/Tasks/Listing.antt =====
-- agent/tasks.py: the reading calls, list_tasks_for_chat, list_open_tasks and list_transitions.
use mathlib.Core.List.{Memᴰ, Perm}
use ai_advent_challenge_9_v.Prelude.{
  ℕ, ◌≤◌, ◌<◌, ◌≡◌, ◌≢◌, refl, ◌⊎◌, inl, inr, Bool, true, false, not, ◌&&◌, ◌||◌, List, [], ◌∷◌,
  arith, ◌==◌, ltb, select, Bool-cases, select-mem,
}
use ai_advent_challenge_9_v.Prelude.Sort.{sort_by, sort_by-perm, sort_by-IsSorted}
use ai_advent_challenge_9_v.Prelude.Ordered.{
  IsOrdered, IsSorted-IsOrdered, mem-select, sort_by-mem, mem-sort_by,
}
use ai_advent_challenge_9_v.Tasks.{
  Task, TaskTransition, Store, TaskState, planning, execution, validation, done, cancelled,
  is_terminal,
}

-- `order_by(created_at, id)`
abbrev earlier : ℕ → ℕ → ℕ → ℕ → Bool
earlier created_a id_a created_b id_b =
    ltb created_a created_b || (created_a == created_b && ltb id_a id_b)

abbrev pub task_before : Task → Task → Bool
task_before a b = earlier a.created_at a.id b.created_at b.id

abbrev pub transition_before : TaskTransition → TaskTransition → Bool
transition_before a b = earlier a.created_at a.id b.created_at b.id

unfoldable pub list_tasks_for_chat : Store → ℕ → List Task
list_tasks_for_chat s chat_id = sort_by task_before (select (λ t. t.chat_id == chat_id) s.tasks)

unfoldable pub list_open_tasks : Store → ℕ → List Task
list_open_tasks s chat_id =
    sort_by task_before
      (select (λ t. not (is_terminal t.state)) (select (λ t. t.chat_id == chat_id) s.tasks))

unfoldable pub list_transitions : Store → ℕ → List TaskTransition
list_transitions s task_id =
    sort_by transition_before (select (λ r. r.task_id == task_id) s.transitions)

earlier_trans :
    (a i b j c k : ℕ) → earlier b j a i ≡ false → earlier c k b j ≡ false → earlier c k a i ≡ false
earlier_trans a i b j c k h h' = ground arith

earlier_asym : (a i b j : ℕ) → earlier a i b j ≡ true → earlier b j a i ≡ false
earlier_asym a i b j h = ground arith

abbrev pub IsOpen : TaskState → Type 0
IsOpen state = (state ≢ done) × (state ≢ cancelled)

-- Older, or of the same time and with a key that is not larger.
abbrev pub IsOlder : Task → Task → Type 0
IsOlder a b = (a.created_at < b.created_at) ⊎ ((a.created_at ≡ b.created_at) × (a.id ≤ b.id))

task_before-IsOlder : (a b : Task) → task_before b a ≡ false → IsOlder a b
task_before-IsOlder a b h = elim (Bool-cases (ltb a.created_at b.created_at)) [
  | inl e ↦ inl (ground arith)
  | inr e ↦ inr (ground arith)
]

is_terminal-IsOpen : (state : TaskState) → not (is_terminal state) ≡ true → IsOpen state
is_terminal-IsOpen planning h = (λ e. cc, λ e. cc)
is_terminal-IsOpen execution h = (λ e. cc, λ e. cc)
is_terminal-IsOpen validation h = (λ e. cc, λ e. cc)
is_terminal-IsOpen done h = cc
is_terminal-IsOpen cancelled h = cc

IsOpen-is_terminal : (state : TaskState) → IsOpen state → not (is_terminal state) ≡ true
IsOpen-is_terminal planning is_open = refl
IsOpen-is_terminal execution is_open = refl
IsOpen-is_terminal validation is_open = refl
IsOpen-is_terminal done (not_done, not_cancelled) = elim (not_done refl) [ ]
IsOpen-is_terminal cancelled (not_done, not_cancelled) = elim (not_cancelled refl) [ ]

select-select :
    (chat_id : ℕ) (ts : List Task)
    → select (λ t. not (is_terminal t.state)) (select (λ t. t.chat_id == chat_id) ts)
      ≡ select (λ t. t.chat_id == chat_id && not (is_terminal t.state)) ts
select-select chat_id [] = refl
select-select chat_id (t ∷ ts) = ground (arith, select-select chat_id ts)

-- list_open_tasks answers the stored tasks of the chat that are neither done nor cancelled, all of
-- them, no others and each as often as it is stored: the oldest first, and those of one time by
-- their keys.
pub list_open_tasks_lem :
    (s : Store) (chat_id : ℕ)
    → let listed = list_open_tasks s chat_id in
      ((t : Task) → Memᴰ t listed → Memᴰ t s.tasks × (t.chat_id ≡ chat_id) × IsOpen t.state)
      × ((t : Task) → Memᴰ t s.tasks → t.chat_id ≡ chat_id → IsOpen t.state → Memᴰ t listed)
      × Perm listed (select (λ t. t.chat_id == chat_id && not (is_terminal t.state)) s.tasks)
      × IsOrdered IsOlder listed
unfolding list_open_tasks
list_open_tasks_lem s chat_id =
    let of_chat = select (λ t. t.chat_id == chat_id) s.tasks in
    let open_ones = select (λ t. not (is_terminal t.state)) of_chat in
    (
      λ t m.
          let (there, is_open) = select-mem _ of_chat t (sort_by-mem task_before open_ones t m) in
          let (stored, mine) = select-mem _ s.tasks t there in
          (stored, ground arith, is_terminal-IsOpen t.state is_open),
      λ t m mine is_open. mem-sort_by task_before open_ones t (
          mem-select _ of_chat t (mem-select _ s.tasks t m (ground arith))
            (IsOpen-is_terminal t.state is_open)),
      rw (← select-select chat_id s.tasks) (sort_by-perm task_before _),
      IsSorted-IsOrdered task_before IsOlder task_before-IsOlder _ (
          sort_by-IsSorted task_before
            (λ x y z. earlier_trans x.created_at x.id y.created_at y.id z.created_at z.id)
            (λ x y. earlier_asym x.created_at x.id y.created_at y.id) _),
    )
