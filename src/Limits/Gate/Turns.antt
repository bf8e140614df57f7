-- ===== src/Limits/Gate/Turns.antt =====
-- agent/limits.py: the acquire tasks of GenerationGate and the turns that hold or await a slot.
use ai_advent_challenge_9_v.Prelude.{
  ℕ, zero, suc, ◌+◌, ◌≤◌, ◌<◌, ◌≡◌, refl, Bool, true, false, ◌&&◌, Option, none, some, List, [],
  ◌∷◌, ◌++◌, ◌==◌, arith, ltb, Bool-cases, inl, inr,
}
use ai_advent_challenge_9_v.Limits.Gate.{
  Fut, pending, resolved, cancelled, Acquire, scheduled, queued, acquired, scheduled_cancel,
  queued_cancel, aborted, Turn, announcing, awaiting, left_behind, holding, gone, Gate, locked,
  fut_of, dropped, turn_at, set_turn, run_queued, run_cancelled, run_acquire,
}
use ai_advent_challenge_9_v.Limits.Gate.Deque.{
  is_resolved, granted, asleep, is_fair, Awake, stock, wake_up_next-IsMoved, release-IsMoved,
  any_live-none, any_live-some, join-IsMoved, remove-IsRemoved,
}

abbrev pub has_slot : Acquire → ℕ
has_slot acquired = 1
has_slot _ = 0

-- The slot of a turn, in its body or on the way to it.
abbrev pub slots_of : Turn → ℕ
slots_of (announcing task) = has_slot task
slots_of (awaiting task) = has_slot task
slots_of (left_behind task) = has_slot task
slots_of holding = 1
slots_of gone = 0

abbrev pub waits : Turn → ℕ
waits (announcing task) = 1
waits (awaiting task) = 1
waits _ = 0

abbrev pub is_stopped : Acquire → Bool
is_stopped scheduled_cancel = true
is_stopped queued_cancel = true
is_stopped aborted = true
is_stopped _ = false

-- What is left of a caller that is out is a task that will not take a slot.
abbrev pub is_tidy : Turn → Bool
is_tidy (left_behind task) = is_stopped task
is_tidy _ = true

abbrev pub total : (Turn → ℕ) → List Turn → ℕ
total f [] = 0
total f (turn ∷ turns) = f turn + total f turns

abbrev pub all_tidy : List Turn → Bool
all_tidy [] = true
all_tidy (turn ∷ turns) = is_tidy turn && all_tidy turns

some_same : (turn old : Turn) → some turn ≡ some old → turn ≡ old
some_same turn old h = cc

pub total-set_turn :
    (f : Turn → ℕ) (i : ℕ) (old new : Turn) (turns : List Turn)
    → turn_at i turns ≡ some old
    → total f (set_turn i new turns) + f old ≡ total f turns + f new
total-set_turn f i old new [] h = cc
total-set_turn f zero old new (turn ∷ turns) h =
    let same : turn ≡ old = some_same turn old h in rw (← same) (omega arith)
total-set_turn f (suc i) old new (turn ∷ turns) h =
    let rest = total-set_turn f i old new turns h in omega arith

pub total-append :
    (f : Turn → ℕ) (turns : List Turn) (turn : Turn)
    → total f (turns ++ turn ∷ []) ≡ total f turns + f turn
total-append f [] turn = omega arith
total-append f (first ∷ turns) turn = let rest = total-append f turns turn in omega arith

pub all_tidy-set_turn :
    (i : ℕ) (new : Turn) (turns : List Turn)
    → all_tidy turns ≡ true
    → is_tidy new ≡ true
    → all_tidy (set_turn i new turns) ≡ true
all_tidy-set_turn i new [] h tidy = refl
all_tidy-set_turn zero new (turn ∷ turns) h tidy = ground arith
all_tidy-set_turn (suc i) new (turn ∷ turns) h tidy = elim (Bool-cases (is_tidy turn)) [
  | inl e ↦ rw e (all_tidy-set_turn i new turns (rw e at h) tidy)
  | inr e ↦ let bad = rw e at h in cc
]

pub all_tidy-append :
    (turns : List Turn) (turn : Turn)
    → all_tidy turns ≡ true
    → is_tidy turn ≡ true
    → all_tidy (turns ++ turn ∷ []) ≡ true
all_tidy-append [] turn h tidy = rw tidy refl
all_tidy-append (first ∷ turns) turn h tidy = elim (Bool-cases (is_tidy first)) [
  | inl e ↦ rw e (all_tidy-append turns turn (rw e at h) tidy)
  | inr e ↦ let bad = rw e at h in cc
]

pub tidy_at :
    (i : ℕ) (turns : List Turn) (turn : Turn)
    → all_tidy turns ≡ true
    → turn_at i turns ≡ some turn
    → is_tidy turn ≡ true
tidy_at i [] turn h at = cc
tidy_at zero (first ∷ turns) turn h at =
    let same : first ≡ turn = some_same first turn at in rw (← same) (ground arith)
tidy_at (suc i) (first ∷ turns) turn h at = elim (Bool-cases (is_tidy first)) [
  | inl e ↦ tidy_at i turns turn (rw e at h) at
  | inr e ↦ let bad = rw e at h in cc
]

-- A step of the semaphore for a task, from the slots that it has to the slots that it gets.
abbrev pub IsStep : Gate → (before now : ℕ) → Gate → Type 0
IsStep g before now after =
    (stock after + now ≡ stock g + before)
    × (is_fair g.waiters ≡ true → is_fair after.waiters ≡ true)
    × (Awake g.value g.waiters → Awake after.value after.waiters)
    × (after.waiting ≡ g.waiting)
    × (after.turns ≡ g.turns)

-- A step of an acquire task.
abbrev pub IsRun : Gate → Acquire → Option (Gate × Acquire) → Type 0
IsRun g task none = Unit
IsRun g task (some (after, new)) =
    IsStep g (has_slot task) (has_slot new) after × (is_stopped task ≡ true → is_stopped new ≡ true)

dropped-IsStep :
    (i : ℕ) (g : Gate) (fut : Fut)
    → fut_of i g.waiters ≡ some fut
    → (stock (dropped i g) + is_resolved fut ≡ stock g)
      × (is_fair g.waiters ≡ true → is_fair (dropped i g).waiters ≡ true)
      × (asleep (dropped i g).waiters ≤ asleep g.waiters)
dropped-IsStep i g fut h =
    let (same, less, fair) = remove-IsRemoved i g.waiters fut h in (omega arith, fair, less)

run_queued-IsRun :
    (i : ℕ) (g : Gate) (fut : Option Fut)
    → fut_of i g.waiters ≡ fut
    → IsRun g queued (run_queued i g fut)
run_queued-IsRun i g none h = tt
run_queued-IsRun i g (some pending) h = tt
run_queued-IsRun i g (some cancelled) h =
    let (same, fair, less) = dropped-IsStep i g cancelled h in
    (
      (omega arith, fair, λ awake v p. let old = awake v (omega arith) in omega arith, refl, refl),
      λ e. cc,
    )
run_queued-IsRun i g (some resolved) h =
    let (same, fair, less) = dropped-IsStep i g resolved h in
    elim (Bool-cases (ltb 0 g.value)) [
      | inl e ↦
          let ((stocked, ordered, waiting, turns), awake) =
            wake_up_next-IsMoved (dropped i g) (ground arith) in
          rw e ((omega arith, λ f. ordered (fair f), λ old. awake, waiting, turns), λ s. cc)
      | inr e ↦ rw e ((omega arith, fair, λ old v p. ground arith, refl, refl), λ s. cc)
    ]

run_cancelled-IsRun :
    (i : ℕ) (g : Gate) (fut : Option Fut)
    → fut_of i g.waiters ≡ fut
    → IsRun g queued_cancel (run_cancelled i g fut)
run_cancelled-IsRun i g none h = tt
run_cancelled-IsRun i g (some pending) h = tt
run_cancelled-IsRun i g (some cancelled) h =
    let (same, fair, less) = dropped-IsStep i g cancelled h in
    (
      (omega arith, fair, λ awake v p. let old = awake v (omega arith) in omega arith, refl, refl),
      λ e. refl,
    )
run_cancelled-IsRun i g (some resolved) h =
    let (same, fair, less) = dropped-IsStep i g resolved h in
    let ((stocked, ordered, waiting, turns), awake) = release-IsMoved (dropped i g) in
    ((omega arith, λ f. ordered (fair f), λ old. awake, waiting, turns), λ s. refl)

pub unlocked :
    (g : Gate) → locked g ≡ false → (0 < g.value) × (granted g.waiters ≡ 0) × (asleep g.waiters ≡ 0)
unlocked g h = elim (Bool-cases (g.value == 0)) [
  | inl e ↦ let bad = rw e at h in cc
  | inr e ↦
      let (none_given, none_asleep) = any_live-none g.waiters (rw e at h) in
      (ground arith, none_given, none_asleep)
]

-- A task that finds a free slot and a lock has somebody awake before it.
given_before :
    (g : Gate) → locked g ≡ true → Awake g.value g.waiters → 0 < g.value → 0 < granted g.waiters
given_before g h awake free = elim (Bool-cases (g.value == 0)) [
  | inl e ↦ ground arith
  | inr e ↦
      let live = any_live-some g.waiters (rw e at h) in
      elim (Bool-cases (ltb 0 (granted g.waiters))) [
        | inl given ↦ ground arith
        | inr not_given ↦ awake free (ground arith)
      ]
]

pub run_acquire-IsRun : (i : ℕ) (g : Gate) (task : Acquire) → IsRun g task (run_acquire i g task)
unfolding run_acquire
run_acquire-IsRun i g scheduled = elim (Bool-cases (locked g)) [
  | inl e ↦
      let (same, fair) = join-IsMoved i g.waiters in
      rw e
        ((omega arith, fair, λ awake v p. rw same (given_before g e awake v), refl, refl), λ s. cc)
  | inr e ↦
      let (free, none_given, none_asleep) = unlocked g e in
      rw e ((omega arith, λ h. h, λ awake v p. ground arith, refl, refl), λ s. cc)
]
run_acquire-IsRun i g queued = run_queued-IsRun i g (fut_of i g.waiters) refl
run_acquire-IsRun i g scheduled_cancel = ((refl, λ h. h, λ h. h, refl, refl), λ e. refl)
run_acquire-IsRun i g queued_cancel = run_cancelled-IsRun i g (fut_of i g.waiters) refl
run_acquire-IsRun i g acquired = tt
run_acquire-IsRun i g aborted = tt
