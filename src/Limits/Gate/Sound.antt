-- ===== src/Limits/Gate/Sound.antt =====
-- agent/limits.py: what GenerationGate keeps, whatever order its events come in.
use ai_advent_challenge_9_v.Prelude.{
  ℕ, ◌+◌, ◌-◌, ◌≤◌, ◌≡◌, refl, true, Option, none, some, List, arith,
}
use ai_advent_challenge_9_v.Limits.Gate.{
  Acquire, scheduled, queued, acquired, scheduled_cancel, queued_cancel, aborted, Turn, announcing,
  awaiting, left_behind, gone, Gate, release, turn_at, put, out, cancel_acquire, ran, give_up, stay,
}
use ai_advent_challenge_9_v.Limits.Gate.Deque.{
  is_fair, Awake, stock, release-IsMoved, cancel_at-IsKept,
}
use ai_advent_challenge_9_v.Limits.Gate.Turns.{
  has_slot, slots_of, waits, is_stopped, is_tidy, total, all_tidy, total-set_turn,
  all_tidy-set_turn, IsStep, IsRun,
}

-- Every slot is free, given to a waiter, or held by one turn; `waiting` counts the turns that
-- wait; the deque is served in its order; no slot is free while a waiter sleeps and nobody will
-- wake it; what a caller leaves behind takes no slot.
abbrev pub IsSound : (cap : ℕ) → Gate → Type 0
IsSound cap g =
    (stock g + total slots_of g.turns ≡ cap)
    × (g.waiting ≡ total waits g.turns)
    × (is_fair g.waiters ≡ true)
    × Awake g.value g.waiters
    × (all_tidy g.turns ≡ true)

-- One turn moves on, with a step of the semaphore.
pub put-IsSound :
    (cap i : ℕ) (g : Gate) (old new : Turn) (after : Gate) (waiting : ℕ)
    → turn_at i g.turns ≡ some old
    → IsStep g (slots_of old) (slots_of new) after
    → waiting + waits old ≡ g.waiting + waits new
    → is_tidy new ≡ true
    → IsSound cap g
    → IsSound cap (put i new (record after { waiting = waiting }))
put-IsSound cap i g old new after waiting at (stocked, fair, wakes, same, turns) counted tidy
      (all, waits_all, ordered, awake, tidied) =
    let slots = total-set_turn slots_of i old new g.turns at in
    let waiters = total-set_turn waits i old new g.turns at in
    rw turns (
      omega arith,
      omega arith,
      fair ordered,
      wakes awake,
      all_tidy-set_turn i new g.turns tidied tidy,
    )

pub one_waits :
    (i : ℕ) (turns : List Turn) (turn : Turn)
    → turn_at i turns ≡ some turn
    → waits turn ≤ total waits turns
one_waits i turns turn at = let moved = total-set_turn waits i turn gone turns at in omega arith

pub still : (g : Gate) → (slots : ℕ) → IsStep g slots slots g
still g slots = (refl, λ h. h, λ h. h, refl, refl)

pub release-IsStep : (g : Gate) → IsStep g 1 0 (release g)
release-IsStep g =
    let ((stocked, fair, waiting, turns), awake) = release-IsMoved g in
    (omega arith, fair, λ old. awake, waiting, turns)

pub ran-IsSound :
    (cap i : ℕ) (g : Gate) (place : Acquire → Turn) (task : Acquire) (run : Option (Gate × Acquire))
    → turn_at i g.turns ≡ some (place task)
    → ((t : Acquire) → slots_of (place t) ≡ has_slot t)
    → ((t : Acquire) → waits (place t) ≡ waits (place task))
    → ((t : Acquire) → (is_stopped task ≡ true → is_stopped t ≡ true) → is_tidy (place t) ≡ true)
    → IsRun g task run
    → IsSound cap g
    → IsSound cap (ran i place g run)
ran-IsSound cap i g place task none at slots counted tidy moved sound = sound
ran-IsSound cap i g place task (some (after, new)) at slots counted tidy
      ((stocked, fair, wakes, same, turns), stops) sound =
    let before = slots task in
    let now = slots new in
    let count = counted new in
    put-IsSound cap i g (place task) (place new) after after.waiting at
      (omega arith, fair, wakes, same, turns) (omega arith) (tidy new stops) sound

-- The cancellation of a task that has no slot yet.
cancel_acquire-IsStep :
    (i : ℕ) (g : Gate) (task : Acquire)
    → IsStep g (has_slot task) (has_slot (cancel_acquire i g task).1) (cancel_acquire i g task).0
cancel_acquire-IsStep i g scheduled = still g 0
cancel_acquire-IsStep i g queued =
    let (same, less, fair) = cancel_at-IsKept i g.waiters in
    (omega arith, fair, λ awake v p. let old = awake v (omega arith) in omega arith, refl, refl)
cancel_acquire-IsStep i g acquired = still g 1
cancel_acquire-IsStep i g scheduled_cancel = still g 0
cancel_acquire-IsStep i g queued_cancel = still g 0
cancel_acquire-IsStep i g aborted = still g 0

pub freed-IsSound :
    (cap i : ℕ) (g : Gate) (old : Turn)
    → turn_at i g.turns ≡ some old
    → slots_of old ≡ 1
    → waits old ≡ 1
    → IsSound cap g
    → IsSound cap (put i gone (out (release g)))
freed-IsSound cap i g old at slot wait sound =
    let (stocked, fair, wakes, same, turns) = release-IsStep g in
    let (all, waits_all, ordered, awake, tidied) = sound in
    let count = one_waits i g.turns old at in
    put-IsSound cap i g old gone (release g) ((release g).waiting - 1) at
      (omega arith, fair, wakes, same, turns) (omega arith) refl sound

pub give_up-IsSound :
    (cap i : ℕ) (g : Gate) (task : Acquire)
    → turn_at i g.turns ≡ some (announcing task)
    → is_stopped (cancel_acquire i g task).1 ≡ true
    → IsSound cap g
    → IsSound cap (give_up i (cancel_acquire i g task))
give_up-IsSound cap i g task at stopped sound =
    let step = cancel_acquire-IsStep i g task in
    let (all, waits_all, ordered, awake, tidied) = sound in
    let count = one_waits i g.turns (announcing task) at in
    let after = cancel_acquire i g task in
    let kept = step.3 in
    put-IsSound cap i g (announcing task) (left_behind after.1) after.0 (after.0.waiting - 1) at
      step (omega arith) stopped sound

pub stay-IsSound :
    (cap i : ℕ) (g : Gate) (task : Acquire)
    → turn_at i g.turns ≡ some (awaiting task)
    → IsSound cap g
    → IsSound cap (stay i (cancel_acquire i g task))
stay-IsSound cap i g task at sound =
    let step = cancel_acquire-IsStep i g task in
    let after = cancel_acquire i g task in
    let kept = step.3 in
    put-IsSound cap i g (awaiting task) (awaiting after.1) after.0 after.0.waiting at step
      (omega arith) refl sound
