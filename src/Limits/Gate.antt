-- ===== src/Limits/Gate.antt =====
-- agent/limits.py: GenerationGate for one cap and one event loop, with the asyncio.Semaphore and
-- the tasks that it runs on. A step of the loop is an event.
pub mod Deque
pub mod Turns
pub mod Sound
pub mod Events
mod Samples
use ai_advent_challenge_9_v.Prelude.{
  ℕ, zero, suc, ◌+◌, ◌-◌, ◌≡◌, Bool, true, false, not, ◌&&◌, ◌||◌, Option, none, some, List, [],
  ◌∷◌, ◌++◌, ◌==◌, ltb, if◌then◌else◌, length,
}

-- A future in the semaphore's deque.
pub data Fut : Type 0 where
  pending resolved cancelled : Fut

-- A waiter is the turn that waits and its future.
abbrev pub Waiter : Type 0
Waiter = ℕ × Fut

-- The task of `semaphore.acquire()`: it may stand in the deque, and may have been cancelled with
-- its step still to come.
pub data Acquire : Type 0 where
  scheduled queued acquired : Acquire
  scheduled_cancel queued_cancel : Acquire
  aborted : Acquire

-- Where a caller of `slot` is: in on_wait, in `await acquire`, in the body, or out, with what is
-- left of its acquire task.
pub data Turn : Type 0 where
  announcing awaiting left_behind : Acquire → Turn
  holding gone : Turn

pub record Gate : Type 0 where
  pub value : ℕ
  pub waiters : List Waiter
  pub waiting : ℕ
  pub turns : List Turn

abbrev is_pending : Fut → Bool
is_pending pending = true
is_pending _ = false

abbrev pub is_live : Fut → Bool
is_live cancelled = false
is_live _ = true

abbrev pub any_live : List Waiter → Bool
any_live [] = false
any_live ((id, fut) ∷ waiters) = is_live fut || any_live waiters

-- `Semaphore.locked`
abbrev pub locked : Gate → Bool
locked g = g.value == 0 || any_live g.waiters

abbrev pub pass_over : Waiter → Option (List Waiter) → Option (List Waiter)
pass_over w none = none
pass_over w (some waiters) = some (w ∷ waiters)

-- The deque with its first waiter that is not done resolved.
abbrev pub resolve_first : List Waiter → Option (List Waiter)
resolve_first [] = none
resolve_first ((id, pending) ∷ waiters) = some ((id, resolved) ∷ waiters)
resolve_first ((id, resolved) ∷ waiters) = pass_over (id, resolved) (resolve_first waiters)
resolve_first ((id, cancelled) ∷ waiters) = pass_over (id, cancelled) (resolve_first waiters)

abbrev pub woken : Gate → Option (List Waiter) → Gate
woken g none = g
woken g (some waiters) = record g { value = g.value - 1; waiters = waiters }

-- `Semaphore._wake_up_next`
unfoldable pub wake_up_next : Gate → Gate
wake_up_next g = woken g (resolve_first g.waiters)

-- `Semaphore.release`
unfoldable pub release : Gate → Gate
unfolding wake_up_next
release g = wake_up_next (record g { value = g.value + 1 })

abbrev pub turn_at : ℕ → List Turn → Option Turn
turn_at i [] = none
turn_at zero (turn ∷ turns) = some turn
turn_at (suc i) (turn ∷ turns) = turn_at i turns

abbrev pub set_turn : ℕ → Turn → List Turn → List Turn
set_turn i new [] = []
set_turn zero new (turn ∷ turns) = new ∷ turns
set_turn (suc i) new (turn ∷ turns) = turn ∷ set_turn i new turns

abbrev pub put : ℕ → Turn → Gate → Gate
put i turn g = record g { turns = set_turn i turn g.turns }

abbrev pub fut_of : ℕ → List Waiter → Option Fut
fut_of i [] = none
fut_of i ((id, fut) ∷ waiters) = let rest = fut_of i waiters in if id == i then some fut else rest

-- `self._waiters.remove(fut)`
abbrev pub remove : ℕ → List Waiter → List Waiter
remove i [] = []
remove i ((id, fut) ∷ waiters) =
    let rest = remove i waiters in if id == i then waiters else (id, fut) ∷ rest

abbrev pub cancel_fut : Fut → Fut
cancel_fut pending = cancelled
cancel_fut fut = fut

-- `fut.cancel()`, which does nothing to a future that is done.
abbrev pub cancel_at : ℕ → List Waiter → List Waiter
cancel_at i [] = []
cancel_at i ((id, fut) ∷ waiters) =
    let rest = cancel_at i waiters in
    if id == i then (id, cancel_fut fut) ∷ waiters else (id, fut) ∷ rest

abbrev pub dropped : ℕ → Gate → Gate
dropped i g = record g { waiters = remove i g.waiters }

-- A step of an acquire task: the gate behind it and the task's new state; none where the task
-- cannot run. A task that waits runs once its future is done.
abbrev pub run_queued : ℕ → Gate → Option Fut → Option (Gate × Acquire)
run_queued i g (some resolved) =
    let out = dropped i g in some ((if ltb 0 g.value then wake_up_next out else out), acquired)
run_queued i g (some cancelled) = some (dropped i g, aborted)
run_queued i g _ = none

abbrev pub run_cancelled : ℕ → Gate → Option Fut → Option (Gate × Acquire)
run_cancelled i g (some resolved) = some (release (dropped i g), aborted)
run_cancelled i g (some cancelled) = some (dropped i g, aborted)
run_cancelled i g _ = none

unfoldable pub run_acquire : ℕ → Gate → Acquire → Option (Gate × Acquire)
unfolding wake_up_next release
run_acquire i g scheduled =
    if locked g
    then some (record g { waiters = g.waiters ++ (i, pending) ∷ [] }, queued)
    else some (record g { value = g.value - 1 }, acquired)
run_acquire i g queued = run_queued i g (fut_of i g.waiters)
run_acquire i g scheduled_cancel = some (g, aborted)
run_acquire i g queued_cancel = run_cancelled i g (fut_of i g.waiters)
run_acquire i g acquired = none
run_acquire i g aborted = none

-- `acquire.cancel()`
abbrev pub cancel_acquire : ℕ → Gate → Acquire → Gate × Acquire
cancel_acquire i g scheduled = (g, scheduled_cancel)
cancel_acquire i g queued = (record g { waiters = cancel_at i g.waiters }, queued_cancel)
cancel_acquire i g task = (g, task)

pub data Event : Type 0 where
  arrive : Event
  run announced resume interrupt leave : ℕ → Event

abbrev pub new_turn : Turn → Gate → Gate
new_turn turn g = record g { turns = g.turns ++ turn ∷ [] }

-- A call of `slot`, up to its first suspension.
unfoldable pub enter : Gate → Gate
enter g =
    if locked g
    then new_turn (announcing scheduled) (record g { waiting = g.waiting + 1 })
    else new_turn holding (record g { value = g.value - 1 })

abbrev pub ran : ℕ → (Acquire → Turn) → Gate → Option (Gate × Acquire) → Gate
ran i place g none = g
ran i place g (some (after, task)) = put i (place task) after

abbrev pub on_run : ℕ → Gate → Option Turn → Gate
on_run i g (some (announcing task)) = ran i announcing g (run_acquire i g task)
on_run i g (some (awaiting task)) = ran i awaiting g (run_acquire i g task)
on_run i g (some (left_behind task)) = ran i left_behind g (run_acquire i g task)
on_run i g _ = g

abbrev pub on_announced : ℕ → Gate → Option Turn → Gate
on_announced i g (some (announcing task)) = put i (awaiting task) g
on_announced i g _ = g

abbrev pub out : Gate → Gate
out g = record g { waiting = g.waiting - 1 }

-- `await acquire` returns or raises.
abbrev pub on_resume : ℕ → Gate → Option Turn → Gate
on_resume i g (some (awaiting acquired)) = put i holding (out g)
on_resume i g (some (awaiting aborted)) = put i gone (out g)
on_resume i g _ = g

abbrev pub give_up : ℕ → Gate × Acquire → Gate
give_up i (g, task) = put i (left_behind task) (out g)

abbrev pub stay : ℕ → Gate × Acquire → Gate
stay i (g, task) = put i (awaiting task) g

-- The caller is cancelled, or on_wait raises.
abbrev pub on_interrupt : ℕ → Gate → Option Turn → Gate
on_interrupt i g (some (announcing acquired)) = put i gone (out (release g))
on_interrupt i g (some (awaiting acquired)) = put i gone (out (release g))
on_interrupt i g (some (announcing task)) = give_up i (cancel_acquire i g task)
on_interrupt i g (some (awaiting task)) = stay i (cancel_acquire i g task)
on_interrupt i g _ = g

-- The body ends or raises.
abbrev pub on_leave : ℕ → Gate → Option Turn → Gate
on_leave i g (some holding) = put i gone (release g)
on_leave i g _ = g

unfoldable pub perform : Event → Gate → Gate
unfolding enter run_acquire release
perform arrive g = enter g
perform (run i) g = on_run i g (turn_at i g.turns)
perform (announced i) g = on_announced i g (turn_at i g.turns)
perform (resume i) g = on_resume i g (turn_at i g.turns)
perform (interrupt i) g = on_interrupt i g (turn_at i g.turns)
perform (leave i) g = on_leave i g (turn_at i g.turns)

unfoldable pub run_all : List Event → Gate → Gate
unfolding perform
run_all [] g = g
run_all (event ∷ events) g = run_all events (perform event g)

unfoldable pub new_gate : (cap : ℕ) → Gate
new_gate cap = record { value = cap; waiters = []; waiting = 0; turns = [] }
