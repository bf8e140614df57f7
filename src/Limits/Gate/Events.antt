-- ===== src/Limits/Gate/Events.antt =====
-- agent/limits.py: GenerationGate over any sequence of events.
use ai_advent_challenge_9_v.Prelude.{
  ℕ, ◌+◌, ◌-◌, ◌≤◌, ◌<◌, ◌≡◌, refl, true, Option, none, some, List, [], ◌∷◌, arith, ltb, Bool-cases,
  inl, inr,
}
use ai_advent_challenge_9_v.Limits.Gate.{
  Waiter, Acquire, scheduled, queued, acquired, scheduled_cancel, queued_cancel, aborted, Turn,
  announcing, awaiting, left_behind, holding, gone, Gate, locked, release, turn_at, put, out,
  run_acquire, Event, arrive, run, announced, resume, interrupt, leave, enter, on_run, on_announced,
  on_resume, on_interrupt, on_leave, perform, run_all, new_gate,
}
use ai_advent_challenge_9_v.Limits.Gate.Deque.{granted, asleep, is_fair}
use ai_advent_challenge_9_v.Limits.Gate.Turns.{
  has_slot, slots_of, waits, is_tidy, total, total-append, all_tidy-append, tidy_at,
  run_acquire-IsRun, unlocked,
}
use ai_advent_challenge_9_v.Limits.Gate.Sound.{
  IsSound, put-IsSound, one_waits, still, release-IsStep, ran-IsSound, freed-IsSound,
  give_up-IsSound, stay-IsSound,
}

on_run-IsSound :
    (cap i : ℕ) (g : Gate) (turn : Option Turn)
    → turn_at i g.turns ≡ turn
    → IsSound cap g
    → IsSound cap (on_run i g turn)
on_run-IsSound cap i g none at sound = sound
on_run-IsSound cap i g (some holding) at sound = sound
on_run-IsSound cap i g (some gone) at sound = sound
on_run-IsSound cap i g (some (announcing task)) at sound =
    ran-IsSound cap i g announcing task (run_acquire i g task) at (λ t. refl) (λ t. refl)
      (λ t h. refl) (run_acquire-IsRun i g task) sound
on_run-IsSound cap i g (some (awaiting task)) at sound =
    ran-IsSound cap i g awaiting task (run_acquire i g task) at (λ t. refl) (λ t. refl)
      (λ t h. refl) (run_acquire-IsRun i g task) sound
on_run-IsSound cap i g (some (left_behind task)) at sound =
    let (all, waits_all, ordered, awake, tidied) = sound in
    ran-IsSound cap i g left_behind task (run_acquire i g task) at (λ t. refl) (λ t. refl)
      (λ t h. h (tidy_at i g.turns (left_behind task) tidied at)) (run_acquire-IsRun i g task) sound

on_interrupt-IsSound :
    (cap i : ℕ) (g : Gate) (turn : Option Turn)
    → turn_at i g.turns ≡ turn
    → IsSound cap g
    → IsSound cap (on_interrupt i g turn)
on_interrupt-IsSound cap i g none at sound = sound
on_interrupt-IsSound cap i g (some holding) at sound = sound
on_interrupt-IsSound cap i g (some gone) at sound = sound
on_interrupt-IsSound cap i g (some (left_behind task)) at sound = sound
on_interrupt-IsSound cap i g (some (announcing acquired)) at sound =
    freed-IsSound cap i g (announcing acquired) at refl refl sound
on_interrupt-IsSound cap i g (some (announcing scheduled)) at sound =
    give_up-IsSound cap i g scheduled at refl sound
on_interrupt-IsSound cap i g (some (announcing queued)) at sound =
    give_up-IsSound cap i g queued at refl sound
on_interrupt-IsSound cap i g (some (announcing scheduled_cancel)) at sound =
    give_up-IsSound cap i g scheduled_cancel at refl sound
on_interrupt-IsSound cap i g (some (announcing queued_cancel)) at sound =
    give_up-IsSound cap i g queued_cancel at refl sound
on_interrupt-IsSound cap i g (some (announcing aborted)) at sound =
    give_up-IsSound cap i g aborted at refl sound
on_interrupt-IsSound cap i g (some (awaiting acquired)) at sound =
    freed-IsSound cap i g (awaiting acquired) at refl refl sound
on_interrupt-IsSound cap i g (some (awaiting scheduled)) at sound =
    stay-IsSound cap i g scheduled at sound
on_interrupt-IsSound cap i g (some (awaiting queued)) at sound =
    stay-IsSound cap i g queued at sound
on_interrupt-IsSound cap i g (some (awaiting scheduled_cancel)) at sound =
    stay-IsSound cap i g scheduled_cancel at sound
on_interrupt-IsSound cap i g (some (awaiting queued_cancel)) at sound =
    stay-IsSound cap i g queued_cancel at sound
on_interrupt-IsSound cap i g (some (awaiting aborted)) at sound =
    stay-IsSound cap i g aborted at sound

on_announced-IsSound :
    (cap i : ℕ) (g : Gate) (turn : Option Turn)
    → turn_at i g.turns ≡ turn
    → IsSound cap g
    → IsSound cap (on_announced i g turn)
on_announced-IsSound cap i g (some (announcing task)) at sound =
    put-IsSound cap i g (announcing task) (awaiting task) g g.waiting at (still g (has_slot task))
      refl refl sound
on_announced-IsSound cap i g none at sound = sound
on_announced-IsSound cap i g (some holding) at sound = sound
on_announced-IsSound cap i g (some gone) at sound = sound
on_announced-IsSound cap i g (some (left_behind task)) at sound = sound
on_announced-IsSound cap i g (some (awaiting task)) at sound = sound

-- The caller is out of the queue, in its body or not.
resumed-IsSound :
    (cap i : ℕ) (g : Gate) (task : Acquire) (new : Turn)
    → turn_at i g.turns ≡ some (awaiting task)
    → slots_of new ≡ has_slot task
    → waits new ≡ 0
    → is_tidy new ≡ true
    → IsSound cap g
    → IsSound cap (put i new (out g))
resumed-IsSound cap i g task new at slots wait tidy sound =
    let (all, waits_all, ordered, awake, tidied) = sound in
    let count = one_waits i g.turns (awaiting task) at in
    put-IsSound cap i g (awaiting task) new g (g.waiting - 1) at
      (omega arith, λ h. h, λ h. h, refl, refl) (omega arith) tidy sound

on_resume-IsSound :
    (cap i : ℕ) (g : Gate) (turn : Option Turn)
    → turn_at i g.turns ≡ turn
    → IsSound cap g
    → IsSound cap (on_resume i g turn)
on_resume-IsSound cap i g (some (awaiting acquired)) at sound =
    resumed-IsSound cap i g acquired holding at refl refl refl sound
on_resume-IsSound cap i g (some (awaiting aborted)) at sound =
    resumed-IsSound cap i g aborted gone at refl refl refl sound
on_resume-IsSound cap i g (some (awaiting scheduled)) at sound = sound
on_resume-IsSound cap i g (some (awaiting queued)) at sound = sound
on_resume-IsSound cap i g (some (awaiting scheduled_cancel)) at sound = sound
on_resume-IsSound cap i g (some (awaiting queued_cancel)) at sound = sound
on_resume-IsSound cap i g none at sound = sound
on_resume-IsSound cap i g (some holding) at sound = sound
on_resume-IsSound cap i g (some gone) at sound = sound
on_resume-IsSound cap i g (some (left_behind task)) at sound = sound
on_resume-IsSound cap i g (some (announcing task)) at sound = sound

on_leave-IsSound :
    (cap i : ℕ) (g : Gate) (turn : Option Turn)
    → turn_at i g.turns ≡ turn
    → IsSound cap g
    → IsSound cap (on_leave i g turn)
on_leave-IsSound cap i g (some holding) at sound =
    put-IsSound cap i g holding gone (release g) (release g).waiting at (release-IsStep g)
      (let kept = (release-IsStep g).3 in omega arith) refl sound
on_leave-IsSound cap i g none at sound = sound
on_leave-IsSound cap i g (some gone) at sound = sound
on_leave-IsSound cap i g (some (left_behind task)) at sound = sound
on_leave-IsSound cap i g (some (awaiting task)) at sound = sound
on_leave-IsSound cap i g (some (announcing task)) at sound = sound

enter-IsSound : (cap : ℕ) (g : Gate) → IsSound cap g → IsSound cap (enter g)
unfolding enter
enter-IsSound cap g (all, waits_all, ordered, awake, tidied) = elim (Bool-cases (locked g)) [
  | inl e ↦
      let slots = total-append slots_of g.turns (announcing scheduled) in
      let counts = total-append waits g.turns (announcing scheduled) in
      rw e (
        omega arith,
        omega arith,
        ordered,
        awake,
        all_tidy-append g.turns (announcing scheduled) tidied refl,
      )
  | inr e ↦
      let (free, none_given, none_asleep) = unlocked g e in
      let slots = total-append slots_of g.turns holding in
      let counts = total-append waits g.turns holding in
      rw e (
        omega arith,
        omega arith,
        ordered,
        λ v p. omega arith,
        all_tidy-append g.turns holding tidied refl,
      )
]

perform-IsSound :
    (cap : ℕ) (event : Event) (g : Gate) → IsSound cap g → IsSound cap (perform event g)
unfolding perform
perform-IsSound cap arrive g sound = enter-IsSound cap g sound
perform-IsSound cap (run i) g sound = on_run-IsSound cap i g (turn_at i g.turns) refl sound
perform-IsSound cap (announced i) g sound =
    on_announced-IsSound cap i g (turn_at i g.turns) refl sound
perform-IsSound cap (resume i) g sound = on_resume-IsSound cap i g (turn_at i g.turns) refl sound
perform-IsSound cap (interrupt i) g sound =
    on_interrupt-IsSound cap i g (turn_at i g.turns) refl sound
perform-IsSound cap (leave i) g sound = on_leave-IsSound cap i g (turn_at i g.turns) refl sound

run_all-IsSound_from :
    (cap : ℕ) (events : List Event) (g : Gate) → IsSound cap g → IsSound cap (run_all events g)
unfolding run_all
run_all-IsSound_from cap [] g sound = sound
run_all-IsSound_from cap (event ∷ events) g sound =
    run_all-IsSound_from cap events (perform event g) (perform-IsSound cap event g sound)

new_gate-IsSound : (cap : ℕ) → IsSound cap (new_gate cap)
unfolding new_gate
new_gate-IsSound cap = (omega arith, refl, refl, λ v p. omega arith, refl)

-- What a caller may rely on: the cap on what runs at once, the count of the callers that wait, and
-- the order of the queue.
abbrev pub IsCapped : (cap : ℕ) → Gate → Type 0
IsCapped cap g =
    (g.value + granted g.waiters + total slots_of g.turns ≡ cap)
    × (total slots_of g.turns ≤ cap)
    × (g.waiting ≡ total waits g.turns)
    × (is_fair g.waiters ≡ true)

-- Whatever arrives, is cancelled, fails or ends, in any order of the steps of the loop: each of the
-- cap's slots is free, given to a waiter or held by one turn, so that no more turns than the cap
-- run; the waiting callers are counted; and no slot is given past a waiter that came earlier.
pub run_all-IsCapped :
    (cap : ℕ) (events : List Event) → IsCapped cap (run_all events (new_gate cap))
run_all-IsCapped cap events =
    let (all, waits_all, ordered, awake, tidied) =
      run_all-IsSound_from cap events (new_gate cap) (new_gate-IsSound cap) in
    (all, omega arith, waits_all, ordered)

nobody :
    (waiters : List Waiter)
    → (0 < asleep waiters → 0 < granted waiters)
    → granted waiters ≡ 0
    → asleep waiters ≡ 0
nobody waiters wakes none_given = elim (Bool-cases (ltb 0 (asleep waiters))) [
  | inl e ↦ let given = wakes (ground arith) in omega arith
  | inr e ↦ ground arith
]

-- No slot leaks and no wake-up is lost: after any events, if no turn holds a slot and none is on
-- its way to a waiter, all slots are free, and with a positive cap no waiter is left asleep.
pub run_all-drained :
    (cap : ℕ) (events : List Event)
    → let g = run_all events (new_gate cap) in
      total slots_of g.turns ≡ 0
      → granted g.waiters ≡ 0
      → 0 < cap
      → (g.value ≡ cap) × (asleep g.waiters ≡ 0)
run_all-drained cap events no_turn none_given positive =
    let (all, waits_all, ordered, awake, tidied) =
      run_all-IsSound_from cap events (new_gate cap) (new_gate-IsSound cap) in
    let full : (run_all events (new_gate cap)).value ≡ cap = omega arith in
    (full, nobody (run_all events (new_gate cap)).waiters (awake (omega arith)) none_given)
