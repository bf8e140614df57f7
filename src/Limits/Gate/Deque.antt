-- ===== src/Limits/Gate/Deque.antt =====
-- agent/limits.py: the semaphore of GenerationGate, its counter and its deque.
use ai_advent_challenge_9_v.Prelude.{
  ℕ, suc, ◌+◌, ◌≤◌, ◌<◌, ◌≡◌, refl, Bool, true, false, ◌&&◌, Option, none, some, List, [], ◌∷◌,
  ◌++◌, ◌==◌, arith, Bool-cases, Option-cases, inl, inr,
}
use ai_advent_challenge_9_v.Limits.Gate.{
  Fut, pending, resolved, cancelled, Waiter, Gate, any_live, resolve_first, woken, wake_up_next,
  release, fut_of, remove, cancel_fut, cancel_at,
}

abbrev pub is_resolved : Fut → ℕ
is_resolved resolved = 1
is_resolved _ = 0

-- The slots that are given to waiters which have not run yet, and the waiters without one.
abbrev pub granted : List Waiter → ℕ
granted [] = 0
granted ((id, resolved) ∷ waiters) = suc (granted waiters)
granted ((id, fut) ∷ waiters) = granted waiters

abbrev pub asleep : List Waiter → ℕ
asleep [] = 0
asleep ((id, pending) ∷ waiters) = suc (asleep waiters)
asleep ((id, fut) ∷ waiters) = asleep waiters

-- No slot is given past a waiter that came earlier.
abbrev pub is_fair : List Waiter → Bool
is_fair [] = true
is_fair ((id, pending) ∷ waiters) = granted waiters == 0 && is_fair waiters
is_fair ((id, fut) ∷ waiters) = is_fair waiters

-- A free slot and a waiter without one: then somebody who will pass a slot on is awake.
abbrev pub Awake : ℕ → List Waiter → Type 0
Awake value waiters = 0 < value → 0 < asleep waiters → 0 < granted waiters

-- What waking the first waiter does.
abbrev pub IsResolved : List Waiter → Option (List Waiter) → Type 0
IsResolved waiters none = asleep waiters ≡ 0
IsResolved waiters (some after) =
    (granted after ≡ suc (granted waiters)) × (is_fair waiters ≡ true → is_fair after ≡ true)

resolve_first-IsResolved : (waiters : List Waiter) → IsResolved waiters (resolve_first waiters)
resolve_first-IsResolved [] = refl
resolve_first-IsResolved ((id, pending) ∷ waiters) = (refl, λ h. ground arith)
resolve_first-IsResolved ((id, resolved) ∷ waiters) =
    let rest = resolve_first-IsResolved waiters in
    elim (Option-cases (resolve_first waiters)) [
      | inl e ↦ rw e (rw e at rest)
      | inr (after, e) ↦ let (more, fair) = rw e at rest in rw e (omega arith, fair)
    ]
resolve_first-IsResolved ((id, cancelled) ∷ waiters) =
    let rest = resolve_first-IsResolved waiters in
    elim (Option-cases (resolve_first waiters)) [
      | inl e ↦ rw e (rw e at rest)
      | inr (after, e) ↦ let (more, fair) = rw e at rest in rw e (omega arith, fair)
    ]

-- The slots of the semaphore that are free or given to a waiter.
abbrev pub stock : Gate → ℕ
stock g = g.value + granted g.waiters

-- A step of the semaphore: it has so many slots, in order, with no waiter forgotten, and the turns are the
-- caller's to change.
abbrev pub IsMoved : Gate → (slots : ℕ) → Gate → Type 0
IsMoved g slots after =
    (stock after ≡ slots)
    × (is_fair g.waiters ≡ true → is_fair after.waiters ≡ true)
    × (after.waiting ≡ g.waiting)
    × (after.turns ≡ g.turns)

woken-IsMoved :
    (g : Gate) (resolution : Option (List Waiter))
    → IsResolved g.waiters resolution
    → 0 < g.value
    → IsMoved g (stock g) (woken g resolution)
      × Awake (woken g resolution).value (woken g resolution).waiters
woken-IsMoved g none none_left free = ((refl, λ h. h, refl, refl), λ v p. omega arith)
woken-IsMoved g (some after) (more, fair) free =
    ((omega arith, fair, refl, refl), λ v p. omega arith)

pub wake_up_next-IsMoved :
    (g : Gate)
    → 0 < g.value
    → IsMoved g (stock g) (wake_up_next g) × Awake (wake_up_next g).value (wake_up_next g).waiters
unfolding wake_up_next
wake_up_next-IsMoved g free =
    woken-IsMoved g (resolve_first g.waiters) (resolve_first-IsResolved g.waiters) free

pub release-IsMoved :
    (g : Gate) → IsMoved g (suc (stock g)) (release g) × Awake (release g).value (release g).waiters
unfolding release
release-IsMoved g =
    let added : Gate = record g { value = g.value + 1 } in
    let ((same, fair, waiting, turns), awake) = wake_up_next-IsMoved added (omega arith) in
    ((omega arith, fair, waiting, turns), awake)

pub any_live-none :
    (waiters : List Waiter)
    → any_live waiters ≡ false
    → (granted waiters ≡ 0) × (asleep waiters ≡ 0)
any_live-none [] h = (refl, refl)
any_live-none ((id, pending) ∷ waiters) h = cc
any_live-none ((id, resolved) ∷ waiters) h = cc
any_live-none ((id, cancelled) ∷ waiters) h = any_live-none waiters h

pub any_live-some :
    (waiters : List Waiter) → any_live waiters ≡ true → 0 < granted waiters + asleep waiters
any_live-some [] h = cc
any_live-some ((id, pending) ∷ waiters) h = omega arith
any_live-some ((id, resolved) ∷ waiters) h = omega arith
any_live-some ((id, cancelled) ∷ waiters) h = any_live-some waiters h

pub join-IsMoved :
    (i : ℕ) (waiters : List Waiter)
    → (granted (waiters ++ (i, pending) ∷ []) ≡ granted waiters)
      × (is_fair waiters ≡ true → is_fair (waiters ++ (i, pending) ∷ []) ≡ true)
join-IsMoved i [] = (refl, λ h. refl)
join-IsMoved i ((id, pending) ∷ waiters) =
    let (same, fair) = join-IsMoved i waiters in (omega arith, λ h. ground arith)
join-IsMoved i ((id, resolved) ∷ waiters) =
    let (same, fair) = join-IsMoved i waiters in (omega arith, fair)
join-IsMoved i ((id, cancelled) ∷ waiters) =
    let (same, fair) = join-IsMoved i waiters in (omega arith, fair)

-- A waiter that leaves the deque, with the slot that it was given.
abbrev pub IsRemoved : List Waiter → Fut → List Waiter → Type 0
IsRemoved waiters fut after =
    (granted after + is_resolved fut ≡ granted waiters)
    × (asleep after ≤ asleep waiters)
    × (is_fair waiters ≡ true → is_fair after ≡ true)

some_same : (f fut : Fut) → some f ≡ some fut → f ≡ fut
some_same f fut h = cc

first-IsRemoved :
    (id : ℕ) (fut : Fut) (waiters : List Waiter) → IsRemoved ((id, fut) ∷ waiters) fut waiters
first-IsRemoved id pending waiters = (omega arith, omega arith, λ h. ground arith)
first-IsRemoved id resolved waiters = (omega arith, omega arith, λ h. h)
first-IsRemoved id cancelled waiters = (omega arith, omega arith, λ h. h)

later-IsRemoved :
    (id : ℕ) (fut : Fut) (waiters : List Waiter) (gone : Fut) (after : List Waiter)
    → IsRemoved waiters gone after
    → IsRemoved ((id, fut) ∷ waiters) gone ((id, fut) ∷ after)
later-IsRemoved id pending waiters gone after (same, less, fair) =
    (omega arith, omega arith, λ h. ground arith)
later-IsRemoved id resolved waiters gone after (same, less, fair) = (omega arith, omega arith, fair)
later-IsRemoved id cancelled waiters gone after (same, less, fair) =
    (omega arith, omega arith, fair)

pub remove-IsRemoved :
    (i : ℕ) (waiters : List Waiter) (fut : Fut)
    → fut_of i waiters ≡ some fut
    → IsRemoved waiters fut (remove i waiters)
remove-IsRemoved i [] fut h = cc
remove-IsRemoved i ((id, f) ∷ waiters) fut h = elim (Bool-cases (id == i)) [
  | inl e ↦
      let same : f ≡ fut = some_same f fut (rw e at h) in
      rw e (rw (← same) (first-IsRemoved id f waiters))
  | inr e ↦ rw e (
      later-IsRemoved id f waiters fut (remove i waiters)
        (remove-IsRemoved i waiters fut (rw e at h)))
]

-- A deque with as many slots, no more waiters asleep, and in order.
abbrev pub IsKept : List Waiter → List Waiter → Type 0
IsKept waiters after =
    (granted after ≡ granted waiters)
    × (asleep after ≤ asleep waiters)
    × (is_fair waiters ≡ true → is_fair after ≡ true)

first-IsKept :
    (id : ℕ) (fut : Fut) (waiters : List Waiter)
    → IsKept ((id, fut) ∷ waiters) ((id, cancel_fut fut) ∷ waiters)
first-IsKept id pending waiters = (refl, omega arith, λ h. ground arith)
first-IsKept id resolved waiters = (refl, omega arith, λ h. h)
first-IsKept id cancelled waiters = (refl, omega arith, λ h. h)

later-IsKept :
    (id : ℕ) (fut : Fut) (waiters after : List Waiter)
    → IsKept waiters after
    → IsKept ((id, fut) ∷ waiters) ((id, fut) ∷ after)
later-IsKept id pending waiters after (same, less, fair) = (same, omega arith, λ h. ground arith)
later-IsKept id resolved waiters after (same, less, fair) = (omega arith, less, fair)
later-IsKept id cancelled waiters after (same, less, fair) = (same, less, fair)

pub cancel_at-IsKept : (i : ℕ) (waiters : List Waiter) → IsKept waiters (cancel_at i waiters)
cancel_at-IsKept i [] = (refl, omega arith, λ h. h)
cancel_at-IsKept i ((id, fut) ∷ waiters) = elim (Bool-cases (id == i)) [
  | inl e ↦ rw e (first-IsKept id fut waiters)
  | inr e ↦ rw e (later-IsKept id fut waiters (cancel_at i waiters) (cancel_at-IsKept i waiters))
]
