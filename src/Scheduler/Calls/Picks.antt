-- ===== src/Scheduler/Calls/Picks.antt =====
-- agent/scheduler.py: the jobs that the query of `tick` picks.
use mathlib.Core.List.{Memᴰ}
use ai_advent_challenge_9_v.Prelude.{
  ℕ, zero, suc, ◌≤◌, ◌≡◌, refl, ◌⊎◌, inl, inr, Bool, true, false, ◌&&◌, Option, none, some, List,
  [], ◌∷◌, arith, All, length, select, select-mem,
}
use ai_advent_challenge_9_v.Prelude.Sort.{sort_by, sort_by-IsSorted}
use ai_advent_challenge_9_v.Prelude.Ordered.{
  IsOrdered, IsSorted-IsOrdered, mem-select, sort_by-mem, mem-sort_by,
}
use ai_advent_challenge_9_v.Scheduler.Schedule.{Instant}
use ai_advent_challenge_9_v.Scheduler.Tables.{
  ScheduledTask, ScheduledTaskStatus, active, paused, completed, cancelled, is_active,
}
use ai_advent_challenge_9_v.Scheduler.Calls.{
  take, is_due, due_by, earlier, slot_before, tick_batch_limit,
}

pub length-take_le : {A : Type 0} (n : ℕ) (xs : List A) → length (take n xs) ≤ n
unfolding take
length-take_le zero xs = omega arith
length-take_le (suc n) [] = omega arith
length-take_le (suc n) (x ∷ xs) = let rest = length-take_le n xs in omega arith

module _ {A : Type 0} where
  take-mem : (n : ℕ) (xs : List A) (x : A) → Memᴰ x (take n xs) → Memᴰ x xs
  unfolding take
  take-mem zero xs x m = elim m [ ]
  take-mem (suc n) [] x m = m
  take-mem (suc n) (y ∷ ys) x (Memᴰ.head e) = Memᴰ.head e
  take-mem (suc n) (y ∷ ys) x (Memᴰ.tail m) = Memᴰ.tail (take-mem n ys x m)

  All-take : (p : A → Type 0) (n : ℕ) (xs : List A) → All p xs → All p (take n xs)
  unfolding take
  All-take p zero xs all = tt
  All-take p (suc n) [] all = tt
  All-take p (suc n) (x ∷ xs) all = (all.0, All-take p n xs all.1)

  take-IsOrdered :
      (relates : A → A → Type 0) (n : ℕ) (xs : List A)
      → IsOrdered relates xs
      → IsOrdered relates (take n xs)
  unfolding take
  take-IsOrdered relates zero xs ordered = tt
  take-IsOrdered relates (suc n) [] ordered = tt
  take-IsOrdered relates (suc n) (x ∷ xs) ordered =
      (All-take (relates x) n xs ordered.0, take-IsOrdered relates n xs ordered.1)

  All-mem : (p : A → Type 0) (xs : List A) (x : A) → All p xs → Memᴰ x xs → p x
  All-mem p [] x all m = elim m [ ]
  All-mem p (y ∷ ys) x all (Memᴰ.head e) = rw e all.0
  All-mem p (y ∷ ys) x all (Memᴰ.tail m) = All-mem p ys x all.1 m

  -- What the front of an ordered list leaves out stands behind all of it, and the front is full.
  left_out :
      (relates : A → A → Type 0) (n : ℕ) (xs : List A) (x : A)
      → IsOrdered relates xs
      → Memᴰ x xs
      → Memᴰ x (take n xs)
        ⊎ ((length (take n xs) ≡ n) × ((y : A) → Memᴰ y (take n xs) → relates y x))
  unfolding take
  left_out relates zero xs x ordered m = inr (refl, λ y m'. elim m' [ ])
  left_out relates (suc n) [] x ordered m = elim m [ ]
  left_out relates (suc n) (z ∷ zs) x ordered (Memᴰ.head e) = inl (Memᴰ.head e)
  left_out relates (suc n) (z ∷ zs) x ordered (Memᴰ.tail m) =
      elim (left_out relates n zs x ordered.1 m) [
        | inl there ↦ inl (Memᴰ.tail there)
        | inr (full, behind) ↦ inr (
          omega arith,
          λ y m'. elim m' [
            | Memᴰ.head e ↦ rw e (All-mem (relates z) zs x ordered.0 m)
            | Memᴰ.tail m'' ↦ behind y m''
          ],
        )
      ]

-- A job to run now: it is active, and its slot has come.
abbrev pub IsDue : Instant → ScheduledTask → Type 0
IsDue now t = (t.status ≡ active) × ((slot : Instant) × (t.next_run_at ≡ some slot) × (slot ≤ now))

-- The slot of `u` is not before that of `t`.
abbrev pub FiresUpTo : ScheduledTask → ScheduledTask → Type 0
FiresUpTo t u = (a b : Instant) → t.next_run_at ≡ some a → u.next_run_at ≡ some b → a ≤ b

-- At most TICK_BATCH_LIMIT of the table's due jobs, in the order of their slots; and a due job is
-- left out only when the batch is full and no job of it has a later slot.
abbrev pub IsBatch : Instant → List ScheduledTask → List ScheduledTask → Type 0
IsBatch now tasks picked =
    ((t : ScheduledTask) → Memᴰ t picked → Memᴰ t tasks × IsDue now t)
    × (length picked ≤ tick_batch_limit)
    × IsOrdered FiresUpTo picked
    × ((t : ScheduledTask)
        → Memᴰ t tasks
        → IsDue now t
        → Memᴰ t picked
          ⊎ ((length picked ≡ tick_batch_limit)
              × ((u : ScheduledTask) → Memᴰ u picked → FiresUpTo u t)))

both : (a b : Bool) → (a && b) ≡ true → (a ≡ true) × (b ≡ true)
both true b h = (refl, h)
both false b h = cc

due_by-slot :
    (now : Instant) (o : Option Instant)
    → due_by now o ≡ true
    → (slot : Instant) × (o ≡ some slot) × (slot ≤ now)
due_by-slot now none h = cc
due_by-slot now (some slot) h = (slot, refl, ground arith)

is_active-eq : (status : ScheduledTaskStatus) → is_active status ≡ true → status ≡ active
is_active-eq active h = refl
is_active-eq paused h = cc
is_active-eq completed h = cc
is_active-eq cancelled h = cc

is_due-IsDue : (now : Instant) (t : ScheduledTask) → is_due now t ≡ true → IsDue now t
is_due-IsDue now t h =
    let (runs, comes) = both (is_active t.status) (due_by now t.next_run_at) h in
    (is_active-eq t.status runs, due_by-slot now t.next_run_at comes)

IsDue-is_due : (now : Instant) (t : ScheduledTask) → IsDue now t → is_due now t ≡ true
IsDue-is_due now t (runs, (slot, at, le)) = rw runs (rw at (ground arith))

earlier_trans :
    (a b c : Option Instant) → earlier b a ≡ false → earlier c b ≡ false → earlier c a ≡ false
earlier_trans none b c h h' = refl
earlier_trans (some a) none c h h' = cc
earlier_trans (some a) (some b) none h h' = cc
earlier_trans (some a) (some b) (some c) h h' = ground arith

earlier_asym : (a b : Option Instant) → earlier a b ≡ true → earlier b a ≡ false
earlier_asym a none h = cc
earlier_asym none (some b) h = refl
earlier_asym (some a) (some b) h = ground arith

slot_before-FiresUpTo : (t u : ScheduledTask) → slot_before u t ≡ false → FiresUpTo t u
slot_before-FiresUpTo t u h a b at at' = let late = rw at at (rw at' at h) in ground arith

abbrev pub picks : Instant → List ScheduledTask → List ScheduledTask
picks now tasks = take tick_batch_limit (sort_by slot_before (select (is_due now) tasks))

pub picks-IsBatch :
    (now : Instant) (tasks : List ScheduledTask) → IsBatch now tasks (picks now tasks)
picks-IsBatch now tasks =
    let due = select (is_due now) tasks in
    let sorted = sort_by slot_before due in
    let ordered = IsSorted-IsOrdered slot_before FiresUpTo slot_before-FiresUpTo sorted (
      sort_by-IsSorted slot_before
        (λ t u v. earlier_trans t.next_run_at u.next_run_at v.next_run_at)
        (λ t u. earlier_asym t.next_run_at u.next_run_at) due) in
    (
      λ t m.
          let (there, now_due) =
            select-mem (is_due now) tasks t
              (sort_by-mem slot_before due t (take-mem tick_batch_limit sorted t m)) in
          (there, is_due-IsDue now t now_due),
      length-take_le tick_batch_limit sorted,
      take-IsOrdered FiresUpTo tick_batch_limit sorted ordered,
      λ t m now_due. left_out FiresUpTo tick_batch_limit sorted t ordered (
          mem-sort_by slot_before due t
            (mem-select (is_due now) tasks t m (IsDue-is_due now t now_due))),
    )
