-- ===== src/Scheduler/Listing/Order.antt =====
-- agent/scheduler_ops.py: which jobs list_scheduled_tasks answers, and in which order.
use mathlib.Core.List.{Perm}
use mathlib.Core.List.Perm
use ai_advent_challenge_9_v.Prelude.{
  ◌≤◌, ◌<◌, ◌≡◌, ◌⊎◌, Bool, true, not, ◌&&◌, ◌||◌, Option, none, some, List,
}
use ai_advent_challenge_9_v.Scheduler.Schedule.{Instant}
use ai_advent_challenge_9_v.Scheduler.Tables.{
  ScheduledTask, ScheduledTaskStatus, active, paused, completed, cancelled, is_set,
}
use ai_advent_challenge_9_v.Scheduler.Listing.{newer, rank, slot_or_zero, key_before}

-- A job that can still run: it is active or paused.
abbrev pub IsRunnable : ScheduledTaskStatus → Type 0
IsRunnable status = (status ≡ active) ⊎ (status ≡ paused)

abbrev IsEnded : ScheduledTaskStatus → Type 0
IsEnded status = (status ≡ completed) ⊎ (status ≡ cancelled)

-- By the next slot, none of them last, and of one slot the newer one first.
abbrev pub FiresFirst : ScheduledTask → ScheduledTask → Option Instant → Option Instant → Type 0
FiresFirst t u (some a) (some b) = (a < b) ⊎ ((a ≡ b) × (u.created_at ≤ t.created_at))
FiresFirst t u (some a) none = Unit
FiresFirst t u none (some b) = ⊥
FiresFirst t u none none = u.created_at ≤ t.created_at

-- A runnable job stands before an ended one, and otherwise the one that fires first.
abbrev pub IsListedBefore : ScheduledTask → ScheduledTask → Type 0
IsListedBefore t u =
    (IsRunnable t.status × IsEnded u.status)
    ⊎ (((IsRunnable t.status × IsRunnable u.status) ⊎ (IsEnded t.status × IsEnded u.status))
        × FiresFirst t u t.next_run_at u.next_run_at)

abbrev pub IsWanted : Option (ScheduledTaskStatus → Bool) → ScheduledTaskStatus → Type 0
IsWanted none status = Unit
IsWanted (some statuses) status = statuses status ≡ true

abbrev lexical_of : ScheduledTask → ScheduledTask → Option Instant → Option Instant → Bool
lexical_of t u a b =
    let t_first =
      key_before 0 (rank (not (is_set a))) (slot_or_zero a) 0 (rank (not (is_set b)))
        (slot_or_zero b) in
    let u_first =
      key_before 0 (rank (not (is_set b))) (slot_or_zero b) 0 (rank (not (is_set a)))
        (slot_or_zero a) in
    u_first || (not t_first && newer u t)
