-- ===== src/Scheduler/Service/Claims.antt =====
-- agent/scheduler.py: claim_slot takes a slot once.
use ai_advent_challenge_9_v.Prelude.{
  ℕ, ◌≤◌, ◌<◌, ◌≡◌, refl, ◌≢◌, inl, inr, Bool, false, Option, none, some, arith, Option-cases,
}
use ai_advent_challenge_9_v.Scheduler.Schedule.{Calendar, Instant, next_run_after_claim}
use ai_advent_challenge_9_v.Scheduler.Schedule.Errors.{Checked, ok, invalid}
use ai_advent_challenge_9_v.Scheduler.Schedule.Slots.{next_run_after_claim-lt}
use ai_advent_challenge_9_v.Scheduler.Tables.{
  ScheduledTask, TaskRun, Db, Env, has_running_run, rowcount, update_where, insert_run,
}
use ai_advent_challenge_9_v.Scheduler.Service.{
  Claim, no_claim, claimed, claimable, slot_after, take_slot, claimed_run, claim_transaction,
  claim_checked, claim_old, claim_slot,
}
use ai_advent_challenge_9_v.Scheduler.Service.Rows.{rowcount-update_where}

-- Nothing was claimed and nothing changed.
abbrev pub IsRefused : Db → Claim × Db → Type 0
IsRefused db (outcome, after) = ((run : TaskRun) → outcome ≢ claimed run) × (after ≡ db)

claim_transaction-claimed :
    (env : Env) (threshold : ℕ) (task : ScheduledTask) (old_next now : Instant) (overlap : Bool)
    (new_next : Option Instant) (db : Db) (run : TaskRun)
    → (claim_transaction env threshold task old_next now overlap new_next db).0 ≡ claimed run
    → (claim_transaction env threshold task old_next now overlap new_next db).1.tasks
      ≡ update_where
          (claimable task.id old_next)
          (take_slot overlap (slot_after task overlap new_next) now)
          db.tasks
unfolding claim_transaction
claim_transaction-claimed env threshold task old_next now overlap new_next db run h =
    elim (Option-cases (insert_run (claimed_run env threshold task old_next now overlap) db.runs)) [
      | inl busy ↦ ground arith
      | inr (runs, free) ↦ ground arith
    ]

claim_transaction_refused :
    (env : Env) (threshold : ℕ) (task : ScheduledTask) (old_next now : Instant) (overlap : Bool)
    (new_next : Option Instant) (db : Db)
    → rowcount (claimable task.id old_next) db.tasks ≡ 0
    → claim_transaction env threshold task old_next now overlap new_next db ≡ (no_claim, db)
unfolding claim_transaction
claim_transaction_refused env threshold task old_next now overlap new_next db gone = ground arith

-- A later slot, or none, is not the old one.
abbrev IsLater : Instant → Option Instant → Type 0
IsLater now none = Unit
IsLater now (some slot) = now < slot

claimable-take_slot :
    (task : ScheduledTask) (old_next now : Instant) (overlap : Bool) (new_next : Option Instant)
    → old_next ≤ now
    → IsLater now new_next
    → (t : ScheduledTask)
    → claimable task.id old_next (take_slot overlap (slot_after task overlap new_next) now t)
      ≡ false
claimable-take_slot task old_next now overlap none due later t = ground arith
claimable-take_slot task old_next now overlap (some slot) due later t = ground arith

module _ (calendar : Calendar) where
  claim_checked-IsRefused :
      (env : Env) (threshold : ℕ) (task : ScheduledTask) (old_next now : Instant) (overlap : Bool)
      (next : Checked (Option Instant)) (db : Db)
      → rowcount (claimable task.id old_next) db.tasks ≡ 0
      → IsRefused db (claim_checked env threshold task old_next now overlap next db)
  unfolding claim_checked
  claim_checked-IsRefused env threshold task old_next now overlap (invalid e) db gone =
      (λ run h. cc, refl)
  claim_checked-IsRefused env threshold task old_next now overlap (ok new_next) db gone =
      rw (claim_transaction_refused env threshold task old_next now overlap new_next db gone)
        (λ run h. cc, refl)

  next-IsLater :
      (task : ScheduledTask) (old_next now : Instant) (next : Option Instant)
      → task.interval_seconds ≢ some 0
      → next_run_after_claim calendar task.schedule_type old_next now task.interval_seconds
          task.cron_expr
        ≡ ok next
      → IsLater now next
  next-IsLater task old_next now none positive h = tt
  next-IsLater task old_next now (some slot) positive h =
      next_run_after_claim-lt calendar task.schedule_type old_next now task.interval_seconds
        task.cron_expr slot positive h

  -- After a claim no row answers to the old slot.
  claim_checked-gone :
      (env : Env) (threshold : ℕ) (task : ScheduledTask) (old_next now : Instant) (overlap : Bool)
      (next : Checked (Option Instant)) (db : Db) (run : TaskRun)
      → next_run_after_claim calendar task.schedule_type old_next now task.interval_seconds
          task.cron_expr
        ≡ next
      → task.interval_seconds ≢ some 0
      → old_next ≤ now
      → (claim_checked env threshold task old_next now overlap next db).0 ≡ claimed run
      → rowcount
          (claimable task.id old_next)
          (claim_checked env threshold task old_next now overlap next db).1.tasks
        ≡ 0
  unfolding claim_checked
  claim_checked-gone env threshold task old_next now overlap (invalid e) db run named positive due
        h =
      cc
  claim_checked-gone env threshold task old_next now overlap (ok next) db run named positive due h =
      rw (claim_transaction-claimed env threshold task old_next now overlap next db run h) (
        rowcount-update_where (claimable task.id old_next)
          (take_slot overlap (slot_after task overlap next) now)
          (claimable-take_slot task old_next now overlap next due
            (next-IsLater task old_next now next positive named))
          db.tasks)

  claim_old-IsRefused_after :
      (env env' : Env) (threshold : ℕ) (task : ScheduledTask) (old : Option Instant)
      (now now' : Instant) (seen db seen' : Db) (run : TaskRun)
      → task.interval_seconds ≢ some 0
      → ((old_next : Instant) → old ≡ some old_next → old_next ≤ now)
      → (claim_old calendar env threshold task old now seen db).0 ≡ claimed run
      → let after = (claim_old calendar env threshold task old now seen db).1 in
        IsRefused after (claim_old calendar env' threshold task old now' seen' after)
  unfolding claim_old
  claim_old-IsRefused_after env env' threshold task none now now' seen db seen' run positive due h =
      cc
  claim_old-IsRefused_after env env' threshold task (some old_next) now now' seen db seen' run
        positive due h =
      claim_checked-IsRefused env' threshold task old_next now' (has_running_run task.id seen'.runs)
        (next_run_after_claim calendar task.schedule_type old_next now' task.interval_seconds
          task.cron_expr)
        _
        (claim_checked-gone env threshold task old_next now (has_running_run task.id seen.runs) _ db
          run refl positive (due old_next refl) h)

  -- A due slot is claimed at most once: when a caller's copy of the row has won the slot, a second
  -- claim from the same copy, at any time and whatever it saw of the runs, gets no run and changes
  -- nothing. The interval of the row is not zero.
  pub claim_slot-exclusive :
      (env env' : Env) (threshold : ℕ) (task : ScheduledTask) (now now' : Instant)
      (seen db seen' : Db) (run : TaskRun)
      → task.interval_seconds ≢ some 0
      → ((old_next : Instant) → task.next_run_at ≡ some old_next → old_next ≤ now)
      → (claim_slot calendar env threshold task now seen db).0 ≡ claimed run
      → let after = (claim_slot calendar env threshold task now seen db).1 in
        IsRefused after (claim_slot calendar env' threshold task now' seen' after)
  unfolding claim_slot
  claim_slot-exclusive env env' threshold task now now' seen db seen' run positive due h =
      claim_old-IsRefused_after env env' threshold task task.next_run_at now now' seen db seen' run
        positive due h
