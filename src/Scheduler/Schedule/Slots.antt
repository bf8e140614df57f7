-- ===== src/Scheduler/Schedule/Slots.antt =====
-- agent/schedule.py: the slots that are computed lie in the future, on the job's cadence.
use ai_advent_challenge_9_v.Prelude.{
  ℕ, zero, suc, ◌+◌, ◌-◌, ◌*◌, ◌/◌, ◌≤◌, ◌<◌, ◌≡◌, ◌≢◌, ◌⊎◌, Option, none, some, arith, ltb,
  Bool-cases, Option-cases, inl, inr,
}
use ai_advent_challenge_9_v.Strings.{Text}
use ai_advent_challenge_9_v.Scheduler.Schedule.Errors.{ok, >>=-eq-ok}
use ai_advent_challenge_9_v.Scheduler.Schedule.{
  ScheduleType, once, interval, cron, Instant, second, last_instant, Calendar, next_interval_run,
  next_cron_from, next_cron_run, next_run_after_claim,
}

-- A slot on the anchor's cadence: the anchor and a whole number of intervals.
abbrev pub OnCadence : Instant → ℕ → Instant → Type 0
OnCadence anchor seconds slot = (k : ℕ) × (slot ≡ anchor + k * (seconds * second))

-- The first slot on the cadence after `now`: it lies after `now`, and the one before does not.
pub record IsNextSlot (anchor : Instant) (seconds : ℕ) (now slot : Instant) : Type 0 where
  pub after : now < slot
  pub on_cadence : OnCadence anchor seconds slot
  pub first : (slot ≡ anchor) ⊎ (slot ≤ now + seconds * second)
  pub in_range : (slot ≡ anchor) ⊎ (slot ≤ last_instant)

-- A whole number of periods past `d`, and the least such.
next_multiple :
    (d seconds : ℕ)
    → 0 < seconds
    → let steps = d / (seconds * second) + 1 in
      (seconds * steps * second ≡ steps * (seconds * second))
      × (d < steps * (seconds * second))
      × (steps * (seconds * second) ≤ d + seconds * second)
next_multiple d seconds positive = (grind arith, grind arith, grind arith)

-- A slot that next_interval_run returns for a positive interval is the first one after `now` on the
-- anchor's cadence, however long the server was off: the anchor itself while that lies ahead.
pub next_interval_run-IsNextSlot :
    (anchor : Instant) (seconds : ℕ) (now slot : Instant)
    → 0 < seconds
    → next_interval_run anchor seconds now ≡ ok slot
    → IsNextSlot anchor seconds now slot
unfolding next_interval_run
next_interval_run-IsNextSlot anchor seconds now slot positive h =
    elim (Bool-cases (ltb now anchor)) [
      | inl ahead ↦ record {
        after = ground arith;
        on_cadence = (0, ground arith);
        first = inl (ground arith);
        in_range = inl (ground arith);
      }
      | inr passed ↦
          let steps = (now - anchor) / (seconds * second) in
          let (regrouped, past, near) = next_multiple (now - anchor) seconds positive in
          let passed' : anchor ≤ now = ground arith in
          let slot_is : slot ≡ anchor + seconds * (steps + 1) * second = ground arith in
          record {
            after = omega arith;
            on_cadence = (steps + 1, omega arith);
            first = inr (omega arith);
            in_range = inr (ground arith);
          }
    ]

module _ (calendar : Calendar) where
  next_cron_from-lt :
      (rounds : ℕ) (expr : Text) (after : Instant) (cursor slot : ℕ)
      → next_cron_from calendar rounds expr after cursor ≡ ok slot
      → after < slot
  unfolding next_cron_from
  next_cron_from-lt zero expr after cursor slot h = cc
  next_cron_from-lt (suc rounds) expr after cursor slot h =
      elim (Option-cases (calendar.cron_next expr cursor)) [
        | inl no_match ↦ ground arith
        | inr (local_next, found) ↦
            ground (arith, next_cron_from-lt rounds expr after local_next slot)
      ]

  pub next_cron_run-lt :
      (expr : Text) (after slot : Instant)
      → next_cron_run calendar expr after ≡ ok slot
      → after < slot
  unfolding next_cron_run
  next_cron_run-lt expr after slot h = elim (Option-cases (calendar.to_local after)) [
    | inl overflow ↦ ground arith
    | inr (cursor, found) ↦ ground (arith, next_cron_from-lt 1000 expr after cursor slot)
  ]

  -- The slot that follows a claim lies after the claim, whatever the old slot was and for every
  -- kind of schedule: no slot is caught up. An interval of zero is excluded.
  pub next_run_after_claim-lt :
      (kind : ScheduleType) (old_next now : Instant) (seconds : Option ℕ) (expr : Option Text)
      (slot : Instant)
      → seconds ≢ some 0
      → next_run_after_claim calendar kind old_next now seconds expr ≡ ok (some slot)
      → now < slot
  unfolding next_run_after_claim
  next_run_after_claim-lt once old_next now seconds expr slot positive h = cc
  next_run_after_claim-lt interval old_next now none expr slot positive h = cc
  next_run_after_claim-lt interval old_next now (some seconds) expr slot positive h =
      let (slot', found, same) =
        >>=-eq-ok (next_interval_run old_next seconds now) (λ s. ok (some s)) h in
      let positive' : 0 < seconds = ground (arith, positive) in
      let next = next_interval_run-IsNextSlot old_next seconds now slot' positive' found in
      ground (arith, next.after)
  next_run_after_claim-lt cron old_next now seconds none slot positive h = cc
  next_run_after_claim-lt cron old_next now seconds (some expr) slot positive h =
      let (slot', found, same) = >>=-eq-ok (next_cron_run calendar expr now) (λ s. ok (some s)) h in
      ground (arith, next_cron_run-lt expr now slot' found)
