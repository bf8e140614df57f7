-- ===== src/Limits/Throttle/Attempts.antt =====
-- agent/limits.py: how many guesses a (username, client IP) pair gets within a lockout period.
use ai_advent_challenge_9_v.Prelude.{
  ℕ, zero, suc, ◌+◌, ◌-◌, ◌*◌, ◌≤◌, ◌<◌, ◌≡◌, refl, sym, ◌∙◌, Bool, false, Option, none, some, List,
  [], ◌∷◌, leb, if◌then◌else◌, length, arith, Bool-cases, Option-cases, inl, inr, All, ◌⊎◌,
}
use Prim.Native.Nat.{max}
use mathlib.Core.Path.{subst}
use ai_advent_challenge_9_v.Limits.Clock.{second, ceil_seconds}
use ai_advent_challenge_9_v.Limits.Throttle.{
  Key, same_key, Entry, Entries, LoginSettings, get, put, is_expired, max_entries, record_failure,
  failed_entry, counted, register_attempt, blocked_seconds, refuses_pair, attempt_unblocked, Call,
  attempt, reset, clear, perform,
}
use ai_advent_challenge_9_v.Limits.Throttle.Table.{same_key_refl, same_key-eq, get-put}
use ai_advent_challenge_9_v.Limits.Throttle.Others.{
  IsLive, get-remove_other, register_attempt_other, length-perform-le,
}
use ai_advent_challenge_9_v.Limits.Throttle.Evict.{evict-keeps_current}

-- 1 for an answer that lets the login handler check the password.
abbrev pub let_through : Option ℕ × Bool → ℕ
let_through (none, started) = 1
let_through (some wait, started) = 0

module _ (settings : LoginSettings) (k : Key) (t0 : ℕ) where
  abbrev pub period_end : ℕ
  period_end = t0 + settings.lockout_seconds * second

  -- `b` more guesses are left to the pair in this period.
  abbrev IsLeft : ℕ → Option Entry → Type 0
  IsLeft b none = b ≡ settings.max_failed_attempts
  IsLeft b (some e) =
      ((e.blocked_until ≡ 0) × (e.failures + b ≡ settings.max_failed_attempts) × (0 < b))
      ⊎ ((period_end ≤ e.blocked_until) × (b ≡ 0))

  -- A reading of the clock within the period.
  abbrev pub InPeriod : ℕ → Type 0
  InPeriod now = (t0 ≤ now) × (now < period_end)

  IsLeft-IsLive : (b now : ℕ) (o : Option Entry) → InPeriod now → IsLeft b o → IsLive now o
  IsLeft-IsLive b now none period left = tt
  IsLeft-IsLive b now (some e) period left = ground arith

  -- One more failure takes one guess, and the entry is not expired.
  failed-IsLeft :
      (b now : ℕ) (o : Option Entry)
      → InPeriod now
      → IsLeft (suc b) o
      → IsLeft b (some (failed_entry settings now (counted now o)))
        × (is_expired now (failed_entry settings now (counted now o)) ≡ false)
  failed-IsLeft b now none period left = ground arith
  failed-IsLeft b now (some e) period left = ground arith

  module _ (now : ℕ) (entries : Entries) (period : InPeriod now)
      (active : 0 < settings.max_failed_attempts) where
    record_failure_self :
        (b : ℕ)
        → IsLeft (suc b) (get k entries)
        → IsLeft b (get k (record_failure settings now k entries).1)
    unfolding record_failure
    record_failure_self b left =
        let e = failed_entry settings now (counted now (get k entries)) in
        let (left', live) = failed-IsLeft b now (get k entries) period left in
        let on : leb settings.max_failed_attempts 0 ≡ false = ground arith in
        let stored : get k (put k e entries) ≡ some e =
          get-put k k e entries ∙ (rw (same_key_refl k)) in
        rw on (rw (evict-keeps_current k now (put k e entries) e live stored) left')

    blocked_seconds_blocked :
        (e : Entry)
        → get k entries ≡ some e
        → now < e.blocked_until
        → (wait : ℕ) × (blocked_seconds settings now k entries ≡ (some wait, entries))
    unfolding blocked_seconds
    blocked_seconds_blocked e found blocked =
        (max 1 (ceil_seconds (e.blocked_until - now)), ground arith)

    blocked_seconds_open :
        (b : ℕ)
        → IsLeft (suc b) (get k entries)
        → blocked_seconds settings now k entries ≡ (none, entries)
    unfolding blocked_seconds
    blocked_seconds_open b left = ground arith

  -- After a call the pair has as many guesses left as before, less the one that it let through.
  abbrev Spends : ℕ → (Option ℕ × Bool) × Entries → Type 0
  Spends b (answer, entries) = (b' : ℕ) × IsLeft b' (get k entries) × (let_through answer + b' ≡ b)

  attempt_unblocked-Spends :
      (b now : ℕ) (entries : Entries)
      → InPeriod now
      → 0 < settings.max_failed_attempts
      → IsLeft (suc b) (get k entries)
      → Spends (suc b) (attempt_unblocked settings now k (none, entries))
  attempt_unblocked-Spends b now entries period active left =
      elim (Bool-cases (refuses_pair settings k entries)) [
        | inl full ↦ rw full (suc b, left, omega arith)
        | inr free ↦ rw free (b, record_failure_self now entries period active b left, omega arith)
      ]

  register_attempt-Spends :
      (b now now' : ℕ) (entries : Entries)
      → InPeriod now
      → InPeriod now'
      → 0 < settings.max_failed_attempts
      → IsLeft b (get k entries)
      → Spends b (register_attempt settings now now' k entries)
  unfolding register_attempt
  register_attempt-Spends zero now now' entries period period' active left =
      elim (Option-cases (get k entries)) [
        | inl absent ↦ absurd (omega (arith, subst (IsLeft 0) absent left))
        | inr (e, found) ↦
            let left' = subst (IsLeft 0) found left in
            let blocked : now < e.blocked_until = ground arith in
            let (wait, same) = blocked_seconds_blocked now entries period active e found blocked in
            rw same (0, left, omega arith)
      ]
  register_attempt-Spends (suc b) now now' entries period period' active left =
      rw (blocked_seconds_open now entries period active b left)
        (attempt_unblocked-Spends b now' entries period' active left)

  -- The guesses that a call, and a sequence of calls, let the pair make.
  abbrev guess_now : Call → Entries → ℕ
  guess_now (attempt now now' j) entries =
      if same_key j k then let_through (register_attempt settings now now' j entries).0 else 0
  guess_now _ entries = 0

  abbrev pub guesses : List Call → Entries → ℕ
  guesses [] entries = 0
  guesses (call ∷ calls) entries =
      guess_now call entries + guesses calls (perform settings call entries)

  -- Attempts of any pairs within the period, and logins of other pairs.
  abbrev pub IsAllowed : Call → Type 0
  IsAllowed (attempt now now' j) = InPeriod now × InPeriod now'
  IsAllowed (reset j) = same_key j k ≡ false
  IsAllowed clear = ⊥

  perform-IsLeft :
      (call : Call) (b : ℕ) (entries : Entries)
      → 0 < settings.max_failed_attempts
      → IsAllowed call
      → suc (length entries) ≤ max_entries
      → IsLeft b (get k entries)
      → (b' : ℕ) × IsLeft b' (get k (perform settings call entries))
        × (guess_now call entries + b' ≡ b)
  unfolding perform
  perform-IsLeft (attempt now now' j) b entries active allowed small left =
      elim (Bool-cases (same_key j k)) [
        | inl own ↦ rw own (
            subst
              (λ i.
                (b' : ℕ) × IsLeft b' (get k (register_attempt settings now now' i entries).1)
                × (let_through (register_attempt settings now now' i entries).0 + b' ≡ b))
              (sym (same_key-eq j k own))
              (register_attempt-Spends b now now' entries allowed.0 allowed.1 active left))
        | inr other ↦ rw other (
          b,
          rw
              (register_attempt_other settings now now' j k entries other
                (IsLeft-IsLive b now' (get k entries) allowed.1 left) small)
              left,
          omega arith,
        )
      ]
  perform-IsLeft (reset j) b entries active allowed small left =
      (b, rw (get-remove_other j k entries allowed) left, omega arith)
  perform-IsLeft clear b entries active allowed small left = elim allowed [ ]

  guesses-le :
      (calls : List Call) (b : ℕ) (entries : Entries)
      → 0 < settings.max_failed_attempts
      → All IsAllowed calls
      → length entries + length calls ≤ max_entries
      → IsLeft b (get k entries)
      → guesses calls entries ≤ b
  guesses-le [] b entries active allowed small left = omega arith
  guesses-le (call ∷ calls) b entries active allowed small left =
      let (b', left', spent) = perform-IsLeft call b entries active allowed.0 (omega arith) left in
      omega (
        arith,
        guesses-le calls b' (perform settings call entries) active allowed.1
            (omega (arith, length-perform-le settings call entries)) left',
      )

  -- A pair with no failures on record at the start gets at most LOGIN_MAX_FAILED_ATTEMPTS guesses in
  -- a period as long as the lockout, in which it does not log in itself and the table is not
  -- cleared, whatever attempts of this and other pairs and logins of others the period brings and in
  -- whatever order, as long as these calls cannot fill the table.
  pub guesses-le_max_failed :
      (calls : List Call) (entries : Entries)
      → 0 < settings.max_failed_attempts
      → get k entries ≡ none
      → All IsAllowed calls
      → length entries + length calls ≤ max_entries
      → guesses calls entries ≤ settings.max_failed_attempts
  guesses-le_max_failed calls entries active clean allowed small =
      guesses-le calls settings.max_failed_attempts entries active allowed small (rw clean refl)
