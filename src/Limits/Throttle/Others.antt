-- ===== src/Limits/Throttle/Others.antt =====
-- agent/limits.py: what the attempts of other pairs leave of a pair's entry.
use ai_advent_challenge_9_v.Prelude.{
  ℕ, zero, suc, ◌≤◌, ◌≡◌, refl, sym, ap, ◌∙◌, false, not, Option, none, some, ltb, leb, ltb→lt,
  length, select, arith, Bool-cases, Option-cases, inl, inr, length-select-le,
}
use native.Mathlib.Nat.{le_trans}
use mathlib.Core.Path.{subst}
use ai_advent_challenge_9_v.Limits.Throttle.{
  Key, same_key, Entry, Entries, LoginSettings, get, put, is_other, remove, is_expired, evict_loop,
  evict, max_entries, record_failure, failed_entry, counted, register_attempt, blocked_seconds,
  refuses_pair, attempt_unblocked, Call, attempt, reset, clear, perform,
}
use ai_advent_challenge_9_v.Limits.Throttle.Table.{
  same_key_symm_false, get-select, get-select_absent, get-put, length-put-le,
}
use ai_advent_challenge_9_v.Limits.Throttle.Evict.{evict_keeps}

-- The entry, if there is one, has no block that has ended by `now`.
abbrev pub IsLive : ℕ → Option Entry → Type 0
IsLive now none = Unit
IsLive now (some e) = is_expired now e ≡ false

evict_loop_within :
    (fuel : ℕ) (current : Key) (now : ℕ) (entries : Entries)
    → length entries ≤ max_entries
    → evict_loop fuel current now entries ≡ entries
unfolding evict_loop
evict_loop_within zero current now entries small = refl
evict_loop_within (suc fuel) current now entries small =
    elim (Bool-cases (ltb max_entries (length entries))) [
      | inl over ↦ absurd (omega (arith, ltb→lt _ _ over))
      | inr within ↦ rw within
    ]

-- In a table that is not over the bound, an eviction keeps what is live.
get-evict :
    (k current : Key) (now : ℕ) (entries : Entries)
    → IsLive now (get k entries)
    → length entries ≤ max_entries
    → get k (evict current now entries) ≡ get k entries
unfolding evict
get-evict k current now entries live small =
    let unexpired = λ (item : Key × Entry). not (is_expired now item.1) in
    rw
      (evict_loop_within _ current now (select unexpired entries)
        (omega (arith, length-select-le unexpired entries)))
      (elim (Option-cases (get k entries)) [
        | inl absent ↦ get-select_absent unexpired k entries absent ∙ sym absent
        | inr (e, found) ↦
            get-select unexpired k e entries (ap not (subst (IsLive now) found live)) found
            ∙ sym found
      ])

pub get-remove_other :
    (j k : Key) (entries : Entries)
    → same_key j k ≡ false
    → get k (remove j entries) ≡ get k entries
get-remove_other j k entries other = elim (Option-cases (get k entries)) [
  | inl absent ↦ get-select_absent (is_other j) k entries absent ∙ sym absent
  | inr (e, found) ↦
      get-select (is_other j) k e entries (ap not (same_key_symm_false j k other)) found ∙ sym found
]

module _ (settings : LoginSettings) (now : ℕ) (j : Key) (entries : Entries) where
  length-record_failure-le : length (record_failure settings now j entries).1 ≤ suc (length entries)
  unfolding record_failure
  length-record_failure-le = elim (Bool-cases (leb settings.max_failed_attempts 0)) [
    | inl off ↦ rw off (omega arith)
    | inr active ↦
        let e = failed_entry settings now (counted now (get j entries)) in
        rw active (
          evict_keeps j now (λ items. length items ≤ suc (length entries))
            (λ p items h. le_trans (length-select-le p items) h) (put j e entries)
            (length-put-le j e entries))
  ]

  length-blocked_seconds-le : length (blocked_seconds settings now j entries).1 ≤ length entries
  unfolding blocked_seconds
  length-blocked_seconds-le = ground (arith, length-select-le (is_other j) entries)

  record_failure_other :
      (k : Key)
      → same_key j k ≡ false
      → IsLive now (get k entries)
      → suc (length entries) ≤ max_entries
      → get k (record_failure settings now j entries).1 ≡ get k entries
  unfolding record_failure
  record_failure_other k other live small = elim (Bool-cases (leb settings.max_failed_attempts 0)) [
    | inl off ↦ rw off
    | inr active ↦
        let e = failed_entry settings now (counted now (get j entries)) in
        let same : get k (put j e entries) ≡ get k entries = get-put k j e entries ∙ (rw other) in
        rw active (
          get-evict k j now (put j e entries) (subst (IsLive now) (sym same) live)
            (omega (arith, length-put-le j e entries))
          ∙ same)
  ]

  blocked_seconds_other :
      (k : Key)
      → same_key j k ≡ false
      → get k (blocked_seconds settings now j entries).1 ≡ get k entries
  unfolding blocked_seconds
  blocked_seconds_other k other = ground (arith, get-remove_other j k entries other)

  attempt_unblocked_other :
      (k : Key) (answer : Option ℕ)
      → same_key j k ≡ false
      → IsLive now (get k entries)
      → suc (length entries) ≤ max_entries
      → get k (attempt_unblocked settings now j (answer, entries)).1 ≡ get k entries
  attempt_unblocked_other k (some wait) other live small = refl
  attempt_unblocked_other k none other live small =
      elim (Bool-cases (refuses_pair settings j entries)) [
        | inl full ↦ rw full
        | inr free ↦ rw free (record_failure_other k other live small)
      ]

  length-attempt_unblocked-le :
      (answer : Option ℕ)
      → length (attempt_unblocked settings now j (answer, entries)).1 ≤ suc (length entries)
  length-attempt_unblocked-le (some wait) = omega arith
  length-attempt_unblocked-le none = elim (Bool-cases (refuses_pair settings j entries)) [
    | inl full ↦ rw full (omega arith)
    | inr free ↦ rw free length-record_failure-le
  ]

-- An attempt of another pair leaves a live entry as it is, while the table is within the bound.
pub register_attempt_other :
    (settings : LoginSettings) (now now' : ℕ) (j k : Key) (entries : Entries)
    → same_key j k ≡ false
    → IsLive now' (get k entries)
    → suc (length entries) ≤ max_entries
    → get k (register_attempt settings now now' j entries).1 ≡ get k entries
unfolding register_attempt
register_attempt_other settings now now' j k entries other live small =
    let same = blocked_seconds_other settings now j entries k other in
    let after = (blocked_seconds settings now j entries).1 in
    attempt_unblocked_other settings now' j after k (blocked_seconds settings now j entries).0 other
      (subst (IsLive now') (sym same) live)
      (omega (arith, length-blocked_seconds-le settings now j entries))
    ∙ same

-- A call adds one item at most.
pub length-perform-le :
    (settings : LoginSettings) (call : Call) (entries : Entries)
    → length (perform settings call entries) ≤ suc (length entries)
unfolding perform register_attempt
length-perform-le settings (attempt now now' j) entries = omega (
  arith,
  length-blocked_seconds-le settings now j entries,
  length-attempt_unblocked-le settings now' j (blocked_seconds settings now j entries).1
      (blocked_seconds settings now j entries).0,
)
length-perform-le settings (reset j) entries = omega (arith, length-select-le (is_other j) entries)
length-perform-le settings clear entries = omega arith
