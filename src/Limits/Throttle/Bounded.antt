-- ===== src/Limits/Throttle/Bounded.antt =====
-- agent/limits.py: the memory bounds of the login throttle.
use text.Mathlib.Text.{◌==◌ as str_eq}
use mathlib.Core.Path.{subst}
use native.Mathlib.Nat.{le_trans}
use text.Mathlib.TextEquality.{eq_iff}
use ai_advent_challenge_9_v.Prelude.{
  ℕ, ◌+◌, ◌≤◌, ◌<◌, ◌≡◌, String, Bool, true, false, Option, none, some, List, [], ◌∷◌, leb,
  if◌then◌else◌, length, select, arith, Bool-cases, Option-cases, inl, inr, length-select-le, ◌⊎◌,
}
use ai_advent_challenge_9_v.Limits.Throttle.{
  Key, Entry, Entries, LoginSettings, get, put, is_other, held, max_entries, max_pairs_per_address,
  record_failure, failed_entry, counted, register_attempt, blocked_seconds, attempt_unblocked, Call,
  attempt, reset, clear, perform, perform_all,
}
use ai_advent_challenge_9_v.Limits.Throttle.Evict.{evict_keeps, evict-le_max}
use ai_advent_challenge_9_v.Limits.Throttle.Table.{UniqueKeys, UniqueKeys-select, UniqueKeys-put}

held-select-le :
    (a : String) (p : Key × Entry → Bool) (entries : Entries)
    → held a (select p entries) ≤ held a entries
held-select-le a p [] = omega arith
held-select-le a p (x ∷ entries) = ground (arith, held-select-le a p entries)

-- An entry written in place leaves every address with as many pairs as before.
held-put :
    (a : String) (k : Key) (e d : Entry) (entries : Entries)
    → get k entries ≡ some d
    → held a (put k e entries) ≡ held a entries
unfolding get put
held-put a k e d [] h = cc
held-put a k e d ((j, c) ∷ entries) h = ground (arith, held-put a k e d entries)

-- A new entry adds one pair, and only to its own address.
held-put_new :
    (a : String) (k : Key) (e : Entry) (entries : Entries)
    → held a (put k e entries) ≤ held a entries + (if str_eq k.address a then 1 else 0)
unfolding put
held-put_new a k e [] = ground arith
held-put_new a k e ((j, c) ∷ entries) = ground (arith, held-put_new a k e entries)

-- The table has each key once, at most MAX_ENTRIES items, and at most MAX_PAIRS_PER_ADDRESS pairs
-- of one address.
pub record IsBounded (entries : Entries) : Type 0 where
  pub unique : UniqueKeys entries
  pub small : length entries ≤ max_entries
  pub spread : (a : String) → held a entries ≤ max_pairs_per_address

IsBounded-select :
    (p : Key × Entry → Bool) (entries : Entries) → IsBounded entries → IsBounded (select p entries)
IsBounded-select p entries b = record {
  unique = UniqueKeys-select p entries b.unique;
  small = omega (arith, b.small, length-select-le p entries);
  spread = λ a. omega (arith, b.spread a, held-select-le a p entries);
}

blocked_seconds-IsBounded :
    (settings : LoginSettings) (now : ℕ) (key : Key) (entries : Entries)
    → IsBounded entries
    → IsBounded (blocked_seconds settings now key entries).1
unfolding blocked_seconds
blocked_seconds-IsBounded settings now key entries b =
    ground (arith, IsBounded-select (is_other key) entries b)

-- There is room for the key: it has an entry, or its address may hold one more pair.
abbrev HasRoom : Key → Entries → Type 0
HasRoom key entries =
    ((d : Entry) × (get key entries ≡ some d)) ⊎ (held key.address entries < max_pairs_per_address)

put-le_spread :
    (key : Key) (e : Entry) (entries : Entries)
    → IsBounded entries
    → HasRoom key entries
    → (a : String) → held a (put key e entries) ≤ max_pairs_per_address
put-le_spread key e entries b (inl (d, found)) a =
    rw (held-put a key e d entries found) (b.spread a)
put-le_spread key e entries b (inr free) a = elim (Bool-cases (str_eq key.address a)) [
  | inl same ↦
      let free' : held a entries < max_pairs_per_address =
        subst (λ address. held address entries < max_pairs_per_address)
          ((eq_iff key.address a).0 same) free in
      let new : held a (put key e entries) ≤ held a entries + 1 =
        rw same at (held-put_new a key e entries) in
      omega arith
  | inr other ↦
      let new : held a (put key e entries) ≤ held a entries + 0 =
        rw other at (held-put_new a key e entries) in
      omega (arith, b.spread a)
]

record_failure_off :
    (settings : LoginSettings) (now : ℕ) (key : Key) (entries : Entries)
    → leb settings.max_failed_attempts 0 ≡ true
    → record_failure settings now key entries ≡ (false, entries)
unfolding record_failure
record_failure_off settings now key entries off = rw off

record_failure-IsBounded :
    (settings : LoginSettings) (now : ℕ) (key : Key) (entries : Entries)
    → IsBounded entries
    → HasRoom key entries
    → IsBounded (record_failure settings now key entries).1
unfolding record_failure
record_failure-IsBounded settings now key entries b room =
    elim (Bool-cases (leb settings.max_failed_attempts 0)) [
      | inl off ↦ rw off b
      | inr active ↦
          let e = failed_entry settings now (counted now (get key entries)) in
          let unique = UniqueKeys-put key e entries b.unique in
          rw active (record {
            unique = evict_keeps key now UniqueKeys UniqueKeys-select (put key e entries) unique;
            small = evict-le_max key now (put key e entries) unique;
            spread = λ a.
                evict_keeps key now (λ items. held a items ≤ max_pairs_per_address)
                  (λ p items h. le_trans (held-select-le a p items) h) (put key e entries)
                  (put-le_spread key e entries b room a);
          })
    ]

-- The part of `register_attempt` after the block check.
attempt_unblocked-IsBounded :
    (settings : LoginSettings) (now : ℕ) (key : Key) (answer : Option ℕ) (entries : Entries)
    → IsBounded entries
    → IsBounded (attempt_unblocked settings now key (answer, entries)).1
attempt_unblocked-IsBounded settings now key (some wait) entries b = b
attempt_unblocked-IsBounded settings now key none entries b =
    elim (Option-cases (get key entries)) [
      | inr (d, found) ↦
          ground (arith, record_failure-IsBounded settings now key entries b (inl (d, found)))
      | inl absent ↦ elim (Bool-cases (leb max_pairs_per_address (held key.address entries))) [
        | inl full ↦ elim (Bool-cases (leb settings.max_failed_attempts 0)) [
          | inl off ↦ ground (arith, record_failure_off settings now key entries off)
          | inr active ↦ ground arith
        ]
        | inr free ↦
            ground (arith, record_failure-IsBounded settings now key entries b (inr (ground arith)))
      ]
    ]

perform-IsBounded :
    (settings : LoginSettings) (call : Call) (entries : Entries)
    → IsBounded entries
    → IsBounded (perform settings call entries)
unfolding perform register_attempt
perform-IsBounded settings (attempt now now' key) entries b =
    attempt_unblocked-IsBounded settings now' key _ _
      (blocked_seconds-IsBounded settings now key entries b)
perform-IsBounded settings (reset key) entries b = IsBounded-select (is_other key) entries b
perform-IsBounded settings clear entries b = record {
  unique = tt;
  small = omega arith;
  spread = λ a. omega arith;
}

perform_all_from-IsBounded :
    (settings : LoginSettings) (calls : List Call) (entries : Entries)
    → IsBounded entries
    → IsBounded (perform_all settings calls entries)
unfolding perform_all
perform_all_from-IsBounded settings [] entries b = b
perform_all_from-IsBounded settings (call ∷ calls) entries b =
    perform_all_from-IsBounded settings calls (perform settings call entries)
      (perform-IsBounded settings call entries b)

-- From an empty table on, whatever attempts, resets and clearings follow, at whatever times: the
-- table never holds a key twice, more than MAX_ENTRIES items, or more than MAX_PAIRS_PER_ADDRESS
-- pairs of one address.
pub perform_all-IsBounded :
    (settings : LoginSettings) (calls : List Call) → IsBounded (perform_all settings calls [])
perform_all-IsBounded settings calls =
    perform_all_from-IsBounded settings calls []
      (record { unique = tt; small = omega arith; spread = λ a. omega arith })
