-- ===== src/Limits/Throttle/Evict.antt =====
-- agent/limits.py: the eviction of the login throttle: it ends within the bound, and what it keeps.
use mathlib.Core.List.{Memᴰ}
use native.Mathlib.Nat.{le_refl}
use ai_advent_challenge_9_v.Prelude.{
  ℕ, zero, suc, ◌≤◌, ◌<◌, ◌≡◌, refl, sym, ap, Bool, true, false, not, Option, none, some, [], ◌∷◌,
  ltb, leb, ltb→lt, length, select, arith, Bool-cases, Option-cases, inl, inr, length-select-le,
  select-mem, ◌⊎◌,
}
use ai_advent_challenge_9_v.Limits.Throttle.{
  Key, same_key, Entry, Entries, get, is_other, remove, is_expired, min_by, victim, evict_loop,
  evict, max_entries, lesser, or_item, oldest_failure, block_end, is_unblocked,
}
use ai_advent_challenge_9_v.Limits.Throttle.Table.{
  same_key_refl, same_key_symm_false, get-select, UniqueKeys, UniqueKeys-select, length-others,
}

lesser_cases :
    (measure : Key × Entry → ℕ) (y : Key × Entry) (o : Option (Key × Entry)) (x : Key × Entry)
    → lesser measure y o ≡ x
    → (x ≡ y) ⊎ (o ≡ some x)
lesser_cases measure y none x e = inl (sym e)
lesser_cases measure y (some best) x e = elim (Bool-cases (leb (measure y) (measure best))) [
  | inl le ↦ inl (sym (rw le at e))
  | inr gt ↦ inr (ap some (rw gt at e))
]

min_by-mem :
    (measure : Key × Entry → ℕ) (items : Entries) (x : Key × Entry)
    → min_by measure items ≡ some x
    → Memᴰ x items
unfolding min_by
min_by-mem measure [] x e = cc
min_by-mem measure (y ∷ items) x e = elim (lesser_cases measure y (min_by measure items) x (cc)) [
  | inl here ↦ Memᴰ.head here
  | inr later ↦ Memᴰ.tail (min_by-mem measure items x later)
]

min_by-eq_none :
    (measure : Key × Entry → ℕ) (items : Entries) → min_by measure items ≡ none → items ≡ []
unfolding min_by
min_by-eq_none measure [] e = refl
min_by-eq_none measure (x ∷ items) e = cc

or_item_cases :
    (a b : Option (Key × Entry)) (x : Key × Entry)
    → or_item a b ≡ some x
    → (a ≡ some x) ⊎ (b ≡ some x)
or_item_cases none b x e = inr e
or_item_cases (some a) b x e = inl e

or_item-eq_none : (a b : Option (Key × Entry)) → or_item a b ≡ none → b ≡ none
or_item-eq_none none b e = e
or_item-eq_none (some a) b e = cc

not-eq_true : (b : Bool) → not b ≡ true → b ≡ false
not-eq_true true h = sym h
not-eq_true false h = refl

-- A victim is an item of the table under another key than the current one.
pub victim-mem :
    (current : Key) (now : ℕ) (entries : Entries) (x : Key × Entry)
    → victim current now entries ≡ some x
    → Memᴰ x entries × (same_key x.0 current ≡ false)
unfolding victim
victim-mem current now entries x e =
    let others = select (is_other current) entries in
    let free = min_by oldest_failure (select (is_unblocked now) others) in
    let found : Memᴰ x others = elim (or_item_cases free (min_by block_end others) x e) [
      | inl ahead ↦ (select-mem (is_unblocked now) others x (min_by-mem oldest_failure _ x ahead)).0
      | inr blocked ↦ min_by-mem block_end others x blocked
    ] in
    let (there, other) = select-mem (is_other current) entries x found in
    let differs : same_key x.0 current ≡ false = not-eq_true (same_key x.0 current) other in
    (there, differs)

victim-eq_none :
    (current : Key) (now : ℕ) (entries : Entries)
    → victim current now entries ≡ none
    → remove current entries ≡ []
unfolding victim
victim-eq_none current now entries e = min_by-eq_none block_end (remove current entries) (
    or_item-eq_none (min_by oldest_failure (select (is_unblocked now) (remove current entries)))
      (min_by block_end (remove current entries)) e)

-- Removing the key of an item of the table shortens it.
length-remove-mem :
    (x : Key × Entry) (entries : Entries)
    → Memᴰ x entries
    → length (remove x.0 entries) < length entries
length-remove-mem x [] m = elim m [ ]
length-remove-mem x ((k, e) ∷ entries) (Memᴰ.head here) = ground (
  arith,
  ap (λ i. i.0) here,
  same_key_refl k,
  same_key_refl x.0,
  length-select-le (is_other x.0) entries,
)
length-remove-mem x ((k, e) ∷ entries) (Memᴰ.tail m) =
    ground (arith, length-remove-mem x entries m, length-select-le (is_other x.0) entries)

module _ (current : Key) (now : ℕ) where
  -- With fuel for every item the loop ends by its test: the table is within the bound.
  evict_loop-le_max :
      (fuel : ℕ) (entries : Entries)
      → length entries ≤ fuel
      → UniqueKeys entries
      → length (evict_loop fuel current now entries) ≤ max_entries
  unfolding evict_loop
  evict_loop-le_max zero entries enough u = omega arith
  evict_loop-le_max (suc fuel) entries enough u =
      elim (Bool-cases (ltb max_entries (length entries))) [
        | inr within ↦ rw within (ground arith)
        | inl over ↦ elim (Option-cases (victim current now entries)) [
          | inl stuck ↦ absurd (
              omega (
                arith,
                ltb→lt _ _ over,
                length-others current entries u,
                ap (length {A = Key × Entry}) (victim-eq_none current now entries stuck),
              ))
          | inr (x, found) ↦
              rw (over, found)
                (evict_loop-le_max fuel (remove x.0 entries)
                  (omega
                    (arith, length-remove-mem x entries (victim-mem current now entries x found).0))
                  (UniqueKeys-select (is_other x.0) entries u))
        ]
      ]

  -- The entry just recorded is never the victim.
  evict_loop-keeps_current :
      (fuel : ℕ) (entries : Entries) (e : Entry)
      → get current entries ≡ some e
      → get current (evict_loop fuel current now entries) ≡ some e
  unfolding evict_loop
  evict_loop-keeps_current zero entries e h = h
  evict_loop-keeps_current (suc fuel) entries e h =
      elim (Bool-cases (ltb max_entries (length entries))) [
        | inr within ↦ rw within h
        | inl over ↦ elim (Option-cases (victim current now entries)) [
          | inl stuck ↦ rw (over, stuck) h
          | inr (x, found) ↦
              rw (over, found)
                (evict_loop-keeps_current fuel (remove x.0 entries) e (
                  get-select (is_other x.0) current e entries
                    (ground (
                      arith,
                      same_key_symm_false x.0 current (victim-mem current now entries x found).1,
                    ))
                    h))
        ]
      ]

  -- Evicting only drops items, so it keeps what dropping keeps.
  evict_loop_keeps :
      (Q : Entries → Type 0)
      → ((p : Key × Entry → Bool) (items : Entries) → Q items → Q (select p items))
      → (fuel : ℕ) (entries : Entries) → Q entries
      → Q (evict_loop fuel current now entries)
  unfolding evict_loop
  evict_loop_keeps Q drop zero entries q = q
  evict_loop_keeps Q drop (suc fuel) entries q =
      elim (Bool-cases (ltb max_entries (length entries))) [
        | inr within ↦ rw within q
        | inl over ↦ elim (Option-cases (victim current now entries)) [
          | inl stuck ↦ rw (over, stuck) q
          | inr (x, found) ↦
              rw (over, found)
                (evict_loop_keeps Q drop fuel (remove x.0 entries) (drop (is_other x.0) entries q))
        ]
      ]

  pub evict_keeps :
      (Q : Entries → Type 0)
      → ((p : Key × Entry → Bool) (items : Entries) → Q items → Q (select p items))
      → (entries : Entries) → Q entries
      → Q (evict current now entries)
  unfolding evict
  evict_keeps Q drop entries q = evict_loop_keeps Q drop _ _ (drop _ entries q)

  pub evict-le_max :
      (entries : Entries) → UniqueKeys entries → length (evict current now entries) ≤ max_entries
  unfolding evict
  evict-le_max entries u = evict_loop-le_max _ _ (le_refl _) (UniqueKeys-select _ entries u)

  pub evict-keeps_current :
      (entries : Entries) (e : Entry)
      → is_expired now e ≡ false
      → get current entries ≡ some e
      → get current (evict current now entries) ≡ some e
  unfolding evict
  evict-keeps_current entries e live h =
      evict_loop-keeps_current _ _ e (get-select _ current e entries (ground arith) h)
