-- ===== src/Limits/Throttle/Table.antt =====
-- agent/limits.py: the failure table as a dict. Look-ups after writes, and keys that are unique.
use mathlib.Core.Path.{subst}
use text.Mathlib.TextEquality.{eq_iff}
use text.Mathlib.TextPositions.{eq_refl}
use ai_advent_challenge_9_v.Prelude.{
  suc, ◌≤◌, ◌<◌, ◌≡◌, refl, ap, ◌∙◌, ◌≢◌, Bool, true, false, none, some, [], ◌∷◌, if◌then◌else◌,
  length, select, arith, Bool-cases, inl, inr, length-select-le,
}
use ai_advent_challenge_9_v.Limits.Throttle.{
  Key, same_key, Entry, Entries, get, put, is_other, remove,
}

pub same_key_refl : (k : Key) → same_key k k ≡ true
unfolding same_key
same_key_refl k = ground (arith, eq_refl k.username, eq_refl k.address)

pub same_key-eq : (j k : Key) → same_key j k ≡ true → j ≡ k
unfolding same_key
same_key-eq j k h = ground (arith, eq_iff j.username k.username, eq_iff j.address k.address)

pub same_key_symm_false : (j k : Key) → same_key j k ≡ false → same_key k j ≡ false
same_key_symm_false j k h = ground (arith, same_key-eq k j, same_key_refl j)

pub same_key_ne : (j k : Key) → same_key j k ≡ false → j ≢ k
same_key_ne j k h e = ground (arith, same_key_refl j)

-- Dropping items by a test leaves what `get` finds, if the test keeps that item.
pub get-select :
    (p : Key × Entry → Bool) (k : Key) (e : Entry) (entries : Entries)
    → p (k, e) ≡ true
    → get k entries ≡ some e
    → get k (select p entries) ≡ some e
unfolding get
get-select p k e [] keep h = h
get-select p k e ((j, d) ∷ entries) keep h = elim (Bool-cases (same_key j k)) [
  | inl same ↦
      let h' : some d ≡ some e = rw same at h in
      let kept : p (j, d) ≡ true = cc (same_key-eq j k same) in rw (kept, same) h'
  | inr other ↦
      let h' : get k entries ≡ some e = rw other at h in
      elim (Bool-cases (p (j, d))) [
        | inl kept ↦ rw (kept, other) (get-select p k e entries keep h')
        | inr dropped ↦ rw dropped (get-select p k e entries keep h')
      ]
]

pub get-select_absent :
    (p : Key × Entry → Bool) (k : Key) (entries : Entries)
    → get k entries ≡ none
    → get k (select p entries) ≡ none
unfolding get
get-select_absent p k [] h = refl
get-select_absent p k ((j, e) ∷ entries) h = ground (arith, get-select_absent p k entries)

pub get-put :
    (j k : Key) (e : Entry) (entries : Entries)
    → get j (put k e entries) ≡ (if same_key k j then some e else get j entries)
unfolding get put
get-put j k e [] = refl
get-put j k e ((i, d) ∷ entries) = ground (
  arith,
  get-put j k e entries,
  same_key-eq i k,
  same_key-eq i j,
  same_key-eq k j,
  same_key_refl j,
  same_key_refl k,
)

-- No key stands twice.
abbrev pub UniqueKeys : Entries → Type 0
UniqueKeys [] = Unit
UniqueKeys ((k, e) ∷ entries) = (get k entries ≡ none) × UniqueKeys entries

pub UniqueKeys-select :
    (p : Key × Entry → Bool) (entries : Entries)
    → UniqueKeys entries
    → UniqueKeys (select p entries)
UniqueKeys-select p [] u = tt
UniqueKeys-select p ((k, e) ∷ entries) u = elim (Bool-cases (p (k, e))) [
  | inl keep ↦ rw keep (get-select_absent p k entries u.0, UniqueKeys-select p entries u.1)
  | inr drop ↦ rw drop (UniqueKeys-select p entries u.1)
]

pub UniqueKeys-put :
    (k : Key) (e : Entry) (entries : Entries) → UniqueKeys entries → UniqueKeys (put k e entries)
unfolding put
UniqueKeys-put k e [] u = (unfold get in refl, tt)
UniqueKeys-put k e ((j, d) ∷ entries) u = elim (Bool-cases (same_key j k)) [
  | inl same ↦ rw same u
  | inr other ↦ rw other (
    get-put j k e entries ∙ ground (arith, same_key-eq k j, same_key_refl k),
    UniqueKeys-put k e entries u.1,
  )
]

-- Without an item of the key, removing it changes nothing.
pub remove_absent :
    (k : Key) (entries : Entries) → get k entries ≡ none → remove k entries ≡ entries
unfolding get
remove_absent k [] h = refl
remove_absent k ((j, e) ∷ entries) h = ground (arith, remove_absent k entries)

-- With unique keys, all items but one at most have another key.
pub length-others :
    (k : Key) (entries : Entries)
    → UniqueKeys entries
    → length entries ≤ suc (length (remove k entries))
length-others k [] u = omega arith
length-others k ((j, e) ∷ entries) u = elim (Bool-cases (same_key j k)) [
  | inl same ↦
      let j_is_k = same_key-eq j k same in
      rw same (
        omega (
          arith,
          ap (length {A = Key × Entry})
              (remove_absent k entries (subst (λ i. get i entries ≡ none) j_is_k u.0)),
        ))
  | inr other ↦ rw other (omega (arith, length-others k entries u.1))
]

-- Removing a key that is there shortens the table.
pub length-remove-lt :
    (k : Key) (e : Entry) (entries : Entries)
    → get k entries ≡ some e
    → length (remove k entries) < length entries
unfolding get
length-remove-lt k e [] h = cc
length-remove-lt k e ((j, d) ∷ entries) h =
    ground (arith, length-remove-lt k e entries, length-select-le (is_other k) entries)

pub length-put-le :
    (k : Key) (e : Entry) (entries : Entries) → length (put k e entries) ≤ suc (length entries)
unfolding put
length-put-le k e [] = omega arith
length-put-le k e ((j, d) ∷ entries) = ground (arith, length-put-le k e entries)
