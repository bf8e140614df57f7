-- ===== src/Strings/Spans.antt =====
-- Positions in a text: what strip, slices and rfind keep.
use ai_advent_challenge_9_v.Prelude.{
  ℕ, zero, suc, ◌+◌, ◌-◌, ◌≤◌, ◌<◌, ◌≡◌, refl, inl, inr, Bool, true, not, some, [], ◌∷◌, arith,
  length, Bool-cases,
}
use ai_advent_challenge_9_v.Strings.{
  Text, is_space, lstrip, rstrip, strip, push_front, take, drop, slice, char_is, rfind,
}

-- A character that is no whitespace.
abbrev pub solid : ℕ → Bool
solid c = not (is_space c)

pub length-take_le : (n : ℕ) (s : Text) → length (take n s) ≤ n
unfolding take
length-take_le zero s = omega arith
length-take_le (suc n) [] = omega arith
length-take_le (suc n) (c ∷ s) = let rest = length-take_le n s in omega arith

char_is-take :
    (test : ℕ → Bool) (k n : ℕ) (s : Text) → k < n → char_is test k (take n s) ≡ char_is test k s
unfolding char_is take
char_is-take test k zero s h = ground arith
char_is-take test k (suc n) [] h = refl
char_is-take test zero (suc n) (c ∷ s) h = refl
char_is-take test (suc k) (suc n) (c ∷ s) h = char_is-take test k n s (omega arith)

char_is-drop :
    (test : ℕ → Bool) (n k : ℕ) (s : Text) → char_is test k (drop n s) ≡ char_is test (n + k) s
unfolding char_is drop
char_is-drop test zero k s = ground arith
char_is-drop test (suc n) k [] = refl
char_is-drop test (suc n) k (c ∷ s) = ground (arith, char_is-drop test n k s)

pub char_is-lt-length :
    (test : ℕ → Bool) (k : ℕ) (s : Text) → char_is test k s ≡ true → k < length s
unfolding char_is
char_is-lt-length test k [] h = cc
char_is-lt-length test zero (c ∷ s) h = omega arith
char_is-lt-length test (suc k) (c ∷ s) h = let rest = char_is-lt-length test k s h in omega arith

pub length-lstrip_le : (s : Text) → length (lstrip s) ≤ length s
unfolding lstrip
length-lstrip_le [] = omega arith
length-lstrip_le (c ∷ s) = ground (arith, length-lstrip_le s)

pub push_front-length : (c : ℕ) (s : Text) → length (push_front c s) ≤ suc (length s)
push_front-length c [] = ground arith
push_front-length c (d ∷ s) = omega arith

pub length-rstrip_le : (s : Text) → length (rstrip s) ≤ length s
unfolding rstrip
length-rstrip_le [] = omega arith
length-rstrip_le (c ∷ s) =
    let shorter = length-rstrip_le s in
    elim (Bool-cases (is_space c)) [
      | inl blank ↦ ground (arith, push_front-length c (rstrip s))
      | inr seen ↦ ground (arith, push_front-length c (rstrip s))
    ]

-- A character that is no whitespace stays, moved by what is stripped before it.
lstrip-solid :
    (k : ℕ) (s : Text)
    → char_is solid k s ≡ true
    → (length s - length (lstrip s) ≤ k)
      × (char_is solid (k - (length s - length (lstrip s))) (lstrip s) ≡ true)
unfolding lstrip char_is
lstrip-solid k [] h = cc
lstrip-solid zero (c ∷ s) h = elim (Bool-cases (is_space c)) [
  | inl blank ↦ ground arith
  | inr seen ↦ rw seen (omega arith, ground arith)
]
lstrip-solid (suc k) (c ∷ s) h = elim (Bool-cases (is_space c)) [
  | inl blank ↦
      let (here, there) = lstrip-solid k s h in
      let shorter = length-lstrip_le s in
      let moved : suc k - (suc (length s) - length (lstrip s))
          ≡ k - (length s - length (lstrip s)) =
        omega arith in
      rw blank (omega arith, rw moved there)
  | inr seen ↦ rw seen (omega arith, ground arith)
]

push_front-solid : (c : ℕ) (s : Text) → solid c ≡ true → 0 < length (push_front c s)
push_front-solid c [] h = ground arith
push_front-solid c (d ∷ s) h = omega arith

push_front-longer : (c k : ℕ) (s : Text) → k < length s → suc k < length (push_front c s)
push_front-longer c k [] h = ground arith
push_front-longer c k (d ∷ s) h = omega arith

rstrip-solid : (k : ℕ) (s : Text) → char_is solid k s ≡ true → k < length (rstrip s)
unfolding rstrip char_is
rstrip-solid k [] h = cc
rstrip-solid zero (c ∷ s) h = push_front-solid c (rstrip s) h
rstrip-solid (suc k) (c ∷ s) h = push_front-longer c k (rstrip s) (rstrip-solid k s h)

pub rfind-bounds :
    (test : ℕ → Bool) (s : Text) (start end k : ℕ)
    → rfind test s start end ≡ some k
    → (start ≤ k) × (k < end)
unfolding rfind
rfind-bounds test s start zero k h = cc
rfind-bounds test s start (suc n) k h =
    (ground (arith, rfind-bounds test s start n k), ground (arith, rfind-bounds test s start n k))

-- A span inside a text, its strip and what of the text stays inside.
pub strip-solid :
    (k : ℕ) (s : Text)
    → char_is solid k s ≡ true
    → let lead = length s - length (lstrip s) in (lead ≤ k) × (k < lead + length (strip s))
unfolding strip
strip-solid k s h =
    let (here, there) = lstrip-solid k s h in
    let kept = rstrip-solid (k - (length s - length (lstrip s))) (lstrip s) there in
    (here, omega arith)

pub length-strip_le : (s : Text) → length s - length (lstrip s) + length (strip s) ≤ length s
unfolding strip
length-strip_le s =
    let left = length-lstrip_le s in let right = length-rstrip_le (lstrip s) in omega arith

pub length-slice_le : (s : Text) (start end : ℕ) → length (slice s start end) ≤ end - start
unfolding slice
length-slice_le s start end = length-take_le (end - start) (drop start s)

pub char_is-slice :
    (test : ℕ → Bool) (k : ℕ) (s : Text) (start end : ℕ)
    → start + k < end
    → char_is test k (slice s start end) ≡ char_is test (start + k) s
unfolding slice
char_is-slice test k s start end inside =
    rw (char_is-take test k (end - start) (drop start s) (omega arith))
      (char_is-drop test start k s)
