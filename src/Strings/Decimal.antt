-- ===== src/Strings/Decimal.antt =====
-- Python's str of a natural number, and reading one back by `\d+` and int.
use ai_advent_challenge_9_v.Prelude.{
  ℕ, zero, suc, ◌+◌, ◌-◌, ◌*◌, ◌/◌, ◌%◌, ◌<◌, ◌≡◌, refl, Bool, true, false, ◌&&◌, Option, none,
  some, [], ◌∷◌, ◌++◌, arith, ltb, leb, if◌then◌else◌, Bool-cases, inl, inr,
}
use ai_advent_challenge_9_v.Strings.{Text}

-- The digits of `n` before `out`, in the rounds left.
unfoldable pub show_from : (rounds n : ℕ) → Text → Text
show_from zero n out = out
show_from (suc rounds) n out =
    let more = show_from rounds (n / 10) ((48 + n % 10) ∷ out) in
    if ltb n 10 then (48 + n) ∷ out else more

-- `str(n)`
unfoldable pub show : ℕ → Text
unfolding show_from
show n = show_from (suc n) n []

abbrev is_some : Option ℕ → Bool
is_some none = false
is_some (some d) = true

abbrev or_zero : Option ℕ → ℕ
or_zero none = 0
or_zero (some d) = d

show_from-append :
    (rounds n : ℕ) (out more : Text)
    → show_from rounds n out ++ more ≡ show_from rounds n (out ++ more)
unfolding show_from
show_from-append zero n out more = refl
show_from-append (suc rounds) n out more =
    ground (arith, show_from-append rounds (n / 10) ((48 + n % 10) ∷ out) more)

-- The digits of a number, and then more text.
pub show-append : (n : ℕ) (more : Text) → show n ++ more ≡ show_from (suc n) n more
unfolding show
show-append n more = show_from-append (suc n) n [] more

-- `unicode_digit` is the value of a decimal digit outside ASCII, which `\d` matches too.
module _ (unicode_digit : ℕ → Option ℕ) where
  abbrev pub digit : ℕ → Option ℕ
  digit c =
      if ltb c 128 then (if leb 48 c && leb c 57 then some (c - 48) else none) else unicode_digit c

  abbrev pub is_digit : ℕ → Bool
  is_digit c = is_some (digit c)

  -- The longest run of digits as a number, after the digits that give `n`.
  unfoldable pub scan : ℕ → Text → ℕ × Text
  scan n [] = (n, [])
  scan n (c ∷ s) =
      let rest = scan (n * 10 + or_zero (digit c)) s in if is_digit c then rest else (n, c ∷ s)

  -- `\d+`, with the number that it is.
  unfoldable pub read_number : Text → Option (ℕ × Text)
  unfolding scan
  read_number [] = none
  read_number (c ∷ s) = if is_digit c then some (scan 0 (c ∷ s)) else none

  -- Reading continues where the digits of a number end.
  scan-show_from :
      (rounds n : ℕ) (out : Text) → n < rounds → scan 0 (show_from rounds n out) ≡ scan n out
  unfolding scan show_from
  scan-show_from zero n out h = ground arith
  scan-show_from (suc rounds) n out h = elim (Bool-cases (ltb n 10)) [
    | inl small ↦ ground arith
    | inr large ↦
        let before = scan-show_from rounds (n / 10) ((48 + n % 10) ∷ out) (ground arith) in
        ground arith
  ]

  abbrev starts : Text → Bool
  starts [] = false
  starts (c ∷ s) = is_digit c

  starts-show_from :
      (rounds n : ℕ) (out : Text) → n < rounds → starts (show_from rounds n out) ≡ true
  unfolding show_from
  starts-show_from zero n out h = ground arith
  starts-show_from (suc rounds) n out h = elim (Bool-cases (ltb n 10)) [
    | inl small ↦ ground arith
    | inr large ↦
        let before = starts-show_from rounds (n / 10) ((48 + n % 10) ∷ out) (ground arith) in
        ground arith
  ]

  read_number-scan : (s : Text) → starts s ≡ true → read_number s ≡ some (scan 0 s)
  unfolding read_number
  read_number-scan [] h = cc
  read_number-scan (c ∷ s) h = ground arith

  -- The text continues with no digit.
  abbrev pub IsAfterNumber : Text → Type 0
  IsAfterNumber [] = Unit
  IsAfterNumber (c ∷ s) = is_digit c ≡ false

  scan-end : (n : ℕ) (s : Text) → IsAfterNumber s → scan n s ≡ (n, s)
  unfolding scan
  scan-end n [] h = refl
  scan-end n (c ∷ s) h = ground arith

  -- A number that is printed before something that is no digit is read back, with the rest.
  pub read_number-show_from :
      (rounds n : ℕ) (out : Text)
      → n < rounds
      → IsAfterNumber out
      → read_number (show_from rounds n out) ≡ some (n, out)
  read_number-show_from rounds n out h stop =
      rw
        (
          read_number-scan (show_from rounds n out) (starts-show_from rounds n out h),
          scan-show_from rounds n out h,
          scan-end n out stop,
        )
        refl
