-- ===== src/Chunking/Pieces.antt =====
-- agent/kb_chunking.py: the split of a long section ends, fits, and leaves no gap.
use Prim.Native.Nat.{min}
use ai_advent_challenge_9_v.Prelude.{
  ℕ, zero, suc, ◌+◌, ◌-◌, ◌/◌, ◌≤◌, ◌<◌, ◌≡◌, refl, inl, inr, true, ◌&&◌, Option, none, some, List,
  [], ◌∷◌, arith, ltb, leb, if◌then◌else◌, Bool-cases, Option-cases,
}
use ai_advent_challenge_9_v.Strings.{Text, is_space, char_is}
use ai_advent_challenge_9_v.Chunking.{
  is_char, rfind_break, blank_end, starts_gap, last_sentence_end, not_before, or_else, shift,
  find_cut, subsplit_from, subsplit, struct_subsplit_overlap,
}
use ai_advent_challenge_9_v.Chunking.Windows.{InRange, rfind-InRange, latest-InRange}

-- A cut lies behind `pos`, and not behind `end`.
abbrev IsCut : ℕ → ℕ → Option ℕ → Type 0
IsCut pos end none = Unit
IsCut pos end (some k) = (pos < k) × (k ≤ end)

or_else-IsCut :
    (pos end : ℕ) (m : Option ℕ) (k : ℕ)
    → IsCut pos end m
    → (pos < k) × (k ≤ end)
    → (pos < or_else m k) × (or_else m k ≤ end)
or_else-IsCut pos end none k hm hk = hk
or_else-IsCut pos end (some j) k hm hk = hm

rfind_break-bounds :
    (text : Text) (start end k : ℕ)
    → rfind_break text start end ≡ some k
    → (start ≤ k) × (k + 2 ≤ end)
unfolding rfind_break
rfind_break-bounds text start zero k h = cc
rfind_break-bounds text start (suc n) k h = ground (arith, rfind_break-bounds text start n k)

rfind_break-IsCut :
    (text : Text) (pos end min_cut : ℕ)
    → IsCut pos end (shift 2 (not_before min_cut (rfind_break text pos end)))
rfind_break-IsCut text pos end min_cut = elim (Option-cases (rfind_break text pos end)) [
  | inl absent ↦ rw absent tt
  | inr (k, found) ↦
      let (low, high) = rfind_break-bounds text pos end k found in
      elim (Bool-cases (leb min_cut k)) [
        | inl late ↦ rw found (rw late (omega arith, omega arith))
        | inr early ↦ rw found (rw early tt)
      ]
]

blank_end-bounds :
    (text : Text) (rounds pos end : ℕ)
    → pos ≤ end
    → (pos ≤ blank_end text rounds pos end) × (blank_end text rounds pos end ≤ end)
unfolding blank_end
blank_end-bounds text zero pos end h = (omega arith, h)
blank_end-bounds text (suc rounds) pos end h =
    elim (Bool-cases (ltb pos end && char_is is_space pos text)) [
      | inl blank ↦
          let (low, high) = blank_end-bounds text rounds (pos + 1) end (ground arith) in
          rw blank (omega arith, high)
      | inr other ↦ rw other (omega arith, h)
    ]

-- A run that starts at a blank is not empty.
blank_end-lt :
    (text : Text) (end k : ℕ)
    → k < end
    → char_is is_space k text ≡ true
    → (k < blank_end text end k end) × (blank_end text end k end ≤ end)
unfolding blank_end
blank_end-lt text zero k h blank = ground arith
blank_end-lt text (suc n) k h blank =
    let (low, high) = blank_end-bounds text n (k + 1) (suc n) (omega arith) in ground arith

starts_gap-blank : (text : Text) (k : ℕ) → starts_gap text k ≡ true → char_is is_space k text ≡ true
starts_gap-blank text zero h = cc
starts_gap-blank text (suc k) h = ground arith

last_sentence_end-IsCut :
    (text : Text) (pos end min_cut k : ℕ)
    → k ≤ end
    → IsCut pos end (last_sentence_end text pos end min_cut k)
unfolding last_sentence_end
last_sentence_end-IsCut text pos end min_cut zero h = tt
last_sentence_end-IsCut text pos end min_cut (suc k) h =
    let cut = blank_end text end k end in
    elim (Bool-cases (leb pos k && starts_gap text k && leb min_cut cut)) [
      | inl here ↦
          let (low, high) =
            blank_end-lt text end k (omega arith) (starts_gap-blank text k (ground arith)) in
          rw here (ground arith, high)
      | inr other ↦ rw other (last_sentence_end-IsCut text pos end min_cut k (omega arith))
    ]

blanks-IsCut :
    (pos end min_cut : ℕ) (m : Option ℕ)
    → InRange pos end m
    → IsCut pos end (shift 1 (not_before min_cut m))
blanks-IsCut pos end min_cut none h = tt
blanks-IsCut pos end min_cut (some k) h = elim (Bool-cases (leb min_cut k)) [
  | inl late ↦ rw late (omega arith, omega arith)
  | inr early ↦ rw early tt
]

find_cut-bounds :
    (text : Text) (pos hard_end min_cut : ℕ)
    → pos < hard_end
    → (pos < find_cut text pos hard_end min_cut) × (find_cut text pos hard_end min_cut ≤ hard_end)
unfolding find_cut
find_cut-bounds text pos hard_end min_cut h =
    or_else-IsCut pos hard_end _ _ (rfind_break-IsCut text pos hard_end min_cut) (
      or_else-IsCut pos hard_end _ _
        (last_sentence_end-IsCut text pos hard_end min_cut hard_end (omega arith))
        (or_else-IsCut pos hard_end _ _
          (blanks-IsCut pos hard_end min_cut _ (
            latest-InRange pos hard_end _ _ (rfind-InRange (is_char 32) text pos hard_end)
              (rfind-InRange (is_char 10) text pos hard_end)))
          (h, omega arith)))

-- Spans that cover a range from `pos` to `end`: each is not empty, has at most `available`
-- characters, and the next one starts where it ends or at most 100 characters before, and further on
-- than it started.
pub data IsSplit (available end : ℕ) : ℕ → List (ℕ × ℕ) → Type 0 where
  last : (pos : ℕ) → pos < end → end ≤ pos + available → IsSplit available end pos ((pos, end) ∷ [])
  step :
      (pos cut next : ℕ) (spans : List (ℕ × ℕ))
      → pos < next
      → next ≤ cut
      → cut ≤ next + struct_subsplit_overlap
      → cut ≤ pos + available
      → cut < end
      → IsSplit available end next spans
      → IsSplit available end pos ((pos, cut) ∷ spans)

module _ (text : Text) (end available : ℕ) where
  next_cut-bounds :
      (pos : ℕ)
      → 0 < available
      → pos < end
      → let hard_end = min (pos + available) end in
        let cut =
          if leb end hard_end then end else find_cut text pos hard_end (pos + available / 3) in
        (pos < cut) × (cut ≤ pos + available) × (cut ≤ end)
  next_cut-bounds pos positive more =
      let hard_end = min (pos + available) end in
      let (low, high) = find_cut-bounds text pos hard_end (pos + available / 3) (grind arith) in
      elim (Bool-cases (leb end hard_end)) [
        | inl whole ↦ rw whole (grind arith, grind arith, grind arith)
        | inr part ↦ rw part (low, grind arith, grind arith)
      ]

  next-bounds :
      (pos cut : ℕ)
      → pos < cut
      → let nxt = cut - struct_subsplit_overlap in
        let next = if ltb pos nxt then nxt else cut in
        (pos < next) × (next ≤ cut) × (cut ≤ next + struct_subsplit_overlap)
  next-bounds pos cut h = elim (Bool-cases (ltb pos (cut - struct_subsplit_overlap))) [
    | inl back ↦ rw back (ground arith, omega arith, omega arith)
    | inr on ↦ rw on (h, omega arith, omega arith)
  ]

  subsplit_from-IsSplit :
      (rounds pos : ℕ)
      → 0 < available
      → pos < end
      → end ≤ rounds + pos
      → (spans : List (ℕ × ℕ)) × (subsplit_from text end available rounds pos ≡ some spans)
        × IsSplit available end pos spans
  unfolding subsplit_from
  subsplit_from-IsSplit zero pos positive more enough = ground arith
  subsplit_from-IsSplit (suc rounds) pos positive more enough =
      let hard_end = min (pos + available) end in
      let cut =
        if leb end hard_end then end else find_cut text pos hard_end (pos + available / 3) in
      let (ahead, fits, inside) = next_cut-bounds pos positive more in
      let started : ltb pos end ≡ true = ground arith in
      elim (Bool-cases (leb end cut)) [
        | inl all ↦
            let same : cut ≡ end = ground arith in
            ((pos, cut) ∷ [], rw started (rw all refl), rw same (last pos more (omega arith)))
        | inr goes_on ↦
            let nxt = cut - struct_subsplit_overlap in
            let next = if ltb pos nxt then nxt else cut in
            let (past, behind, near) = next-bounds pos cut ahead in
            let (spans, found, rest) =
              subsplit_from-IsSplit rounds next positive (ground arith) (omega arith) in
            (
              (pos, cut) ∷ spans,
              rw started (rw goes_on (rw found refl)),
              step pos cut next spans past behind near fits (ground arith) rest,
            )
      ]

  -- For a positive room, _subsplit ends, and its spans cover the range without a gap, each of at most
  -- `available` characters, and each starting behind the start of the one before.
  pub subsplit-IsSplit :
      (start : ℕ)
      → 0 < available
      → start < end
      → (spans : List (ℕ × ℕ)) × (subsplit text start end available ≡ some spans)
        × IsSplit available end start spans
  unfolding subsplit
  subsplit-IsSplit start positive more = subsplit_from-IsSplit end start positive more (omega arith)
