-- ===== src/Release/Titles/Clean.antt =====
-- agent/release_pipeline.py: what every title that sanitize_title lets through looks like.
use ai_advent_challenge_9_v.Prelude.{
  ℕ, zero, suc, ◌≤◌, ◌≡◌, refl, inl, inr, Bool, true, false, not, Option, none, some, [], ◌∷◌,
  arith, ◌==◌, leb, length, select, map, All, Bool-cases,
}
use ai_advent_challenge_9_v.Strings.{
  collapse_from, Text, is_space, rstrip, push_front, take, char_is,
}
use ai_advent_challenge_9_v.Strings.Spans.{length-take_le, length-rstrip_le}
use ai_advent_challenge_9_v.Strings.Lines.{split_lines}
use ai_advent_challenge_9_v.Release.Titles.{
  title_max_chars, or_text, first_of, is_markup, is_control, blank_control, lstrip_of, push_unless,
  rstrip_of, is_quote, is_trailing, prefixed, empty_at_space, before_last_space, cut_at_word,
  first_filled, plain_title, has_any, usable_title, title_of, sanitize_title, drop_heading,
  drop_blocks, after_last_closing,
}

-- A character that is neither markup nor a control character, a line end included.
abbrev pub IsPlain : ℕ → Type 0
IsPlain c = (is_markup c ≡ false) × (is_control c ≡ false)

bare-All : (s : Text) → All (λ c. is_markup c ≡ false) (select (λ c. not (is_markup c)) s)
bare-All [] = tt
bare-All (c ∷ s) = elim (Bool-cases (is_markup c)) [
  | inl e ↦ rw e (bare-All s)
  | inr e ↦ rw e (e, bare-All s)
]

blank_control-IsPlain : (c : ℕ) → is_markup c ≡ false → IsPlain (blank_control c)
blank_control-IsPlain c h = elim (Bool-cases (is_control c)) [
  | inl e ↦ rw e (refl, refl)
  | inr e ↦ rw e (h, e)
]

map-All : (s : Text) → All (λ c. is_markup c ≡ false) s → All IsPlain (map blank_control s)
map-All [] all = tt
map-All (c ∷ s) all = (blank_control-IsPlain c all.0, map-All s all.1)

collapse_from-All :
    (in_run : Bool) (s : Text) → All IsPlain s → All IsPlain (collapse_from in_run s)
unfolding collapse_from
collapse_from-All in_run [] all = tt
collapse_from-All in_run (c ∷ s) all =
    let rest = collapse_from-All (is_space c) s all.1 in
    elim (Bool-cases (is_space c)) [
      | inr seen ↦ rw seen (all.0, rw seen at rest)
      | inl blank ↦ elim (Bool-cases in_run) [
        | inl on ↦ rw (blank, on) (rw blank at rest)
        | inr off ↦ rw (blank, off) ((refl, refl), rw blank at rest)
      ]
    ]

module _ (P : ℕ → Type 0) where
  lstrip_of-All : (test : ℕ → Bool) (s : Text) → All P s → All P (lstrip_of test s)
  unfolding lstrip_of
  lstrip_of-All test [] all = tt
  lstrip_of-All test (c ∷ s) all = elim (Bool-cases (test c)) [
    | inl e ↦ rw e (lstrip_of-All test s all.1)
    | inr e ↦ rw e all
  ]

  push_unless-All :
      (test : ℕ → Bool) (c : ℕ) (s : Text) → P c → All P s → All P (push_unless test c s)
  push_unless-All test c [] h all = elim (Bool-cases (test c)) [
    | inl e ↦ rw e tt
    | inr e ↦ rw e (h, tt)
  ]
  push_unless-All test c (d ∷ s) h all = (h, all)

  rstrip_of-All : (test : ℕ → Bool) (s : Text) → All P s → All P (rstrip_of test s)
  unfolding rstrip_of
  rstrip_of-All test [] all = tt
  rstrip_of-All test (c ∷ s) all =
      push_unless-All test c (rstrip_of test s) all.0 (rstrip_of-All test s all.1)

  push_front-All : (c : ℕ) (s : Text) → P c → All P s → All P (push_front c s)
  push_front-All c [] h all = elim (Bool-cases (is_space c)) [
    | inl e ↦ rw e tt
    | inr e ↦ rw e (h, tt)
  ]
  push_front-All c (d ∷ s) h all = (h, all)

  rstrip-All : (s : Text) → All P s → All P (rstrip s)
  unfolding rstrip
  rstrip-All [] all = tt
  rstrip-All (c ∷ s) all = push_front-All c (rstrip s) all.0 (rstrip-All s all.1)

  take-All : (n : ℕ) (s : Text) → All P s → All P (take n s)
  unfolding take
  take-All zero s all = tt
  take-All (suc n) [] all = tt
  take-All (suc n) (c ∷ s) all = (all.0, take-All n s all.1)

  -- A text, if there is one, of at most `n` characters that satisfy P.
  abbrev IsWithin : ℕ → Option Text → Type 0
  IsWithin n none = Unit
  IsWithin n (some s) = (length s ≤ n) × All P s

  empty_at_space-IsWithin : (n c : ℕ) → IsWithin n (empty_at_space c)
  empty_at_space-IsWithin n c = elim (Bool-cases (c == 32)) [
    | inl e ↦ rw e (omega arith, tt)
    | inr e ↦ rw e tt
  ]

  longer-IsWithin :
      (n c : ℕ) (o : Option Text)
      → P c
      → IsWithin n o
      → IsWithin (suc n) (first_of (prefixed c o) (empty_at_space c))
  longer-IsWithin n c none h w = empty_at_space-IsWithin (suc n) c
  longer-IsWithin n c (some s) h w = (omega arith, (h, w.1))

  before_last_space-IsWithin : (s : Text) → All P s → IsWithin (length s) (before_last_space s)
  unfolding before_last_space
  before_last_space-IsWithin [] all = tt
  before_last_space-IsWithin (c ∷ s) all =
      longer-IsWithin (length s) c (before_last_space s) all.0 (before_last_space-IsWithin s all.1)

  or_text-IsWithin :
      (n : ℕ) (o : Option Text) (s : Text)
      → IsWithin n o
      → IsWithin n (some s)
      → IsWithin n (some (or_text o s))
  or_text-IsWithin n none s w w' = w'
  or_text-IsWithin n (some t) s w w' = w

  widen : (m n : ℕ) (o : Option Text) → m ≤ n → IsWithin m o → IsWithin n o
  widen m n none le w = tt
  widen m n (some s) le w = (omega arith, w.1)

  cut_at_word-IsWithin :
      (text : Text) (limit : ℕ) → All P text → IsWithin limit (some (cut_at_word text limit))
  unfolding cut_at_word
  cut_at_word-IsWithin text limit all =
      let cut = take limit text in
      let short = length-take_le limit text in
      let kept = take-All limit text all in
      elim (Bool-cases (leb (length text) limit)) [
        | inl fits ↦ rw fits (ground arith, all)
        | inr long ↦ rw long (elim (Bool-cases (char_is (λ c. c == 32) limit text)) [
          | inl word_end ↦
              rw word_end (let less = length-rstrip_le cut in (omega arith, rstrip-All cut kept))
          | inr inside ↦ rw inside (
              let word = or_text (before_last_space cut) cut in
              let within =
                or_text-IsWithin limit (before_last_space cut) cut
                  (widen (length cut) limit (before_last_space cut) short
                    (before_last_space-IsWithin cut kept))
                  (short, kept) in
              let less = length-rstrip_le word in
              (omega (arith, within.0), rstrip-All word within.1))
        ])
      ]

push_unless-length :
    (test : ℕ → Bool) (c : ℕ) (s : Text) → length (push_unless test c s) ≤ suc (length s)
push_unless-length test c [] = ground arith
push_unless-length test c (d ∷ s) = omega arith

length-rstrip_of_le : (test : ℕ → Bool) (s : Text) → length (rstrip_of test s) ≤ length s
unfolding rstrip_of
length-rstrip_of_le test [] = omega arith
length-rstrip_of_le test (c ∷ s) =
    let less = length-rstrip_of_le test s in
    let one = push_unless-length test c (rstrip_of test s) in omega arith

-- A title is one line of at most TITLE_MAX_CHARS characters with no markup in it.
abbrev pub IsTitle : Text → Type 0
IsTitle title = (length title ≤ title_max_chars) × All IsPlain title

plain_title-IsTitle : (line : Text) → IsTitle (plain_title line)
unfolding plain_title
plain_title-IsTitle line =
    let bare = select (λ c. not (is_markup c)) (drop_heading line) in
    let spaced = collapse_from false (map blank_control bare) in
    let plain =
      collapse_from-All false (map blank_control bare)
        (map-All bare (bare-All (drop_heading line))) in
    let unquoted = rstrip_of is_quote (lstrip_of is_quote spaced) in
    let all =
      rstrip_of-All IsPlain is_quote (lstrip_of is_quote spaced)
        (lstrip_of-All IsPlain is_quote spaced plain) in
    let cut = cut_at_word-IsWithin IsPlain unquoted title_max_chars all in
    let word = cut_at_word unquoted title_max_chars in
    let less = length-rstrip_of_le is_trailing word in
    (omega (arith, cut.0), rstrip_of-All IsPlain is_trailing word cut.1)

module _ (is_alnum : ℕ → Bool) where
  -- It has a letter or a digit too.
  usable_title-eq_some :
      (s title : Text)
      → usable_title is_alnum s ≡ some title
      → (s ≡ title) × (has_any is_alnum title ≡ true)
  unfolding usable_title
  usable_title-eq_some s title h = elim (Bool-cases (has_any is_alnum s)) [
    | inl e ↦ let same : s ≡ title = ground arith in (same, rw same at e)
    | inr e ↦ ground arith
  ]

  title_of-IsTitle :
      (line : Option Text) (title : Text)
      → title_of is_alnum line ≡ some title
      → IsTitle title × (has_any is_alnum title ≡ true)
  unfolding title_of
  title_of-IsTitle none title h = cc
  title_of-IsTitle (some line) title h =
      let (same, seen) = usable_title-eq_some (plain_title line) title h in
      (rw same at (plain_title-IsTitle line), seen)

  -- Whatever the model or the user wrote, a title that sanitize_title answers has at most
  -- TITLE_MAX_CHARS characters, a letter or a digit among them, and neither markup characters nor
  -- control characters, line ends included.
  pub sanitize_title-IsTitle :
      (raw title : Text)
      → sanitize_title is_alnum raw ≡ some title
      → IsTitle title × (has_any is_alnum title ≡ true)
  unfolding sanitize_title
  sanitize_title-IsTitle raw title h =
      let text = drop_blocks (length raw) raw in
      title_of-IsTitle (first_filled (split_lines (or_text (after_last_closing text) text))) title h
