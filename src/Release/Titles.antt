-- ===== src/Release/Titles.antt =====
-- agent/release_pipeline.py: sanitize_title and what it is made of.
pub mod Clean
use ai_advent_challenge_9_v.Prelude.{
  ℕ, zero, suc, ◌+◌, ◌-◌, Bool, true, false, not, ◌&&◌, ◌||◌, Option, none, some, List, [], ◌∷◌,
  ◌++◌, ◌==◌, ltb, leb, if◌then◌else◌, length, select, map,
}
use ai_advent_challenge_9_v.Strings.{
  Text, collapse_from, is_space, lstrip, rstrip, strip, take, drop, char_is,
}
use ai_advent_challenge_9_v.Strings.Lines.{split_lines}

abbrev pub title_max_chars : ℕ
title_max_chars = 80

-- The case that `re.IGNORECASE` compares in, for the letters of the patterns below.
abbrev pub fold : ℕ → ℕ
fold c =
    if leb 65 c && leb c 90
    then c + 32
    else if c == 8490
    then 107
    else if c == 304 || c == 305
    then 105
    else c

-- The text behind a word that it starts with.
unfoldable pub after_word : (word : Text) → Text → Option Text
after_word [] s = some s
after_word (w ∷ word) [] = none
after_word (w ∷ word) (c ∷ s) = if fold c == w then after_word word s else none

-- "<think>", "</think>" and "</think"
abbrev opening : Text
opening = 60 ∷ 116 ∷ 104 ∷ 105 ∷ 110 ∷ 107 ∷ 62 ∷ []

abbrev closing : Text
closing = 60 ∷ 47 ∷ 116 ∷ 104 ∷ 105 ∷ 110 ∷ 107 ∷ 62 ∷ []

abbrev closing_start : Text
closing_start = 60 ∷ 47 ∷ 116 ∷ 104 ∷ 105 ∷ 110 ∷ 107 ∷ []

abbrev pub or_text : Option Text → Text → Text
or_text none s = s
or_text (some t) s = t

abbrev pub is_found : Option Text → Bool
is_found none = false
is_found (some t) = true

abbrev pub first_of : Option Text → Option Text → Option Text
first_of none o = o
first_of (some t) o = some t

-- The text behind the first closing tag.
unfoldable pub after_closing : Text → Option Text
unfolding after_word
after_closing [] = none
after_closing (c ∷ s) = first_of (after_word closing (c ∷ s)) (after_closing s)

unfoldable pub closed_block : Option Text → Option Text
unfolding after_closing
closed_block none = none
closed_block (some s) = after_closing s

-- `_THINK_BLOCK_RE.sub("", text)`, in the rounds left.
unfoldable pub drop_blocks : (rounds : ℕ) → Text → Text
unfolding closed_block after_word
drop_blocks zero s = s
drop_blocks (suc rounds) [] = []
drop_blocks (suc rounds) (c ∷ s) =
    let behind = closed_block (after_word opening (c ∷ s)) in
    let rest = drop_blocks rounds (or_text behind s) in if is_found behind then rest else c ∷ rest

abbrev after_bracket : Text → Option Text
after_bracket [] = none
after_bracket (c ∷ s) = if c == 62 then some s else none

unfoldable pub closing_at : Option Text → Option Text
unfolding lstrip
closing_at none = none
closing_at (some s) = after_bracket (lstrip s)

-- The text behind the last match of `_THINK_CLOSE_RE`.
unfoldable pub after_last_closing : Text → Option Text
unfolding closing_at after_word
after_last_closing [] = none
after_last_closing (c ∷ s) =
    first_of (after_last_closing s) (closing_at (after_word closing_start (c ∷ s)))

unfoldable pub drop_hashes : (most : ℕ) → Text → Text
drop_hashes zero s = s
drop_hashes (suc most) [] = []
drop_hashes (suc most) (c ∷ s) = let rest = drop_hashes most s in if c == 35 then rest else c ∷ s

abbrev starts_with : (ℕ → Bool) → Text → Bool
starts_with test [] = false
starts_with test (c ∷ s) = test c

-- `_HEADING_PREFIX_RE.sub("", line)`
unfoldable pub drop_heading : Text → Text
unfolding lstrip drop_hashes is_space
drop_heading s =
    let body = lstrip s in
    let behind = drop_hashes 6 body in
    if starts_with (λ c. c == 35) body && starts_with is_space behind then lstrip behind else s

abbrev pub is_markup : ℕ → Bool
is_markup c = c == 42 || c == 96 || c == 126 || c == 60 || c == 62

abbrev pub is_control : ℕ → Bool
is_control c = leb c 31 || (leb 127 c && leb c 159)

abbrev pub blank_control : ℕ → ℕ
blank_control c = if is_control c then 32 else c

-- `s.lstrip(chars)` and `s.rstrip(chars)`
unfoldable pub lstrip_of : (ℕ → Bool) → Text → Text
lstrip_of test [] = []
lstrip_of test (c ∷ s) = if test c then lstrip_of test s else c ∷ s

abbrev pub push_unless : (ℕ → Bool) → ℕ → Text → Text
push_unless test c [] = if test c then [] else c ∷ []
push_unless test c (d ∷ s) = c ∷ d ∷ s

unfoldable pub rstrip_of : (ℕ → Bool) → Text → Text
rstrip_of test [] = []
rstrip_of test (c ∷ s) = push_unless test c (rstrip_of test s)

abbrev pub is_quote : ℕ → Bool
is_quote c =
    c == 34 || c == 39 || c == 171 || c == 187 || c == 8220 || c == 8221 || c == 8222 || c == 32

abbrev pub is_trailing : ℕ → Bool
is_trailing c =
    c == 46 || c == 44 || c == 58 || c == 59 || c == 33 || c == 63 || c == 8230 || c == 32

abbrev pub prefixed : ℕ → Option Text → Option Text
prefixed c none = none
prefixed c (some s) = some (c ∷ s)

abbrev pub empty_at_space : ℕ → Option Text
empty_at_space c = if c == 32 then some [] else none

-- `s.rsplit(" ", 1)[0]`, none where there is no space.
unfoldable pub before_last_space : Text → Option Text
before_last_space [] = none
before_last_space (c ∷ s) = first_of (prefixed c (before_last_space s)) (empty_at_space c)

-- `_cut_at_word`
unfoldable pub cut_at_word : Text → (limit : ℕ) → Text
unfolding take char_is before_last_space rstrip
cut_at_word text limit =
    let cut = take limit text in
    let word =
      if char_is (λ c. c == 32) limit text then cut else or_text (before_last_space cut) cut in
    if leb (length text) limit then text else rstrip word

-- The first line that is not blank.
unfoldable pub first_filled : List Text → Option Text
unfolding strip
first_filled [] = none
first_filled (line ∷ lines) =
    let rest = first_filled lines in if ltb 0 (length (strip line)) then some line else rest

unfoldable pub plain_title : Text → Text
unfolding drop_heading collapse_from lstrip_of rstrip_of cut_at_word
plain_title line =
    let bare = select (λ c. not (is_markup c)) (drop_heading line) in
    let spaced = collapse_from false (map blank_control bare) in
    let unquoted = rstrip_of is_quote (lstrip_of is_quote spaced) in
    rstrip_of is_trailing (cut_at_word unquoted title_max_chars)

unfoldable pub has_any : (ℕ → Bool) → Text → Bool
has_any test [] = false
has_any test (c ∷ s) = test c || has_any test s

-- `is_alnum` is `str.isalnum` of one character.
module _ (is_alnum : ℕ → Bool) where
  unfoldable pub usable_title : Text → Option Text
  unfolding has_any
  usable_title title = if has_any is_alnum title then some title else none

  unfoldable pub title_of : Option Text → Option Text
  unfolding usable_title plain_title
  title_of none = none
  title_of (some line) = usable_title (plain_title line)

  -- `sanitize_title` of a text; of anything else it is None.
  unfoldable pub sanitize_title : Text → Option Text
  unfolding title_of drop_blocks after_last_closing first_filled split_lines
  sanitize_title raw =
      let text = drop_blocks (length raw) raw in
      title_of (first_filled (split_lines (or_text (after_last_closing text) text)))
