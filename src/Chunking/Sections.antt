-- ===== src/Chunking/Sections.antt =====
-- agent/kb_chunking.py: _paragraph_sections, paragraphs packed greedily into sections, and
-- _make_breadcrumb.
use ai_advent_challenge_9_v.Prelude.{
  ℕ, zero, suc, ◌+◌, ◌≤◌, ◌<◌, ◌≡◌, refl, ◌⊎◌, inl, inr, Bool, true, false, ◌&&◌, ◌||◌, Option,
  none, some, List, [], ◌∷◌, ◌++◌, arith, ◌==◌, ltb, leb, if◌then◌else◌, length, length-append,
  select, Bool-cases,
}
use ai_advent_challenge_9_v.Strings.{Text, strip, slice, take, char_is}
use ai_advent_challenge_9_v.Strings.Spans.{length-take_le}
use ai_advent_challenge_9_v.Chunking.{is_char, blank_end, or_else}

abbrev pub Span : Type 0
Span = ℕ × ℕ

abbrev pub max_breadcrumb_chars : ℕ
max_breadcrumb_chars = 300

-- `" > ".join(path)`
unfoldable pub join_path : List Text → Text
join_path [] = []
join_path (part ∷ []) = part
join_path (part ∷ next ∷ path) = part ++ 32 ∷ 62 ∷ 32 ∷ join_path (next ∷ path)

-- `_make_breadcrumb`; 8230 is the ellipsis.
unfoldable pub make_breadcrumb : Text → List Text → Text
unfolding join_path
make_breadcrumb doc_title tail =
    let crumb = join_path (doc_title ∷ tail) in
    if ltb max_breadcrumb_chars (length crumb) then take 299 crumb ++ 8230 ∷ [] else crumb

-- A breadcrumb has at most MAX_BREADCRUMB_CHARS characters, so a chunk keeps room for its text.
pub length-make_breadcrumb_le :
    (doc_title : Text) (tail : List Text)
    → length (make_breadcrumb doc_title tail) ≤ max_breadcrumb_chars
unfolding make_breadcrumb
length-make_breadcrumb_le doc_title tail =
    let crumb = join_path (doc_title ∷ tail) in
    elim (Bool-cases (ltb max_breadcrumb_chars (length crumb))) [
      | inr short ↦ rw short (ground arith)
      | inl long ↦ let cut = length-take_le 299 crumb in rw long (rw length-append (omega arith))
    ]

-- Where a run of blanks and tabs that starts at `pos` ends.
unfoldable pub blanks_end : Text → (rounds pos : ℕ) → ℕ
unfolding char_is
blanks_end text zero pos = pos
blanks_end text (suc rounds) pos =
    let further = blanks_end text rounds (pos + 1) in
    if char_is (λ c. c == 32 || c == 9) pos text then further else pos

-- The end of a match of PARA_SEP_RE that starts at `pos`: a line end, blanks, a line end, whitespace.
unfoldable pub separator_end : Text → (pos : ℕ) → Option ℕ
unfolding blanks_end blank_end
separator_end text pos =
    let total = length text in
    let second = blanks_end text total (pos + 1) in
    if char_is (is_char 10) pos text && char_is (is_char 10) second text
    then some (blank_end text total (second + 1) total)
    else none

abbrev is_found : Option ℕ → Bool
is_found none = false
is_found (some k) = true

-- The spans between the matches, from `pos` on, with the span that starts at `prev` open.
unfoldable pub paragraphs_from : Text → (rounds prev pos : ℕ) → List Span
unfolding separator_end
paragraphs_from text zero prev pos = (prev, length text) ∷ []
paragraphs_from text (suc rounds) prev pos =
    let gap = separator_end text pos in
    let rest = paragraphs_from text rounds (or_else gap prev) (or_else gap (pos + 1)) in
    if is_found gap then (prev, pos) ∷ rest else rest

abbrev has_text : Text → Span → Bool
has_text text (start, end) = ltb 0 (length (strip (slice text start end)))

-- The loop over the spans, with the section from `cur_start` to `cur_end` open.
unfoldable pub pack_from : (available cur_start cur_end : ℕ) → List Span → List Span
pack_from available cur_start cur_end [] = (cur_start, cur_end) ∷ []
pack_from available cur_start cur_end ((s, e) ∷ spans) =
    let fits = leb e (cur_start + available) in
    let rest = pack_from available (if fits then cur_start else s) e spans in
    if fits then rest else (cur_start, cur_end) ∷ rest

unfoldable pub pack : ℕ → List Span → List Span
unfolding pack_from
pack available [] = []
pack available ((s, e) ∷ spans) = pack_from available s e spans

-- `_paragraph_sections`, each section as its span: it has no heading.
unfoldable pub paragraph_sections : Text → ℕ → List Span
unfolding paragraphs_from pack
paragraph_sections text available =
    pack available (select (has_text text) (paragraphs_from text (length text + 1) 0 0))

abbrev pub last_end : ℕ → List Span → ℕ
last_end e [] = e
last_end e ((s, e') ∷ spans) = last_end e' spans

-- No span is left, or the next one ends too far for the section that starts at `start`.
abbrev pub IsFull : ℕ → ℕ → List Span → Type 0
IsFull available start [] = Unit
IsFull available start ((s, e) ∷ spans) = start + available < e

-- Sections made of consecutive spans, each once: a section starts with its first span and ends with
-- its last one, has room for them unless it is a single span, and is full.
pub data IsPacked (available : ℕ) : List Span → List Span → Type 0 where
  no_section : IsPacked available [] []
  section :
      (s e : ℕ) (others rest sections : List Span)
      → (others ≡ []) ⊎ (last_end e others ≤ s + available)
      → IsFull available s rest
      → IsPacked available rest sections
      → IsPacked available ((s, e) ∷ others ++ rest) ((s, last_end e others) ∷ sections)

last_end-append : (e s e' : ℕ) (spans : List Span) → last_end e (spans ++ (s, e') ∷ []) ≡ e'
last_end-append e s e' [] = refl
last_end-append e s e' ((a, b) ∷ spans) = last_end-append b s e' spans

append-one : (xs : List Span) (x : Span) (ys : List Span) → (xs ++ x ∷ []) ++ ys ≡ xs ++ x ∷ ys
append-one [] x ys = refl
append-one (y ∷ xs) x ys = let rest = append-one xs x ys in cc

pack_from-IsPacked :
    (available s e : ℕ) (others spans : List Span)
    → (others ≡ []) ⊎ (last_end e others ≤ s + available)
    → IsPacked available
        ((s, e) ∷ others ++ spans)
        (pack_from available s (last_end e others) spans)
unfolding pack_from
pack_from-IsPacked available s e others [] room = section s e others [] [] room tt no_section
pack_from-IsPacked available s e others ((s', e') ∷ spans) room =
    elim (Bool-cases (leb e' (s + available))) [
      | inl fits ↦
          let grown =
            pack_from-IsPacked available s e (others ++ (s', e') ∷ []) spans
              (inr (rw last_end-append (ground arith))) in
          rw fits (rw (append-one others (s', e') spans, last_end-append e s' e' others) at grown)
      | inr far ↦ rw far (
          section s e others ((s', e') ∷ spans) _ room (ground arith)
            (pack_from-IsPacked available s' e' [] spans (inl refl)))
    ]

-- The paragraphs are packed greedily: in order and each once, a section ends only where the next
-- paragraph does not fit, and only a section of one paragraph is longer than the room.
pub pack-IsPacked :
    (available : ℕ) (spans : List Span) → IsPacked available spans (pack available spans)
unfolding pack
pack-IsPacked available [] = no_section
pack-IsPacked available ((s, e) ∷ spans) = pack_from-IsPacked available s e [] spans (inl refl)
