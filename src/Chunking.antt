-- ===== src/Chunking.antt =====
-- agent/kb_chunking.py: fixed-size windows over a document, and the split of a long section.
pub mod Windows
pub mod Pieces
pub mod Sections
mod Samples
use Prim.Native.Nat.{min, max}
use mathlib.Core.Option
use ai_advent_challenge_9_v.Prelude.{
  ℕ, zero, suc, ◌+◌, ◌-◌, ◌*◌, ◌/◌, Bool, true, false, ◌&&◌, ◌||◌, Option, none, some, List, [],
  ◌∷◌, ◌==◌, ltb, leb, if◌then◌else◌, length, select, map,
}
use ai_advent_challenge_9_v.Strings.{Text, is_space, lstrip, strip, slice, char_is, rfind}

abbrev pub min_chunk_size : ℕ
min_chunk_size = 100

abbrev pub max_embed_chars : ℕ
max_embed_chars = 2000

abbrev pub struct_subsplit_overlap : ℕ
struct_subsplit_overlap = 100

pub record ChunkDraft : Type 0 where
  pub text : Text
  pub section : Option Text
  pub char_start : ℕ
  pub char_end : ℕ
  pub page_start : Option ℕ

pub data ParamsError : Type 0 where
  size_too_small size_too_large bad_overlap : ParamsError

-- `overlap` is not negative here.
unfoldable pub validate_chunk_params : ℕ → ℕ → Option ParamsError
validate_chunk_params size overlap =
    if ltb size min_chunk_size
    then some size_too_small
    else if ltb max_embed_chars size
    then some size_too_large
    else if leb size overlap || ltb (size / 2) overlap
    then some bad_overlap
    else none

-- `bisect_right` on offsets that are sorted.
abbrev bisect_right : List ℕ → ℕ → ℕ
bisect_right offsets x = length (select (λ o. leb o x) offsets)

unfoldable pub page_for_offset : Option (List ℕ) → ℕ → Option ℕ
page_for_offset none offset = none
page_for_offset (some []) offset = none
page_for_offset (some (o ∷ offsets)) offset = some (max 1 (bisect_right (o ∷ offsets) offset))

-- `_strip_span`
unfoldable pub strip_span : Text → (start end : ℕ) → ℕ × ℕ
strip_span text start end =
    let segment = slice text start end in
    let lead = length segment - length (lstrip segment) in
    (start + lead, start + lead + length (strip segment))

-- The later of two positions, where `none` is -1.
abbrev pub latest : Option ℕ → Option ℕ → Option ℕ
latest none b = b
latest (some a) none = some a
latest (some a) (some b) = some (max a b)

abbrev pub is_char : ℕ → ℕ → Bool
is_char c d = d == c

abbrev pub cut_after : ℕ → Option ℕ → ℕ
cut_after end none = end
cut_after end (some ws) = ws + 1

-- The end of a window: behind the last blank of its last fifth, if the text goes on.
unfoldable pub window_end : Text → (size total pos : ℕ) → ℕ
window_end text size total pos =
    let end = min (pos + size) total in
    let window_from = pos + size * 4 / 5 in
    if ltb end total
    then cut_after end (
        latest
          (latest (rfind (is_char 32) text window_from end)
            (rfind (is_char 10) text window_from end))
          (rfind (is_char 9) text window_from end))
    else end

abbrev pub draft : Text → Option (List ℕ) → ℕ × ℕ → ChunkDraft
draft text page_offsets (start, end) = record {
  text = slice text start end;
  section = none;
  char_start = start;
  char_end = end;
  page_start = page_for_offset page_offsets start;
}

abbrev pub draft_window : Text → Option (List ℕ) → ℕ × ℕ → List ChunkDraft → List ChunkDraft
draft_window text page_offsets (start, end) chunks =
    if ltb start end then draft text page_offsets (start, end) ∷ chunks else chunks

-- The `while` loop of `chunk_fixed`, over the rounds left; `none` where they do not suffice.
unfoldable pub fixed_from :
    Text → (size overlap : ℕ) → Option (List ℕ) → (rounds pos : ℕ) → Option (List ChunkDraft)
unfolding window_end
fixed_from text size overlap page_offsets zero pos = if ltb pos (length text) then none else some []
fixed_from text size overlap page_offsets (suc rounds) pos =
    let end = window_end text size (length text) pos in
    let rest = fixed_from text size overlap page_offsets rounds (max (pos + 1) (end - overlap)) in
    if ltb pos (length text)
    then Option.map (draft_window text page_offsets (strip_span text pos end))
        (if leb (length text) end then some [] else rest)
    else some []

unfoldable pub chunk_fixed : Text → (size overlap : ℕ) → Option (List ℕ) → Option (List ChunkDraft)
unfolding fixed_from
chunk_fixed text size overlap page_offsets =
    fixed_from text size overlap page_offsets (length text) 0

-- `text.rfind("\n\n", start, end)`: both characters lie before `end`.
unfoldable pub rfind_break : Text → (start end : ℕ) → Option ℕ
unfolding char_is
rfind_break text start zero = none
rfind_break text start (suc k) =
    let earlier = rfind_break text start k in
    if leb (start + 1) k
    then (if char_is (is_char 10) (k - 1) text && char_is (is_char 10) k text
        then some (k - 1)
        else earlier)
    else none

abbrev ends_sentence : ℕ → Bool
ends_sentence c = c == 46 || c == 33 || c == 63 || c == 59

-- Where a run of whitespace that starts at `pos` ends, before `end`.
unfoldable pub blank_end : Text → (rounds pos end : ℕ) → ℕ
unfolding char_is
blank_end text zero pos end = pos
blank_end text (suc rounds) pos end =
    let further = blank_end text rounds (pos + 1) end in
    if ltb pos end && char_is is_space pos text then further else pos

-- A match of SENTENCE_END_RE starts here: behind a mark, at a blank.
abbrev pub starts_gap : Text → ℕ → Bool
starts_gap text zero = false
starts_gap text (suc k) = char_is ends_sentence k text && char_is is_space (suc k) text

-- The last end of a match of SENTENCE_END_RE in the range that is not before `min_cut`.
unfoldable pub last_sentence_end : Text → (start end min_cut k : ℕ) → Option ℕ
unfolding blank_end
last_sentence_end text start end min_cut zero = none
last_sentence_end text start end min_cut (suc k) =
    let earlier = last_sentence_end text start end min_cut k in
    let cut = blank_end text end k end in
    if leb start k && starts_gap text k && leb min_cut cut then some cut else earlier

abbrev pub not_before : ℕ → Option ℕ → Option ℕ
not_before min_cut none = none
not_before min_cut (some k) = if leb min_cut k then some k else none

abbrev pub or_else : {A : Type 0} → Option A → A → A
or_else none a = a
or_else (some x) a = x

abbrev pub shift : ℕ → Option ℕ → Option ℕ
shift n none = none
shift n (some k) = some (k + n)

-- `_find_cut`: behind a paragraph, a sentence, a blank, or hard.
unfoldable pub find_cut : Text → (pos hard_end min_cut : ℕ) → ℕ
unfolding rfind_break last_sentence_end
find_cut text pos hard_end min_cut =
    or_else (shift 2 (not_before min_cut (rfind_break text pos hard_end))) (
      or_else (last_sentence_end text pos hard_end min_cut hard_end) (
        or_else
          (shift 1 (
            not_before min_cut (
              latest (rfind (is_char 32) text pos hard_end)
                (rfind (is_char 10) text pos hard_end))))
          hard_end))

-- The `while` loop of `_subsplit`, over the rounds left; `none` where they do not suffice.
unfoldable pub subsplit_from : Text → (end available rounds pos : ℕ) → Option (List (ℕ × ℕ))
unfolding find_cut
subsplit_from text end available zero pos = if ltb pos end then none else some []
subsplit_from text end available (suc rounds) pos =
    let hard_end = min (pos + available) end in
    let cut = if leb end hard_end then end else find_cut text pos hard_end (pos + available / 3) in
    let nxt = cut - struct_subsplit_overlap in
    let rest = subsplit_from text end available rounds (if ltb pos nxt then nxt else cut) in
    if ltb pos end
    then Option.map (λ spans. (pos, cut) ∷ spans) (if leb end cut then some [] else rest)
    else some []

-- `_subsplit`
unfoldable pub subsplit : Text → (start end available : ℕ) → Option (List (ℕ × ℕ))
unfolding subsplit_from
subsplit text start end available = subsplit_from text end available end start
