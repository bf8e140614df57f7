-- ===== src/Chunking/Samples.antt =====
-- agent/kb_chunking.py: small texts, and the theorems at them.
use ai_advent_challenge_9_v.Prelude.{ℕ, ◌≡◌, refl, none, some, List, [], ◌∷◌, arith}
use ai_advent_challenge_9_v.Strings.{
  Text, is_space, lstrip, rstrip, strip, take, drop, slice, char_is, rfind,
}
use ai_advent_challenge_9_v.Chunking.{
  ChunkDraft, page_for_offset, strip_span, window_end, fixed_from, chunk_fixed, subsplit,
  subsplit_from, find_cut, rfind_break, last_sentence_end, blank_end, validate_chunk_params,
  bad_overlap,
}
use ai_advent_challenge_9_v.Chunking.Windows.{IsChunked, chunk_fixed-IsChunked}
use ai_advent_challenge_9_v.Chunking.Sections.{
  paragraph_sections, paragraphs_from, separator_end, blanks_end, pack, pack_from, IsPacked,
  pack-IsPacked,
}
use ai_advent_challenge_9_v.Chunking.Pieces.{IsSplit, subsplit-IsSplit}

program : Unit {0}
unfolding chunk_fixed fixed_from window_end strip_span page_for_offset slice take drop strip lstrip
    rstrip is_space char_is rfind subsplit subsplit_from find_cut rfind_break last_sentence_end
    blank_end validate_chunk_params
program = tt

-- "ab c. d"
abbrev words : Text
words = 97 ∷ 98 ∷ 32 ∷ 99 ∷ 46 ∷ 32 ∷ 100 ∷ []

abbrev piece : Text → ℕ → ℕ → ℕ → ChunkDraft
piece text start end page = record {
  text = text;
  section = none;
  char_start = start;
  char_end = end;
  page_start = some page;
}

abbrev pieces : List ChunkDraft
pieces = piece (97 ∷ 98 ∷ 32 ∷ 99 ∷ 46 ∷ []) 0 5 1 ∷ piece (46 ∷ 32 ∷ 100 ∷ []) 4 7 2 ∷ []

windows_overlap : chunk_fixed words 5 1 (some (0 ∷ 3 ∷ [])) ≡ some pieces
unfolding program
windows_overlap = refl

cut_behind_the_sentence : subsplit words 0 7 6 ≡ some ((0, 6) ∷ (6, 7) ∷ [])
unfolding program
cut_behind_the_sentence = refl

half_is_too_much : validate_chunk_params 101 51 ≡ some bad_overlap
unfolding program
half_is_too_much = refl

chunk_fixed-IsChunked_example :
    (chunks : List ChunkDraft) × (chunk_fixed words 5 1 (some (0 ∷ 3 ∷ [])) ≡ some chunks)
    × IsChunked words 5 (some (0 ∷ 3 ∷ [])) 0 chunks
chunk_fixed-IsChunked_example = chunk_fixed-IsChunked words 5 1 (some (0 ∷ 3 ∷ [])) (omega arith)

subsplit-IsSplit_example :
    (spans : List (ℕ × ℕ)) × (subsplit words 0 7 6 ≡ some spans) × IsSplit 6 7 0 spans
subsplit-IsSplit_example = subsplit-IsSplit words 7 6 0 (omega arith) (omega arith)

-- "a", an empty line, "b", an empty line, "cde"
abbrev three : Text
three = 97 ∷ 10 ∷ 32 ∷ 10 ∷ 98 ∷ 10 ∷ 10 ∷ 99 ∷ 100 ∷ 101 ∷ []

two_fit_in_one : paragraph_sections three 5 ≡ (0, 5) ∷ (7, 10) ∷ []
unfolding program paragraph_sections paragraphs_from separator_end blanks_end pack pack_from
two_fit_in_one = refl

pack-IsPacked_example :
    IsPacked 5 ((0, 1) ∷ (4, 5) ∷ (7, 10) ∷ []) (pack 5 ((0, 1) ∷ (4, 5) ∷ (7, 10) ∷ []))
pack-IsPacked_example = pack-IsPacked 5 ((0, 1) ∷ (4, 5) ∷ (7, 10) ∷ [])
