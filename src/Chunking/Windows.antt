-- ===== src/Chunking/Windows.antt =====
-- agent/kb_chunking.py: the windows of chunk_fixed end, fit, and lose nothing of the text.
use Prim.Native.Nat.{min, max}
use ai_advent_challenge_9_v.Prelude.{
  ℕ, zero, suc, ◌+◌, ◌-◌, ◌*◌, ◌/◌, ◌≤◌, ◌<◌, ◌≡◌, refl, inl, inr, Bool, true, false, ◌&&◌, ◌||◌,
  Option, none, some, List, [], ◌∷◌, arith, ltb, leb, length, Bool-cases, Option-cases, All,
}
use ai_advent_challenge_9_v.Strings.{Text, slice, char_is, rfind}
use ai_advent_challenge_9_v.Strings.Spans.{
  solid, char_is-lt-length, rfind-bounds, strip-solid, length-strip_le, length-slice_le,
  char_is-slice,
}
use ai_advent_challenge_9_v.Chunking.{
  ChunkDraft, page_for_offset, strip_span, latest, is_char, cut_after, window_end, draft_window,
  fixed_from, chunk_fixed,
}

-- A position that was found lies in the range.
abbrev pub InRange : ℕ → ℕ → Option ℕ → Type 0
InRange a b none = Unit
InRange a b (some k) = (a ≤ k) × (k < b)

pub rfind-InRange :
    (test : ℕ → Bool) (text : Text) (start end : ℕ) → InRange start end (rfind test text start end)
rfind-InRange test text start end = elim (Option-cases (rfind test text start end)) [
  | inl absent ↦ rw absent tt
  | inr (k, found) ↦ rw found (rfind-bounds test text start end k found)
]

pub latest-InRange :
    (a b : ℕ) (m n : Option ℕ) → InRange a b m → InRange a b n → InRange a b (latest m n)
latest-InRange a b none n hm hn = hn
latest-InRange a b (some i) none hm hn = hm
latest-InRange a b (some i) (some j) hm hn = (grind arith, grind arith)

pub cut_after-bounds :
    (a end : ℕ) (m : Option ℕ)
    → a < end
    → InRange a end m
    → (a < cut_after end m) × (cut_after end m ≤ end)
cut_after-bounds a end none h hm = (h, omega arith)
cut_after-bounds a end (some k) h hm = (omega arith, omega arith)

-- A window is not empty, and holds at most `size` characters of the text.
record IsWindow (size total pos end : ℕ) : Type 0 where
  ahead : pos < end
  fits : end ≤ pos + size
  inside : end ≤ total

window_end-IsWindow :
    (text : Text) (size total pos : ℕ)
    → 0 < size
    → pos < total
    → IsWindow size total pos (window_end text size total pos)
unfolding window_end
window_end-IsWindow text size total pos positive more =
    let end = min (pos + size) total in
    let window_from = pos + size * 4 / 5 in
    elim (Bool-cases (ltb end total)) [
      | inr last ↦
          rw last (record { ahead = grind arith; fits = grind arith; inside = grind arith })
      | inl goes_on ↦
          let whole : end ≡ pos + size = grind arith in
          let fifth : size * 4 / 5 < size = omega arith in
          let early : window_from < end = omega arith in
          let found =
            latest-InRange window_from end _ _
              (latest-InRange window_from end _ _ (rfind-InRange (is_char 32) text window_from end)
                (rfind-InRange (is_char 10) text window_from end))
              (rfind-InRange (is_char 9) text window_from end) in
          let (past, near) = cut_after-bounds window_from end _ early found in
          rw goes_on (record { ahead = omega arith; fits = omega arith; inside = grind arith })
    ]

-- The strip of a span lies inside it, and holds all that is no whitespace.
pub strip_span-bounds :
    (text : Text) (start end : ℕ)
    → start ≤ end
    → let (a, b) = strip_span text start end in (start ≤ a) × (b ≤ end)
unfolding strip_span
strip_span-bounds text start end h =
    let short = length-slice_le text start end in
    let inside = length-strip_le (slice text start end) in (omega arith, omega arith)

pub strip_span-solid :
    (text : Text) (start end i : ℕ)
    → start ≤ i
    → i < end
    → char_is solid i text ≡ true
    → let (a, b) = strip_span text start end in (a ≤ i) × (i < b)
unfolding strip_span
strip_span-solid text start end i from to h =
    let at : start + (i - start) ≡ i = omega arith in
    let moved : char_is solid (start + (i - start)) text ≡ true = rw at h in
    let there : char_is solid (i - start) (slice text start end) ≡ true =
      rw (char_is-slice solid (i - start) text start end (omega arith)) moved in
    let (low, high) = strip-solid (i - start) (slice text start end) there in
    (omega arith, omega arith)

-- What a chunk says of itself is true: it is the piece of the text between its ends, which starts at
-- most `size` characters before it ends.
pub record IsDraft (text : Text) (size : ℕ) (page_offsets : Option (List ℕ)) (chunk : ChunkDraft)
    : Type 0 where
  pub filled : chunk.char_start < chunk.char_end
  pub fits : chunk.char_end ≤ chunk.char_start + size
  pub inside : chunk.char_end ≤ length text
  pub text_of : chunk.text ≡ slice text chunk.char_start chunk.char_end
  pub page_of : chunk.page_start ≡ page_for_offset page_offsets chunk.char_start

abbrev pub covered : ℕ → List ChunkDraft → Bool
covered i [] = false
covered i (chunk ∷ chunks) = leb chunk.char_start i && ltb i chunk.char_end || covered i chunks

-- Chunks of the text from `pos` on: each is true to the text, and no character is lost but
-- whitespace.
pub record IsChunked (text : Text) (size : ℕ) (page_offsets : Option (List ℕ)) (pos : ℕ)
    (chunks : List ChunkDraft) : Type 0 where
  pub drafts : All (IsDraft text size page_offsets) chunks
  pub covers : (i : ℕ) → pos ≤ i → char_is solid i text ≡ true → covered i chunks ≡ true

module _ (text : Text) (size overlap : ℕ) (page_offsets : Option (List ℕ)) where
  nothing-IsChunked : (pos : ℕ) → length text ≤ pos → IsChunked text size page_offsets pos []
  nothing-IsChunked pos end = record {
    drafts = tt;
    covers = λ i from seen. let inside = char_is-lt-length solid i text seen in ground arith;
  }

  draft_window-IsChunked :
      (pos end next : ℕ) (chunks : List ChunkDraft)
      → IsWindow size (length text) pos end
      → next ≤ end
      → IsChunked text size page_offsets next chunks
      → IsChunked text size page_offsets pos
          (draft_window text page_offsets (strip_span text pos end) chunks)
  draft_window-IsChunked pos end next chunks window no_gap rest =
      let ahead = window.ahead in
      let fits = window.fits in
      let inside = window.inside in
      let (low, high) = strip_span-bounds text pos end (omega arith) in
      let span = strip_span text pos end in
      elim (Bool-cases (ltb span.0 span.1)) [
        | inl filled ↦ rw filled (record {
          drafts = (
            record {
              filled = ground arith;
              fits = omega arith;
              inside = omega arith;
              text_of = refl;
              page_of = refl;
            },
            rest.drafts,
          );
          covers = λ i from seen. elim (Bool-cases (ltb i end)) [
            | inl here ↦
                let (first, last) = strip_span-solid text pos end i from (ground arith) seen in
                ground arith
            | inr later ↦ let there = rest.covers i (ground arith) seen in ground arith
          ];
        })
        | inr blank ↦ rw blank (record {
          drafts = rest.drafts;
          covers = λ i from seen. elim (Bool-cases (ltb i end)) [
            | inl here ↦
                let (first, last) = strip_span-solid text pos end i from (ground arith) seen in
                ground arith
            | inr later ↦ rest.covers i (ground arith) seen
          ];
        })
      ]

  fixed_from-IsChunked :
      (rounds pos : ℕ)
      → 0 < size
      → length text ≤ rounds + pos
      → (chunks : List ChunkDraft) × (fixed_from text size overlap page_offsets rounds pos
          ≡ some chunks)
        × IsChunked text size page_offsets pos chunks
  unfolding fixed_from
  fixed_from-IsChunked zero pos positive enough =
      ([], ground arith, nothing-IsChunked pos (omega arith))
  fixed_from-IsChunked (suc rounds) pos positive enough =
      elim (Bool-cases (ltb pos (length text))) [
        | inr over ↦ ([], rw over refl, nothing-IsChunked pos (ground arith))
        | inl more ↦
            let end = window_end text size (length text) pos in
            let window = window_end-IsWindow text size (length text) pos positive (ground arith) in
            let ahead = window.ahead in
            let span = strip_span text pos end in
            elim (Bool-cases (leb (length text) end)) [
              | inl last ↦ (
                draft_window text page_offsets span [],
                rw more (rw last refl),
                draft_window-IsChunked pos end end [] window (omega arith)
                    (nothing-IsChunked end (ground arith)),
              )
              | inr goes_on ↦
                  let next = max (pos + 1) (end - overlap) in
                  let (chunks, found, rest) =
                    fixed_from-IsChunked rounds next positive (grind arith) in
                  (
                    draft_window text page_offsets span chunks,
                    rw more (rw goes_on (rw found refl)),
                    draft_window-IsChunked pos end next chunks window (grind arith) rest,
                  )
            ]
      ]

  -- For a positive size and whatever overlap, chunk_fixed ends; each chunk is the stripped piece of
  -- the text between its ends, not empty, of at most `size` characters and with its page; and every
  -- character of the text that is no whitespace lies in a chunk.
  pub chunk_fixed-IsChunked :
      0 < size
      → (chunks : List ChunkDraft) × (chunk_fixed text size overlap page_offsets ≡ some chunks)
        × IsChunked text size page_offsets 0 chunks
  unfolding chunk_fixed
  chunk_fixed-IsChunked positive = fixed_from-IsChunked (length text) 0 positive (omega arith)
