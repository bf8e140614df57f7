-- ===== src/Strings/Lines.antt =====
-- Python's splitlines, and `str.isalnum` as what comes from outside.
use ai_advent_challenge_9_v.Prelude.{
  ℕ, Bool, false, ◌&&◌, ◌||◌, List, [], ◌∷◌, ◌++◌, ◌==◌, leb, if◌then◌else◌,
}
use ai_advent_challenge_9_v.Strings.{Text}

abbrev pub is_line_end : ℕ → Bool
is_line_end c =
    (leb 10 c && leb c 13) || (leb 28 c && leb c 30) || c == 133 || c == 8232 || c == 8233

-- A line break of two characters, "\r\n", counts once: `after_cr` says that the last one was "\r".
-- The line so far is `line`; a line that is still empty at the end is none.
unfoldable pub lines_from : Text → (after_cr : Bool) → Text → List Text
lines_from [] after_cr [] = []
lines_from (c ∷ line) after_cr [] = (c ∷ line) ∷ []
lines_from line after_cr (c ∷ s) =
    let joined = after_cr && c == 10 in
    let ends = is_line_end c in
    let rest = lines_from (if ends then [] else line ++ c ∷ []) (c == 13) s in
    if joined then rest else if ends then line ∷ rest else rest

-- `s.splitlines()`
unfoldable pub split_lines : Text → List Text
unfolding lines_from
split_lines s = lines_from [] false s
