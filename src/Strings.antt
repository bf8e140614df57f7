-- ===== src/Strings.antt =====
-- What the modelled code uses of Python's strings, over code points.
pub mod Spans
pub mod Decimal
pub mod Equal
pub mod Lines
use Prim.Native.Char.{code}
use Prim.Native.String.{String}
use ai_advent_challenge_9_v.Prelude.{
  zero, suc, ◌-◌, Option, none, some, ℕ, Bool, true, false, not, ◌&&◌, ◌||◌, List, [], ◌∷◌, ◌++◌,
  ◌==◌, leb, if◌then◌else◌, length,
}

-- A string as its code points.
abbrev pub Text : Type 0
Text = List ℕ

-- A literal.
abbrev pub codes : String → Text
codes String.[] = []
codes (String.◌∷◌ c s) = code c ∷ codes s

-- `str.isspace` of one character
unfoldable pub is_space : ℕ → Bool
is_space c =
    (leb 9 c && leb c 13)
    || (leb 28 c && leb c 32)
    || c == 133
    || c == 160
    || c == 5760
    || (leb 8192 c && leb c 8202)
    || c == 8232
    || c == 8233
    || c == 8239
    || c == 8287
    || c == 12288

unfoldable pub lstrip : Text → Text
unfolding is_space
lstrip [] = []
lstrip (c ∷ s) = if is_space c then lstrip s else c ∷ s

abbrev pub push_front : ℕ → Text → Text
push_front c [] = if is_space c then [] else c ∷ []
push_front c (d ∷ s) = c ∷ d ∷ s

unfoldable pub rstrip : Text → Text
unfolding is_space
rstrip [] = []
rstrip (c ∷ s) = push_front c (rstrip s)

-- `s.strip()`
unfoldable pub strip : Text → Text
unfolding lstrip rstrip
strip s = rstrip (lstrip s)

abbrev close_word : Text → List Text → List Text
close_word [] words = words
close_word (c ∷ w) words = (c ∷ w) ∷ words

-- `s.split()`: the first word may be open on its left.
unfoldable pub split_from : Text → Text → List Text
unfolding is_space
split_from word [] = close_word word []
split_from word (c ∷ s) =
    let closed = close_word word (split_from [] s) in
    let longer = split_from (word ++ c ∷ []) s in if is_space c then closed else longer

unfoldable pub split : Text → List Text
unfolding split_from
split s = split_from [] s

-- `" ".join(words)`
unfoldable pub join_spaces : List Text → Text
join_spaces [] = []
join_spaces (w ∷ []) = w
join_spaces (w ∷ v ∷ ws) = w ++ 32 ∷ join_spaces (v ∷ ws)

-- `s[start:end]`
unfoldable pub take : ℕ → Text → Text
take zero s = []
take (suc n) [] = []
take (suc n) (c ∷ s) = c ∷ take n s

unfoldable pub drop : ℕ → Text → Text
drop zero s = s
drop (suc n) [] = []
drop (suc n) (c ∷ s) = drop n s

unfoldable pub slice : Text → (start end : ℕ) → Text
unfolding take drop
slice s start end = take (end - start) (drop start s)

-- The character at a position passes a test.
unfoldable pub char_is : (ℕ → Bool) → ℕ → Text → Bool
char_is test k [] = false
char_is test zero (c ∷ s) = test c
char_is test (suc k) (c ∷ s) = char_is test k s

-- `s.rfind(c, start, end)`, for the characters that pass a test; `none` is -1.
unfoldable pub rfind : (ℕ → Bool) → Text → (start end : ℕ) → Option ℕ
unfolding char_is
rfind test s start zero = none
rfind test s start (suc k) =
    let earlier = rfind test s start k in
    if leb start k then (if char_is test k s then some k else earlier) else none

unfoldable pub starts_with : (start : Text) → Text → Bool
starts_with [] s = true
starts_with (c ∷ start) [] = false
starts_with (c ∷ start) (d ∷ s) = c == d && starts_with start s

-- `part in s`
unfoldable pub has_part : (part : Text) → Text → Bool
unfolding starts_with
has_part part [] = starts_with part []
has_part part (c ∷ s) = starts_with part (c ∷ s) || has_part part s

abbrev later_part : ℕ → Option (Text × Text) → Option (Text × Text)
later_part c none = none
later_part c (some (before, after)) = some (c ∷ before, after)

-- `s.split(sep, 1)` around the first `sep`; none where there is none.
unfoldable pub split_once : (sep : Text) → Text → Option (Text × Text)
unfolding starts_with drop
split_once sep [] = none
split_once sep (c ∷ s) =
    let rest = later_part c (split_once sep s) in
    if starts_with sep (c ∷ s) then some ([], drop (length sep) (c ∷ s)) else rest

-- `_WHITESPACE_RE.sub(" ", text)`: `in_run` says that the last character was whitespace.
unfoldable pub collapse_from : (in_run : Bool) → Text → Text
unfolding is_space
collapse_from in_run [] = []
collapse_from in_run (c ∷ s) =
    let rest = collapse_from (is_space c) s in
    if is_space c then (if in_run then rest else 32 ∷ rest) else c ∷ rest
