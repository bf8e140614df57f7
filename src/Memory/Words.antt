-- ===== src/Memory/Words.antt =====
-- agent/rag_rank.py: the words of a text, reduced to stems, and sets of them.
use ai_advent_challenge_9_v.Prelude.{
  ℕ, Bool, true, false, not, ◌&&◌, ◌||◌, List, [], ◌∷◌, ◌++◌, ltb, if◌then◌else◌, length, select,
  map,
}
use ai_advent_challenge_9_v.Strings.{Text, codes, strip, take, collapse_from}
use ai_advent_challenge_9_v.Strings.Equal.{contains}

-- What Python's strings know of Unicode: `str.lower`, `str.casefold`, the characters of the class
-- [^\W_], those of \d, and `str.isdigit`.
pub record Unicode : Type 0 where
  pub lower : Text → Text
  pub casefold : Text → Text
  pub is_word : ℕ → Bool
  pub is_decimal : ℕ → Bool
  pub is_digits : Text → Bool

abbrev pub close_run : Text → List Text → List Text
close_run [] runs = runs
close_run (c ∷ run) runs = (c ∷ run) ∷ runs

-- The longest runs of characters of a class, the first one open on its left.
unfoldable pub runs_from : (ℕ → Bool) → Text → Text → List Text
runs_from test run [] = close_run run []
runs_from test run (c ∷ s) =
    let closed = close_run run (runs_from test [] s) in
    let longer = runs_from test (run ++ c ∷ []) s in if test c then longer else closed

-- STOPWORDS of agent/rag_rank.py
abbrev pub stopwords : List Text
stopwords =
    codes "что"
    ∷ codes "как"
    ∷ codes "при"
    ∷ codes "или"
    ∷ codes "для"
    ∷ codes "это"
    ∷ codes "его"
    ∷ codes "они"
    ∷ codes "она"
    ∷ codes "оно"
    ∷ codes "который"
    ∷ codes "которая"
    ∷ codes "которые"
    ∷ codes "какой"
    ∷ codes "какая"
    ∷ codes "какие"
    ∷ codes "если"
    ∷ codes "также"
    ∷ codes "тоже"
    ∷ codes "под"
    ∷ codes "над"
    ∷ codes "без"
    ∷ codes "про"
    ∷ codes "чем"
    ∷ codes "где"
    ∷ codes "когда"
    ∷ codes "есть"
    ∷ codes "быть"
    ∷ codes "был"
    ∷ codes "была"
    ∷ codes "были"
    ∷ codes "может"
    ∷ codes "нужно"
    ∷ codes "надо"
    ∷ codes "the"
    ∷ codes "and"
    ∷ codes "for"
    ∷ []

-- A set as the list of its members, each once.
unfoldable pub distinct : List Text → List Text
unfolding contains
distinct [] = []
distinct (s ∷ more) = let rest = distinct more in if contains rest s then rest else s ∷ rest

unfoldable pub common : List Text → List Text → List Text
unfolding contains
common left right = select (contains right) left

-- `left <= right` of sets
unfoldable pub is_subset : List Text → List Text → Bool
unfolding contains
is_subset [] right = true
is_subset (s ∷ left) right = contains right s && is_subset left right

module _ (unicode : Unicode) where
  unfoldable pub tokenize : Text → List Text
  unfolding runs_from contains
  tokenize s =
      select
        (λ token. not (ltb (length token) 3 || contains stopwords token || unicode.is_digits token))
        (runs_from unicode.is_word [] (unicode.lower s))

  -- `stems`, a set of prefixes
  unfoldable pub stems : Text → List Text
  unfolding tokenize distinct take
  stems s = distinct (map (take 5) (tokenize s))

  unfoldable pub normalise_ws : Text → Text
  unfolding strip collapse_from
  normalise_ws s = unicode.casefold (strip (collapse_from false s))
