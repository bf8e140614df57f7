-- ===== src/Release/Versions.antt =====
-- agent/release_pipeline.py: release versions, from parse_version to tag_message.
pub mod Reading
pub mod Choice
use ai_advent_challenge_9_v.Prelude.{
  ℕ, zero, suc, ◌+◌, ◌-◌, ◌≤◌, ◌<◌, ◌≡◌, refl, Bool, true, false, not, ◌&&◌, ◌||◌, Option, none,
  some, List, [], ◌∷◌, ◌++◌, arith, ◌==◌, ltb, leb, if◌then◌else◌, select, length,
}
use ai_advent_challenge_9_v.Strings.{Text}
use ai_advent_challenge_9_v.Strings.Decimal.{show, read_number}
use ai_advent_challenge_9_v.Strings.Equal.{contains}

abbrev pub week_offset : ℕ
week_offset = 2

-- The major and the minor number.
abbrev pub Version : Type 0
Version = ℕ × ℕ

-- The order of Python's tuples.
abbrev pub below : Version → Version → Bool
below v w = ltb v.0 w.0 || (v.0 == w.0 && ltb v.1 w.1)

-- `f"v{major}.{minor}"`
unfoldable pub print_version : Version → Text
unfolding show
print_version (major, minor) = 118 ∷ show major ++ 46 ∷ show minor

pub data VersionError : Type 0 where
  bad_format : VersionError
  not_greater taken_already : Text → VersionError

-- `$` stands at the end, or before a line end that is the last character.
abbrev pub at_end : Text → Bool
at_end [] = true
at_end (c ∷ []) = c == 10
at_end (c ∷ d ∷ s) = false

module _ (unicode_digit : ℕ → Option ℕ) where
  abbrev pub minor_of : ℕ → Option (ℕ × Text) → Option Version
  minor_of major none = none
  minor_of major (some (minor, rest)) = if at_end rest then some (major, minor) else none

  abbrev pub after_major : Option (ℕ × Text) → Option Version
  after_major none = none
  after_major (some (major, [])) = none
  after_major (some (major, c ∷ rest)) =
      if c == 46 then minor_of major (read_number unicode_digit rest) else none

  unfoldable pub parse_version : Text → Option Version
  parse_version [] = none
  parse_version (c ∷ s) = if c == 118 then after_major (read_number unicode_digit s) else none

  abbrev pub better : Option (Version × Text) → Version → Bool
  better none v = true
  better (some (best, tag)) v = below best v

  abbrev pub consider : Option (Version × Text) → Text → Option Version → Option (Version × Text)
  consider best tag none = best
  consider best tag (some v) = if better best v then some (v, tag) else best

  unfoldable pub best_tag : Option (Version × Text) → List Text → Option (Version × Text)
  unfolding parse_version
  best_tag best [] = best
  best_tag best (tag ∷ tags) = best_tag (consider best tag (parse_version tag)) tags

  abbrev pub tag_of : Option (Version × Text) → Option Text
  tag_of none = none
  tag_of (some (v, tag)) = some tag

  unfoldable pub last_version_tag : List Text → Option Text
  unfolding best_tag
  last_version_tag tags = tag_of (best_tag none tags)

  abbrev pub candidates_after : Option Version → List Text → List Text
  candidates_after none taken = []
  candidates_after (some (major, minor)) taken =
      select (λ version. not (contains taken version))
        (print_version (major + 1, 0) ∷ print_version (major, minor + 1) ∷ [])

  -- The next major and the next minor version, without the ones that are taken.
  unfoldable pub version_candidates : Text → List Text → List Text
  version_candidates last_tag taken = candidates_after (parse_version last_tag) taken

  abbrev pub is_not_greater : Version → Option Version → Bool
  is_not_greater v none = false
  is_not_greater v (some last) = not (below last v)

  abbrev pub validate_parsed : Text → Text → List Text → Option Version → Option VersionError
  validate_parsed version last_tag taken none = some bad_format
  validate_parsed version last_tag taken (some v) =
      if is_not_greater v (parse_version last_tag)
      then some (not_greater last_tag)
      else if contains taken version
      then some (taken_already version)
      else none

  -- `none` is a valid version.
  unfoldable pub validate_version : Text → Text → List Text → Option VersionError
  unfolding parse_version
  validate_version version last_tag taken =
      validate_parsed version last_tag taken (parse_version version)

  abbrev week_of : Text → Option Version → Text
  week_of title none = 58 ∷ 32 ∷ title
  week_of title (some (major, zero)) =
      (32 ∷ 87 ∷ 101 ∷ 101 ∷ 107 ∷ 32 ∷ show (major + week_offset)) ++ 58 ∷ 32 ∷ title
  week_of title (some (major, suc minor)) = 58 ∷ 32 ∷ title

  -- "v4.0 Week 6: title" for a major version, "v4.1: title" else.
  unfoldable pub tag_message : Text → Text → Text
  unfolding parse_version show
  tag_message version title = version ++ week_of title (parse_version version)

-- `default_version`; `none` is the IndexError on no candidate.
abbrev last_of : Text → List Text → Text
last_of c [] = c
last_of c (d ∷ cs) = last_of d cs

unfoldable pub default_version : List Text → (breaking : Bool) (day_merges : ℕ) → Option Text
default_version [] breaking day_merges = none
default_version (c ∷ cs) breaking day_merges =
    some (if length cs == 0 then c else if breaking || ltb 0 day_merges then c else last_of c cs)
