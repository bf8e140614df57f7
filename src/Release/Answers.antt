-- ===== src/Release/Answers.antt =====
-- agent/release_pipeline.py: what the release command reads in the answers of its tools.
use ai_advent_challenge_9_v.Prelude.{
  ℕ, Bool, false, ◌&&◌, Option, none, some, List, [], ◌∷◌, ◌==◌, ltb, if◌then◌else◌, length, String,
}
use ai_advent_challenge_9_v.Strings.{
  Text, codes, strip, take, drop, starts_with, has_part, split_once,
}
use ai_advent_challenge_9_v.Strings.Lines.{split_lines}

-- A JSON value as the code looks at it: a string, a list with its strings told apart, or another
-- value. `shown` is `str(value)`.
pub data Value : Type 0 where
  text : Text → Value
  items : (shown : Text) → List (Option Text) → Value
  other : (shown : Text) (truthy : Bool) → Value

-- `data.get(key)`
abbrev pub Fields : Type 0
Fields = String → Option Value

-- What `json.loads` returns for a line.
pub data Parsed : Type 0 where
  object : Fields → Parsed
  not_object : Parsed

abbrev pub add_row : Fields → Option (List Fields) → Option (List Fields)
add_row row none = none
add_row row (some rows) = some (row ∷ rows)

abbrev pub add_parsed : Option Parsed → Option (List Fields) → Option (List Fields)
add_parsed none rows = none
add_parsed (some not_object) rows = none
add_parsed (some (object row)) rows = add_row row rows

abbrev starts_object : Text → Bool
starts_object [] = false
starts_object (c ∷ s) = c == 123

abbrev last_row : Option (List Fields) → Option Fields
last_row none = none
last_row (some []) = none
last_row (some (row ∷ [])) = some row
last_row (some (row ∷ next ∷ rows)) = last_row (some (next ∷ rows))

-- `loads` is `json.loads`, none where it raises.
module _ (loads : Text → Option Parsed) where
  -- `none` is the ReleaseParseError.
  unfoldable pub json_lines_of : List Text → Option (List Fields)
  unfolding strip
  json_lines_of [] = some []
  json_lines_of (line ∷ lines) =
      let stripped = strip line in
      let rest = json_lines_of lines in
      if starts_object stripped then add_parsed (loads stripped) rest else rest

  -- `_json_lines`
  unfoldable pub json_lines : Text → Option (List Fields)
  unfolding json_lines_of split_lines
  json_lines s = json_lines_of (split_lines s)

  unfoldable pub parse_json_tail : Text → Option Fields
  unfolding json_lines
  parse_json_tail s = last_row (json_lines s)

-- `value if isinstance(value, str) else None`
abbrev pub text_of : Option Value → Option Text
text_of (some (text s)) = some s
text_of _ = none

abbrev pub only_texts : List (Option Text) → List Text
only_texts [] = []
only_texts (none ∷ values) = only_texts values
only_texts (some s ∷ values) = s ∷ only_texts values

-- `_str_list`
abbrev pub text_list : Option Value → List Text
text_list (some (items shown values)) = only_texts values
text_list _ = []

abbrev pub optional_list : Option Value → Option (List Text)
optional_list (some (items shown values)) = some (only_texts values)
optional_list _ = none

-- `str(value or "")`
abbrev pub shown_or_empty : Option Value → Text
shown_or_empty none = []
shown_or_empty (some (text s)) = s
shown_or_empty (some (items shown values)) = if length values == 0 then [] else shown
shown_or_empty (some (other shown truthy)) = if truthy then shown else []

pub record ReleaseContext : Type 0 where
  pub branch : Option Text
  pub head : Text
  pub origin_url : Option Text
  pub local_tags : List Text
  pub merged_tags : List Text
  pub remote_tags : Option (List Text)
  pub remote_error : Option Text
  pub dirty : List Text

abbrev pub context_of : Option Fields → Option ReleaseContext
context_of none = none
context_of (some row) = some (record {
  branch = text_of (row "branch");
  head = shown_or_empty (row "head");
  origin_url = text_of (row "origin_url");
  local_tags = text_list (row "local_tags");
  merged_tags = text_list (row "merged_tags");
  remote_tags = optional_list (row "remote_tags");
  remote_error = text_of (row "remote_error");
  dirty = text_list (row "dirty");
})

unfoldable pub parse_context : (Text → Option Parsed) → Text → Option ReleaseContext
unfolding parse_json_tail
parse_context loads s = context_of (parse_json_tail loads s)

abbrev pub renamed_to : Text → Option (Text × Text) → Text
renamed_to path none = path
renamed_to path (some (before, after)) = after

-- The path of a porcelain status line; of a rename the new one.
unfoldable pub dirty_path : Text → Text
unfolding strip drop split_once
dirty_path line = let path = strip (drop 3 line) in renamed_to path (split_once (codes " -> ") path)

unfoldable pub dirty_paths : List Text → List Text
unfolding dirty_path
dirty_paths [] = []
dirty_paths (line ∷ lines) =
    let path = dirty_path line in
    let rest = dirty_paths lines in if length path == 0 then rest else path ∷ rest

unfoldable pub is_release_link : Text → Bool
unfolding starts_with has_part
is_release_link url =
    starts_with (codes "https://github.com/") url && has_part (codes "/releases/") url

abbrev pub detail_max_chars : ℕ
detail_max_chars = 500

unfoldable pub first_line_of : List Text → Text
unfolding strip take
first_line_of [] = []
first_line_of (line ∷ lines) =
    let rest = first_line_of lines in
    if ltb 0 (length (strip line)) then take detail_max_chars (strip line) else rest

-- `_first_line`
unfoldable pub first_line : Text → Text
unfolding first_line_of split_lines
first_line s = first_line_of (split_lines s)
