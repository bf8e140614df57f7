-- ===== src/Release/Checks.antt =====
-- agent/release_executor.py: the overrides of a confirm and the checks before it writes.
use ai_advent_challenge_9_v.Prelude.{
  ℕ, Bool, false, not, ◌||◌, Option, none, some, List, [], ◌∷◌, ◌++◌, ltb, if◌then◌else◌, length,
}
use ai_advent_challenge_9_v.Strings.{Text, strip}
use ai_advent_challenge_9_v.Strings.Equal.{same_text}
use ai_advent_challenge_9_v.Release.Versions.{VersionError, validate_version}
use ai_advent_challenge_9_v.Release.Titles.{sanitize_title}
use ai_advent_challenge_9_v.Release.Answers.{
  Parsed, ReleaseContext, parse_context, dirty_paths, first_line,
}
use ai_advent_challenge_9_v.Release.Plan.{commit, state_of, is_done, ReleasePlan}
use ai_advent_challenge_9_v.Release.Steps.{
  ToolOutcome, Detail, answered, bad_answer, head_changed, dirty_tree, bad_version,
}

abbrev filled : Text → Option Text
filled [] = none
filled (c ∷ s) = some (c ∷ s)

unfoldable pub new_version : Option Text → Option Text
unfolding strip
new_version none = none
new_version (some version) = filled (strip version)

abbrev pub differs : Option Text → Text → Bool
differs none old = false
differs (some new) old = not (same_text new old)

abbrev pub or_else : Option Text → Text → Text
or_else none old = old
or_else (some new) old = new

-- `json.loads`, none where it raises; `str.isalnum` of one character; the value of a decimal digit
-- outside of ASCII.
module _ (loads : Text → Option Parsed) (is_alnum : ℕ → Bool) (unicode_digit : ℕ → Option ℕ) where
  unfoldable pub new_title : Option Text → Option Text
  unfolding sanitize_title
  new_title none = none
  new_title (some []) = none
  new_title (some (c ∷ s)) = sanitize_title is_alnum (c ∷ s)

  -- `_apply_overrides`: the plan, and whether the hint that it is locked is returned.
  unfoldable pub apply_overrides : ReleasePlan → (version title : Option Text) → ReleasePlan × Bool
  unfolding new_version new_title same_text
  apply_overrides plan version title =
      let fresh_version = new_version version in
      let fresh_title = new_title title in
      if is_done (state_of commit plan.steps)
      then (plan, differs fresh_version plan.version || differs fresh_title plan.title)
      else (
        record plan {
          version = or_else fresh_version plan.version;
          title = or_else fresh_title plan.title;
        },
        false,
      )

  abbrev pub version_reason : Option VersionError → Option Detail
  version_reason none = none
  version_reason (some error) = some (bad_version error)

  abbrev pub remote_of : Option (List Text) → List Text
  remote_of none = []
  remote_of (some tags) = tags

  unfoldable pub is_expected : (head : Text) → Option Text → Bool
  unfolding same_text
  is_expected head none = false
  is_expected head (some expected) = same_text head expected

  unfoldable pub recheck : ReleasePlan → ReleaseContext → Option Detail
  unfolding dirty_paths is_expected validate_version
  recheck plan context =
      let paths = dirty_paths context.dirty in
      let committed = is_done (state_of commit plan.steps) in
      let expected = if committed then plan.commit_sha else some plan.head_sha in
      let taken = context.local_tags ++ remote_of context.remote_tags in
      if ltb 0 (length paths)
      then some (dirty_tree paths)
      else if not (is_expected context.head expected)
      then some head_changed
      else if committed
      then none
      else version_reason (validate_version unicode_digit plan.version plan.last_tag taken)

  abbrev pub recheck_parsed : ReleasePlan → Option ReleaseContext → Option Detail
  recheck_parsed plan none = some bad_answer
  recheck_parsed plan (some context) = recheck plan context

  abbrev pub line_or_bad : Text → Detail
  line_or_bad [] = bad_answer
  line_or_bad (c ∷ s) = answered (c ∷ s)

  -- `_revalidate`, for the answer of release_context.
  unfoldable pub revalidate : ReleasePlan → ToolOutcome → Option Detail
  unfolding recheck parse_context first_line
  revalidate plan outcome =
      if outcome.ok
      then recheck_parsed plan (parse_context loads outcome.answer)
      else some (line_or_bad (first_line outcome.answer))
