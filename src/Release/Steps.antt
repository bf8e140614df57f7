-- ===== src/Release/Steps.antt =====
-- agent/release_executor.py: one write step, its arguments, its call and the reading of its answer.
use ai_advent_challenge_9_v.Prelude.{
  Bool, true, false, ◌&&◌, ◌||◌, Option, none, some, List, [], ◌∷◌, if◌then◌else◌,
}
use ai_advent_challenge_9_v.Strings.{Text, codes, has_part, split_once}
use ai_advent_challenge_9_v.Release.Versions.{VersionError}
use ai_advent_challenge_9_v.Release.Answers.{
  Value, text, Fields, Parsed, parse_json_tail, is_release_link, first_line,
}
use ai_advent_challenge_9_v.Release.Plan.{
  StepState, done, failed, unavailable, StepKey, commit, tag, push, release, ReleasePlan,
}

pub record ToolOutcome : Type 0 where
  pub ok : Bool
  pub answer : Text

-- The arguments of a write step, a constructor for each tool.
pub data StepArgs : Type 0 where
  commit_args : (version : Text) (section : Option Text) → StepArgs
  tag_args : (version message : Text) (commit : Option Text) → StepArgs
  push_args : (branch : Option Text) (tag : Text) → StepArgs
  release_args : (owner repo tag name : Text) (body commit : Option Text) → StepArgs

-- Why a confirm is blocked, or a step fails: what the code's texts say.
pub data Detail : Type 0 where
  answered : Text → Detail
  bad_answer head_changed detached not_github no_link : Detail
  dirty_tree : (paths : List Text) → Detail
  bad_version : VersionError → Detail

-- A write call, and the state that its step got; none where the call raised.
pub record Call : Type 0 where
  pub key : StepKey
  pub args : StepArgs
  pub state : Option StepState

-- What a confirm meets outside: the tools' answers, none where the call raises, and whether the
-- frames before and after a step, and the last one, are sent.
pub record Env : Type 0 where
  pub context : Option ToolOutcome
  pub answers : StepKey → StepArgs → Option ToolOutcome
  pub sends_before : StepKey → Bool
  pub sends_after : StepKey → Bool
  pub sends_result : Bool

-- UNAVAILABLE_MARKERS
unfoldable pub has_marker : Text → Bool
unfolding has_part
has_marker s =
    has_part (codes "GITHUB_PERSONAL_ACCESS_TOKEN is not set") s
    || has_part (codes "(401)") s
    || has_part (codes "(403)") s
    || has_part (codes "(404)") s
    || has_part (codes "not a GitHub repository") s

abbrev pub text_or : Option Text → Text
text_or none = []
text_or (some s) = s

abbrev of_partition : Text → Option (Text × Text) → Text × Text
of_partition s none = (s, [])
of_partition s (some halves) = halves

-- `(plan.owner_repo or "").partition("/")`
unfoldable pub owner_and_repo : Option Text → Text × Text
unfolding split_once
owner_and_repo name = of_partition (text_or name) (split_once (codes "/") (text_or name))

unfoldable pub step_args : ReleasePlan → StepKey → (message : Text) → StepArgs
unfolding owner_and_repo
step_args plan commit message = commit_args plan.version plan.release_text
step_args plan tag message = tag_args plan.version message plan.commit_sha
step_args plan push message = push_args plan.branch plan.version
step_args plan release message =
    let names = owner_and_repo plan.owner_repo in
    release_args names.0 names.1 plan.version message plan.release_text plan.commit_sha

abbrev pub is_none : Option Text → Bool
is_none none = true
is_none (some s) = false

-- What a step leaves: the plan, its state and its detail, and the call it made. The state is none
-- where the call raised.
pub record StepRun : Type 0 where
  pub plan : ReleasePlan
  pub state : Option StepState
  pub detail : Option Detail
  pub calls : List Call

abbrev pub is_push : StepKey → Bool
is_push push = true
is_push key = false

abbrev pub is_release : StepKey → Bool
is_release release = true
is_release key = false

-- `loads` is `json.loads`, none where it raises.
module _ (loads : Text → Option Parsed) where
  abbrev pub commit_read : ReleasePlan → Option Value → ReleasePlan × Option Detail
  commit_read plan (some (text (c ∷ sha))) = (record plan { commit_sha = some (c ∷ sha) }, none)
  commit_read plan value = (plan, some bad_answer)

  abbrev pub release_read : ReleasePlan → Option Value → ReleasePlan × Option Detail
  release_read plan (some (text url)) =
      if is_release_link url
      then (record plan { release_url = some url }, none)
      else (plan, some no_link)
  release_read plan value = (plan, some no_link)

  abbrev pub read_answer : ReleasePlan → StepKey → Option Fields → ReleasePlan × Option Detail
  read_answer plan commit none = (plan, some bad_answer)
  read_answer plan commit (some row) = commit_read plan (row "commit")
  read_answer plan release none = (plan, some bad_answer)
  read_answer plan release (some row) = release_read plan (row "html_url")
  read_answer plan tag answer = (plan, none)
  read_answer plan push answer = (plan, none)

  -- `_read_result`
  unfoldable pub read_result : ReleasePlan → StepKey → ToolOutcome → ReleasePlan × Option Detail
  unfolding parse_json_tail is_release_link
  read_result plan key outcome = read_answer plan key (parse_json_tail loads outcome.answer)

  abbrev pub state_for : Option Detail → StepState
  state_for none = done
  state_for (some detail) = failed

  abbrev pub called : StepKey → StepArgs → ReleasePlan × Option Detail → StepState → StepRun
  called key args read state = record {
    plan = read.0;
    state = some state;
    detail = read.1;
    calls = record { key = key; args = args; state = some state } ∷ [];
  }

  unfoldable pub after_call : ReleasePlan → StepKey → StepArgs → Option ToolOutcome → StepRun
  unfolding read_result has_marker first_line
  after_call plan key args none = record {
    plan = plan;
    state = none;
    detail = none;
    calls = record { key = key; args = args; state = none } ∷ [];
  }
  after_call plan key args (some outcome) =
      let read = read_result plan key outcome in
      let is_unavailable = is_release key && has_marker outcome.answer in
      if outcome.ok
      then called key args read (state_for read.1)
      else called key args (plan, some (answered (first_line outcome.answer)))
          (if is_unavailable then unavailable else failed)

  abbrev pub not_called : ReleasePlan → StepState → Detail → StepRun
  not_called plan state detail = record {
    plan = plan;
    state = some state;
    detail = some detail;
    calls = [];
  }

  -- `_run_step`
  unfoldable pub run_step : Env → ReleasePlan → StepKey → (message : Text) → StepRun
  unfolding after_call step_args
  run_step env plan key message =
      let args = step_args plan key message in
      if is_push key && is_none plan.branch
      then not_called plan failed detached
      else if is_release key && is_none plan.owner_repo
      then not_called plan unavailable not_github
      else after_call plan key args (env.answers key args)
