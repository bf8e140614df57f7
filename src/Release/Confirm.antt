-- ===== src/Release/Confirm.antt =====
-- agent/release_executor.py: the loop of a confirm over its steps, and the confirm as a whole.
pub mod Step
pub mod Runs
pub mod Prepared
pub mod Progress
pub mod Outcomes
pub mod Locked
pub mod Checked
use ai_advent_challenge_9_v.Prelude.{
  ℕ, Bool, true, false, not, ◌&&◌, ◌||◌, Option, none, some, List, [], ◌∷◌, ◌++◌, ◌==◌, ltb,
  if◌then◌else◌, length,
}
use ai_advent_challenge_9_v.Strings.{Text, codes, strip, has_part, split_once}
use ai_advent_challenge_9_v.Strings.Equal.{same_text}
use ai_advent_challenge_9_v.Release.Versions.{VersionError, validate_version, tag_message}
use ai_advent_challenge_9_v.Release.Titles.{sanitize_title}
use ai_advent_challenge_9_v.Release.Answers.{
  Parsed, ReleaseContext, parse_context, dirty_paths, first_line,
}
use ai_advent_challenge_9_v.Release.Plan.{
  StepState, done, skipped, StepKey, commit, tag, push, release, step_keys, Steps, state_of,
  set_state, is_done, ReleasePlan,
}
use ai_advent_challenge_9_v.Release.Steps.{
  ToolOutcome, Detail, answered, bad_answer, head_changed, dirty_tree, bad_version, Call, Env,
  StepRun, run_step,
}
use ai_advent_challenge_9_v.Release.Checks.{
  new_version, differs, or_else, new_title, apply_overrides, version_reason, remote_of, is_expected,
  recheck, recheck_parsed, line_or_bad, revalidate,
}

-- The arguments of a confirm.
pub record Request : Type 0 where
  pub version : Option Text
  pub title : Option Text
  pub today : Text

pub data Outcome : Type 0 where
  finished partial not_finished blocked running raised : Outcome

unfoldable pub changelog_section : (version date_iso body : Text) → Text
unfolding strip
changelog_section version date_iso body =
    codes "## [" ++ version ++ codes "] - " ++ date_iso ++ 10 ∷ 10 ∷ strip body ++ 10 ∷ []

abbrev pub with_state : Option StepState → StepKey → ReleasePlan → ReleasePlan
with_state none key plan = plan
with_state (some state) key plan = record plan { steps = set_state key state plan.steps }

abbrev pub with_status : Option StepState → StepKey → Steps → Steps
with_status none key statuses = statuses
with_status (some state) key statuses = set_state key state statuses

abbrev pub is_step_done : Option StepState → Bool
is_step_done none = false
is_step_done (some state) = is_done state

pub data Ending : Type 0 where
  completed interrupted : Ending
  stopped : StepKey → Option Detail → Ending

-- What the loop over the steps leaves.
pub record Writes : Type 0 where
  pub plan : ReleasePlan
  pub statuses : Steps
  pub calls : List Call
  pub ending : Ending

abbrev pub after_raise : Option StepState → Ending → Ending
after_raise none ending = interrupted
after_raise (some state) ending = ending

-- What a confirm leaves.
pub record Confirmed : Type 0 where
  pub plan : ReleasePlan
  pub calls : List Call
  pub outcome : Outcome

-- `_finish`: the outcome that is returned and sent.
abbrev pub outcome_of : Ending → Outcome
outcome_of completed = finished
outcome_of interrupted = raised
outcome_of (stopped release detail) = partial
outcome_of (stopped key detail) = not_finished

-- `json.loads`, none where it raises; `str.isalnum` of one character; the value of a decimal digit
-- outside of ASCII.
module _ (loads : Text → Option Parsed) (is_alnum : ℕ → Bool) (unicode_digit : ℕ → Option ℕ) where
  abbrev pub stops : StepRun → ReleasePlan → Steps → Ending → Writes
  stops step plan statuses ending = record {
    plan = plan;
    statuses = statuses;
    calls = step.calls;
    ending = ending;
  }

  -- The loop of `_write_steps` over the keys that are left.
  unfoldable pub write_from :
      Env → (message : Text) → List StepKey → ReleasePlan → (statuses : Steps) → Writes
  unfolding run_step
  write_from env message [] plan statuses = record {
    plan = plan;
    statuses = statuses;
    calls = [];
    ending = completed;
  }
  write_from env message (key ∷ keys) plan statuses =
      let skipped_statuses = set_state key skipped statuses in
      let skipping = write_from env message keys plan skipped_statuses in
      let step = run_step loads env plan key message in
      let stepped = with_state step.state key step.plan in
      let marked = with_status step.state key statuses in
      let rest = write_from env message keys stepped marked in
      let is_over = is_done (state_of key plan.steps) in
      if is_over && env.sends_before key
      then skipping
      else if not (env.sends_before key)
      then record {
        plan = plan;
        statuses = if is_over then skipped_statuses else statuses;
        calls = [];
        ending = interrupted;
      }
      else if not (env.sends_after key)
      then stops step stepped marked interrupted
      else if is_step_done step.state
      then record {
        plan = rest.plan;
        statuses = rest.statuses;
        calls = step.calls ++ rest.calls;
        ending = rest.ending;
      }
      else stops step stepped marked (after_raise step.state (stopped key step.detail))

  unfoldable pub sent : Env → Outcome → Outcome
  sent env outcome = if env.sends_result then outcome else raised

  abbrev pub with_section : ReleasePlan → (today : Text) → ReleasePlan
  with_section plan today =
      let section = changelog_section plan.version today plan.changelog_body in
      if is_done (state_of commit plan.steps)
      then plan
      else record plan { release_text = some section }

  unfoldable pub write_steps : Env → ReleasePlan → Confirmed
  unfolding write_from tag_message sent
  write_steps env plan =
      let message = tag_message unicode_digit plan.version plan.title in
      let writes = write_from env message step_keys plan plan.steps in
      record {
        plan = writes.plan;
        calls = writes.calls;
        outcome = sent env (outcome_of writes.ending);
      }

  abbrev pub after_check : Env → ReleasePlan → (today : Text) → Option Detail → Confirmed
  after_check env plan today (some reason) = record {
    plan = plan;
    calls = [];
    outcome = sent env blocked;
  }
  after_check env plan today none = write_steps env (with_section plan today)

  abbrev pub after_context : Env → ReleasePlan → (today : Text) → Option ToolOutcome → Confirmed
  after_context env plan today none = record { plan = plan; calls = []; outcome = raised }
  after_context env plan today (some outcome) =
      after_check env plan today (revalidate loads is_alnum unicode_digit plan outcome)

  -- `_confirm`
  unfoldable pub confirm : Env → ReleasePlan → Request → Confirmed
  unfolding apply_overrides revalidate write_steps changelog_section
  confirm env plan request =
      let overridden =
        apply_overrides loads is_alnum unicode_digit plan request.version request.title in
      after_context env overridden.0 request.today env.context

  unfoldable pub confirm_plan : Env → ReleasePlan → Request → Confirmed
  unfolding confirm sent
  confirm_plan env plan request =
      let confirmed = confirm env (record plan { is_running = true }) request in
      if plan.is_running
      then record { plan = plan; calls = []; outcome = sent env running }
      else record confirmed { plan = record confirmed.plan { is_running = false } }
