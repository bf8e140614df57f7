-- ===== src/Release/Samples.antt =====
-- agent/release_executor.py and agent/release_pipeline.py on small inputs, and the theorems at them.
use ai_advent_challenge_9_v.Prelude.{
  ℕ, ◌≡◌, ◌⊎◌, refl, Bool, true, false, ◌&&◌, Option, none, some, List, [], ◌∷◌, leb, if◌then◌else◌,
  String, All,
}
use ai_advent_challenge_9_v.Strings.{Text, codes}
use ai_advent_challenge_9_v.Strings.Equal.{same_text, contains}
use ai_advent_challenge_9_v.Strings.Decimal.{read_number}
use ai_advent_challenge_9_v.Release.Versions.{
  parse_version, print_version, last_version_tag, version_candidates, validate_version,
}
use ai_advent_challenge_9_v.Release.Versions.Reading.{parse_version-print_version}
use ai_advent_challenge_9_v.Release.Versions.Choice.{
  IsLastTag, last_version_tag-IsLastTag, version_candidates-validate_version,
}
use ai_advent_challenge_9_v.Release.Titles.{sanitize_title, has_any}
use ai_advent_challenge_9_v.Release.Titles.Clean.{IsTitle, sanitize_title-IsTitle}
use ai_advent_challenge_9_v.Release.Answers.{Value, text, Fields, Parsed, object}
use ai_advent_challenge_9_v.Release.Plan.{done, release, default_steps, ReleasePlan}
use ai_advent_challenge_9_v.Release.Steps.{ToolOutcome, Env}
use ai_advent_challenge_9_v.Release.Confirm.{Request, finished, partial, confirm_plan}
use ai_advent_challenge_9_v.Release.Confirm.Step.{written}
use ai_advent_challenge_9_v.Release.Confirm.Prepared.{confirm_all}
use ai_advent_challenge_9_v.Release.Confirm.Progress.{Progress}
use ai_advent_challenge_9_v.Release.Confirm.Outcomes.{Says, confirm_all-Progress, confirm_plan-Says}
use ai_advent_challenge_9_v.Release.Confirm.Locked.{IsLocked, confirm_all-IsLocked}
use ai_advent_challenge_9_v.Release.Confirm.Checked.{IsRefused, IsAllowed, confirm_plan-IsAllowed}

-- Only ASCII digits, and small letters.
abbrev unicode_digit : ℕ → Option ℕ
unicode_digit c = none

abbrev is_alnum : ℕ → Bool
is_alnum c = leb 97 c && leb c 122

abbrev field : List (String × Value) → Fields
field [] key = none
field ((name, value) ∷ more) key =
    let rest = field more key in if same_text (codes name) (codes key) then some value else rest

-- One object that serves as the answer of every tool.
abbrev loads : Text → Option Parsed
loads line = some (
    object (
      field (
        ("head", text (codes "a1"))
        ∷ ("commit", text (codes "a1"))
        ∷ ("html_url", text (codes "https://github.com/o/r/releases/1"))
        ∷ [])))

abbrev answer : ToolOutcome
answer = record { ok = true; answer = codes "{}" }

abbrev env : Env
env = record {
  context = some answer;
  answers = λ key args. some answer;
  sends_before = λ key. true;
  sends_after = λ key. true;
  sends_result = true;
}

-- GitHub refuses the release.
abbrev no_access : Env
no_access = record env {
  answers = λ key args. elim key [
    | release ↦ some (record { ok = false; answer = codes "(403)" })
    | _ ↦ some answer
  ];
}

abbrev plan : ReleasePlan
plan = record {
  plan_id = codes "p";
  chat_id = 1;
  user_id = 1;
  branch = some (codes "main");
  head_sha = codes "a1";
  last_tag = codes "v1.0";
  version = codes "v1.1";
  title = codes "first";
  changelog_body = codes "- a";
  owner_repo = some (codes "o/r");
  steps = default_steps;
  commit_sha = none;
  release_text = none;
  release_url = none;
  is_running = false;
  stale = false;
}

abbrev request : Request
request = record { version = none; title = some (codes "second"); today = codes "2026-01-01" }

abbrev committed : ReleasePlan
committed = record plan {
  steps = record default_steps { commit_state = done };
  commit_sha = some (codes "a1");
  release_text = some (codes "text");
}

program : Unit {0}
unfolding confirm_plan confirm_all written read_number contains
program = tt

abbrev once_refused : ReleasePlan
once_refused = (confirm_plan loads is_alnum unicode_digit no_access plan request).plan

-- The release step is refused, and a second confirm does only this one.
refused_partial :
    (confirm_plan loads is_alnum unicode_digit no_access plan request).outcome ≡ partial
unfolding program
refused_partial = refl

resumed_done :
    (confirm_plan loads is_alnum unicode_digit env once_refused request).outcome ≡ finished
unfolding program
resumed_done = refl

resumed_writes :
    written (confirm_plan loads is_alnum unicode_digit env once_refused request).calls
    ≡ release ∷ []
unfolding program
resumed_writes = refl

abbrev twice : List (Env × Request)
twice = (no_access, request) ∷ (env, request) ∷ []

confirm_all-Progress_example :
    let after = confirm_all loads is_alnum unicode_digit twice plan in
    Progress after.0 (written after.1)
confirm_all-Progress_example = confirm_all-Progress loads is_alnum unicode_digit twice plan refl

confirm_plan-Says_example :
    let before = (confirm_all loads is_alnum unicode_digit ((no_access, request) ∷ []) plan).0 in
    let confirmed = confirm_plan loads is_alnum unicode_digit env before request in
    Says loads is_alnum unicode_digit confirmed.outcome confirmed.plan.steps
confirm_plan-Says_example =
    confirm_plan-Says loads is_alnum unicode_digit ((no_access, request) ∷ []) env plan request refl

confirm_all-IsLocked_example :
    let after = confirm_all loads is_alnum unicode_digit twice committed in
    IsLocked loads is_alnum unicode_digit committed after.0 after.1
confirm_all-IsLocked_example =
    confirm_all-IsLocked loads is_alnum unicode_digit twice committed refl

confirm_plan-IsAllowed_example :
    IsRefused loads is_alnum unicode_digit plan
      (confirm_plan loads is_alnum unicode_digit env plan request)
    ⊎ ((false ≡ false)
        × IsAllowed loads is_alnum unicode_digit env (record plan { is_running = true }) request)
confirm_plan-IsAllowed_example =
    confirm_plan-IsAllowed loads is_alnum unicode_digit env plan request

parse_version-print_version_example :
    parse_version unicode_digit (print_version (12, 3)) ≡ some (12, 3)
parse_version-print_version_example = parse_version-print_version unicode_digit (12, 3)

abbrev tags : List Text
tags = codes "v9.0" ∷ codes "v10.1" ∷ codes "nightly" ∷ codes "v10.0" ∷ []

last_tag_found : last_version_tag unicode_digit tags ≡ some (codes "v10.1")
unfolding program last_version_tag
last_tag_found = refl

last_version_tag-IsLastTag_example :
    IsLastTag unicode_digit tags (last_version_tag unicode_digit tags)
last_version_tag-IsLastTag_example = last_version_tag-IsLastTag unicode_digit tags

version_candidates-validate_version_example :
    All
      (λ c. validate_version unicode_digit c (codes "v10.1") tags ≡ none)
      (version_candidates unicode_digit (codes "v10.1") tags)
version_candidates-validate_version_example =
    version_candidates-validate_version unicode_digit (codes "v10.1") tags

abbrev raw : Text
raw = codes "<think>x</think>## *second* day."

sanitized : sanitize_title is_alnum raw ≡ some (codes "second day")
unfolding program
sanitized = refl

sanitize_title-IsTitle_example :
    IsTitle (codes "second day") × (has_any is_alnum (codes "second day") ≡ true)
sanitize_title-IsTitle_example = sanitize_title-IsTitle is_alnum raw (codes "second day") sanitized
