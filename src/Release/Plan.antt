-- ===== src/Release/Plan.antt =====
-- agent/release_command.py: the steps of a release and its plan.
use ai_advent_challenge_9_v.Prelude.{ℕ, Bool, true, false, Option, List, [], ◌∷◌}
use ai_advent_challenge_9_v.Strings.{Text}

pub data StepState : Type 0 where
  pending running done skipped failed unavailable : StepState

-- STEP_KEYS, in their order.
pub data StepKey : Type 0 where
  commit tag push release : StepKey

abbrev pub step_keys : List StepKey
step_keys = commit ∷ tag ∷ push ∷ release ∷ []

-- `dict[str, StepState]` over the four keys
pub record Steps : Type 0 where
  pub commit_state : StepState
  pub tag_state : StepState
  pub push_state : StepState
  pub release_state : StepState

abbrev pub default_steps : Steps
default_steps = record {
  commit_state = pending;
  tag_state = pending;
  push_state = pending;
  release_state = pending;
}

abbrev pub state_of : StepKey → Steps → StepState
state_of commit steps = steps.commit_state
state_of tag steps = steps.tag_state
state_of push steps = steps.push_state
state_of release steps = steps.release_state

abbrev pub set_state : StepKey → StepState → Steps → Steps
set_state commit state steps = record steps { commit_state = state }
set_state tag state steps = record steps { tag_state = state }
set_state push state steps = record steps { push_state = state }
set_state release state steps = record steps { release_state = state }

abbrev pub is_done : StepState → Bool
is_done done = true
is_done _ = false

-- The fields of a plan that its execution reads or writes.
pub record ReleasePlan : Type 0 where
  pub plan_id : Text
  pub chat_id : ℕ
  pub user_id : ℕ
  pub branch : Option Text
  pub head_sha : Text
  pub last_tag : Text
  pub version : Text
  pub title : Text
  pub changelog_body : Text
  pub owner_repo : Option Text
  pub steps : Steps
  pub commit_sha : Option Text
  pub release_text : Option Text
  pub release_url : Option Text
  pub is_running : Bool
  pub stale : Bool
