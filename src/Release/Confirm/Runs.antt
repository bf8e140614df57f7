-- ===== src/Release/Confirm/Runs.antt =====
-- agent/release_executor.py: the loop over the steps as a relation, for inductions.
use ai_advent_challenge_9_v.Prelude.{
  ℕ, ◌≡◌, ◌⊎◌, refl, Bool, true, false, Option, none, some, List, [], ◌∷◌, ◌++◌, Bool-cases, inl,
  inr,
}
use ai_advent_challenge_9_v.Strings.{Text}
use ai_advent_challenge_9_v.Release.Answers.{Parsed}
use ai_advent_challenge_9_v.Release.Plan.{
  StepState, StepKey, Steps, state_of, set_state, skipped, is_done, ReleasePlan,
}
use ai_advent_challenge_9_v.Release.Steps.{Call, Detail, Env, run_step}
use ai_advent_challenge_9_v.Release.Confirm.{
  is_step_done, with_state, with_status, Ending, completed, interrupted, stopped, after_raise,
  write_from,
}

-- A loop that goes no further is interrupted, or stopped by a step that did not end as done.
abbrev pub HaltsAs : StepKey → Option StepState → Ending → Type 0
HaltsAs key state ending =
    (ending ≡ interrupted)
    ⊎ ((detail : Option Detail) × (ending ≡ stopped key detail) × (is_step_done state ≡ false))

halts_as :
    (key : StepKey) (state : Option StepState) (detail : Option Detail)
    → is_step_done state ≡ false
    → HaltsAs key state (after_raise state (stopped key detail))
halts_as key none detail e = inl refl
halts_as key (some state) detail e = inr (detail, refl, e)

module _ (loads : Text → Option Parsed) (env : Env) (message : Text) where
  -- The plan that a step leaves.
  abbrev pub stepped : StepKey → ReleasePlan → ReleasePlan
  stepped key plan =
      let step = run_step loads env plan key message in with_state step.state key step.plan

  -- The loop may end at any key or after any step, goes on behind a step that is done, and makes
  -- no call for a step that was done before.
  pub data Runs : List StepKey → ReleasePlan → ReleasePlan → List Call → Ending → Type 0 where
    completes : {plan : ReleasePlan} → Runs [] plan plan [] completed
    ends : {keys : List StepKey} {plan : ReleasePlan} → Runs keys plan plan [] interrupted
    skips :
        {key : StepKey} {keys : List StepKey} {plan after : ReleasePlan} {calls : List Call}
        {ending : Ending}
        → is_done (state_of key plan.steps) ≡ true
        → Runs keys plan after calls ending
        → Runs (key ∷ keys) plan after calls ending
    halts :
        {key : StepKey} {keys : List StepKey} {plan : ReleasePlan} {ending : Ending}
        → is_done (state_of key plan.steps) ≡ false
        → HaltsAs key (run_step loads env plan key message).state ending
        → Runs
            (key ∷ keys)
            plan
            (stepped key plan)
            (run_step loads env plan key message).calls
            ending
    goes_on :
        {key : StepKey} {keys : List StepKey} {plan after : ReleasePlan} {calls : List Call}
        {ending : Ending}
        → is_done (state_of key plan.steps) ≡ false
        → is_step_done (run_step loads env plan key message).state ≡ true
        → Runs keys (stepped key plan) after calls ending
        → Runs (key ∷ keys) plan after ((run_step loads env plan key message).calls ++ calls) ending

  pub write_from-Runs :
      (is_alnum : ℕ → Bool) (unicode_digit : ℕ → Option ℕ) (keys : List StepKey)
      (plan : ReleasePlan) (statuses : Steps)
      → let writes = write_from loads is_alnum unicode_digit env message keys plan statuses in
        Runs keys plan writes.plan writes.calls writes.ending
  unfolding write_from
  write_from-Runs is_alnum unicode_digit [] plan statuses = completes
  write_from-Runs is_alnum unicode_digit (key ∷ keys) plan statuses =
      let step = run_step loads env plan key message in
      elim (Bool-cases (is_done (state_of key plan.steps))) [
        | inl over ↦ elim (Bool-cases (env.sends_before key)) [
          | inl before ↦ rw over (
              rw before (
                skips over (
                  write_from-Runs is_alnum unicode_digit keys plan
                    (set_state key skipped statuses))))
          | inr before ↦ rw over (rw before ends)
        ]
        | inr over ↦ elim (Bool-cases (env.sends_before key)) [
          | inr before ↦ rw over (rw before ends)
          | inl before ↦ elim (Bool-cases (env.sends_after key)) [
            | inr after ↦ rw over (rw before (rw after (halts over (inl refl))))
            | inl after ↦ elim (Bool-cases (is_step_done step.state)) [
              | inr e ↦
                  rw over (
                    rw before
                      (rw after (rw e (halts over (halts_as key step.state step.detail e)))))
              | inl e ↦ rw over (
                  rw before (
                    rw after (
                      rw e (
                        goes_on over e (
                          write_from-Runs is_alnum unicode_digit keys (stepped key plan)
                            (with_status step.state key statuses))))))
            ]
          ]
        ]
      ]
