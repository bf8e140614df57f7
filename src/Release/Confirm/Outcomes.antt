-- ===== src/Release/Confirm/Outcomes.antt =====
-- agent/release_executor.py: the steps that any sequence of confirms completes, and what an outcome
-- says of them.
use ai_advent_challenge_9_v.Prelude.{
  ℕ, ◌<◌, ◌≡◌, refl, sym, ap, ◌∙◌, Bool, true, false, not, Option, List, [], ◌∷◌, ◌++◌, arith, ltb,
  Bool-cases, inl, inr,
}
use mathlib.Core.List.{append_assoc, append-nil}
use ai_advent_challenge_9_v.Strings.{Text}
use ai_advent_challenge_9_v.Release.Answers.{Parsed}
use ai_advent_challenge_9_v.Release.Plan.{
  StepKey, commit, tag, push, release, Steps, state_of, default_steps, is_done, ReleasePlan,
}
use ai_advent_challenge_9_v.Release.Steps.{Env, is_release}
use ai_advent_challenge_9_v.Release.Confirm.{
  Request, Confirmed, Outcome, finished, partial, not_finished, running, Ending, completed,
  interrupted, stopped, outcome_of, sent, confirm, confirm_plan,
}
use ai_advent_challenge_9_v.Release.Confirm.Prepared.{
  Fits, IsConfirm, confirm-IsConfirm, confirm_all,
}
use ai_advent_challenge_9_v.Release.Confirm.Step.{written}
use ai_advent_challenge_9_v.Release.Confirm.Progress.{
  index, DoneUpTo, Progress, EndsAt, all_steps, none_done, written-append, Runs-Progress,
}

module _ (loads : Text → Option Parsed) (is_alnum : ℕ → Bool) (unicode_digit : ℕ → Option ℕ) where
  -- What the outcome says of the steps.
  abbrev pub Says : Outcome → Steps → Type 0
  Says finished steps = (key : StepKey) → is_done (state_of key steps) ≡ true
  Says partial steps = (key : StepKey) → is_done (state_of key steps) ≡ not (is_release key)
  Says not_finished steps = is_done (state_of push steps) ≡ false
  Says _ steps = Unit

  index-le : (key : StepKey) → index key < 4
  index-le commit = omega arith
  index-le tag = omega arith
  index-le push = omega arith
  index-le release = omega arith

  before_release : (key : StepKey) → ltb (index key) 3 ≡ not (is_release key)
  before_release commit = refl
  before_release tag = refl
  before_release push = refl
  before_release release = refl

  ending-Says :
      (ending : Ending) (plan : ReleasePlan) (keys : List StepKey) (count : ℕ)
      → DoneUpTo count plan keys
      → EndsAt ending count
      → Says (outcome_of ending) plan.steps
  ending-Says completed plan keys count (listed, flags) at =
      λ key. let this = flags key in let bound = index-le key in ground arith
  ending-Says interrupted plan keys count inv at = tt
  ending-Says (stopped release detail) plan keys count (listed, flags) at =
      λ key. flags key ∙ (rw (← at) (before_release key))
  ending-Says (stopped commit detail) plan keys count (listed, flags) at =
      flags push ∙ rw (← at) refl
  ending-Says (stopped tag detail) plan keys count (listed, flags) at = flags push ∙ rw (← at) refl
  ending-Says (stopped push detail) plan keys count (listed, flags) at = flags push ∙ rw (← at) refl

  Fits-Says :
      (outcome : Outcome) (ending : Ending) (steps : Steps)
      → Fits loads is_alnum unicode_digit outcome ending
      → Says (outcome_of ending) steps
      → Says outcome steps
  Fits-Says outcome ending steps (inl e) says = rw e says
  Fits-Says outcome ending steps (inr (inl e)) says = rw e tt
  Fits-Says outcome ending steps (inr (inr e)) says = rw e tt

  IsConfirm-Progress :
      (env : Env) (plan : ReleasePlan) (confirmed : Confirmed) (keys : List StepKey)
      → IsConfirm loads is_alnum unicode_digit env plan confirmed
      → Progress plan keys
      → Progress confirmed.plan (keys ++ written confirmed.calls)
        × Says confirmed.outcome confirmed.plan.steps
  unfolding IsConfirm
  IsConfirm-Progress env plan confirmed keys (started, ending, (same, hash, texts), runs, fits)
        (count, (listed, flags)) =
      let (last, inv, at) =
        Runs-Progress loads env _ runs 0 all_steps count keys (omega arith)
          (listed, λ key. ap (λ s. is_done (state_of key s)) same ∙ flags key) in
      (
        (last, inv),
        Fits-Says confirmed.outcome ending confirmed.plan.steps fits
            (ending-Says ending confirmed.plan (keys ++ written confirmed.calls) last inv at),
      )

  sent-Says_nothing :
      (env : Env) (steps : Steps) → Says (sent loads is_alnum unicode_digit env running) steps
  unfolding sent
  sent-Says_nothing env steps = elim (Bool-cases env.sends_result) [
    | inl e ↦ rw e tt
    | inr e ↦ rw e tt
  ]

  confirm_plan-Progress :
      (env : Env) (plan : ReleasePlan) (request : Request) (keys : List StepKey)
      → Progress plan keys
      → let confirmed = confirm_plan loads is_alnum unicode_digit env plan request in
        Progress confirmed.plan (keys ++ written confirmed.calls)
        × Says confirmed.outcome confirmed.plan.steps
  unfolding confirm_plan written
  confirm_plan-Progress env plan request keys inv = elim (Bool-cases plan.is_running) [
    | inl e ↦ rw e (
        let (count, (listed, flags)) = inv in
        ((count, (append-nil keys ∙ listed, flags)), sent-Says_nothing env plan.steps))
    | inr e ↦
        let started : ReleasePlan = record plan { is_running = true } in
        rw e (
          IsConfirm-Progress env started (confirm loads is_alnum unicode_digit env started request)
            keys (confirm-IsConfirm loads is_alnum unicode_digit env started request) inv)
  ]

  confirm_all-Progress_from :
      (confirms : List (Env × Request)) (plan : ReleasePlan) (keys : List StepKey)
      → Progress plan keys
      → let after = confirm_all loads is_alnum unicode_digit confirms plan in
        Progress after.0 (keys ++ written after.1)
  unfolding confirm_all written
  confirm_all-Progress_from [] plan keys (count, (listed, flags)) =
      (count, (append-nil keys ∙ listed, flags))
  confirm_all-Progress_from ((env, request) ∷ more) plan keys inv =
      let first = confirm_plan loads is_alnum unicode_digit env plan request in
      let rest = confirm_all loads is_alnum unicode_digit more first.plan in
      let (count, (listed, flags)) =
        confirm_all-Progress_from more first.plan (keys ++ written first.calls)
          (confirm_plan-Progress env plan request keys inv).0 in
      let log =
        ap (λ l. keys ++ l) (written-append first.calls rest.1)
        ∙ sym (append_assoc keys (written first.calls) (written rest.1)) in
      (count, (log ∙ listed, flags))

  -- Whatever the tools answer or raise, whichever frames are lost and whatever overrides come with
  -- the confirms of a fresh plan: the steps that the calls completed are the first ones of commit,
  -- tag, push and release, in this order and each once, and just these are marked as done.
  pub confirm_all-Progress :
      (confirms : List (Env × Request)) (plan : ReleasePlan)
      → plan.steps ≡ default_steps
      → let after = confirm_all loads is_alnum unicode_digit confirms plan in
        Progress after.0 (written after.1)
  confirm_all-Progress confirms plan fresh =
      confirm_all-Progress_from confirms plan []
        (0, (refl, λ key. ap (λ s. is_done (state_of key s)) fresh ∙ none_done key))

  -- A confirm after any others of a fresh plan ends as done only if every step is done, as partial
  -- only if every step but the GitHub release is, and as failed only if not even the push is.
  pub confirm_plan-Says :
      (confirms : List (Env × Request)) (env : Env) (plan : ReleasePlan) (request : Request)
      → plan.steps ≡ default_steps
      → let before = (confirm_all loads is_alnum unicode_digit confirms plan).0 in
        let confirmed = confirm_plan loads is_alnum unicode_digit env before request in
        Says confirmed.outcome confirmed.plan.steps
  confirm_plan-Says confirms env plan request fresh =
      let after = confirm_all loads is_alnum unicode_digit confirms plan in
      (confirm_plan-Progress env after.0 request (written after.1)
        (confirm_all-Progress confirms plan fresh)).1
