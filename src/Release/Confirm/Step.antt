-- ===== src/Release/Confirm/Step.antt =====
-- agent/release_executor.py: what one write step does to the plan and to the log of calls.
use ai_advent_challenge_9_v.Prelude.{
  ◌≡◌, refl, Bool, true, false, ◌&&◌, Option, none, some, List, [], ◌∷◌, if◌then◌else◌, Bool-cases,
  inl, inr,
}
use ai_advent_challenge_9_v.Strings.{Text}
use ai_advent_challenge_9_v.Release.Answers.{
  Value, text, items, other, Fields, Parsed, parse_json_tail, is_release_link,
}
use ai_advent_challenge_9_v.Release.Plan.{StepKey, commit, tag, push, release, ReleasePlan}
use ai_advent_challenge_9_v.Release.Confirm.{is_step_done}
use ai_advent_challenge_9_v.Release.Steps.{
  ToolOutcome, StepArgs, Call, Env, StepRun, is_none, is_push, is_release, commit_read,
  release_read, read_answer, read_result, after_call, step_args, run_step,
}

-- The steps that calls have completed, in the order of the calls.
abbrev pub written_by : Call → List StepKey → List StepKey
written_by call keys = if is_step_done call.state then call.key ∷ keys else keys

unfoldable pub written : List Call → List StepKey
written [] = []
written (call ∷ calls) = written_by call (written calls)

-- What a step may not touch: all but the commit's hash and the release's link.
abbrev pub Keeps : ReleasePlan → ReleasePlan → Type 0
Keeps before after =
    (after.steps ≡ before.steps)
    × (after.version ≡ before.version)
    × (after.title ≡ before.title)
    × (after.release_text ≡ before.release_text)
    × (after.is_running ≡ before.is_running)

Keeps-self : (plan : ReleasePlan) → Keeps plan plan
Keeps-self plan = (refl, refl, refl, refl, refl)

commit_read-Keeps :
    (loads : Text → Option Parsed) (plan : ReleasePlan) (value : Option Value)
    → Keeps plan (commit_read loads plan value).0
commit_read-Keeps loads plan none = Keeps-self plan
commit_read-Keeps loads plan (some (text [])) = Keeps-self plan
commit_read-Keeps loads plan (some (text (c ∷ s))) = Keeps-self plan
commit_read-Keeps loads plan (some (items s vs)) = Keeps-self plan
commit_read-Keeps loads plan (some (other s b)) = Keeps-self plan

release_read-Keeps :
    (loads : Text → Option Parsed) (plan : ReleasePlan) (value : Option Value)
    → Keeps plan (release_read loads plan value).0
      × ((release_read loads plan value).0.commit_sha ≡ plan.commit_sha)
release_read-Keeps loads plan none = (Keeps-self plan, refl)
release_read-Keeps loads plan (some (text s)) = elim (Bool-cases (is_release_link s)) [
  | inl e ↦ rw e (Keeps-self plan, refl)
  | inr e ↦ rw e (Keeps-self plan, refl)
]
release_read-Keeps loads plan (some (items s vs)) = (Keeps-self plan, refl)
release_read-Keeps loads plan (some (other s b)) = (Keeps-self plan, refl)

abbrev pub is_commit : StepKey → Bool
is_commit commit = true
is_commit key = false

-- Only the commit's answer sets the hash.
abbrev pub KeepsHash : StepKey → ReleasePlan → ReleasePlan → Type 0
KeepsHash key before after = is_commit key ≡ false → after.commit_sha ≡ before.commit_sha

read_answer-Keeps :
    (loads : Text → Option Parsed) (plan : ReleasePlan) (key : StepKey) (answer : Option Fields)
    → Keeps plan (read_answer loads plan key answer).0
      × KeepsHash key plan (read_answer loads plan key answer).0
read_answer-Keeps loads plan commit none = (Keeps-self plan, λ e. refl)
read_answer-Keeps loads plan commit (some row) =
    (commit_read-Keeps loads plan (row "commit"), λ e. cc)
read_answer-Keeps loads plan release none = (Keeps-self plan, λ e. refl)
read_answer-Keeps loads plan release (some row) =
    let (kept, hash) = release_read-Keeps loads plan (row "html_url") in (kept, λ e. hash)
read_answer-Keeps loads plan tag answer = (Keeps-self plan, λ e. refl)
read_answer-Keeps loads plan push answer = (Keeps-self plan, λ e. refl)

-- A step keeps the plan but for its hash and link, and logs itself as written just when it ends
-- as done.
abbrev pub IsStep : StepKey → ReleasePlan → StepRun → Type 0
IsStep key plan step =
    Keeps plan step.plan
    × KeepsHash key plan step.plan
    × (written step.calls ≡ (if is_step_done step.state then key ∷ [] else []))

after_call-IsStep :
    (loads : Text → Option Parsed) (plan : ReleasePlan) (key : StepKey) (args : StepArgs)
    (answer : Option ToolOutcome)
    → IsStep key plan (after_call loads plan key args answer)
unfolding after_call written read_result
after_call-IsStep loads plan key args none = (Keeps-self plan, λ e. refl, refl)
after_call-IsStep loads plan key args (some outcome) = elim (Bool-cases outcome.ok) [
  | inl e ↦ rw e (
      let (kept, hash) = read_answer-Keeps loads plan key (parse_json_tail loads outcome.answer) in
      (kept, hash, refl))
  | inr e ↦ rw e (Keeps-self plan, λ h. refl, refl)
]

pub run_step-IsStep :
    (loads : Text → Option Parsed) (env : Env) (plan : ReleasePlan) (key : StepKey) (message : Text)
    → IsStep key plan (run_step loads env plan key message)
unfolding run_step written
run_step-IsStep loads env plan key message =
    elim (Bool-cases (is_push key && is_none plan.branch)) [
      | inl e ↦ rw e (Keeps-self plan, λ h. refl, refl)
      | inr e ↦ elim (Bool-cases (is_release key && is_none plan.owner_repo)) [
        | inl f ↦ rw e (rw f (Keeps-self plan, λ h. refl, refl))
        | inr f ↦ rw e (
            rw f (
              after_call-IsStep loads plan key (step_args plan key message)
                (env.answers key (step_args plan key message))))
      ]
    ]
