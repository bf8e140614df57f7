-- ===== src/Release/Confirm/Locked.antt =====
-- agent/release_executor.py: what a confirm may not change once the changelog is committed.
use ai_advent_challenge_9_v.Prelude.{
  ℕ, ◌≡◌, refl, ap, ◌∙◌, Bool, true, false, ◌&&◌, Option, none, some, List, [], ◌∷◌, ◌++◌,
  Bool-cases, inl, inr, All,
}
use ai_advent_challenge_9_v.Strings.{Text}
use ai_advent_challenge_9_v.Release.Versions.{tag_message}
use ai_advent_challenge_9_v.Release.Answers.{Parsed}
use ai_advent_challenge_9_v.Release.Plan.{
  StepState, StepKey, commit, tag, push, release, Steps, state_of, is_done, ReleasePlan,
}
use ai_advent_challenge_9_v.Release.Steps.{
  Call, Env, ToolOutcome, StepArgs, commit_args, tag_args, push_args, release_args, step_args,
  is_none, is_push, is_release, after_call, run_step,
}
use ai_advent_challenge_9_v.Release.Confirm.{
  Request, Confirmed, Ending, confirm, confirm_plan, with_state,
}
use ai_advent_challenge_9_v.Release.Confirm.Step.{Keeps, KeepsHash, is_commit, run_step-IsStep}
use ai_advent_challenge_9_v.Release.Confirm.Runs.{Runs, stepped}
use ai_advent_challenge_9_v.Release.Confirm.Prepared.{IsConfirm, confirm-IsConfirm, confirm_all}

-- A write with the version, the message, the text and the hash of the committed release.
abbrev pub Carries : (version message : Text) (body hash : Option Text) → StepArgs → Type 0
Carries version message body hash (commit_args v section) = ⊥
Carries version message body hash (tag_args v m c) = (v ≡ version) × (m ≡ message) × (c ≡ hash)
Carries version message body hash (push_args branch t) = t ≡ version
Carries version message body hash (release_args owner repo t name b c) =
    (t ≡ version) × (name ≡ message) × (b ≡ body) × (c ≡ hash)

-- The committed release is the same.
abbrev pub SameRelease : ReleasePlan → ReleasePlan → Type 0
SameRelease before after =
    (is_done (state_of commit after.steps) ≡ true)
    × (after.version ≡ before.version)
    × (after.title ≡ before.title)
    × (after.release_text ≡ before.release_text)
    × (after.commit_sha ≡ before.commit_sha)

SameRelease-trans :
    (plan middle last : ReleasePlan)
    → SameRelease plan middle
    → SameRelease middle last
    → SameRelease plan last
SameRelease-trans plan middle last (d, v, t, r, c) (d', v', t', r', c') =
    (d', v' ∙ v, t' ∙ t, r' ∙ r, c' ∙ c)

with_state-SameRelease :
    (key : StepKey) (plan after : ReleasePlan) (state : Option StepState)
    → is_done (state_of commit plan.steps) ≡ true
    → is_commit key ≡ false
    → Keeps plan after
    → KeepsHash key plan after
    → SameRelease plan (with_state state key after)
with_state-SameRelease key plan after none over other (steps, v, t, r, running) hash =
    (ap (λ s. is_done (state_of commit s)) steps ∙ over, v, t, r, hash other)
with_state-SameRelease commit plan after (some state) over other (steps, v, t, r, running) hash = cc
with_state-SameRelease tag plan after (some state) over other (steps, v, t, r, running) hash =
    (ap (λ s. is_done (state_of commit s)) steps ∙ over, v, t, r, hash other)
with_state-SameRelease push plan after (some state) over other (steps, v, t, r, running) hash =
    (ap (λ s. is_done (state_of commit s)) steps ∙ over, v, t, r, hash other)
with_state-SameRelease release plan after (some state) over other (steps, v, t, r, running) hash =
    (ap (λ s. is_done (state_of commit s)) steps ∙ over, v, t, r, hash other)

not_commit :
    (key : StepKey) (steps : Steps)
    → is_done (state_of commit steps) ≡ true
    → is_done (state_of key steps) ≡ false
    → is_commit key ≡ false
not_commit commit steps over was = cc
not_commit tag steps over was = refl
not_commit push steps over was = refl
not_commit release steps over was = refl

abbrev pub CallCarries : ReleasePlan → (message : Text) → Call → Type 0
CallCarries plan message call =
    Carries plan.version message plan.release_text plan.commit_sha call.args

step_args-Carries :
    (plan : ReleasePlan) (key : StepKey) (message : Text)
    → is_commit key ≡ false
    → Carries plan.version message plan.release_text plan.commit_sha (step_args plan key message)
unfolding step_args
step_args-Carries plan commit message other = cc
step_args-Carries plan tag message other = (refl, refl, refl)
step_args-Carries plan push message other = refl
step_args-Carries plan release message other = (refl, refl, refl, refl)

after_call-args :
    (loads : Text → Option Parsed) (plan : ReleasePlan) (key : StepKey) (args : StepArgs)
    (answer : Option ToolOutcome) (holds : StepArgs → Type 0)
    → holds args
    → All (λ call. holds call.args) (after_call loads plan key args answer).calls
unfolding after_call
after_call-args loads plan key args none holds h = (h, tt)
after_call-args loads plan key args (some outcome) holds h = elim (Bool-cases outcome.ok) [
  | inl e ↦ rw e (h, tt)
  | inr e ↦ rw e (h, tt)
]

run_step-Carries :
    (loads : Text → Option Parsed) (env : Env) (plan : ReleasePlan) (key : StepKey) (message : Text)
    → is_commit key ≡ false
    → All (CallCarries plan message) (run_step loads env plan key message).calls
unfolding run_step
run_step-Carries loads env plan key message other =
    elim (Bool-cases (is_push key && is_none plan.branch)) [
      | inl e ↦ rw e tt
      | inr e ↦ elim (Bool-cases (is_release key && is_none plan.owner_repo)) [
        | inl f ↦ rw e (rw f tt)
        | inr f ↦ rw e (
            rw f (
              after_call-args loads plan key (step_args plan key message)
                (env.answers key (step_args plan key message))
                (Carries plan.version message plan.release_text plan.commit_sha)
                (step_args-Carries plan key message other)))
      ]
    ]

All-append :
    {A : Type 0} (holds : A → Type 0) (xs ys : List A)
    → All holds xs
    → All holds ys
    → All holds (xs ++ ys)
All-append holds [] ys unit rest = rest
All-append holds (x ∷ xs) ys (first, more) rest = (first, All-append holds xs ys more rest)

Carries-same :
    (plan after : ReleasePlan) (message : Text) (args : StepArgs)
    → SameRelease plan after
    → Carries after.version message after.release_text after.commit_sha args
    → Carries plan.version message plan.release_text plan.commit_sha args
Carries-same plan after message args (d, v, t, r, c) h = rw (v, r, c) at h

AllCarries-same :
    (plan after : ReleasePlan) (message : Text) (calls : List Call)
    → SameRelease plan after
    → All (CallCarries after message) calls
    → All (CallCarries plan message) calls
AllCarries-same plan after message [] same h = tt
AllCarries-same plan after message (call ∷ calls) same (first, rest) = (
  Carries-same plan after message call.args same first,
  AllCarries-same plan after message calls same rest,
)

AllCarries-said :
    (plan : ReleasePlan) {message said : Text} (calls : List Call)
    → message ≡ said
    → All (CallCarries plan message) calls
    → All (CallCarries plan said) calls
AllCarries-said plan calls e h = rw e at h

module _ (loads : Text → Option Parsed) (env : Env) (message : Text) where
  stepped-SameRelease :
      (key : StepKey) (plan : ReleasePlan)
      → is_done (state_of commit plan.steps) ≡ true
      → is_commit key ≡ false
      → SameRelease plan (stepped loads env message key plan)
  stepped-SameRelease key plan over other =
      let step = run_step loads env plan key message in
      let (kept, hash, logged) = run_step-IsStep loads env plan key message in
      with_state-SameRelease key plan step.plan step.state over other kept hash

  Runs-Locked :
      {left : List StepKey} {plan after : ReleasePlan} {calls : List Call} {ending : Ending}
      → Runs loads env message left plan after calls ending
      → is_done (state_of commit plan.steps) ≡ true
      → SameRelease plan after × All (CallCarries plan message) calls
  Runs-Locked Runs.completes over = ((over, refl, refl, refl, refl), tt)
  Runs-Locked Runs.ends over = ((over, refl, refl, refl, refl), tt)
  Runs-Locked (Runs.skips was runs) over = Runs-Locked runs over
  Runs-Locked {plan = plan} (Runs.halts {key} was how) over =
      let other = not_commit key plan.steps over was in
      (stepped-SameRelease key plan over other, run_step-Carries loads env plan key message other)
  Runs-Locked {plan = plan} {after = after} (Runs.goes_on {key} {calls = more} was ended runs)
        over =
      let other = not_commit key plan.steps over was in
      let next = stepped loads env message key plan in
      let same = stepped-SameRelease key plan over other in
      let (later, carried) = Runs-Locked runs same.0 in
      (
        SameRelease-trans plan next after same later,
        All-append (CallCarries plan message) (run_step loads env plan key message).calls more
            (run_step-Carries loads env plan key message other)
            (AllCarries-same plan next message more same carried),
      )

module _ (loads : Text → Option Parsed) (is_alnum : ℕ → Bool) (unicode_digit : ℕ → Option ℕ) where
  -- The release stays, and each call writes it.
  abbrev pub IsLocked : ReleasePlan → ReleasePlan → List Call → Type 0
  IsLocked plan after calls =
      SameRelease plan after
      × All (CallCarries plan (tag_message unicode_digit plan.version plan.title)) calls

  said_again :
      (plan after : ReleasePlan)
      → SameRelease plan after
      → tag_message unicode_digit after.version after.title
        ≡ tag_message unicode_digit plan.version plan.title
  said_again plan after (d, v, t, r, c) = rw (v, t) refl

  IsConfirm-Locked :
      (env : Env) (plan : ReleasePlan) (confirmed : Confirmed)
      → IsConfirm loads is_alnum unicode_digit env plan confirmed
      → is_done (state_of commit plan.steps) ≡ true
      → IsLocked plan confirmed.plan confirmed.calls
  unfolding IsConfirm
  IsConfirm-Locked env plan confirmed (started, ending, (steps, hash, texts), runs, fits) over =
      let started_over = ap (λ s. is_done (state_of commit s)) steps ∙ over in
      let (v, t, r) = texts over in
      let same : SameRelease plan started = (started_over, v, t, r, hash) in
      let (later, carried) =
        Runs-Locked loads env (tag_message unicode_digit started.version started.title) runs
          started_over in
      (
        SameRelease-trans plan started confirmed.plan same later,
        AllCarries-said plan confirmed.calls (said_again plan started same) (
            AllCarries-same plan started (tag_message unicode_digit started.version started.title)
              confirmed.calls same carried),
      )

  confirm_plan-Locked :
      (env : Env) (plan : ReleasePlan) (request : Request)
      → is_done (state_of commit plan.steps) ≡ true
      → let confirmed = confirm_plan loads is_alnum unicode_digit env plan request in
        IsLocked plan confirmed.plan confirmed.calls
  unfolding confirm_plan
  confirm_plan-Locked env plan request over = elim (Bool-cases plan.is_running) [
    | inl e ↦ rw e ((over, refl, refl, refl, refl), tt)
    | inr e ↦
        let started : ReleasePlan = record plan { is_running = true } in
        rw e (
          IsConfirm-Locked env started (confirm loads is_alnum unicode_digit env started request)
            (confirm-IsConfirm loads is_alnum unicode_digit env started request) over)
  ]

  -- Once the commit is done, no confirm changes the version, the title, the text or the hash of the
  -- release, whatever overrides it brings; no call commits again, and every call writes the tag, the
  -- message, the text and the hash of the committed release.
  pub confirm_all-IsLocked :
      (confirms : List (Env × Request)) (plan : ReleasePlan)
      → is_done (state_of commit plan.steps) ≡ true
      → let after = confirm_all loads is_alnum unicode_digit confirms plan in
        IsLocked plan after.0 after.1
  unfolding confirm_all
  confirm_all-IsLocked [] plan over = ((over, refl, refl, refl, refl), tt)
  confirm_all-IsLocked ((env, request) ∷ more) plan over =
      let first = confirm_plan loads is_alnum unicode_digit env plan request in
      let rest = confirm_all loads is_alnum unicode_digit more first.plan in
      let (same, carried) = confirm_plan-Locked env plan request over in
      let (later, after) = confirm_all-IsLocked more first.plan same.0 in
      (
        SameRelease-trans plan first.plan rest.0 same later,
        All-append (CallCarries plan (tag_message unicode_digit plan.version plan.title))
            first.calls rest.1 carried
            (AllCarries-said plan rest.1 (said_again plan first.plan same) (
              AllCarries-same plan first.plan
                (tag_message unicode_digit first.plan.version first.plan.title) rest.1 same after)),
      )
