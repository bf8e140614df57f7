-- ===== src/Release/Confirm/Prepared.antt =====
-- agent/release_executor.py: what a confirm does before the loop, and sequences of confirms.
use ai_advent_challenge_9_v.Prelude.{
  ℕ, ◌≡◌, ◌⊎◌, refl, ap, ◌∙◌, Bool, true, Option, none, some, List, [], ◌∷◌, ◌++◌, Bool-cases, inl,
  inr,
}
use ai_advent_challenge_9_v.Strings.{Text}
use ai_advent_challenge_9_v.Release.Versions.{tag_message}
use ai_advent_challenge_9_v.Release.Answers.{Parsed}
use ai_advent_challenge_9_v.Release.Plan.{commit, step_keys, state_of, is_done, ReleasePlan}
use ai_advent_challenge_9_v.Release.Steps.{Call, Detail, Env, ToolOutcome}
use ai_advent_challenge_9_v.Release.Confirm.{
  Request, Confirmed, Outcome, raised, blocked, Ending, interrupted, outcome_of, sent, with_section,
  after_check, after_context, write_steps, confirm, confirm_plan,
}
use ai_advent_challenge_9_v.Release.Checks.{apply_overrides, revalidate}
use ai_advent_challenge_9_v.Release.Confirm.Runs.{Runs, write_from-Runs}

-- The plan with the overrides and the section: with its steps and its hash, and the same texts if
-- the commit was done.
abbrev pub Prepared : ReleasePlan → ReleasePlan → Type 0
Prepared plan started =
    (started.steps ≡ plan.steps)
    × (started.commit_sha ≡ plan.commit_sha)
    × (is_done (state_of commit plan.steps) ≡ true
        → (started.version ≡ plan.version)
          × (started.title ≡ plan.title)
          × (started.release_text ≡ plan.release_text))

with_section-Prepared :
    (loads : Text → Option Parsed) (is_alnum : ℕ → Bool) (unicode_digit : ℕ → Option ℕ)
    (plan : ReleasePlan) (today : Text)
    → Prepared plan (with_section loads is_alnum unicode_digit plan today)
with_section-Prepared loads is_alnum unicode_digit plan today =
    elim (Bool-cases (is_done (state_of commit plan.steps))) [
      | inl e ↦ rw e (refl, refl, λ h. (refl, refl, refl))
      | inr e ↦ rw e (refl, refl, λ h. cc)
    ]

pub apply_overrides-Prepared :
    (loads : Text → Option Parsed) (is_alnum : ℕ → Bool) (unicode_digit : ℕ → Option ℕ)
    (plan : ReleasePlan) (version title : Option Text)
    → Prepared plan (apply_overrides loads is_alnum unicode_digit plan version title).0
unfolding apply_overrides
apply_overrides-Prepared loads is_alnum unicode_digit plan version title =
    elim (Bool-cases (is_done (state_of commit plan.steps))) [
      | inl e ↦ rw e (refl, refl, λ h. (refl, refl, refl))
      | inr e ↦ rw e (refl, refl, λ h. cc)
    ]

Prepared-trans :
    (plan middle last : ReleasePlan)
    → Prepared plan middle
    → Prepared middle last
    → Prepared plan last
Prepared-trans plan middle last (steps, hash, texts) (steps', hash', texts') = (
  steps' ∙ steps,
  hash' ∙ hash,
  λ h.
      let (v, t, r) = texts h in
      let (v', t', r') = texts' (ap (λ s. is_done (state_of commit s)) steps ∙ h) in
      (v' ∙ v, t' ∙ t, r' ∙ r),
)

module _ (loads : Text → Option Parsed) (is_alnum : ℕ → Bool) (unicode_digit : ℕ → Option ℕ) where
  -- The outcome is what the end of the loop says, unless the last frame is lost or the confirm blocked.
  abbrev pub Fits : Outcome → Ending → Type 0
  Fits outcome ending = (outcome ≡ outcome_of ending) ⊎ ((outcome ≡ raised) ⊎ (outcome ≡ blocked))

  sent-Fits :
      (env : Env) (outcome : Outcome)
      → (sent loads is_alnum unicode_digit env outcome ≡ outcome)
        ⊎ (sent loads is_alnum unicode_digit env outcome ≡ raised)
  unfolding sent
  sent-Fits env outcome = elim (Bool-cases env.sends_result) [
    | inl e ↦ inl (rw e refl)
    | inr e ↦ inr (rw e refl)
  ]

  write_steps-Fits :
      (env : Env) (ending : Ending)
      → Fits (sent loads is_alnum unicode_digit env (outcome_of ending)) ending
  write_steps-Fits env ending = elim (sent-Fits env (outcome_of ending)) [
    | inl e ↦ inl e
    | inr e ↦ inr (inl e)
  ]

  blocked-Fits : (env : Env) → Fits (sent loads is_alnum unicode_digit env blocked) interrupted
  blocked-Fits env = elim (sent-Fits env blocked) [ inl e ↦ inr (inr e) | inr e ↦ inr (inl e) ]

  -- What a confirm does: it prepares the plan and runs the loop on it, up to any point.
  unfoldable pub IsConfirm : Env → ReleasePlan → Confirmed → Type 0
  IsConfirm env plan confirmed =
      (started : ReleasePlan) × (ending : Ending) × Prepared plan started
      × Runs loads env (tag_message unicode_digit started.version started.title) step_keys started
          confirmed.plan confirmed.calls ending
      × Fits confirmed.outcome ending

  write_steps-IsConfirm :
      (env : Env) (plan : ReleasePlan)
      → IsConfirm env plan (write_steps loads is_alnum unicode_digit env plan)
  unfolding write_steps IsConfirm
  write_steps-IsConfirm env plan = (
    plan,
    _,
    (refl, refl, λ h. (refl, refl, refl)),
    write_from-Runs loads env (tag_message unicode_digit plan.version plan.title) is_alnum
        unicode_digit step_keys plan plan.steps,
    write_steps-Fits env _,
  )

  further :
      (env : Env) (plan middle : ReleasePlan) (confirmed : Confirmed)
      → Prepared plan middle
      → IsConfirm env middle confirmed
      → IsConfirm env plan confirmed
  unfolding IsConfirm
  further env plan middle confirmed prepared (started, ending, more, runs, fits) =
      (started, ending, Prepared-trans plan middle started prepared more, runs, fits)

  after_check-IsConfirm :
      (env : Env) (plan : ReleasePlan) (today : Text) (reason : Option Detail)
      → IsConfirm env plan (after_check loads is_alnum unicode_digit env plan today reason)
  unfolding IsConfirm
  after_check-IsConfirm env plan today (some reason) =
      (plan, interrupted, (refl, refl, λ h. (refl, refl, refl)), Runs.ends, blocked-Fits env)
  after_check-IsConfirm env plan today none =
      let section = with_section loads is_alnum unicode_digit plan today in
      further env plan section (write_steps loads is_alnum unicode_digit env section)
        (with_section-Prepared loads is_alnum unicode_digit plan today)
        (write_steps-IsConfirm env section)

  after_context-IsConfirm :
      (env : Env) (plan : ReleasePlan) (today : Text) (context : Option ToolOutcome)
      → IsConfirm env plan (after_context loads is_alnum unicode_digit env plan today context)
  unfolding IsConfirm
  after_context-IsConfirm env plan today none =
      (plan, interrupted, (refl, refl, λ h. (refl, refl, refl)), Runs.ends, inr (inl refl))
  after_context-IsConfirm env plan today (some outcome) =
      after_check-IsConfirm env plan today (revalidate loads is_alnum unicode_digit plan outcome)

  pub confirm-IsConfirm :
      (env : Env) (plan : ReleasePlan) (request : Request)
      → IsConfirm env plan (confirm loads is_alnum unicode_digit env plan request)
  unfolding confirm
  confirm-IsConfirm env plan request =
      let overridden =
        (apply_overrides loads is_alnum unicode_digit plan request.version request.title).0 in
      further env plan overridden
        (after_context loads is_alnum unicode_digit env overridden request.today env.context)
        (apply_overrides-Prepared loads is_alnum unicode_digit plan request.version request.title)
        (after_context-IsConfirm env overridden request.today env.context)

  -- Confirms of one plan, one after the other.
  unfoldable pub confirm_all : List (Env × Request) → ReleasePlan → ReleasePlan × List Call
  unfolding confirm_plan
  confirm_all [] plan = (plan, [])
  confirm_all ((env, request) ∷ more) plan =
      let first = confirm_plan loads is_alnum unicode_digit env plan request in
      let rest = confirm_all more first.plan in (rest.0, first.calls ++ rest.1)
