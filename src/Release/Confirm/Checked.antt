-- ===== src/Release/Confirm/Checked.antt =====
-- agent/release_executor.py: what is checked before a confirm writes anything.
use ai_advent_challenge_9_v.Prelude.{
  ℕ, ◌≡◌, refl, sym, ap, ◌∙◌, ◌⊎◌, Bool, true, false, Option, none, some, List, [], ◌∷◌, ◌++◌,
  arith, ltb, length, if◌then◌else◌, Bool-cases, inl, inr,
}
use ai_advent_challenge_9_v.Strings.{Text}
use ai_advent_challenge_9_v.Strings.Equal.{same_text, same_text→eq}
use ai_advent_challenge_9_v.Release.Versions.{VersionError, validate_version}
use ai_advent_challenge_9_v.Release.Answers.{Parsed, ReleaseContext, parse_context, dirty_paths}
use ai_advent_challenge_9_v.Release.Plan.{commit, state_of, is_done, ReleasePlan}
use ai_advent_challenge_9_v.Release.Steps.{Detail, Env, ToolOutcome}
use ai_advent_challenge_9_v.Release.Confirm.{
  Request, Confirmed, after_check, after_context, confirm, confirm_plan,
}
use ai_advent_challenge_9_v.Release.Checks.{
  apply_overrides, is_expected, version_reason, remote_of, recheck, recheck_parsed, revalidate,
}
use ai_advent_challenge_9_v.Release.Confirm.Prepared.{apply_overrides-Prepared}

module _ (loads : Text → Option Parsed) (is_alnum : ℕ → Bool) (unicode_digit : ℕ → Option ℕ) where
  -- The repository is as the plan left it: with the commit if it was made, and otherwise with a
  -- version that is free.
  abbrev pub IsUnmoved : ReleasePlan → ReleaseContext → Type 0
  IsUnmoved plan context =
      ((is_done (state_of commit plan.steps) ≡ true) × (plan.commit_sha ≡ some context.head))
      ⊎ ((is_done (state_of commit plan.steps) ≡ false)
          × (plan.head_sha ≡ context.head)
          × (validate_version unicode_digit plan.version plan.last_tag
                (context.local_tags ++ remote_of loads is_alnum unicode_digit context.remote_tags)
              ≡ none))

  is_expected→eq :
      (head : Text) (expected : Option Text)
      → is_expected loads is_alnum unicode_digit head expected ≡ true
      → expected ≡ some head
  unfolding is_expected
  is_expected→eq head none h = cc
  is_expected→eq head (some expected) h = ap some (sym (same_text→eq head expected h))

  as_same :
      (head expected : Text)
      → is_expected loads is_alnum unicode_digit head (some expected) ≡ true
      → same_text head expected ≡ true
  unfolding is_expected
  as_same head expected h = h

  no_paths : (paths : List Text) → ltb 0 (length paths) ≡ false → paths ≡ []
  no_paths [] h = refl
  no_paths (path ∷ paths) h = ground arith

  no_error :
      (error : Option VersionError)
      → version_reason loads is_alnum unicode_digit error ≡ none
      → error ≡ none
  no_error none h = refl
  no_error (some error) h = cc

  recheck-IsUnmoved :
      (plan : ReleasePlan) (context : ReleaseContext)
      → recheck loads is_alnum unicode_digit plan context ≡ none
      → (dirty_paths context.dirty ≡ []) × IsUnmoved plan context
  unfolding recheck
  recheck-IsUnmoved plan context h =
      let committed = is_done (state_of commit plan.steps) in
      let expected = if committed then plan.commit_sha else some plan.head_sha in
      elim (Bool-cases (ltb 0 (length (dirty_paths context.dirty)))) [
        | inl e ↦ let bad = rw e at h in cc
        | inr e ↦
            elim (Bool-cases (is_expected loads is_alnum unicode_digit context.head expected)) [
              | inr f ↦ let bad = rw f at (rw e at h) in cc
              | inl f ↦
                  let left = rw f at (rw e at h) in
                  (
                    no_paths (dirty_paths context.dirty) e,
                    elim (Bool-cases committed) [
                      | inl c ↦ inl (c, is_expected→eq context.head plan.commit_sha (rw c at f))
                      | inr c ↦ inr (
                        c,
                        sym (
                            same_text→eq context.head plan.head_sha
                              (as_same context.head plan.head_sha (rw c at f))),
                        no_error _ (rw c at left),
                      )
                    ],
                  )
            ]
      ]

  -- The context that the confirm read, with a clean tree and an unmoved repository.
  abbrev pub IsAllowed : Env → ReleasePlan → Request → Type 0
  IsAllowed env plan request =
      (outcome : ToolOutcome) × (context : ReleaseContext) × (env.context ≡ some outcome)
      × (outcome.ok ≡ true)
      × (parse_context loads outcome.answer ≡ some context)
      × (dirty_paths context.dirty ≡ [])
      × IsUnmoved
          (apply_overrides loads is_alnum unicode_digit plan request.version request.title).0
          context

  parsed-IsUnmoved :
      (plan : ReleasePlan) (parsed : Option ReleaseContext)
      → recheck_parsed loads is_alnum unicode_digit plan parsed ≡ none
      → (context : ReleaseContext) × (parsed ≡ some context)
        × (dirty_paths context.dirty ≡ [])
        × IsUnmoved plan context
  parsed-IsUnmoved plan none h = cc
  parsed-IsUnmoved plan (some context) h =
      let (clean, unmoved) = recheck-IsUnmoved plan context h in (context, refl, clean, unmoved)

  revalidate-IsUnmoved :
      (plan : ReleasePlan) (outcome : ToolOutcome)
      → revalidate loads is_alnum unicode_digit plan outcome ≡ none
      → (context : ReleaseContext) × (outcome.ok ≡ true)
        × (parse_context loads outcome.answer ≡ some context)
        × (dirty_paths context.dirty ≡ [])
        × IsUnmoved plan context
  unfolding revalidate
  revalidate-IsUnmoved plan outcome h = elim (Bool-cases outcome.ok) [
    | inl e ↦
        let (context, parsed, clean, unmoved) =
          parsed-IsUnmoved plan (parse_context loads outcome.answer) (rw e at h) in
        (context, e, parsed, clean, unmoved)
    | inr e ↦ let bad = rw e at h in cc
  ]

  -- No call, and no step in another state.
  abbrev pub IsRefused : ReleasePlan → Confirmed → Type 0
  IsRefused plan confirmed = (confirmed.calls ≡ []) × (confirmed.plan.steps ≡ plan.steps)

  after_check-IsAllowed :
      (env : Env) (plan : ReleasePlan) (today : Text) (outcome : ToolOutcome)
      (reason : Option Detail)
      → revalidate loads is_alnum unicode_digit plan outcome ≡ reason
      → IsRefused plan (after_check loads is_alnum unicode_digit env plan today reason)
        ⊎ (revalidate loads is_alnum unicode_digit plan outcome ≡ none)
  after_check-IsAllowed env plan today outcome none e = inr e
  after_check-IsAllowed env plan today outcome (some reason) e = inl (refl, refl)

  after_context-IsAllowed :
      (env : Env) (plan : ReleasePlan) (today : Text) (answer : Option ToolOutcome)
      → IsRefused plan (after_context loads is_alnum unicode_digit env plan today answer)
        ⊎ ((outcome : ToolOutcome) × (answer ≡ some outcome)
            × (revalidate loads is_alnum unicode_digit plan outcome ≡ none))
  after_context-IsAllowed env plan today none = inl (refl, refl)
  after_context-IsAllowed env plan today (some outcome) =
      elim (after_check-IsAllowed env plan today outcome
        (revalidate loads is_alnum unicode_digit plan outcome) refl) [
          | inl refused ↦ inl refused
          | inr e ↦ inr (outcome, refl, e)
        ]

  confirm-IsAllowed :
      (env : Env) (plan : ReleasePlan) (request : Request)
      → IsRefused plan (confirm loads is_alnum unicode_digit env plan request)
        ⊎ IsAllowed env plan request
  unfolding confirm
  confirm-IsAllowed env plan request =
      let checked =
        (apply_overrides loads is_alnum unicode_digit plan request.version request.title).0 in
      let (steps, hash, texts) =
        apply_overrides-Prepared loads is_alnum unicode_digit plan request.version request.title in
      elim (after_context-IsAllowed env checked request.today env.context) [
        | inl (calls, same) ↦ inl (calls, same ∙ steps)
        | inr (outcome, answered, e) ↦
            let (context, ok, parsed, clean, unmoved) = revalidate-IsUnmoved checked outcome e in
            inr (outcome, context, answered, ok, parsed, clean, unmoved)
      ]

  -- A confirm writes nothing and leaves every step as it was, unless no other one of the plan is
  -- running and the context that it read just before shows a clean tree, whose head is the commit
  -- of the release if that was made, and otherwise the head of the plan, with a valid version that
  -- no local or remote tag has.
  pub confirm_plan-IsAllowed :
      (env : Env) (plan : ReleasePlan) (request : Request)
      → IsRefused plan (confirm_plan loads is_alnum unicode_digit env plan request)
        ⊎ ((plan.is_running ≡ false) × IsAllowed env (record plan { is_running = true }) request)
  unfolding confirm_plan
  confirm_plan-IsAllowed env plan request =
      let started : ReleasePlan = record plan { is_running = true } in
      elim (Bool-cases plan.is_running) [
        | inl e ↦ inl (rw e (refl, refl))
        | inr e ↦ elim (confirm-IsAllowed env started request) [
          | inl refused ↦ inl (rw e refused)
          | inr allowed ↦ inr (e, allowed)
        ]
      ]
