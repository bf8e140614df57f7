-- ===== src/Release/Confirm/Progress.antt =====
-- agent/release_executor.py: the write steps that confirms complete, over any sequence of confirms.
use ai_advent_challenge_9_v.Prelude.{
  ℕ, zero, suc, ◌≤◌, ◌≡◌, refl, sym, ap, ◌∙◌, true, false, Option, none, some, List, [], ◌∷◌, ◌++◌,
  arith, ◌==◌, ltb, if◌then◌else◌, Bool-cases, inl, inr,
}
use mathlib.Core.List.{append_assoc, append-nil}
use ai_advent_challenge_9_v.Strings.{Text}
use ai_advent_challenge_9_v.Release.Answers.{Parsed}
use ai_advent_challenge_9_v.Release.Plan.{
  StepState, StepKey, commit, tag, push, release, Steps, state_of, set_state, step_keys,
  default_steps, is_done, ReleasePlan,
}
use ai_advent_challenge_9_v.Release.Steps.{Call, Env, StepRun, run_step}
use ai_advent_challenge_9_v.Release.Confirm.{
  is_step_done, with_state, Ending, completed, interrupted, stopped,
}
use ai_advent_challenge_9_v.Release.Confirm.Runs.{HaltsAs, Runs}
use ai_advent_challenge_9_v.Release.Confirm.Step.{written, IsStep, run_step-IsStep}

abbrev pub index : StepKey → ℕ
index commit = 0
index tag = 1
index push = 2
index release = 3

abbrev pub first_keys : ℕ → List StepKey → List StepKey
first_keys zero keys = []
first_keys (suc count) [] = []
first_keys (suc count) (key ∷ keys) = key ∷ first_keys count keys

abbrev pub first_steps : ℕ → List StepKey
first_steps count = first_keys count step_keys

-- The first `count` steps are done, the others are not, and these were written in their order,
-- each once.
abbrev pub DoneUpTo : (count : ℕ) → ReleasePlan → List StepKey → Type 0
DoneUpTo count plan keys =
    (keys ≡ first_steps count)
    × ((key : StepKey) → is_done (state_of key plan.steps) ≡ ltb (index key) count)

abbrev pub Progress : ReleasePlan → List StepKey → Type 0
Progress plan keys = (count : ℕ) × DoneUpTo count plan keys

-- The keys are the ones from a position on.
pub data Rest : ℕ → List StepKey → Type 0 where
  rest_end : Rest 4 []
  rest_next :
      {i : ℕ} {key : StepKey} {keys : List StepKey}
      → index key ≡ i
      → Rest (suc i) keys
      → Rest i (key ∷ keys)

pub all_steps : Rest 0 step_keys
all_steps = rest_next refl (rest_next refl (rest_next refl (rest_next refl rest_end)))

pub none_done : (key : StepKey) → is_done (state_of key default_steps) ≡ ltb (index key) 0
none_done commit = refl
none_done tag = refl
none_done push = refl
none_done release = refl

is_done_set :
    (key other : StepKey) (state : StepState) (steps : Steps)
    → is_done (state_of other (set_state key state steps))
      ≡ (if index other == index key then is_done state else is_done (state_of other steps))
is_done_set commit commit state steps = refl
is_done_set commit tag state steps = refl
is_done_set commit push state steps = refl
is_done_set commit release state steps = refl
is_done_set tag commit state steps = refl
is_done_set tag tag state steps = refl
is_done_set tag push state steps = refl
is_done_set tag release state steps = refl
is_done_set push commit state steps = refl
is_done_set push tag state steps = refl
is_done_set push push state steps = refl
is_done_set push release state steps = refl
is_done_set release commit state steps = refl
is_done_set release tag state steps = refl
is_done_set release push state steps = refl
is_done_set release release state steps = refl

next_step : (key : StepKey) → first_steps (index key) ++ key ∷ [] ≡ first_steps (suc (index key))
next_step commit = refl
next_step tag = refl
next_step push = refl
next_step release = refl

-- The step in turn is done.
step_done :
    (key : StepKey) (plan : ReleasePlan) (keys : List StepKey) (state : StepState)
    (after : ReleasePlan)
    → after.steps ≡ plan.steps
    → is_done state ≡ true
    → DoneUpTo (index key) plan keys
    → DoneUpTo (suc (index key)) (with_state (some state) key after) (keys ++ key ∷ [])
step_done key plan keys state after same ends (listed, flags) = (
  ap (λ l. l ++ key ∷ []) listed ∙ next_step key,
  λ other.
      let set = is_done_set key other state after.steps in
      let before = ap (λ s. is_done (state_of other s)) same ∙ flags other in ground arith,
)

-- A step that does not end as done leaves the others, if it was not done before.
step_not_done :
    (count : ℕ) (key : StepKey) (plan : ReleasePlan) (keys : List StepKey)
    (state : Option StepState) (after : ReleasePlan)
    → after.steps ≡ plan.steps
    → is_step_done state ≡ false
    → is_done (state_of key plan.steps) ≡ false
    → DoneUpTo count plan keys
    → DoneUpTo count (with_state state key after) (keys ++ [])
step_not_done count key plan keys none after same ends was (listed, flags) =
    (append-nil keys ∙ listed, λ other. ap (λ s. is_done (state_of other s)) same ∙ flags other)
step_not_done count key plan keys (some state) after same ends was (listed, flags) = (
  append-nil keys ∙ listed,
  λ other.
      let set = is_done_set key other state after.steps in
      let before = ap (λ s. is_done (state_of other s)) same ∙ flags other in
      let this = flags key in ground arith,
)

-- The step in turn, whatever its end.
step_ended :
    (key : StepKey) (plan : ReleasePlan) (keys : List StepKey) (after : ReleasePlan)
    (state : Option StepState)
    → after.steps ≡ plan.steps
    → is_done (state_of key plan.steps) ≡ false
    → DoneUpTo (index key) plan keys
    → DoneUpTo
        (if is_step_done state then suc (index key) else index key)
        (with_state state key after)
        (keys ++ (if is_step_done state then key ∷ [] else []))
step_ended key plan keys after none same was inv =
    step_not_done (index key) key plan keys none after same refl was inv
step_ended key plan keys after (some state) same was inv = elim (Bool-cases (is_done state)) [
  | inl e ↦ rw e (step_done key plan keys state after same e inv)
  | inr e ↦ rw e (step_not_done (index key) key plan keys (some state) after same e was inv)
]

step_Progress :
    (key : StepKey) (plan : ReleasePlan) (keys : List StepKey) (step : StepRun)
    → IsStep key plan step
    → is_done (state_of key plan.steps) ≡ false
    → DoneUpTo (index key) plan keys
    → DoneUpTo
        (if is_step_done step.state then suc (index key) else index key)
        (with_state step.state key step.plan)
        (keys ++ written step.calls)
step_Progress key plan keys step (kept, hash, logged) was inv =
    rw logged (step_ended key plan keys step.plan step.state kept.0 was inv)

-- A step that is not done, of the ones from a position on that is reached, is the next one.
is_next :
    (key : StepKey) (position count : ℕ) (plan : ReleasePlan) (keys : List StepKey)
    → index key ≡ position
    → position ≤ count
    → is_done (state_of key plan.steps) ≡ false
    → DoneUpTo count plan keys
    → DoneUpTo (index key) plan keys × (count ≡ index key)
is_next key position count plan keys at le was (listed, flags) =
    let this = flags key in
    let same : count ≡ index key = ground arith in (rw (← same) (listed, flags), same)

pub written-append :
    (calls more : List Call) → written (calls ++ more) ≡ written calls ++ written more
unfolding written
written-append [] more = refl
written-append (call ∷ calls) more =
    let rest = written-append calls more in
    elim (Bool-cases (is_step_done call.state)) [
      | inl e ↦ rw e (ap (λ l. call.key ∷ l) rest)
      | inr e ↦ rw e rest
    ]

-- Where the loop ends: behind the last step, or at the step in turn.
abbrev pub EndsAt : Ending → (count : ℕ) → Type 0
EndsAt completed count = 4 ≤ count
EndsAt interrupted count = Unit
EndsAt (stopped key detail) count = index key ≡ count

abbrev pub Reached : ReleasePlan → List StepKey → Ending → Type 0
Reached plan keys ending = (count : ℕ) × DoneUpTo count plan keys × EndsAt ending count

halts-EndsAt :
    (key : StepKey) (state : Option StepState) (ending : Ending)
    → HaltsAs key state ending
    → EndsAt ending (if is_step_done state then suc (index key) else index key)
halts-EndsAt key state ending (inl e) = rw e tt
halts-EndsAt key state ending (inr (detail, e, was)) = rw e (rw was refl)

module _ (loads : Text → Option Parsed) (env : Env) (message : Text) where
  pub Runs-Progress :
      {left : List StepKey} {plan after : ReleasePlan} {calls : List Call} {ending : Ending}
      → Runs loads env message left plan after calls ending
      → (position : ℕ) → Rest position left
      → (count : ℕ) (keys : List StepKey) → position ≤ count
      → DoneUpTo count plan keys
      → Reached after (keys ++ written calls) ending
  unfolding written
  Runs-Progress Runs.ends position rest count keys le (listed, flags) =
      (count, (append-nil keys ∙ listed, flags), tt)
  Runs-Progress Runs.completes position rest_end count keys le (listed, flags) =
      (count, (append-nil keys ∙ listed, flags), le)
  Runs-Progress {plan = plan} (Runs.skips {key} was runs) position (rest_next at rest) count keys le
        inv =
      let this = inv.1 key in Runs-Progress runs (suc position) rest count keys (ground arith) inv
  Runs-Progress {plan = plan} (Runs.halts {key} {ending = ending} was how) position
        (rest_next at rest) count keys le inv =
      let (now, same) = is_next key position count plan keys at le was inv in
      (
        _,
        step_Progress key plan keys (run_step loads env plan key message)
            (run_step-IsStep loads env plan key message) was now,
        halts-EndsAt key (run_step loads env plan key message).state ending how,
      )
  Runs-Progress {plan = plan} (Runs.goes_on {key} {calls = more} was is_over runs) position
        (rest_next at rest) count keys le inv =
      let step = run_step loads env plan key message in
      let (now, same) = is_next key position count plan keys at le was inv in
      let moved =
        step_Progress key plan keys step (run_step-IsStep loads env plan key message) was now in
      let next = rw is_over at moved in
      let (last, (listed, flags), at_end) =
        Runs-Progress runs (suc position) rest (suc (index key)) (keys ++ written step.calls)
          (ground arith) next in
      let log =
        ap (λ l. keys ++ l) (written-append step.calls more)
        ∙ sym (append_assoc keys (written step.calls) (written more)) in
      (last, (log ∙ listed, flags), at_end)
