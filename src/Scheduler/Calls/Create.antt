-- ===== src/Scheduler/Calls/Create.antt =====
-- agent/scheduler_ops.py: the user's operations keep the invariant of the scheduler's tables.
use ai_advent_challenge_9_v.Prelude.{
  ℕ, ◌≡◌, refl, ◌⊎◌, inl, inr, Bool, true, false, ◌&&◌, Option, none, some, List, [], ◌∷◌, ◌++◌,
  arith, ◌==◌, leb, if◌then◌else◌, Bool-cases, Option-cases,
}
use ai_advent_challenge_9_v.Strings.{Text}
use ai_advent_challenge_9_v.Scheduler.Schedule.{
  Calendar, Instant, ScheduleSpec, initial_next_run, next_run_on_resume,
}
use ai_advent_challenge_9_v.Scheduler.Schedule.Errors.{Checked, ok, invalid, Checked-cases}
use ai_advent_challenge_9_v.Scheduler.Schedule.Accepted.{
  IsAccepted, accepted_once, accepted_interval, accepted_cron, build_schedule_spec-IsAccepted,
}
use ai_advent_challenge_9_v.Scheduler.Tables.{
  ScheduledTask, ScheduledTaskStatus, Db, Env, is_live, is_active, is_set, find_task, find_run,
  rowcount,
}
use ai_advent_challenge_9_v.Scheduler.Service.{
  is_exhausted, start_manual_run, Start, started, already_finished, already_active, start_failed,
}
use ai_advent_challenge_9_v.Scheduler.Control.{
  Outcome, done, raised, Request, CreateEnv, validate_text_fields, new_task, store_task,
  create_scheduled, create_validated, create_scheduled_task, spec_of, is_own_provider,
  get_owned_task, guarded, guarded_transition, is_paused, set_pause, set_resume, set_cancel,
  pause_task, cancel_task, resume_task, resume_at, run_task_now, of_start, count_live_tasks,
}
use ai_advent_challenge_9_v.Scheduler.Calls.Sound.{InBudget, IsSound, update-IsSound}
use ai_advent_challenge_9_v.Scheduler.Calls.Insert.{start_manual_run-IsSound}

-- An accepted schedule leaves room for the first run.
accepted-InBudget :
    (minimum : ℕ) (now : Instant) (spec : ScheduleSpec) (t : ScheduledTask)
    → IsAccepted minimum now spec
    → t.run_count ≡ 0
    → InBudget spec.max_runs t
accepted-InBudget minimum now spec t (accepted_once target ahead near e) zero = rw e tt
accepted-InBudget minimum now spec t (accepted_interval seconds none low high range e) zero =
    rw e tt
accepted-InBudget minimum now spec t (accepted_interval seconds (some m) low high range e) zero =
    rw e (ground arith, λ h. ground arith)
accepted-InBudget minimum now spec t (accepted_cron expr none range e) zero = rw e tt
accepted-InBudget minimum now spec t (accepted_cron expr (some m) range e) zero =
    rw e (ground arith, λ h. ground arith)

or_task : Option ScheduledTask → Option ScheduledTask → Option ScheduledTask
or_task none u = u
or_task (some t) u = some t

find_task-append :
    (id : ℕ) (ts : List ScheduledTask) (t : ScheduledTask)
    → find_task id (ts ++ t ∷ []) ≡ or_task (find_task id ts) (if t.id == id then some t else none)
unfolding find_task or_task
find_task-append id [] t = ground arith
find_task-append id (x ∷ ts) t = ground (arith, find_task-append id ts t)

-- The row under a key after an insertion was there before, or is the new one.
find_task-append_cases :
    (id : ℕ) (ts : List ScheduledTask) (t u : ScheduledTask)
    → find_task id (ts ++ t ∷ []) ≡ some u
    → (find_task id ts ≡ some u) ⊎ (u ≡ t)
unfolding or_task
find_task-append_cases id ts t u h =
    let seen = find_task-append id ts t in
    elim (Option-cases (find_task id ts)) [
      | inl absent ↦ elim (Bool-cases (t.id == id)) [
        | inl e ↦ inr (ground arith)
        | inr e ↦ ground arith
      ]
      | inr (v, found) ↦ inl (ground arith)
    ]

append-IsSound :
    (t : ScheduledTask) (db : Db)
    → InBudget t.max_runs t
    → is_exhausted t ≡ false
    → IsSound db
    → IsSound (record db { tasks = db.tasks ++ t ∷ [] })
append-IsSound t db budget set sound = record {
  unique = sound.unique;
  one_running = sound.one_running;
  in_budget = λ id u h. elim (find_task-append_cases id db.tasks t u h) [
    | inl old ↦ sound.in_budget id u old
    | inr new ↦ rw new budget
  ];
  none_stuck = λ id u h stuck. elim (find_task-append_cases id db.tasks t u h) [
    | inl old ↦ sound.none_stuck id u old stuck
    | inr new ↦ let stuck' = rw new at stuck in cc
  ];
}

module _ (calendar : Calendar) (env : CreateEnv) (user_id : ℕ) (request : Request) (now : Instant)
    (db : Db) (sound : IsSound db) where
  store_task-IsSound :
      (texts : Text × Text × Text) (spec : ScheduleSpec) (slot : Instant)
      → IsAccepted env.min_interval_seconds now spec
      → IsSound (store_task env user_id (new_task env user_id request texts spec slot now) db).1
  unfolding store_task
  store_task-IsSound texts spec slot accepted =
      elim (Bool-cases (leb env.max_active_tasks (count_live_tasks user_id db.tasks))) [
        | inl full ↦ rw full sound
        | inr room ↦ rw room (elim (Bool-cases env.commits) [
          | inr broken ↦ rw broken sound
          | inl stays ↦ rw stays (
              append-IsSound (new_task env user_id request texts spec slot now) db
                (accepted-InBudget env.min_interval_seconds now spec _ accepted refl) refl sound)
        ])
      ]

  create_scheduled-IsSound :
      (texts : Text × Text × Text) (checked : Checked ScheduleSpec)
      → spec_of calendar env request now ≡ checked
      → IsSound (create_scheduled calendar env user_id request texts now db checked).1
  unfolding create_scheduled
  create_scheduled-IsSound texts (invalid e) named = sound
  create_scheduled-IsSound texts (ok spec) named =
      elim (Checked-cases (initial_next_run calendar spec now)) [
        | inr (e, wrong) ↦ rw wrong sound
        | inl (slot, first) ↦ rw first (
            store_task-IsSound texts spec slot (
              build_schedule_spec-IsAccepted calendar now spec env.min_interval_seconds
                request.schedule_type request.delay_seconds request.run_at request.interval_seconds
                request.cron request.max_runs named))
      ]

  create_validated-IsSound :
      (texts : Outcome (Text × Text × Text))
      → IsSound (create_validated calendar env user_id request now db texts).1
  unfolding create_validated
  create_validated-IsSound (raised e) = sound
  create_validated-IsSound (done texts) =
      elim (Bool-cases (is_own_provider env user_id request.provider_id)) [
        | inr alien ↦ rw alien sound
        | inl own ↦ rw own (create_scheduled-IsSound texts (spec_of calendar env request now) refl)
      ]

  pub create_scheduled_task-IsSound :
      IsSound (create_scheduled_task calendar env user_id request now db).1
  unfolding create_scheduled_task
  create_scheduled_task-IsSound =
      create_validated-IsSound (validate_text_fields request.title request.prompt request.model)

pub same-InBudget :
    (limit : Option ℕ) (t u : ScheduledTask)
    → u.run_count ≡ t.run_count
    → ((is_live u.status && is_set u.next_run_at) ≡ true
        → (is_live t.status && is_set t.next_run_at) ≡ true)
    → InBudget limit t
    → InBudget limit u
same-InBudget none t u count slots b = tt
same-InBudget (some m) t u count slots b = (rw count b.0, λ h. rw count (b.1 (slots h)))

module _ (commits : Bool) (user_id task_id : ℕ) (now : Instant) (db : Db) (sound : IsSound db) where
  guarded_transition-IsSound :
      (id : ℕ) (expected : ScheduledTaskStatus → Bool) (values : ScheduledTask → ScheduledTask)
      (task : ScheduledTask)
      → ((t : ScheduledTask) → (values t).id ≡ t.id)
      → ((t : ScheduledTask)
          → guarded id expected t ≡ true
          → InBudget t.max_runs t
          → InBudget (values t).max_runs (values t))
      → ((t : ScheduledTask) → guarded id expected t ≡ true → is_exhausted (values t) ≡ false)
      → IsSound (guarded_transition commits id expected values task db).1
  guarded_transition-IsSound id expected values task same keeps set = elim (Bool-cases commits) [
    | inr broken ↦ rw broken sound
    | inl stays ↦ rw stays (elim (Bool-cases (rowcount (guarded id expected) db.tasks == 1)) [
      | inr lost ↦ rw lost sound
      | inl won ↦ rw won (
          update-IsSound (guarded id expected) values same db keeps
            (λ t e stuck. let not_stuck = set t e in cc) sound)
    ])
  ]

  pub pause_task-IsSound : IsSound (pause_task commits user_id task_id now db).1
  unfolding pause_task
  pause_task-IsSound = elim (Option-cases (get_owned_task user_id task_id db)) [
    | inl absent ↦ rw absent sound
    | inr (t, owned) ↦ rw owned (elim (Bool-cases (is_active t.status)) [
      | inr other ↦ rw other sound
      | inl live ↦ rw live (elim (Bool-cases (is_set t.next_run_at)) [
        | inr last ↦ rw last sound
        | inl set ↦ rw set (
            guarded_transition-IsSound task_id is_active (set_pause now) t (λ u. refl)
              (λ u e b. same-InBudget u.max_runs u (set_pause now u) refl (λ h. ground arith) b)
              (λ u e. ground arith))
      ])
    ])
  ]

  pub cancel_task-IsSound : IsSound (cancel_task commits user_id task_id now db).1
  unfolding cancel_task
  cancel_task-IsSound = elim (Option-cases (get_owned_task user_id task_id db)) [
    | inl absent ↦ rw absent sound
    | inr (t, owned) ↦ rw owned (elim (Bool-cases (is_live t.status)) [
      | inr over ↦ rw over sound
      | inl live ↦ rw live (elim (Bool-cases commits) [
        | inr broken ↦ rw broken sound
        | inl stays ↦ rw stays (
            update-IsSound (λ u. u.id == t.id) (set_cancel now) (λ u. refl) db
              (λ u e b. same-InBudget u.max_runs u (set_cancel now u) refl (λ h. cc) b)
              (λ u e h. cc) sound)
      ])
    ])
  ]

  pub resume_task-IsSound :
      (calendar : Calendar) → IsSound (resume_task calendar commits user_id task_id now db).1
  unfolding resume_task resume_at
  resume_task-IsSound calendar = elim (Option-cases (get_owned_task user_id task_id db)) [
    | inl absent ↦ rw absent sound
    | inr (t, owned) ↦ rw owned (elim (Bool-cases (is_paused t.status)) [
      | inr other ↦ rw other sound
      | inl waits ↦ rw waits (elim (Bool-cases (is_set t.next_run_at)) [
        | inr last ↦ rw last sound
        | inl set ↦
            rw set
              (elim (Checked-cases (
                next_run_on_resume calendar t.schedule_type t.run_at t.interval_seconds t.cron_expr
                  now)) [
                    | inr (e, wrong) ↦ rw wrong sound
                    | inl (next, found) ↦ rw found (
                        guarded_transition-IsSound task_id is_paused (set_resume next now) t
                          (λ u. refl)
                          (λ u e b.
                            same-InBudget u.max_runs u (set_resume next now u) refl
                              (λ h. ground arith) b)
                          (λ u e. refl))
                  ])
      ])
    ])
  ]

of_start-db : (answer : Start × Db) → (of_start answer).1 ≡ answer.1
of_start-db (started r, db) = refl
of_start-db (already_finished, db) = refl
of_start-db (already_active, db) = refl
of_start-db (start_failed, db) = refl

pub run_task_now-IsSound :
    (env : Env) (user_id task_id : ℕ) (now : Instant) (db : Db)
    → IsSound db
    → find_run env.new_run_id db.runs ≡ none
    → IsSound (run_task_now env user_id task_id now db).1
unfolding run_task_now
run_task_now-IsSound env user_id task_id now db sound fresh =
    elim (Option-cases (get_owned_task user_id task_id db)) [
      | inl absent ↦ rw absent sound
      | inr (t, owned) ↦ rw owned (elim (Bool-cases (is_live t.status)) [
        | inr over ↦ rw over sound
        | inl live ↦ rw live (
            rw (of_start-db (start_manual_run env t now db))
              (start_manual_run-IsSound env t now db sound fresh))
      ])
    ]
