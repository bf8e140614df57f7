-- ===== src/Scheduler/Schedule/Readings.antt =====
-- agent/schedule.py: what the texts and the count of a request stand for.
use text.Mathlib.Text.{◌==◌ as str_eq}
use text.Mathlib.TextEquality.{eq_iff}
use ai_advent_challenge_9_v.Prelude.{
  ℕ, ◌+◌, ◌*◌, ◌≤◌, ◌<◌, ◌≡◌, refl, ◌⊎◌, false, not, ◌&&◌, ◌==◌, leb, Option, none, some, String,
  arith, length, Bool-cases, Option-cases, inl, inr,
}
use ai_advent_challenge_9_v.Strings.{Text, strip, split, join_spaces}
use ai_advent_challenge_9_v.Scheduler.Schedule.Errors.{
  Checked, ok, invalid, bad_schedule, cron_invalid,
}
use ai_advent_challenge_9_v.Scheduler.Schedule.{
  ScheduleType, once, interval, cron, Number, nat, negative, not_int, Instant, second, Calendar,
  naive, aware, cron_max_length, validate_max_runs, parse_run_at, is_filled, parse_schedule_type,
  validate_cron,
}

-- A count of runs is taken over as it is given.
abbrev pub IsCount : Option Number → Option ℕ → Type 0
IsCount max_runs runs =
    ((max_runs ≡ none) × (runs ≡ none)) ⊎ ((n : ℕ) × (max_runs ≡ some (nat n)) × (runs ≡ some n))

pub validate_max_runs-IsCount :
    (max_runs : Option Number) (runs : Option ℕ)
    → validate_max_runs max_runs ≡ ok runs
    → IsCount max_runs runs
unfolding validate_max_runs
validate_max_runs-IsCount none runs h = inl (refl, cc)
validate_max_runs-IsCount (some (nat m)) runs h = inr (m, refl, ground arith)
validate_max_runs-IsCount (some (negative m)) runs h = cc
validate_max_runs-IsCount (some not_int) runs h = cc

pub parse_schedule_type-eq :
    (name : String) (kind : ScheduleType)
    → parse_schedule_type name ≡ some kind
    → ((name ≡ "once") × (kind ≡ once))
      ⊎ ((name ≡ "interval") × (kind ≡ interval))
      ⊎ ((name ≡ "cron") × (kind ≡ cron))
unfolding parse_schedule_type
parse_schedule_type-eq name kind h = elim (Bool-cases (str_eq name "once")) [
  | inl e ↦
      let same : Path (Option ScheduleType) (some once) (some kind) = rw e at h in
      inl ((eq_iff name "once").0 e, cc)
  | inr e ↦ elim (Bool-cases (str_eq name "interval")) [
    | inl f ↦
        let same : Path (Option ScheduleType) (some interval) (some kind) = rw f at (rw e at h) in
        inr (inl ((eq_iff name "interval").0 f, cc))
    | inr f ↦ elim (Bool-cases (str_eq name "cron")) [
      | inl g ↦
          let same : Path (Option ScheduleType) (some cron) (some kind) =
            rw g at (rw f at (rw e at h)) in
          inr (inr ((eq_iff name "cron").0 g, cc))
      | inr g ↦
          let bad : Path (Option ScheduleType) none (some kind) = rw g at (rw f at (rw e at h)) in
          cc
    ]
  ]
]

module _ (calendar : Calendar) where
  open calendar use {cron_next, from_local, from_iso}

  -- An expression of five fields, from a text of 1 to 100 characters without its outer blanks, with
  -- one blank between two fields, which has a match.
  abbrev pub IsCronOf : Text → Text → Type 0
  IsCronOf text expr =
      (0 < length (strip text))
      × (length (strip text) ≤ cron_max_length)
      × (length (split (strip text)) ≡ 5)
      × (expr ≡ join_spaces (split (strip text)))
      × ((next : ℕ) × (cron_next expr (63082281600 * second) ≡ some next))

  -- The instant that a timestamp names, of two readings in a change of the clock the first.
  abbrev pub IsTimeOf : Text → Instant → Type 0
  IsTimeOf text target =
      (from_iso (strip text) ≡ some (aware target))
      ⊎ ((reading : ℕ) × (from_iso (strip text) ≡ some (naive reading))
          × (from_local reading false ≡ some target))

  -- Exactly one of a delay of at least a second and a timestamp is given, and names the time.
  abbrev pub IsOneShot : Option Number → Option Text → Instant → Instant → Type 0
  IsOneShot delay run_at now target =
      ((n : ℕ) × (delay ≡ some (nat n))
        × (is_filled run_at ≡ false)
        × (0 < n)
        × (target ≡ now + n * second))
      ⊎ ((text : Text) × (delay ≡ none) × (run_at ≡ some text) × IsTimeOf text target)

  pub validate_cron-IsCronOf :
      (text normalized : Text)
      → validate_cron calendar text ≡ ok normalized
      → IsCronOf text normalized
  unfolding validate_cron
  validate_cron-IsCronOf text normalized h =
      let stripped = strip text in
      let fits = not (length stripped == 0) && leb (length stripped) cron_max_length in
      let joined = join_spaces (split stripped) in
      elim (Bool-cases fits) [
        | inr e ↦
            let bad : Path (Checked Text) (invalid cron_invalid) (ok normalized) = rw e at h in cc
        | inl e ↦ elim (Bool-cases (length (split stripped) == 5)) [
          | inr f ↦
              let bad : Path (Checked Text) (invalid cron_invalid) (ok normalized) =
                rw f at (rw e at h) in
              cc
          | inl f ↦ elim (Option-cases (cron_next joined (63082281600 * second))) [
            | inl g ↦
                let bad : Path (Checked Text) (invalid cron_invalid) (ok normalized) =
                  rw g at (rw f at (rw e at h)) in
                cc
            | inr (next, g) ↦
                let same : Path (Checked Text) (ok joined) (ok normalized) =
                  rw g at (rw f at (rw e at h)) in
                let normal : normalized ≡ joined = cc in
                (ground arith, ground arith, ground arith, normal, (next, rw normal g))
          ]
        ]
      ]

  pub parse_run_at-IsTimeOf :
      (text : Text) (target : Instant)
      → parse_run_at calendar text ≡ ok target
      → IsTimeOf text target
  unfolding parse_run_at
  parse_run_at-IsTimeOf text target h = elim (Option-cases (from_iso (strip text))) [
    | inl e ↦ let bad : Path (Checked Instant) (invalid bad_schedule) (ok target) = rw e at h in cc
    | inr (aware instant, e) ↦
        let same : Path (Checked Instant) (ok instant) (ok target) = rw e at h in
        let at : instant ≡ target = cc in inl (rw at at e)
    | inr (naive reading, e) ↦ elim (Option-cases (from_local reading false)) [
      | inl f ↦
          let bad : Path (Checked Instant) (invalid bad_schedule) (ok target) =
            rw f at (rw e at h) in
          cc
      | inr (instant, f) ↦
          let same : Path (Checked Instant) (ok instant) (ok target) = rw f at (rw e at h) in
          let at : instant ≡ target = cc in inr (reading, e, rw at at f)
    ]
  ]
