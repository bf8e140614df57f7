-- ===== src/Limits/Gate/Samples.antt =====
-- agent/limits.py: GenerationGate on a short run, and the theorems at it.
use ai_advent_challenge_9_v.Prelude.{◌≡◌, refl, List, [], ◌∷◌, arith}
use ai_advent_challenge_9_v.Limits.Gate.{
  Event, arrive, run, announced, resume, interrupt, leave, announcing, queued, gone, holding,
  run_all, new_gate,
}
use ai_advent_challenge_9_v.Limits.Gate.Deque.{asleep}
use ai_advent_challenge_9_v.Limits.Gate.Events.{IsCapped, run_all-IsCapped, run_all-drained}

program : Unit {0}
unfolding run_all new_gate
program = tt

-- Two wait behind a turn; the first of them is cancelled with its slot on the way, which goes on
-- to the second.
abbrev events : List Event
events =
    arrive
    ∷ arrive
    ∷ arrive
    ∷ run 1
    ∷ run 2
    ∷ announced 1
    ∷ announced 2
    ∷ leave 0
    ∷ interrupt 1
    ∷ run 1
    ∷ resume 1
    ∷ run 2
    ∷ resume 2
    ∷ []

passed_on : (run_all events (new_gate 1)).turns ≡ gone ∷ gone ∷ holding ∷ []
unfolding program
passed_on = refl

abbrev to_the_end : List Event
to_the_end = arrive ∷ arrive ∷ run 1 ∷ announced 1 ∷ leave 0 ∷ run 1 ∷ resume 1 ∷ leave 1 ∷ []

run_all-IsCapped_example : IsCapped 1 (run_all events (new_gate 1))
run_all-IsCapped_example = run_all-IsCapped 1 events

run_all-drained_example :
    ((run_all to_the_end (new_gate 1)).value ≡ 1)
    × (asleep (run_all to_the_end (new_gate 1)).waiters ≡ 0)
unfolding program
run_all-drained_example = run_all-drained 1 to_the_end refl refl (omega arith)

-- A caller that comes before the acquire task of an earlier one has run may take its slot.
overtaken :
    (run_all (arrive ∷ arrive ∷ leave 0 ∷ arrive ∷ run 1 ∷ []) (new_gate 1)).turns
    ≡ gone ∷ announcing queued ∷ holding ∷ []
unfolding program
overtaken = refl
