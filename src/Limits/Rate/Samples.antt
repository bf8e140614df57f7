-- ===== src/Limits/Rate/Samples.antt =====
-- agent/limits.py: the message window on small inputs, and the theorems at them.
use ai_advent_challenge_9_v.Prelude.{
  ◌+◌, ◌*◌, ◌≤◌, ◌<◌, ◌≡◌, refl, ◌↔◌, none, some, List, [], ◌∷◌, arith, length,
}
use ai_advent_challenge_9_v.Limits.Clock.{second}
use ai_advent_challenge_9_v.Limits.Rate.{RateLimiter, check_message_rate}
use ai_advent_challenge_9_v.Limits.Rate.Window.{
  Message, empty_log, serve_all, last_minute, serve_all-le_limit, serve_all-next_accepted,
  check_message_rate-retry,
}

-- Three messages of chat 1 within a minute, and one of chat 2.
abbrev messages : List Message
messages = (1, 1) ∷ (5, 1) ∷ (6, 2) ∷ (10 * second, 1) ∷ []

abbrev full : RateLimiter
full = λ chat. 1 ∷ 5 ∷ []

third_waits : (check_message_rate 2 (10 * second) 1 full).0 ≡ some 51
unfolding check_message_rate
third_waits = refl

serve_all-le_limit_example :
    length (last_minute (11 * second) ((serve_all 2 messages empty_log).accepted 1)) ≤ 2
serve_all-le_limit_example =
    serve_all-le_limit 2 (omega arith) messages (11 * second) 1 (omega arith)

serve_all-next_accepted_example :
    ((check_message_rate 2 (61 * second) 1 (serve_all 2 messages empty_log).limiter).0 ≡ none)
    ↔ (length (last_minute (61 * second) ((serve_all 2 messages empty_log).accepted 1)) < 2)
serve_all-next_accepted_example =
    serve_all-next_accepted 2 (omega arith) messages (61 * second) 1 (omega arith)

check_message_rate-retry_example :
    (0 < 51)
    × (51 ≤ 60)
    × ((check_message_rate 2
          (10 * second + 51 * second)
          1
          (check_message_rate 2 (10 * second) 1 full).1).0
        ≡ none)
check_message_rate-retry_example =
    check_message_rate-retry 2 (10 * second) 1 51 full (omega arith) (omega arith) third_waits
