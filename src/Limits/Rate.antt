-- ===== src/Limits/Rate.antt =====
-- agent/limits.py: check_message_rate, the sliding window of each chat.
pub mod Window
mod Samples
use Prim.Native.Nat.{max}
use ai_advent_challenge_9_v.Prelude.{
  ℕ, ◌+◌, ◌-◌, ◌*◌, Bool, Option, none, some, List, [], ◌∷◌, ◌++◌, ◌==◌, ltb, leb, if◌then◌else◌,
  length, select,
}
use ai_advent_challenge_9_v.Limits.Clock.{second, ceil_seconds}

-- RATE_WINDOW_SECONDS
abbrev pub rate_window : ℕ
rate_window = 60 * second

-- `ws_rate_limiter`, read by `.get(chat_id, [])`
abbrev pub RateLimiter : Type 0
RateLimiter = ℕ → List ℕ

abbrev pub store_window : ℕ → List ℕ → RateLimiter → RateLimiter
store_window chat_id window limiter = λ chat. if chat == chat_id then window else limiter chat

-- `now - ts < RATE_WINDOW_SECONDS`
abbrev pub is_recent : ℕ → ℕ → Bool
is_recent now ts = ltb now (ts + rate_window)

-- `window[0]`
abbrev head_or : List ℕ → ℕ → ℕ
head_or [] d = d
head_or (ts ∷ window) d = ts

-- `RATE_LIMIT_MESSAGES_PER_MINUTE` is `limit`; 0 stands for every value that is not positive.
unfoldable pub check_message_rate : ℕ → ℕ → ℕ → RateLimiter → Option ℕ × RateLimiter
check_message_rate limit now chat_id limiter =
    if leb limit 0
    then (none, limiter)
    else (let window = select (is_recent now) (limiter chat_id) in
        if leb limit (length window)
        then (
          some (max 1 (ceil_seconds (head_or window 0 + rate_window - now))),
          store_window chat_id window limiter,
        )
        else (none, store_window chat_id (window ++ now ∷ []) limiter))
