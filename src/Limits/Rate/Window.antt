-- ===== src/Limits/Rate/Window.antt =====
-- agent/limits.py: the pruned window of a chat against the full history of its messages.
use Prim.Native.Nat.{max}
use native.Mathlib.Nat.{le_refl}
use mathlib.Core.Path.{subst}
use ai_advent_challenge_9_v.Prelude.{
  ℕ, ◌+◌, ◌-◌, ◌*◌, ◌≤◌, ◌<◌, ◌≡◌, refl, sym, ap, ◌∙◌, ◌↔◌, false, Option, none, some, List, [],
  ◌∷◌, ◌++◌, arith, leb, if◌then◌else◌, length, select, All, ltb→lt, length-select-le,
  length-append, Bool-cases, inl, inr,
}
use ai_advent_challenge_9_v.Limits.Clock.{second, ceil_seconds, ceil_seconds_covers}
use ai_advent_challenge_9_v.Limits.Rate.{
  rate_window, RateLimiter, store_window, is_recent, check_message_rate,
}

-- A message: when it arrives, and in which chat.
abbrev pub Message : Type 0
Message = ℕ × ℕ

-- The limiter, and the arrivals of all messages let through so far, by chat.
pub record Log : Type 0 where
  pub limiter : RateLimiter
  pub accepted : RateLimiter

abbrev pub empty_log : Log
empty_log = record { limiter = λ chat. []; accepted = λ chat. [] }

abbrev pub record_answer : Option ℕ → ℕ → ℕ → RateLimiter → RateLimiter
record_answer none now chat_id accepted =
    store_window chat_id (accepted chat_id ++ now ∷ []) accepted
record_answer (some wait) now chat_id accepted = accepted

unfoldable pub serve : ℕ → ℕ → ℕ → Log → Log
serve limit now chat_id log =
    let (answer, limiter) = check_message_rate limit now chat_id log.limiter in
    record { limiter = limiter; accepted = record_answer answer now chat_id log.accepted }

unfoldable pub serve_all : ℕ → List Message → Log → Log
serve_all limit [] log = log
serve_all limit ((now, chat_id) ∷ messages) log =
    serve_all limit messages (serve limit now chat_id log)

-- The clock does not go back: each message arrives at `t` or later, in order, the last by `t'`.
abbrev pub InOrder : ℕ → List Message → ℕ → Type 0
InOrder t [] t' = t ≤ t'
InOrder t ((now, chat_id) ∷ messages) t' = (t ≤ now) × InOrder now messages t'

-- The messages of the last minute.
abbrev pub last_minute : ℕ → List ℕ → List ℕ
last_minute now = select (is_recent now)

last_minute_later :
    (t t' : ℕ) (xs : List ℕ) → t ≤ t' → last_minute t' (last_minute t xs) ≡ last_minute t' xs
last_minute_later t t' [] h = refl
last_minute_later t t' (x ∷ xs) h = ground (arith, last_minute_later t t' xs)

last_minute-append :
    (t now : ℕ) (xs : List ℕ)
    → last_minute t (xs ++ now ∷ [])
      ≡ (if is_recent t now then last_minute t xs ++ now ∷ [] else last_minute t xs)
last_minute-append t now [] = refl
last_minute-append t now (x ∷ xs) = ground (arith, last_minute-append t now xs)

pub record Inv (limit t : ℕ) (log : Log) : Type 0 where
  pub same :
      (chat_id : ℕ) → last_minute t (log.limiter chat_id) ≡ last_minute t (log.accepted chat_id)
  pub within : (chat_id : ℕ) → length (log.limiter chat_id) ≤ limit

Inv-later : (limit t t' : ℕ) (log : Log) → t ≤ t' → Inv limit t log → Inv limit t' log
Inv-later limit t t' log h inv = record {
  same = λ chat_id.
      sym (last_minute_later t t' (log.limiter chat_id) h)
      ∙ ap (last_minute t') (inv.same chat_id)
      ∙ last_minute_later t t' (log.accepted chat_id) h;
  within = inv.within;
}

module _ (limit now chat_id : ℕ) (log : Log) (positive : 0 < limit) (inv : Inv limit now log) where
  abbrev window : List ℕ
  window = last_minute now (log.limiter chat_id)

  -- The two answers, with the full history in place of the window.
  serve-accepts :
      length (last_minute now (log.accepted chat_id)) < limit
      → serve limit now chat_id log ≡ record {
        limiter = store_window chat_id (window ++ now ∷ []) log.limiter;
        accepted = store_window chat_id (log.accepted chat_id ++ now ∷ []) log.accepted;
      }
  unfolding serve check_message_rate
  serve-accepts h = ground (arith, inv.same chat_id)

  serve-refuses :
      limit ≤ length (last_minute now (log.accepted chat_id))
      → serve limit now chat_id log
        ≡ record { limiter = store_window chat_id window log.limiter; accepted = log.accepted }
  unfolding serve check_message_rate
  serve-refuses h = ground (arith, inv.same chat_id)

  check_message_rate-eq_none :
      ((check_message_rate limit now chat_id log.limiter).0 ≡ none)
      ↔ (length (last_minute now (log.accepted chat_id)) < limit)
  unfolding check_message_rate
  check_message_rate-eq_none =
      (λ h. ground (arith, inv.same chat_id), λ h. ground (arith, inv.same chat_id))

  serve-Inv : Inv limit now (serve limit now chat_id log)
  serve-Inv = elim (Bool-cases (leb limit (length (last_minute now (log.accepted chat_id))))) [
    | inl full ↦ rw (serve-refuses (ground arith)) (record {
      same =
          λ c. ground (arith, inv.same c, last_minute_later now now (log.limiter c) (le_refl now));
      within = λ c. ground (arith, inv.within c, length-select-le (is_recent now) (log.limiter c));
    })
    | inr free ↦ rw (serve-accepts (ground arith)) (record {
      same = λ c. ground (
        arith,
        inv.same c,
        last_minute_later now now (log.limiter c) (le_refl now),
        last_minute-append now now window,
        last_minute-append now now (log.accepted c),
      );
      within = λ c. ground (arith, inv.same c, inv.within c, length-append window (now ∷ []));
    })
  ]

module _ (limit : ℕ) (positive : 0 < limit) where
  serve_all-Inv :
      (messages : List Message) (t t' : ℕ) (log : Log)
      → InOrder t messages t'
      → Inv limit t log
      → Inv limit t' (serve_all limit messages log)
  unfolding serve_all
  serve_all-Inv [] t t' log order inv = Inv-later limit t t' log order inv
  serve_all-Inv ((now, chat_id) ∷ messages) t t' log order inv =
      serve_all-Inv messages now t' (serve limit now chat_id log) order.1
        (serve-Inv limit now chat_id log positive (Inv-later limit t now log order.0 inv))

  empty_log-Inv : (t : ℕ) → Inv limit t empty_log
  empty_log-Inv t = record { same = λ c. refl; within = λ c. omega arith }

  -- No minute holds more than the limit: after any messages in any chats, at any time from the
  -- last of them on, a chat has had at most `limit` messages let through in the last minute.
  pub serve_all-le_limit :
      (messages : List Message) (t : ℕ) (chat_id : ℕ)
      → InOrder 0 messages t
      → length (last_minute t ((serve_all limit messages empty_log).accepted chat_id)) ≤ limit
  serve_all-le_limit messages t chat_id order =
      let inv = serve_all-Inv messages 0 t empty_log order (empty_log-Inv 0) in
      let log = serve_all limit messages empty_log in
      omega (
        arith,
        ap (length {A = ℕ}) (inv.same chat_id),
        inv.within chat_id,
        length-select-le (is_recent t) (log.limiter chat_id),
      )

  -- The pruned window decides as the full history would: the next message is let through exactly
  -- when fewer than `limit` messages of its chat were let through in the last minute.
  pub serve_all-next_accepted :
      (messages : List Message) (now chat_id : ℕ)
      → InOrder 0 messages now
      → let log = serve_all limit messages empty_log in
        ((check_message_rate limit now chat_id log.limiter).0 ≡ none)
        ↔ (length (last_minute now (log.accepted chat_id)) < limit)
  serve_all-next_accepted messages now chat_id order =
      check_message_rate-eq_none limit now chat_id (serve_all limit messages empty_log) positive
        (serve_all-Inv messages 0 now empty_log order (empty_log-Inv 0))

-- The oldest time of a window is out of it after the wait that is computed from it.
select-drops_head :
    (now x : ℕ) (xs : List ℕ)
    → is_recent now x ≡ false
    → length (last_minute now (x ∷ xs)) ≤ length xs
select-drops_head now x xs h = ground (arith, length-select-le (is_recent now) xs)

-- The first item of a last minute is in it, and has a property that all items have.
last_minute-head :
    (P : ℕ → Type 0) (now : ℕ) (l : List ℕ) (x : ℕ) (xs : List ℕ)
    → All P l
    → last_minute now l ≡ x ∷ xs
    → (now < x + rate_window) × P x
last_minute-head P now [] x xs all e = cc
last_minute-head P now (y ∷ l) x xs all e = elim (Bool-cases (is_recent now y)) [
  | inl recent ↦
      let e' : y ∷ last_minute now l ≡ x ∷ xs = rw recent at e in
      subst (λ z. (now < z + rate_window) × P z) (cc) (ltb→lt _ _ recent, all.0)
  | inr old ↦ last_minute-head P now l x xs all.1 (rw old at e)
]

accepts_below_limit :
    (limit now chat_id : ℕ) (limiter : RateLimiter)
    → length (last_minute now (limiter chat_id)) < limit
    → (check_message_rate limit now chat_id limiter).0 ≡ none
unfolding check_message_rate
accepts_below_limit limit now chat_id limiter h = ground arith

module _ (limit now chat_id wait : ℕ) (limiter : RateLimiter) where
  abbrev answer_now : Option ℕ × RateLimiter
  answer_now = check_message_rate limit now chat_id limiter

  refused_window :
      answer_now.0 ≡ some wait
      → (x : ℕ) × (xs : List ℕ) × (last_minute now (limiter chat_id) ≡ x ∷ xs)
        × (limit ≤ length (x ∷ xs))
        × (0 < limit)
        × (wait ≡ max 1 (ceil_seconds (x + rate_window - now)))
        × (answer_now.1 chat_id ≡ x ∷ xs)
  unfolding check_message_rate
  refused_window h = go (last_minute now (limiter chat_id)) refl
    where
      go :
          (w : List ℕ)
          → last_minute now (limiter chat_id) ≡ w
          → (x : ℕ) × (xs : List ℕ) × (last_minute now (limiter chat_id) ≡ x ∷ xs)
            × (limit ≤ length (x ∷ xs))
            × (0 < limit)
            × (wait ≡ max 1 (ceil_seconds (x + rate_window - now)))
            × (answer_now.1 chat_id ≡ x ∷ xs)
      go [] e = ground arith
      go (x ∷ xs) e = (x, xs, e, ground arith, ground arith, ground arith, ground arith)

  -- What a refusal answers is a wait of 1 to 60 seconds, and after that wait the chat's next
  -- message is let through, if the chat has no other message in between, its window is within the
  -- limit and no time in it lies ahead of the clock.
  pub check_message_rate-retry :
      length (limiter chat_id) ≤ limit
      → All (λ ts. ts ≤ now) (limiter chat_id)
      → answer_now.0 ≡ some wait
      → (0 < wait)
        × (wait ≤ 60)
        × ((check_message_rate limit (now + wait * second) chat_id answer_now.1).0 ≡ none)
  check_message_rate-retry within past h =
      let (x, xs, e, full, positive, wait_is, after) = refused_window h in
      let (recent, x_past) = last_minute-head (λ ts. ts ≤ now) now (limiter chat_id) x xs past e in
      let short = length-select-le (is_recent now) (limiter chat_id) in
      let shorter = ap (length {A = ℕ}) e in
      let waited = ceil_seconds_covers (x + rate_window - now) in
      let late : now + wait * second < x + rate_window → ⊥ = λ early. omega arith in
      (
        omega arith,
        omega arith,
        accepts_below_limit limit (now + wait * second) chat_id answer_now.1
            (rw after (ground (arith, select-drops_head (now + wait * second) x xs))),
      )
