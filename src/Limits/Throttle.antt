-- ===== src/Limits/Throttle.antt =====
-- agent/limits.py: LoginThrottle, the failures of each (username, client IP) pair.
pub mod Table
pub mod Evict
pub mod Bounded
pub mod Others
pub mod Attempts
mod Samples
use Prim.Native.Nat.{max}
use text.Mathlib.Text.{◌==◌ as str_eq}
use ai_advent_challenge_9_v.Prelude.{
  ℕ, zero, suc, ◌+◌, ◌-◌, ◌*◌, String, Bool, true, false, not, ◌&&◌, Option, none, some, List, [],
  ◌∷◌, ◌++◌, ltb, leb, if◌then◌else◌, length, select,
}
use ai_advent_challenge_9_v.Limits.Clock.{second, ceil_seconds}

pub record Key : Type 0 where
  pub username : String
  pub address : String

unfoldable pub same_key : Key → Key → Bool
same_key a b = str_eq a.username b.username && str_eq a.address b.address

pub record Entry : Type 0 where
  pub failures : ℕ
  pub last_failure : ℕ
  pub blocked_until : ℕ

-- `_entries`: a dict keeps the order of insertion.
abbrev pub Entries : Type 0
Entries = List (Key × Entry)

-- LOGIN_MAX_FAILED_ATTEMPTS, 0 for off, and LOGIN_LOCKOUT_SECONDS.
pub record LoginSettings : Type 0 where
  pub max_failed_attempts : ℕ
  pub lockout_seconds : ℕ

-- MAX_ENTRIES
abbrev pub max_entries : ℕ
max_entries = 10000

-- MAX_PAIRS_PER_ADDRESS
abbrev pub max_pairs_per_address : ℕ
max_pairs_per_address = 50

-- `_entries.get(key)`
unfoldable pub get : Key → Entries → Option Entry
get key [] = none
get key ((k, e) ∷ entries) = if same_key k key then some e else get key entries

-- `_entries[key] = entry`: in place, or at the end.
unfoldable pub put : Key → Entry → Entries → Entries
put key entry [] = (key, entry) ∷ []
put key entry ((k, e) ∷ entries) =
    if same_key k key then (k, entry) ∷ entries else (k, e) ∷ put key entry entries

abbrev pub is_other : Key → Key × Entry → Bool
is_other key item = not (same_key item.0 key)

-- `del _entries[key]`, and `pop(key, None)`
abbrev pub remove : Key → Entries → Entries
remove key entries = select (is_other key) entries

-- `0 < e.blocked_until <= now`
abbrev pub is_expired : ℕ → Entry → Bool
is_expired now e = ltb 0 e.blocked_until && leb e.blocked_until now

blocked_found : ℕ → Key → Entries → Option Entry → Option ℕ × Entries
blocked_found now key entries none = (none, entries)
blocked_found now key entries (some entry) =
    if ltb now entry.blocked_until
    then (some (max 1 (ceil_seconds (entry.blocked_until - now))), entries)
    else if ltb 0 entry.blocked_until
    then (none, remove key entries)
    else (none, entries)

unfoldable pub blocked_seconds : LoginSettings → ℕ → Key → Entries → Option ℕ × Entries
unfolding blocked_found
blocked_seconds settings now key entries =
    if leb settings.max_failed_attempts 0
    then (none, entries)
    else blocked_found now key entries (get key entries)

-- `min(items, key=measure)[0]`: the key of the first item with the least measure.
abbrev pub lesser : (Key × Entry → ℕ) → Key × Entry → Option (Key × Entry) → Key × Entry
lesser measure item none = item
lesser measure item (some best) = if leb (measure item) (measure best) then item else best

unfoldable pub min_by : (Key × Entry → ℕ) → Entries → Option (Key × Entry)
min_by measure [] = none
min_by measure (item ∷ items) = some (lesser measure item (min_by measure items))

abbrev pub or_item : Option (Key × Entry) → Option (Key × Entry) → Option (Key × Entry)
or_item none item = item
or_item (some item) _ = some item

abbrev pub oldest_failure : Key × Entry → ℕ
oldest_failure item = item.1.last_failure

abbrev pub block_end : Key × Entry → ℕ
block_end item = item.1.blocked_until

abbrev pub is_unblocked : ℕ → Key × Entry → Bool
is_unblocked now item = leb item.1.blocked_until now

-- The next victim among the others: the unblocked one with the oldest failure, and only if all
-- are blocked the one whose block ends first.
unfoldable pub victim : Key → ℕ → Entries → Option (Key × Entry)
unfolding min_by
victim current now entries =
    let others = select (is_other current) entries in
    or_item (min_by oldest_failure (select (is_unblocked now) others)) (min_by block_end others)

-- The `while` loop of `_evict`, with fuel for its rounds.
unfoldable pub evict_loop : ℕ → Key → ℕ → Entries → Entries
evict_loop zero current now entries = entries
evict_loop (suc fuel) current now entries =
    if ltb max_entries (length entries)
    then elim (victim current now entries) [
      | none ↦ entries
      | some item ↦ evict_loop fuel current now (remove item.0 entries)
    ]
    else entries

unfoldable pub evict : Key → ℕ → Entries → Entries
evict current now entries =
    let kept = select (λ item. not (is_expired now item.1)) entries in
    evict_loop (length kept) current now kept

-- The entry that `record_failure` counts on: an expired one starts anew.
abbrev pub counted : ℕ → Option Entry → Entry
counted now none = record { failures = 0; last_failure = now; blocked_until = 0 }
counted now (some entry) =
    if is_expired now entry
    then record { failures = 0; last_failure = now; blocked_until = 0 }
    else entry

-- That entry with one more failure, and with a block from the threshold on.
abbrev pub failed_entry : LoginSettings → ℕ → Entry → Entry
failed_entry settings now entry = record {
  failures = suc entry.failures;
  last_failure = now;
  blocked_until =
      if leb settings.max_failed_attempts (suc entry.failures)
      then now + settings.lockout_seconds * second
      else entry.blocked_until;
}

unfoldable pub record_failure : LoginSettings → ℕ → Key → Entries → Bool × Entries
record_failure settings now key entries =
    if leb settings.max_failed_attempts 0
    then (false, entries)
    else (let entry = failed_entry settings now (counted now (get key entries)) in
        (leb settings.max_failed_attempts entry.failures, evict key now (put key entry entries)))

-- `sum(1 for k in _entries if k[1] == key[1])`
abbrev pub held : String → Entries → ℕ
held address entries = length (select (λ item. str_eq item.0.address address) entries)

abbrev is_absent : Option Entry → Bool
is_absent none = true
is_absent (some _) = false

-- A new pair of an address that holds its share already.
abbrev pub refuses_pair : LoginSettings → Key → Entries → Bool
refuses_pair settings key entries =
    ltb 0 settings.max_failed_attempts
    && is_absent (get key entries)
    && leb max_pairs_per_address (held key.address entries)

abbrev attempt_unblocked :
    LoginSettings → ℕ → Key → Option ℕ × Entries → (Option ℕ × Bool) × Entries
attempt_unblocked settings now key (some seconds, entries) = ((some seconds, false), entries)
attempt_unblocked settings now key (none, entries) =
    if refuses_pair settings key entries
    then ((some (max 1 settings.lockout_seconds), false), entries)
    else (let (started, entries') = record_failure settings now key entries in
        ((none, started), entries'))

-- `now` is the reading of the block check, `now'` the one of the count.
unfoldable pub register_attempt :
    LoginSettings → ℕ → ℕ → Key → Entries → (Option ℕ × Bool) × Entries
register_attempt settings now now' key entries =
    attempt_unblocked settings now' key (blocked_seconds settings now key entries)

-- A call of the throttle by the login handler, or of `clear`.
pub data Call : Type 0 where
  attempt : (now now' : ℕ) (key : Key) → Call
  reset : (key : Key) → Call
  clear : Call

unfoldable pub perform : LoginSettings → Call → Entries → Entries
perform settings (attempt now now' key) entries = (register_attempt settings now now' key entries).1
perform settings (reset key) entries = remove key entries
perform settings clear entries = []

unfoldable pub perform_all : LoginSettings → List Call → Entries → Entries
perform_all settings [] entries = entries
perform_all settings (call ∷ calls) entries =
    perform_all settings calls (perform settings call entries)
