-- ===== src/Memory/Calls.antt =====
-- agent/task_memory.py and agent/task_memory_api.py: what changes a chat's document, turn by turn.
pub mod Sound
pub mod Stated
use ai_advent_challenge_9_v.Prelude.{
  ℕ, zero, suc, ◌+◌, ◌*◌, Bool, true, false, not, ◌&&◌, ◌||◌, Option, none, some, List, [], ◌∷◌,
  ◌++◌, ◌==◌, ltb, leb, if◌then◌else◌, length,
}
use ai_advent_challenge_9_v.Strings.{Text}
use ai_advent_challenge_9_v.Memory.{
  Item, Doc, empty_doc, Delta, MergeInfo, collapse, goal_max_chars, filled_text, merge_delta,
}
use ai_advent_challenge_9_v.Memory.Words.{Unicode, close_run, stems, common, is_subset}

-- A snapshot as a message keeps it.
pub record Snapshot : Type 0 where
  pub goal : Option Text
  pub clarified : List Item
  pub constraints : List Item

abbrev pub task_state : Doc → Snapshot
task_state doc = record {
  goal = doc.goal;
  clarified = doc.clarified;
  constraints = doc.constraints;
}

abbrev pub larger : ℕ → ℕ → ℕ
larger a b = if ltb a b then b else a

abbrev pub above_ids : List Item → ℕ
above_ids [] = 1
above_ids (item ∷ items) = larger (item.id + 1) (above_ids items)

-- `doc_from_snapshot`; none is a snapshot that is malformed.
unfoldable pub doc_from_snapshot : Option Snapshot → Doc
doc_from_snapshot none = empty_doc
doc_from_snapshot (some snapshot) = record {
  goal = snapshot.goal;
  clarified = snapshot.clarified;
  constraints = snapshot.constraints;
  next_id = above_ids (snapshot.clarified ++ snapshot.constraints);
}

unfoldable pub set_goal : Doc → Text → Doc
unfolding collapse
set_goal doc goal = record doc { goal = filled_text (collapse goal goal_max_chars) }

abbrev pub holds_id : ℕ → List Item → Bool
holds_id id [] = false
holds_id id (item ∷ items) = item.id == id || holds_id id items

abbrev pub drop_id : ℕ → List Item → List Item
drop_id id [] = []
drop_id id (item ∷ items) =
    let rest = drop_id id items in if item.id == id then items else item ∷ rest

unfoldable pub remove_item : Doc → ℕ → Option Doc
remove_item doc id =
    if holds_id id doc.clarified
    then some (record doc { clarified = drop_id id doc.clarified })
    else if holds_id id doc.constraints
    then some (record doc { constraints = drop_id id doc.constraints })
    else none

abbrev starts_decimal : (ℕ → Bool) → Text → Bool
starts_decimal is_decimal [] = false
starts_decimal is_decimal (c ∷ s) = is_decimal c

-- `_DIGIT_TOKEN_RE.findall`, the first token open on its left.
unfoldable pub digit_tokens_from : (ℕ → Bool) → Text → Text → List Text
digit_tokens_from is_decimal token [] = close_run token []
digit_tokens_from is_decimal token (c ∷ s) =
    let longer = digit_tokens_from is_decimal (token ++ c ∷ []) s in
    let closed = close_run token (digit_tokens_from is_decimal [] s) in
    if is_decimal c || (c == 46 && ltb 0 (length token) && starts_decimal is_decimal s)
    then longer
    else closed

-- The texts that are kept, and how many are not.
abbrev pub keep_text : Bool → Text → List Text × ℕ → List Text × ℕ
keep_text kept s (texts, dropped) = if kept then (s ∷ texts, dropped) else (texts, suc dropped)

pub record Chat : Type 0 where
  pub doc : Doc
  pub snapshots : List Snapshot

pub data Call : Type 0 where
  turn : (user_text : Text) → Option Delta → Call
  put_goal : Text → Call
  delete_item : ℕ → Call
  reset : Call
  restore : Option ℕ → Call

abbrev pub snapshot_at : ℕ → List Snapshot → Option Snapshot
snapshot_at i [] = none
snapshot_at zero (snapshot ∷ snapshots) = some snapshot
snapshot_at (suc i) (snapshot ∷ snapshots) = snapshot_at i snapshots

abbrev pub removed : Chat → Option Doc → Chat
removed chat none = chat
removed chat (some doc) = record chat { doc = doc }

abbrev pub told : Doc → Chat → Chat
told doc chat = record { doc = doc; snapshots = chat.snapshots ++ task_state doc ∷ [] }

module _ (unicode : Unicode) where
  unfoldable pub digit_tokens : Text → List Text
  unfolding digit_tokens_from
  digit_tokens s = digit_tokens_from unicode.is_decimal [] s

  unfoldable pub is_user_stated : Text → (user_stems : List Text) (user_text : Text) → Bool
  unfolding digit_tokens stems common is_subset
  is_user_stated s user_stems user_text =
      let item_stems = stems unicode s in
      if not (is_subset (digit_tokens s) (digit_tokens user_text))
      then false
      else if length item_stems == 0
      then ltb 0 (length (digit_tokens s))
      else leb (length item_stems) (2 * length (common item_stems user_stems))

  unfoldable pub keep_stated :
      (user_stems : List Text) (user_text : Text) → List Text → List Text × ℕ
  unfolding is_user_stated
  keep_stated user_stems user_text [] = ([], 0)
  keep_stated user_stems user_text (s ∷ texts) =
      keep_text (is_user_stated s user_stems user_text) s (keep_stated user_stems user_text texts)

  abbrev pub is_foreign_goal : (user_stems : List Text) → Option Text → Bool
  is_foreign_goal user_stems none = false
  is_foreign_goal user_stems (some []) = false
  is_foreign_goal user_stems (some (c ∷ s)) =
      length (common (stems unicode (c ∷ s)) user_stems) == 0

  -- The filtered delta, and the count of what it drops.
  unfoldable pub filter_user_stated : Delta → (user_text : Text) → Delta × ℕ
  unfolding keep_stated stems common
  filter_user_stated delta user_text =
      let user_stems = stems unicode user_text in
      let first = keep_stated user_stems user_text delta.clarified in
      let second = keep_stated user_stems user_text delta.constraints in
      let foreign = is_foreign_goal user_stems delta.goal in
      (
        record {
          goal = if foreign then none else delta.goal;
          goal_changed = if foreign then false else delta.goal_changed;
          clarified = first.0;
          constraints = second.0;
        },
        first.1 + second.1 + (if foreign then 1 else 0),
      )

  -- A turn with the delta that the model reports, none if the call or its parsing fails.
  unfoldable pub update_task_memory : Chat → (user_text : Text) → Option Delta → Chat
  unfolding filter_user_stated merge_delta
  update_task_memory chat user_text none = told chat.doc chat
  update_task_memory chat user_text (some delta) =
      told (merge_delta unicode chat.doc (filter_user_stated delta user_text).0).0 chat

  abbrev pub restored : Chat → Option ℕ → Chat
  restored chat none = record chat { doc = empty_doc }
  restored chat (some i) = record chat { doc = doc_from_snapshot (snapshot_at i chat.snapshots) }

  unfoldable pub perform : Call → Chat → Chat
  unfolding update_task_memory set_goal remove_item doc_from_snapshot
  perform (turn user_text delta) chat = update_task_memory chat user_text delta
  perform (put_goal goal) chat = record chat { doc = set_goal chat.doc goal }
  perform (delete_item id) chat = removed chat (remove_item chat.doc id)
  perform reset chat = record chat { doc = empty_doc }
  perform (restore i) chat = restored chat i

  unfoldable pub perform_all : List Call → Chat → Chat
  unfolding perform
  perform_all [] chat = chat
  perform_all (call ∷ calls) chat = perform_all calls (perform call chat)
