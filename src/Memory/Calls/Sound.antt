-- ===== src/Memory/Calls/Sound.antt =====
-- agent/task_memory.py: the document of a chat over any sequence of turns and edits.
use ai_advent_challenge_9_v.Prelude.{
  ℕ, zero, suc, ◌≤◌, length, ◌≡◌, refl, Option, none, some, List, [], ◌∷◌, ◌++◌, arith, All,
  Bool-cases, inl, inr,
}
use ai_advent_challenge_9_v.Strings.{Text}
use ai_advent_challenge_9_v.Memory.{
  goal_max_chars, said_or_empty, filled_text, collapse, Item, Doc, empty_doc,
}
use ai_advent_challenge_9_v.Memory.Words.{Unicode}
use ai_advent_challenge_9_v.Memory.Items.{count-append, IsPart, drop_id-IsPart, above_ids-count}
use ai_advent_challenge_9_v.Memory.Merge.{merge_delta-IsSound}
use ai_advent_challenge_9_v.Memory.Sound.{IsIn, IsSound, with_goal-IsSound, length-collapse_le}
use ai_advent_challenge_9_v.Memory.Calls.{
  Snapshot, task_state, doc_from_snapshot, set_goal, holds_id, drop_id, remove_item,
  filter_user_stated, Chat, Call, turn, put_goal, delete_item, reset, restore, snapshot_at, removed,
  told, update_task_memory, perform, perform_all,
}

module _ (unicode : Unicode) where
  empty_doc-IsSound : IsSound unicode empty_doc
  empty_doc-IsSound = (
    omega arith,
    omega arith,
    λ id. omega arith,
    λ id le. omega arith,
    λ item is_in. elim is_in [ inl m ↦ elim m [ ] | inr m ↦ elim m [ ] ],
    λ old new old_in new_in lt. elim old_in [ inl m ↦ elim m [ ] | inr m ↦ elim m [ ] ],
    omega arith,
  )

  -- A document with parts of the lists and the same next id.
  part-IsSound :
      (doc after : Doc)
      → IsPart doc.clarified after.clarified
      → IsPart doc.constraints after.constraints
      → after.next_id ≡ doc.next_id
      → after.goal ≡ doc.goal
      → IsSound unicode doc
      → IsSound unicode after
  part-IsSound doc after (counts, members, size) (counts', members', size') next same_goal
        (first, second, once, unused, texts, apart, goal) =
      let inside : (item : Item) → IsIn item after → IsIn item doc =
        λ item is_in. elim is_in [ inl m ↦ inl (members item m) | inr m ↦ inr (members' item m) ] in
      (
        omega arith,
        omega arith,
        λ id. let c = counts id in let d = counts' id in let o = once id in omega arith,
        λ id le.
            let c = counts id in
            let d = counts' id in let u = unused id (omega arith) in omega arith,
        λ item is_in. texts item (inside item is_in),
        λ old new old_in new_in lt. apart old new (inside old old_in) (inside new new_in) lt,
        rw same_goal goal,
      )

  whole : (items : List Item) → IsPart items items
  whole items = (λ id. omega arith, λ item m. m, omega arith)

  remove_item-IsSound :
      (chat : Chat) (id : ℕ)
      → IsSound unicode chat.doc
      → IsSound unicode (removed chat (remove_item chat.doc id)).doc
  unfolding remove_item
  remove_item-IsSound chat id sound = elim (Bool-cases (holds_id id chat.doc.clarified)) [
    | inl e ↦ rw e (
        part-IsSound chat.doc (record chat.doc { clarified = drop_id id chat.doc.clarified })
          (drop_id-IsPart id chat.doc.clarified) (whole chat.doc.constraints) refl refl sound)
    | inr e ↦ elim (Bool-cases (holds_id id chat.doc.constraints)) [
      | inl f ↦ rw e (
          rw f (
            part-IsSound chat.doc
              (record chat.doc { constraints = drop_id id chat.doc.constraints })
              (whole chat.doc.clarified) (drop_id-IsPart id chat.doc.constraints) refl refl sound))
      | inr f ↦ rw e (rw f sound)
    ]
  ]

  -- What is read back from a snapshot of a sound document is one.
  doc_from_snapshot-IsSound :
      (doc : Doc)
      → IsSound unicode doc
      → IsSound unicode (doc_from_snapshot (some (task_state doc)))
  unfolding doc_from_snapshot
  doc_from_snapshot-IsSound doc (first, second, once, unused, texts, apart, goal) = (
    first,
    second,
    once,
    λ id le.
        let none_above = above_ids-count (doc.clarified ++ doc.constraints) id le in
        let sum = count-append id doc.clarified doc.constraints in omega arith,
    texts,
    apart,
    goal,
  )

  abbrev pub IsSoundSnapshot : Snapshot → Type 0
  IsSoundSnapshot snapshot = IsSound unicode (doc_from_snapshot (some snapshot))

  -- The document is sound, and so is each one that a message of the chat can restore.
  abbrev pub IsSoundChat : Chat → Type 0
  IsSoundChat chat = IsSound unicode chat.doc × All IsSoundSnapshot chat.snapshots

  append_one :
      (snapshots : List Snapshot) (new : Snapshot)
      → All IsSoundSnapshot snapshots
      → IsSoundSnapshot new
      → All IsSoundSnapshot (snapshots ++ new ∷ [])
  append_one [] new all last = (last, tt)
  append_one (snapshot ∷ snapshots) new (first, rest) last =
      (first, append_one snapshots new rest last)

  removed_snapshots :
      (chat : Chat) (doc : Option Doc)
      → All IsSoundSnapshot chat.snapshots
      → All IsSoundSnapshot (removed chat doc).snapshots
  removed_snapshots chat none all = all
  removed_snapshots chat (some doc) all = all

  told-IsSoundChat :
      (doc : Doc) (chat : Chat)
      → IsSound unicode doc
      → All IsSoundSnapshot chat.snapshots
      → IsSoundChat (told doc chat)
  told-IsSoundChat doc chat sound all =
      (sound, append_one chat.snapshots (task_state doc) all (doc_from_snapshot-IsSound doc sound))

  snapshot_at-IsSound :
      (i : ℕ) (snapshots : List Snapshot)
      → All IsSoundSnapshot snapshots
      → IsSound unicode (doc_from_snapshot (snapshot_at i snapshots))
  unfolding doc_from_snapshot
  snapshot_at-IsSound i [] all = empty_doc-IsSound
  snapshot_at-IsSound zero (snapshot ∷ snapshots) (first, rest) = first
  snapshot_at-IsSound (suc i) (snapshot ∷ snapshots) (first, rest) =
      snapshot_at-IsSound i snapshots rest

  filled_text_le :
      (s : Text)
      → length s ≤ goal_max_chars
      → length (said_or_empty (filled_text s)) ≤ goal_max_chars
  filled_text_le [] fits = fits
  filled_text_le (c ∷ s) fits = fits

  perform-IsSoundChat :
      (call : Call) (chat : Chat) → IsSoundChat chat → IsSoundChat (perform unicode call chat)
  unfolding perform update_task_memory set_goal
  perform-IsSoundChat (turn user_text none) chat (sound, all) =
      told-IsSoundChat chat.doc chat sound all
  perform-IsSoundChat (turn user_text (some delta)) chat (sound, all) =
      told-IsSoundChat _ chat
        (merge_delta-IsSound unicode chat.doc (filter_user_stated unicode delta user_text).0 sound)
        all
  perform-IsSoundChat (put_goal goal) chat (sound, all) =
      let clipped = collapse goal goal_max_chars in
      let fits : length (said_or_empty (filled_text clipped)) ≤ goal_max_chars =
        filled_text_le clipped (length-collapse_le unicode goal goal_max_chars) in
      (with_goal-IsSound unicode chat.doc (filled_text clipped) fits sound, all)
  perform-IsSoundChat (delete_item id) chat (sound, all) =
      (remove_item-IsSound chat id sound, removed_snapshots chat (remove_item chat.doc id) all)
  perform-IsSoundChat reset chat (sound, all) = (empty_doc-IsSound, all)
  perform-IsSoundChat (restore none) chat (sound, all) = (empty_doc-IsSound, all)
  perform-IsSoundChat (restore (some i)) chat (sound, all) =
      (snapshot_at-IsSound i chat.snapshots all, all)

  perform_all-IsSoundChat_from :
      (calls : List Call) (chat : Chat)
      → IsSoundChat chat
      → IsSoundChat (perform_all unicode calls chat)
  unfolding perform_all
  perform_all-IsSoundChat_from [] chat sound = sound
  perform_all-IsSoundChat_from (call ∷ calls) chat sound =
      perform_all-IsSoundChat_from calls (perform unicode call chat)
        (perform-IsSoundChat call chat sound)

  abbrev pub new_chat : Chat
  new_chat = record { doc = empty_doc; snapshots = [] }

  -- Over any turns, whatever the model reports, and any edits, deletions, resets and restorations
  -- in between: neither list of the task memory has more than LIST_CAP items, no two items share an
  -- id and the next id is fresh, an item's text has 1 to ITEM_MAX_CHARS characters and the goal at
  -- most GOAL_MAX_CHARS, and no item is a copy or a near copy of an older one. Each snapshot restores such a document.
  pub perform_all-IsSoundChat :
      (calls : List Call) → IsSoundChat (perform_all unicode calls new_chat)
  perform_all-IsSoundChat calls =
      perform_all-IsSoundChat_from calls new_chat (empty_doc-IsSound, tt)
