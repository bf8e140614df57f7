-- ===== src/Memory/Calls/Stated.antt =====
-- agent/task_memory.py: where the texts of the task memory come from.
use ai_advent_challenge_9_v.Prelude.{
  ℕ, zero, suc, ◌≡◌, refl, Bool, true, not, ◌&&◌, Option, none, some, List, [], ◌∷◌, ◌++◌, ◌==◌,
  leb, length, All, Bool-cases, inl, inr,
}
use ai_advent_challenge_9_v.Strings.{Text}
use ai_advent_challenge_9_v.Strings.Equal.{same_text}
use ai_advent_challenge_9_v.Memory.{
  item_max_chars, goal_max_chars, list_cap, Item, Doc, empty_doc, Delta, collapse, said_or_empty,
  Side, clarified, constraints, items_of, append_item, is_duplicate, merge_goal_text, merge_goal,
  merge_list, merge_delta,
}
use ai_advent_challenge_9_v.Memory.Words.{Unicode, stems, normalise_ws}
use ai_advent_challenge_9_v.Memory.Items.{drop_id-IsPart}
use mathlib.Core.List.{Memᴰ}
use ai_advent_challenge_9_v.Memory.Calls.Sound.{new_chat}
use ai_advent_challenge_9_v.Memory.Sound.{IsIn, append_item-Grows}
use ai_advent_challenge_9_v.Memory.Calls.{
  Snapshot, task_state, doc_from_snapshot, set_goal, holds_id, remove_item, is_user_stated,
  keep_stated, filter_user_stated, Chat, Call, turn, put_goal, delete_item, reset, restore,
  snapshot_at, removed, told, update_task_memory, perform, perform_all,
}

module _ (unicode : Unicode) where
  keep_stated-All :
      (user_stems : List Text) (user_text : Text) (texts : List Text)
      → All
          (λ s. is_user_stated unicode s user_stems user_text ≡ true)
          (keep_stated unicode user_stems user_text texts).0
  unfolding keep_stated
  keep_stated-All user_stems user_text [] = tt
  keep_stated-All user_stems user_text (s ∷ texts) =
      let rest = keep_stated-All user_stems user_text texts in
      elim (Bool-cases (is_user_stated unicode s user_stems user_text)) [
        | inl e ↦ rw e (e, rest)
        | inr e ↦ rw e rest
      ]

  -- `allows` is a property of texts.
  module _ (allows : Text → Type 0) where
    abbrev pub AllAllowed : Doc → Type 0
    AllAllowed doc = (item : Item) → IsIn item doc → allows item.said

    append_item-AllAllowed :
        (side : Side) (said : Text) (doc : Doc)
        → allows said
        → AllAllowed doc
        → AllAllowed (append_item side said doc)
    append_item-AllAllowed side said doc allowed all = λ item is_in.
        elim ((append_item-Grows unicode side said doc).0 item is_in) [
          | inl there ↦ all item there
          | inr e ↦ rw e allowed
        ]

    merge_list-AllAllowed :
        (side : Side) (texts : List Text) (doc : Doc)
        → All (λ s. allows (collapse s item_max_chars)) texts
        → AllAllowed doc
        → AllAllowed (merge_list unicode side texts doc).doc
    unfolding merge_list
    merge_list-AllAllowed side [] doc fine all = all
    merge_list-AllAllowed side (raw ∷ texts) doc (first, rest) all =
        let said = collapse raw item_max_chars in
        let kept = merge_list-AllAllowed side texts doc rest all in
        elim (Bool-cases (length said == 0)) [
          | inl e ↦ rw e kept
          | inr e ↦
              elim (Bool-cases (is_duplicate unicode said (doc.clarified ++ doc.constraints))) [
                | inl f ↦ rw e (rw f kept)
                | inr f ↦ elim (Bool-cases (leb list_cap (length (items_of side doc)))) [
                  | inl g ↦ rw e (rw f (rw g kept))
                  | inr g ↦ rw e (
                      rw f (
                        rw g (
                          merge_list-AllAllowed side texts (append_item side said doc) rest
                            (append_item-AllAllowed side said doc first all))))
                ]
              ]
        ]

    merge_goal_text-AllAllowed :
        (doc : Doc) (changed : Bool) (goal old : Text)
        → AllAllowed doc
        → AllAllowed (merge_goal_text unicode doc changed goal old).0
    merge_goal_text-AllAllowed doc changed [] old all = all
    merge_goal_text-AllAllowed doc changed (c ∷ s) [] all = all
    merge_goal_text-AllAllowed doc changed (c ∷ s) (d ∷ old) all =
        elim (Bool-cases (
          changed
          && not (same_text (normalise_ws unicode (c ∷ s)) (normalise_ws unicode (d ∷ old))))) [
            | inl e ↦ rw e all
            | inr e ↦ rw e all
          ]

    merge_delta-AllAllowed :
        (doc : Doc) (delta : Delta)
        → All (λ s. allows (collapse s item_max_chars)) delta.clarified
        → All (λ s. allows (collapse s item_max_chars)) delta.constraints
        → AllAllowed doc
        → AllAllowed (merge_delta unicode doc delta).0
    unfolding merge_delta merge_goal
    merge_delta-AllAllowed doc delta first second all =
        let goal =
          merge_goal_text-AllAllowed doc delta.goal_changed
            (collapse (said_or_empty delta.goal) goal_max_chars) (said_or_empty doc.goal) all in
        merge_list-AllAllowed constraints delta.constraints _ second
          (merge_list-AllAllowed clarified delta.clarified _ first goal)

    -- What the user may state in a turn is allowed.
    abbrev pub Covers : Call → Type 0
    Covers (turn user_text delta) =
        (raw : Text)
        → is_user_stated unicode raw (stems unicode user_text) user_text ≡ true
        → allows (collapse raw item_max_chars)
    Covers call = Unit

    covered :
        (user_stems : List Text) (user_text : Text) (texts : List Text)
        → ((raw : Text)
            → is_user_stated unicode raw user_stems user_text ≡ true
            → allows (collapse raw item_max_chars))
        → All (λ s. is_user_stated unicode s user_stems user_text ≡ true) texts
        → All (λ s. allows (collapse s item_max_chars)) texts
    covered user_stems user_text [] covers all = tt
    covered user_stems user_text (s ∷ texts) covers (first, rest) =
        (covers s first, covered user_stems user_text texts covers rest)

    abbrev pub AllAllowedChat : Chat → Type 0
    AllAllowedChat chat =
        AllAllowed chat.doc
        × All (λ snapshot. AllAllowed (doc_from_snapshot (some snapshot))) chat.snapshots

    told-AllAllowed :
        (doc : Doc) (chat : Chat)
        → AllAllowed doc
        → AllAllowedChat chat
        → AllAllowedChat (told doc chat)
    unfolding doc_from_snapshot
    told-AllAllowed doc chat all (old, snapshots) = (all, append_one chat.snapshots snapshots)
      where
        append_one :
            (list : List Snapshot)
            → All (λ snapshot. AllAllowed (doc_from_snapshot (some snapshot))) list
            → All
                (λ snapshot. AllAllowed (doc_from_snapshot (some snapshot)))
                (list ++ task_state doc ∷ [])
        append_one [] none_before = (all, tt)
        append_one (snapshot ∷ list) (first, rest) = (first, append_one list rest)

    empty-AllAllowed : AllAllowed empty_doc
    empty-AllAllowed = λ item is_in. elim is_in [ inl m ↦ elim m [ ] | inr m ↦ elim m [ ] ]

    snapshot_at-AllAllowed :
        (i : ℕ) (list : List Snapshot)
        → All (λ snapshot. AllAllowed (doc_from_snapshot (some snapshot))) list
        → AllAllowed (doc_from_snapshot (snapshot_at i list))
    unfolding doc_from_snapshot
    snapshot_at-AllAllowed i [] all = empty-AllAllowed
    snapshot_at-AllAllowed zero (snapshot ∷ list) (first, rest) = first
    snapshot_at-AllAllowed (suc i) (snapshot ∷ list) (first, rest) =
        snapshot_at-AllAllowed i list rest

    remove_item-AllAllowed :
        (chat : Chat) (id : ℕ)
        → AllAllowedChat chat
        → AllAllowedChat (removed chat (remove_item chat.doc id))
    unfolding remove_item
    remove_item-AllAllowed chat id (all, snapshots) =
        elim (Bool-cases (holds_id id chat.doc.clarified)) [
          | inl e ↦ rw e (
            λ item is_in. elim is_in [
              | inl m ↦ all item (inl ((drop_id-IsPart id chat.doc.clarified).1 item m))
              | inr m ↦ all item (inr m)
            ],
            snapshots,
          )
          | inr e ↦ elim (Bool-cases (holds_id id chat.doc.constraints)) [
            | inl f ↦ rw e (
                rw f (
                  λ item is_in. elim is_in [
                    | inl m ↦ all item (inl m)
                    | inr m ↦ all item (inr ((drop_id-IsPart id chat.doc.constraints).1 item m))
                  ],
                  snapshots,
                ))
            | inr f ↦ rw e (rw f (all, snapshots))
          ]
        ]

    perform-AllAllowed :
        (call : Call) (chat : Chat)
        → Covers call
        → AllAllowedChat chat
        → AllAllowedChat (perform unicode call chat)
    unfolding perform update_task_memory set_goal filter_user_stated
    perform-AllAllowed (turn user_text none) chat covers all =
        told-AllAllowed chat.doc chat all.0 all
    perform-AllAllowed (turn user_text (some delta)) chat covers all =
        let user_stems = stems unicode user_text in
        let first =
          covered user_stems user_text _ covers
            (keep_stated-All user_stems user_text delta.clarified) in
        let second =
          covered user_stems user_text _ covers
            (keep_stated-All user_stems user_text delta.constraints) in
        told-AllAllowed
          (merge_delta unicode chat.doc (filter_user_stated unicode delta user_text).0).0 chat
          (merge_delta-AllAllowed chat.doc (filter_user_stated unicode delta user_text).0 first
            second all.0)
          all
    perform-AllAllowed (put_goal goal) chat covers all = all
    perform-AllAllowed (delete_item id) chat covers all = remove_item-AllAllowed chat id all
    perform-AllAllowed reset chat covers (all, snapshots) = (empty-AllAllowed, snapshots)
    perform-AllAllowed (restore none) chat covers (all, snapshots) = (empty-AllAllowed, snapshots)
    perform-AllAllowed (restore (some i)) chat covers (all, snapshots) =
        (snapshot_at-AllAllowed i chat.snapshots snapshots, snapshots)

    perform_all-AllAllowed :
        (calls : List Call) (chat : Chat)
        → All Covers calls
        → AllAllowedChat chat
        → AllAllowedChat (perform_all unicode calls chat)
    unfolding perform_all
    perform_all-AllAllowed [] chat covers all = all
    perform_all-AllAllowed (call ∷ calls) chat (first, rest) all =
        perform_all-AllAllowed calls (perform unicode call chat) rest
          (perform-AllAllowed call chat first all)

  -- The text of an item comes from one that the user stated in a turn.
  abbrev pub IsStatedIn : List Call → Text → Type 0
  IsStatedIn calls said =
      (user_text : Text) × (delta : Option Delta) × (raw : Text) × Memᴰ (turn user_text delta) calls
      × (is_user_stated unicode raw (stems unicode user_text) user_text ≡ true)
      × (said ≡ collapse raw item_max_chars)

  Covers-all :
      (calls rest : List Call)
      → ((call : Call) → Memᴰ call rest → Memᴰ call calls)
      → All (Covers (IsStatedIn calls)) rest
  Covers-all calls [] inside = tt
  Covers-all calls (turn user_text delta ∷ rest) inside = (
    λ raw stated.
        (user_text, delta, raw, inside (turn user_text delta) (Memᴰ.head refl), stated, refl),
    Covers-all calls rest (λ call m. inside call (Memᴰ.tail m)),
  )
  Covers-all calls (put_goal goal ∷ rest) inside =
      (tt, Covers-all calls rest (λ call m. inside call (Memᴰ.tail m)))
  Covers-all calls (delete_item id ∷ rest) inside =
      (tt, Covers-all calls rest (λ call m. inside call (Memᴰ.tail m)))
  Covers-all calls (reset ∷ rest) inside =
      (tt, Covers-all calls rest (λ call m. inside call (Memᴰ.tail m)))
  Covers-all calls (restore i ∷ rest) inside =
      (tt, Covers-all calls rest (λ call m. inside call (Memᴰ.tail m)))

  -- Whatever the model reports: every item of the task memory, restored or not, is the collapsed form
  -- of a text that is_user_stated accepts for what the user wrote in one of the turns.
  pub perform_all-IsStatedIn :
      (calls : List Call) (item : Item)
      → IsIn item (perform_all unicode calls (new_chat unicode)).doc
      → IsStatedIn calls item.said
  perform_all-IsStatedIn calls item is_in =
      (perform_all-AllAllowed (IsStatedIn calls) calls (new_chat unicode)
          (Covers-all calls calls (λ call m. m)) (empty-AllAllowed (IsStatedIn calls), tt)).0
        item is_in
