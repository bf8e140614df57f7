-- ===== src/Memory/Merge.antt =====
-- agent/task_memory.py: a merge keeps what a document keeps.
use ai_advent_challenge_9_v.Prelude.{
  ◌≤◌, some, Bool, not, ◌&&◌, List, [], ◌∷◌, ◌++◌, ◌==◌, leb, length, Bool-cases, inl, inr,
}
use ai_advent_challenge_9_v.Strings.{Text}
use ai_advent_challenge_9_v.Strings.Equal.{same_text}
use ai_advent_challenge_9_v.Memory.{
  goal_max_chars, item_max_chars, list_cap, Doc, Delta, collapse, said_or_empty, Side, clarified,
  constraints, items_of, append_item, is_duplicate, merge_goal_text, merge_goal, merge_list,
  merge_delta,
}
use ai_advent_challenge_9_v.Memory.Words.{Unicode, normalise_ws}
use ai_advent_challenge_9_v.Memory.Sound.{
  IsSound, with_goal-IsSound, append_item-IsSound, length-collapse_le, not_zero, not_reached,
}

module _ (unicode : Unicode) where
  pub merge_list-IsSound :
      (side : Side) (texts : List Text) (doc : Doc)
      → IsSound unicode doc
      → IsSound unicode (merge_list unicode side texts doc).doc
  unfolding merge_list
  merge_list-IsSound side [] doc sound = sound
  merge_list-IsSound side (raw ∷ texts) doc sound =
      let said = collapse raw item_max_chars in
      let kept = merge_list-IsSound side texts doc sound in
      elim (Bool-cases (length said == 0)) [
        | inl e ↦ rw e kept
        | inr e ↦ elim (Bool-cases (is_duplicate unicode said (doc.clarified ++ doc.constraints))) [
          | inl f ↦ rw e (rw f kept)
          | inr f ↦ elim (Bool-cases (leb list_cap (length (items_of side doc)))) [
            | inl g ↦ rw e (rw f (rw g kept))
            | inr g ↦
                let short = length-collapse_le unicode raw item_max_chars in
                rw e (
                  rw f (
                    rw g (
                      merge_list-IsSound side texts (append_item side said doc) (
                        append_item-IsSound unicode side said doc (not_zero (length said) e, short)
                          f (not_reached list_cap (length (items_of side doc)) g) sound))))
          ]
        ]
      ]

  merge_goal_text-IsSound :
      (doc : Doc) (changed : Bool) (goal old : Text)
      → length goal ≤ goal_max_chars
      → IsSound unicode doc
      → IsSound unicode (merge_goal_text unicode doc changed goal old).0
  merge_goal_text-IsSound doc changed [] old fits sound = sound
  merge_goal_text-IsSound doc changed (c ∷ s) [] fits sound =
      with_goal-IsSound unicode doc (some (c ∷ s)) fits sound
  merge_goal_text-IsSound doc changed (c ∷ s) (d ∷ old) fits sound =
      elim (Bool-cases (
        changed
        && not (same_text (normalise_ws unicode (c ∷ s)) (normalise_ws unicode (d ∷ old))))) [
          | inl e ↦ rw e (with_goal-IsSound unicode doc (some (c ∷ s)) fits sound)
          | inr e ↦ rw e sound
        ]

  pub merge_delta-IsSound :
      (doc : Doc) (delta : Delta)
      → IsSound unicode doc
      → IsSound unicode (merge_delta unicode doc delta).0
  unfolding merge_delta merge_goal
  merge_delta-IsSound doc delta sound =
      let goal =
        merge_goal_text-IsSound doc delta.goal_changed
          (collapse (said_or_empty delta.goal) goal_max_chars) (said_or_empty doc.goal)
          (length-collapse_le unicode (said_or_empty delta.goal) goal_max_chars) sound in
      merge_list-IsSound constraints delta.constraints _
        (merge_list-IsSound clarified delta.clarified _ goal)
