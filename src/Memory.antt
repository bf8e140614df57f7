-- ===== src/Memory.antt =====
-- agent/task_memory.py: the task memory of a chat and its merge rules.
pub mod Words
pub mod Items
pub mod Sound
pub mod Merge
pub mod Calls
mod Samples
use ai_advent_challenge_9_v.Prelude.{
  ℕ, zero, suc, ◌+◌, ◌-◌, ◌*◌, Bool, true, false, not, ◌&&◌, ◌||◌, Option, none, some, List, [],
  ◌∷◌, ◌++◌, ◌==◌, ltb, leb, if◌then◌else◌, length, select, map,
}
use ai_advent_challenge_9_v.Strings.{Text, codes, strip, take, collapse_from}
use ai_advent_challenge_9_v.Strings.Equal.{same_text, contains}
use ai_advent_challenge_9_v.Memory.Words.{
  Unicode, close_run, runs_from, stopwords, distinct, common, is_subset, tokenize, stems,
  normalise_ws,
}

abbrev pub goal_max_chars : ℕ
goal_max_chars = 300

abbrev pub item_max_chars : ℕ
item_max_chars = 200

abbrev pub list_cap : ℕ
list_cap = 12

pub record Item : Type 0 where
  pub id : ℕ
  pub said : Text

-- The document. A goal of no characters counts as none.
pub record Doc : Type 0 where
  pub goal : Option Text
  pub clarified : List Item
  pub constraints : List Item
  pub next_id : ℕ

abbrev pub empty_doc : Doc
empty_doc = record { goal = none; clarified = []; constraints = []; next_id = 1 }

pub record Delta : Type 0 where
  pub goal : Option Text
  pub goal_changed : Bool
  pub clarified : List Text
  pub constraints : List Text

pub record MergeInfo : Type 0 where
  pub goal_new : Bool
  pub new_ids : List ℕ
  pub dropped_by_cap : ℕ

unfoldable pub collapse : Text → (limit : ℕ) → Text
unfolding strip take collapse_from
collapse s limit = strip (take limit (strip (collapse_from false s)))

-- `_jaccard(left, right) >= 0.8`
unfoldable pub is_near : List Text → List Text → Bool
unfolding common
is_near left right =
    let both = length (common left right) in
    ltb 0 (length left)
    && ltb 0 (length right)
    && leb (4 * (length left + length right - both)) (5 * both)

abbrev pub filled_text : Text → Option Text
filled_text [] = none
filled_text (c ∷ s) = some (c ∷ s)

abbrev pub said_or_empty : Option Text → Text
said_or_empty none = []
said_or_empty (some s) = s

abbrev pub with_goal : Option Text → Doc → Doc
with_goal goal doc = record doc { goal = goal }

-- The two lists of the document.
pub data Side : Type 0 where
  clarified constraints : Side

abbrev pub items_of : Side → Doc → List Item
items_of clarified doc = doc.clarified
items_of constraints doc = doc.constraints

-- `target.append(...)`, with the next id used up.
abbrev pub append_item : Side → Text → Doc → Doc
append_item clarified said doc = record doc {
  clarified = doc.clarified ++ record { id = doc.next_id; said = said } ∷ [];
  next_id = doc.next_id + 1;
}
append_item constraints said doc = record doc {
  constraints = doc.constraints ++ record { id = doc.next_id; said = said } ∷ [];
  next_id = doc.next_id + 1;
}

-- The document, the new ids and the count dropped by the cap.
pub record Merged : Type 0 where
  pub doc : Doc
  pub ids : List ℕ
  pub dropped : ℕ

abbrev pub dropped_one : Merged → Merged
dropped_one merged = record merged { dropped = suc merged.dropped }

abbrev pub added : ℕ → Merged → Merged
added id merged = record merged { ids = id ∷ merged.ids }

module _ (unicode : Unicode) where
  -- One round of `_is_duplicate`
  unfoldable pub is_similar : (text other : Text) → Bool
  unfolding normalise_ws stems is_near same_text
  is_similar s other =
      same_text (normalise_ws unicode other) (normalise_ws unicode s)
      || is_near (stems unicode s) (stems unicode other)

  unfoldable pub is_duplicate : Text → (known : List Item) → Bool
  unfolding is_similar
  is_duplicate s [] = false
  is_duplicate s (item ∷ known) = is_similar s item.said || is_duplicate s known

  abbrev pub merge_goal_text : Doc → Bool → Text → Text → Doc × Bool
  merge_goal_text doc goal_changed [] old = (doc, false)
  merge_goal_text doc goal_changed (c ∷ s) [] = (with_goal (some (c ∷ s)) doc, true)
  merge_goal_text doc goal_changed (c ∷ s) (d ∷ old) =
      if goal_changed
        && not (same_text (normalise_ws unicode (c ∷ s)) (normalise_ws unicode (d ∷ old)))
      then (with_goal (some (c ∷ s)) doc, true)
      else (doc, false)

  -- `_merge_goal`: the document, and whether its goal changed.
  unfoldable pub merge_goal : Doc → Delta → Doc × Bool
  unfolding collapse normalise_ws same_text
  merge_goal doc delta =
      merge_goal_text doc delta.goal_changed (collapse (said_or_empty delta.goal) goal_max_chars)
        (said_or_empty doc.goal)

  -- `_merge_list`
  unfoldable pub merge_list : Side → List Text → Doc → Merged
  unfolding collapse is_duplicate
  merge_list side [] doc = record { doc = doc; ids = []; dropped = 0 }
  merge_list side (raw ∷ texts) doc =
      let said = collapse raw item_max_chars in
      let kept = merge_list side texts doc in
      let grown = merge_list side texts (append_item side said doc) in
      if length said == 0
      then kept
      else if is_duplicate said (doc.clarified ++ doc.constraints)
      then kept
      else if leb list_cap (length (items_of side doc))
      then dropped_one kept
      else added doc.next_id grown

  unfoldable pub merge_delta : Doc → Delta → Doc × MergeInfo
  unfolding merge_goal merge_list
  merge_delta doc delta =
      let goal = merge_goal doc delta in
      let first = merge_list clarified delta.clarified goal.0 in
      let second = merge_list constraints delta.constraints first.doc in
      (
        second.doc,
        record {
          goal_new = goal.1;
          new_ids = first.ids ++ second.ids;
          dropped_by_cap = first.dropped + second.dropped;
        },
      )
