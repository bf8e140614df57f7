-- ===== src/Prelude/Ordered.antt =====
-- What a filter and a sort keep, and the order of a sorted list as a relation of its items.
use mathlib.Core.Path.{◌≡◌, sym, ap, ◌∙◌}
use mathlib.Core.Bool.{Bool, true, false}
use mathlib.Core.Logic.{inl, inr}
use mathlib.Core.List.{List, [], ◌∷◌, Memᴰ}
use ai_advent_challenge_9_v.Prelude.Tests.{Bool-cases}
use ai_advent_challenge_9_v.Prelude.Lists.{All, select}
use ai_advent_challenge_9_v.Prelude.Sort.{insert_sorted, sort_by, IsSorted}

module _ {ℓ} {A : Type ℓ} where
  -- Each item relates to all that stand behind it.
  abbrev pub IsOrdered : (A → A → Type 0) → List A → Type 0
  IsOrdered relates [] = Unit
  IsOrdered relates (x ∷ xs) = All (relates x) xs × IsOrdered relates xs

  All-weaken :
      (holds more : A → Type 0) (xs : List A)
      → ((x : A) → holds x → more x)
      → All holds xs
      → All more xs
  All-weaken holds more [] weaken all = tt
  All-weaken holds more (x ∷ xs) weaken all =
      (weaken x all.0, All-weaken holds more xs weaken all.1)

  pub IsSorted-IsOrdered :
      (before : A → A → Bool) (relates : A → A → Type 0)
      → ((x y : A) → before y x ≡ false → relates x y)
      → (xs : List A) → IsSorted before xs
      → IsOrdered relates xs
  IsSorted-IsOrdered before relates means [] sorted = tt
  IsSorted-IsOrdered before relates means (x ∷ xs) sorted = (
    All-weaken (λ y. before y x ≡ false) (relates x) xs (means x) sorted.0,
    IsSorted-IsOrdered before relates means xs sorted.1,
  )

  pub mem-select :
      (p : A → Bool) (xs : List A) (x : A) → Memᴰ x xs → p x ≡ true → Memᴰ x (select p xs)
  mem-select p [] x m keep = elim m [ ]
  mem-select p (y ∷ ys) x (Memᴰ.head e) keep =
      let kept : p y ≡ true = ap p (sym e) ∙ keep in rw kept (Memᴰ.head e)
  mem-select p (y ∷ ys) x (Memᴰ.tail m) keep = elim (Bool-cases (p y)) [
    | inl e ↦ rw e (Memᴰ.tail (mem-select p ys x m keep))
    | inr e ↦ rw e (mem-select p ys x m keep)
  ]

  module _ (before : A → A → Bool) where
    under_first :
        (x y : A) (more less : List A)
        → (Memᴰ x more → Memᴰ x less)
        → Memᴰ x (y ∷ more)
        → Memᴰ x (y ∷ less)
    under_first x y more less inside (Memᴰ.head e) = Memᴰ.head e
    under_first x y more less inside (Memᴰ.tail m) = Memᴰ.tail (inside m)

    swapped : (x y z : A) (xs : List A) → Memᴰ x (y ∷ z ∷ xs) → Memᴰ x (z ∷ y ∷ xs)
    swapped x y z xs (Memᴰ.head e) = Memᴰ.tail (Memᴰ.head e)
    swapped x y z xs (Memᴰ.tail (Memᴰ.head e)) = Memᴰ.head e
    swapped x y z xs (Memᴰ.tail (Memᴰ.tail m)) = Memᴰ.tail (Memᴰ.tail m)

    insert_sorted-mem :
        (new : A) (xs : List A) (x : A) → Memᴰ x (insert_sorted before new xs) → Memᴰ x (new ∷ xs)
    unfolding insert_sorted
    insert_sorted-mem new [] x m = m
    insert_sorted-mem new (y ∷ ys) x m = elim (Bool-cases (before y new)) [
      | inl e ↦ swapped x y new ys (
          under_first x y (insert_sorted before new ys) (new ∷ ys) (insert_sorted-mem new ys x)
            (rw e at m))
      | inr e ↦ rw e at m
    ]

    mem-insert_sorted :
        (new : A) (xs : List A) (x : A) → Memᴰ x (new ∷ xs) → Memᴰ x (insert_sorted before new xs)
    unfolding insert_sorted
    mem-insert_sorted new [] x m = m
    mem-insert_sorted new (y ∷ ys) x m = elim (Bool-cases (before y new)) [
      | inl e ↦ rw e (
          under_first x y (new ∷ ys) (insert_sorted before new ys) (mem-insert_sorted new ys x)
            (swapped x new y ys m))
      | inr e ↦ rw e m
    ]

    pub sort_by-mem : (xs : List A) (x : A) → Memᴰ x (sort_by before xs) → Memᴰ x xs
    unfolding sort_by
    sort_by-mem [] x m = m
    sort_by-mem (y ∷ ys) x m =
        under_first x y (sort_by before ys) ys (sort_by-mem ys x)
          (insert_sorted-mem y (sort_by before ys) x m)

    pub mem-sort_by : (xs : List A) (x : A) → Memᴰ x xs → Memᴰ x (sort_by before xs)
    unfolding sort_by
    mem-sort_by [] x m = m
    mem-sort_by (y ∷ ys) x m =
        mem-insert_sorted y (sort_by before ys) x
          (under_first x y ys (sort_by before ys) (mem-sort_by ys x) m)
