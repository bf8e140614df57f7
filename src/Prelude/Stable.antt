-- ===== src/Prelude/Stable.antt =====
-- Two sorts, one after the other, as a sort by the second key and then by the first.
use mathlib.Core.Path.{◌≡◌}
use mathlib.Core.Bool.{Bool, true, false, not, ◌&&◌, ◌||◌}
use mathlib.Core.Logic.{inl, inr}
use mathlib.Core.List.{List, [], ◌∷◌}
use native.Mathlib.Omega.{arith}
use ai_advent_challenge_9_v.Prelude.Tests.{Bool-cases}
use ai_advent_challenge_9_v.Prelude.Lists.{All}
use ai_advent_challenge_9_v.Prelude.Sort.{insert_sorted, sort_by, IsSorted}

module _ {ℓ} {A : Type ℓ} (first second : A → A → Bool) where
  -- By the first order, and where it does not tell by the second.
  abbrev pub lexical : A → A → Bool
  lexical x y = first x y || (not (first y x) && second x y)

  module _ (trans : (x y z : A) → first y x ≡ false → first z y ≡ false → first z x ≡ false)
      (asym : (x y : A) → first x y ≡ true → first y x ≡ false) where
    insert_sorted-All :
        (P : A → Type 0) (x : A) (ys : List A) → P x → All P ys → All P (insert_sorted first x ys)
    unfolding insert_sorted
    insert_sorted-All P x [] px all = (px, tt)
    insert_sorted-All P x (y ∷ ys) px all = elim (Bool-cases (first y x)) [
      | inl e ↦ rw e (all.0, insert_sorted-All P x ys px all.1)
      | inr e ↦ rw e (px, all)
    ]

    sort_by-All : (P : A → Type 0) (xs : List A) → All P xs → All P (sort_by first xs)
    unfolding sort_by
    sort_by-All P [] all = tt
    sort_by-All P (x ∷ xs) all =
        insert_sorted-All P x (sort_by first xs) all.0 (sort_by-All P xs all.1)

    lexical-after :
        (x y : A) (zs : List A)
        → first y x ≡ false
        → All (λ z. lexical z y ≡ false) zs
        → All (λ z. second z x ≡ false) zs
        → All (λ z. lexical z x ≡ false) zs
    lexical-after x y [] e later old = tt
    lexical-after x y (z ∷ zs) e later old =
        let old_first = later.0 in
        let behind : first z y ≡ false = ground arith in
        let far = trans x y z e behind in
        let kept = old.0 in (ground arith, lexical-after x y zs e later.1 old.1)

    insert_sorted-IsLexical :
        (x : A) (ys : List A)
        → IsSorted lexical ys
        → All (λ y. second y x ≡ false) ys
        → IsSorted lexical (insert_sorted first x ys)
    unfolding insert_sorted
    insert_sorted-IsLexical x [] sorted old = (tt, tt)
    insert_sorted-IsLexical x (y ∷ ys) sorted old = elim (Bool-cases (first y x)) [
      | inl e ↦
          let other = asym y x e in
          rw e (
            insert_sorted-All (λ z. lexical z y ≡ false) x ys (ground arith) sorted.0,
            insert_sorted-IsLexical x ys sorted.1 old.1,
          )
      | inr e ↦
          let kept = old.0 in rw e ((ground arith, lexical-after x y ys e sorted.0 old.1), sorted)
    ]

    -- A list sorted by the second order, sorted by the first, is sorted by both.
    pub sort_by-IsLexical : (xs : List A) → IsSorted second xs → IsSorted lexical (sort_by first xs)
    unfolding sort_by
    sort_by-IsLexical [] sorted = tt
    sort_by-IsLexical (x ∷ xs) sorted =
        insert_sorted-IsLexical x (sort_by first xs) (sort_by-IsLexical xs sorted.1)
          (sort_by-All (λ y. second y x ≡ false) xs sorted.0)
