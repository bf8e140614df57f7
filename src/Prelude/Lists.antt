-- ===== src/Prelude/Lists.antt =====
-- Lists measured by native numbers, under the library's names.
use Prim.Native.Nat.{ℕ, suc, ◌+◌, ◌≤◌}
use mathlib.Core.Path.{◌∙◌, ap, ◌≡◌}
use mathlib.Core.Bool.{true, Bool}
use mathlib.Core.Logic.{inl, inr}
use mathlib.Core.List.{Memᴰ, List, [], ◌∷◌, ◌++◌}
use native.Mathlib.Omega.{arith}
use ai_advent_challenge_9_v.Prelude.Tests.{Bool-cases, if◌then◌else◌}

module _ {ℓ} {A : Type ℓ} where
  abbrev pub length : List A → ℕ
  length [] = 0
  length (x ∷ xs) = suc (length xs)

  pub length-append : (xs ys : List A) → length (xs ++ ys) ≡ length xs + length ys
  length-append [] ys = omega arith
  length-append (x ∷ xs) ys = omega (arith, length-append xs ys)

  -- The comprehension `[x for x in xs if test(x)]`.
  abbrev pub select : (A → Bool) → List A → List A
  select p [] = []
  select p (x ∷ xs) = if p x then x ∷ select p xs else select p xs

  pub length-select-le : (p : A → Bool) (xs : List A) → length (select p xs) ≤ length xs
  length-select-le p [] = omega arith
  length-select-le p (x ∷ xs) = ground (arith, length-select-le p xs)

  select-mem_cons :
      (p : A → Bool) (y : A) (ys : List A) (x : A)
      → p y ≡ true
      → (Memᴰ x (select p ys) → Memᴰ x ys × (p x ≡ true))
      → Memᴰ x (y ∷ select p ys)
      → Memᴰ x (y ∷ ys) × (p x ≡ true)
  select-mem_cons p y ys x keep later (Memᴰ.head e) = (Memᴰ.head e, ap p e ∙ keep)
  select-mem_cons p y ys x keep later (Memᴰ.tail m) =
      let (there, holds) = later m in (Memᴰ.tail there, holds)

  -- An item that the comprehension keeps is in the list and passes the test.
  pub select-mem :
      (p : A → Bool) (xs : List A) (x : A) → Memᴰ x (select p xs) → Memᴰ x xs × (p x ≡ true)
  select-mem p [] x m = elim m [ ]
  select-mem p (y ∷ ys) x m = elim (Bool-cases (p y)) [
    | inl keep ↦ select-mem_cons p y ys x keep (select-mem p ys x) (rw keep at m)
    | inr drop ↦ let (there, holds) = select-mem p ys x (rw drop at m) in (Memᴰ.tail there, holds)
  ]

  -- A property of every item, which the tactics read as a tuple.
  abbrev pub All {κ} : (holds : A → Type κ) → List A → Type κ
  All holds [] = Unit
  All holds (first ∷ rest) = holds first × All holds rest
