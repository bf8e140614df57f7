-- ===== src/Strings/Equal.antt =====
-- Equality of texts, and membership in a list of them.
use ai_advent_challenge_9_v.Prelude.{
  ◌≡◌, refl, Bool, true, false, ◌&&◌, ◌||◌, List, [], ◌∷◌, arith, ◌==◌, Bool-cases, inl, inr,
}
use ai_advent_challenge_9_v.Strings.{Text}

unfoldable pub same_text : Text → Text → Bool
same_text [] [] = true
same_text [] (d ∷ t) = false
same_text (c ∷ s) [] = false
same_text (c ∷ s) (d ∷ t) = c == d && same_text s t

pub same_text_refl : (s : Text) → same_text s s ≡ true
unfolding same_text
same_text_refl [] = refl
same_text_refl (c ∷ s) = ground (arith, same_text_refl s)

pub same_text→eq : (s t : Text) → same_text s t ≡ true → s ≡ t
unfolding same_text
same_text→eq [] [] h = refl
same_text→eq [] (d ∷ t) h = cc
same_text→eq (c ∷ s) [] h = cc
same_text→eq (c ∷ s) (d ∷ t) h = elim (Bool-cases (same_text s t)) [
  | inl e ↦ let rest = same_text→eq s t e in let head : c ≡ d = ground arith in cc
  | inr e ↦ ground arith
]

-- `text in texts`
unfoldable pub contains : List Text → Text → Bool
unfolding same_text
contains [] s = false
contains (t ∷ ts) s = same_text t s || contains ts s
