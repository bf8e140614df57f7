-- ===== src/Memory/Samples.antt =====
-- agent/task_memory.py on a short chat, and the theorem at it.
use ai_advent_challenge_9_v.Prelude.{
  inr, ◌≡◌, refl, Bool, true, false, ◌&&◌, some, List, [], ◌∷◌, leb, ℕ,
}
use ai_advent_challenge_9_v.Strings.{Text, codes, is_space}
use ai_advent_challenge_9_v.Strings.Equal.{same_text, contains}
use ai_advent_challenge_9_v.Memory.{Doc, Delta}
use ai_advent_challenge_9_v.Memory.Words.{Unicode}
use ai_advent_challenge_9_v.Memory.Calls.{Call, turn, put_goal, delete_item, restore, perform_all}
use mathlib.Core.List.{Memᴰ}
use ai_advent_challenge_9_v.Memory.Calls.Stated.{IsStatedIn, perform_all-IsStatedIn}
use ai_advent_challenge_9_v.Memory.Calls.Sound.{IsSoundChat, new_chat, perform_all-IsSoundChat}

abbrev is_letter : ℕ → Bool
is_letter c = leb 97 c && leb c 122

abbrev is_figure : ℕ → Bool
is_figure c = leb 48 c && leb c 57

abbrev all_figures : Text → Bool
all_figures [] = true
all_figures (c ∷ s) = is_figure c && all_figures s

-- Small letters and ASCII digits.
abbrev ascii : Unicode
ascii = record {
  lower = λ s. s;
  casefold = λ s. s;
  is_word = is_letter;
  is_decimal = is_figure;
  is_digits = all_figures;
}

-- The second item repeats the first one, and the user did not say the third one.
abbrev delta : Delta
delta = record {
  goal = some (codes "short tests");
  goal_changed = false;
  clarified = codes "keep tests short" ∷ codes " keep  tests short" ∷ codes "at most 9 lines" ∷ [];
  constraints = codes "never skip" ∷ [];
}

abbrev calls : List Call
calls =
    turn (codes "keep tests short, never skip") (some delta)
    ∷ delete_item 1
    ∷ put_goal (codes " other ")
    ∷ restore (some 0)
    ∷ []

abbrev stored : Doc
stored = record {
  goal = some (codes "short tests");
  clarified = record { id = 1; said = codes "keep tests short" } ∷ [];
  constraints = record { id = 2; said = codes "never skip" } ∷ [];
  next_id = 3;
}

kept_and_restored : (perform_all ascii calls (new_chat ascii)).doc ≡ stored
unfolding perform_all is_space same_text contains
kept_and_restored = refl

perform_all-IsSoundChat_example : IsSoundChat ascii (perform_all ascii calls (new_chat ascii))
perform_all-IsSoundChat_example = perform_all-IsSoundChat ascii calls

-- The item that the user stated is in the memory, and the theorem names the turn.
perform_all-IsStatedIn_example : IsStatedIn ascii calls (codes "never skip")
unfolding perform_all is_space same_text contains
perform_all-IsStatedIn_example =
    perform_all-IsStatedIn ascii calls (record { id = 2; said = codes "never skip" })
      (inr (Memᴰ.head refl))
