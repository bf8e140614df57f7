-- ===== src/Release/Versions/Reading.antt =====
-- agent/release_pipeline.py: a version is read back as it was printed.
use ai_advent_challenge_9_v.Prelude.{ℕ, suc, ◌≡◌, refl, Option, some, [], ◌∷◌, ◌++◌, arith}
use ai_advent_challenge_9_v.Strings.{Text}
use ai_advent_challenge_9_v.Strings.Decimal.{show, show-append, read_number, read_number-show_from}
use ai_advent_challenge_9_v.Release.Versions.{Version, print_version, parse_version}

module _ (unicode_digit : ℕ → Option ℕ) where
  read_show :
      (n c : ℕ) (more : Text)
      → c ≡ 46
      → read_number unicode_digit (show n ++ c ∷ more) ≡ some (n, c ∷ more)
  read_show n c more dot =
      rw (show-append n (c ∷ more))
        (read_number-show_from unicode_digit (suc n) n (c ∷ more) (omega arith) (ground arith))

  read_show_last : (n : ℕ) → read_number unicode_digit (show n) ≡ some (n, [])
  unfolding show
  read_show_last n = read_number-show_from unicode_digit (suc n) n [] (omega arith) tt

  -- Every version is read back from its print, whatever digits the regular expression knows outside
  -- ASCII.
  pub parse_version-print_version :
      (v : Version) → parse_version unicode_digit (print_version v) ≡ some v
  unfolding parse_version print_version
  parse_version-print_version (major, minor) =
      rw (read_show major 46 (show minor) refl) (rw (read_show_last minor) refl)
