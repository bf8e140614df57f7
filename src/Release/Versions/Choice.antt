-- ===== src/Release/Versions/Choice.antt =====
-- agent/release_pipeline.py: the last version tag is the greatest, and candidates are valid.
use mathlib.Core.List.{Memᴰ}
use ai_advent_challenge_9_v.Prelude.{
  ℕ, ◌+◌, ◌≡◌, refl, ◌⊎◌, inl, inr, true, false, Option, none, some, List, [], ◌∷◌, arith, All,
  Bool-cases,
}
use ai_advent_challenge_9_v.Strings.{Text}
use ai_advent_challenge_9_v.Strings.Equal.{contains}
use ai_advent_challenge_9_v.Release.Versions.{
  Version, below, print_version, parse_version, consider, best_tag, tag_of, last_version_tag,
  version_candidates, candidates_after, validate_version,
}
use ai_advent_challenge_9_v.Release.Versions.Reading.{parse_version-print_version}

module _ (unicode_digit : ℕ → Option ℕ) where
  -- The best of the tags that satisfy P: none if none of them is a version.
  abbrev IsBest : (Text → Type 0) → Option (Version × Text) → Type 0
  IsBest P none = (other : Text) → P other → parse_version unicode_digit other ≡ none
  IsBest P (some (v, tag)) =
      P tag
      × (parse_version unicode_digit tag ≡ some v)
      × ((other : Text) (w : Version)
          → P other
          → parse_version unicode_digit other ≡ some w
          → below v w ≡ false)

  below_trans :
      (a b c d e f : ℕ)
      → below (a, b) (c, d) ≡ true
      → below (a, b) (e, f) ≡ false
      → below (c, d) (e, f) ≡ false
  below_trans a b c d e f h h' = ground arith

  below_irreflexive : (a b : ℕ) → below (a, b) (a, b) ≡ false
  below_irreflexive a b = ground arith

  abbrev Or : (Text → Type 0) → Text → Text → Type 0
  Or P tag other = P other ⊎ (other ≡ tag)

  same_version :
      (tag other : Text) (v w : Version)
      → parse_version unicode_digit tag ≡ some v
      → other ≡ tag
      → parse_version unicode_digit other ≡ some w
      → v ≡ w
  same_version tag other v w reads same h = let moved = rw same at h in cc

  keep :
      (P : Text → Type 0) (best : Option (Version × Text)) (tag : Text)
      → parse_version unicode_digit tag ≡ none
      → IsBest P best
      → IsBest (Or P tag) best
  keep P none tag reads h =
      λ other listed. elim listed [ inl old ↦ h other old | inr new ↦ rw new reads ]
  keep P (some (v, best)) tag reads h = (
    inl h.0,
    h.1,
    λ other w listed found. elim listed [
      | inl old ↦ h.2 other w old found
      | inr new ↦ let moved = rw new at found in cc
    ],
  )

  take_first :
      (P : Text → Type 0) (tag : Text) (v : Version)
      → parse_version unicode_digit tag ≡ some v
      → IsBest P none
      → IsBest (Or P tag) (some (v, tag))
  take_first P tag (a, b) reads h = (
    inr refl,
    reads,
    λ other w listed found. elim listed [
      | inl old ↦ let nothing = h other old in cc
      | inr new ↦
          let same = same_version tag other (a, b) w reads new found in
          rw (← same) (below_irreflexive a b)
    ],
  )

  take_better :
      (P : Text → Type 0) (a b c d : ℕ) (best tag : Text)
      → parse_version unicode_digit tag ≡ some (c, d)
      → below (a, b) (c, d) ≡ true
      → IsBest P (some ((a, b), best))
      → IsBest (Or P tag) (some ((c, d), tag))
  take_better P a b c d best tag reads up h = (
    inr refl,
    reads,
    λ other (e, f) listed found. elim listed [
      | inl old ↦ below_trans a b c d e f up (h.2 other (e, f) old found)
      | inr new ↦
          let same = same_version tag other (c, d) (e, f) reads new found in
          rw (← same) (below_irreflexive c d)
    ],
  )

  keep_better :
      (P : Text → Type 0) (a b : ℕ) (v : Version) (best tag : Text)
      → parse_version unicode_digit tag ≡ some v
      → below (a, b) v ≡ false
      → IsBest P (some ((a, b), best))
      → IsBest (Or P tag) (some ((a, b), best))
  keep_better P a b v best tag reads not_up h = (
    inl h.0,
    h.1,
    λ other w listed found. elim listed [
      | inl old ↦ h.2 other w old found
      | inr new ↦ let same = same_version tag other v w reads new found in rw (← same) not_up
    ],
  )

  consider-IsBest :
      (P : Text → Type 0) (best : Option (Version × Text)) (tag : Text) (parsed : Option Version)
      → parse_version unicode_digit tag ≡ parsed
      → IsBest P best
      → IsBest (Or P tag) (consider unicode_digit best tag parsed)
  consider-IsBest P best tag none reads h = keep P best tag reads h
  consider-IsBest P none tag (some v) reads h = take_first P tag v reads h
  consider-IsBest P (some ((a, b), best)) tag (some (c, d)) reads h =
      elim (Bool-cases (below (a, b) (c, d))) [
        | inl up ↦ rw up (take_better P a b c d best tag reads up h)
        | inr lower ↦ rw lower (keep_better P a b (c, d) best tag reads lower h)
      ]

  -- IsBest says the same of two predicates that hold of the same tags.
  IsBest-map :
      (P Q : Text → Type 0) (best : Option (Version × Text))
      → ((t : Text) → P t → Q t)
      → ((t : Text) → Q t → P t)
      → IsBest P best
      → IsBest Q best
  IsBest-map P Q none to from h = λ other q. h other (from other q)
  IsBest-map P Q (some (v, tag)) to from h =
      (to tag h.0, h.1, λ other w q. h.2 other w (from other q))

  abbrev OrIn : (Text → Type 0) → List Text → Text → Type 0
  OrIn P tags other = P other ⊎ Memᴰ other tags

  regroup :
      (P : Text → Type 0) (tag : Text) (tags : List Text) (t : Text)
      → OrIn (Or P tag) tags t
      → OrIn P (tag ∷ tags) t
  regroup P tag tags t (inl (inl old)) = inl old
  regroup P tag tags t (inl (inr new)) = inr (Memᴰ.head new)
  regroup P tag tags t (inr later) = inr (Memᴰ.tail later)

  regroup_back :
      (P : Text → Type 0) (tag : Text) (tags : List Text) (t : Text)
      → OrIn P (tag ∷ tags) t
      → OrIn (Or P tag) tags t
  regroup_back P tag tags t (inl old) = inl (inl old)
  regroup_back P tag tags t (inr (Memᴰ.head new)) = inl (inr new)
  regroup_back P tag tags t (inr (Memᴰ.tail later)) = inr later

  best_tag-IsBest :
      (P : Text → Type 0) (best : Option (Version × Text)) (tags : List Text)
      → IsBest P best
      → IsBest (OrIn P tags) (best_tag unicode_digit best tags)
  unfolding best_tag
  best_tag-IsBest P best [] h =
      IsBest-map P (OrIn P []) best (λ t p. inl p)
        (λ t q. elim q [ inl p ↦ p | inr m ↦ elim m [ ] ]) h
  best_tag-IsBest P best (tag ∷ tags) h =
      IsBest-map (OrIn (Or P tag) tags) (OrIn P (tag ∷ tags)) _ (regroup P tag tags)
        (regroup_back P tag tags)
        (best_tag-IsBest (Or P tag)
          (consider unicode_digit best tag (parse_version unicode_digit tag)) tags
          (consider-IsBest P best tag (parse_version unicode_digit tag) refl h))

  -- The answer is a tag of the list that no version tag of the list exceeds, or none if the list has
  -- no version tag.
  abbrev pub IsLastTag : List Text → Option Text → Type 0
  IsLastTag tags none = (other : Text) → Memᴰ other tags → parse_version unicode_digit other ≡ none
  IsLastTag tags (some tag) =
      (v : Version) × Memᴰ tag tags
      × (parse_version unicode_digit tag ≡ some v)
      × ((other : Text) (w : Version)
          → Memᴰ other tags
          → parse_version unicode_digit other ≡ some w
          → below v w ≡ false)

  tag_of-IsLastTag :
      (tags : List Text) (best : Option (Version × Text))
      → IsBest (λ t. Memᴰ t tags) best
      → IsLastTag tags (tag_of unicode_digit best)
  tag_of-IsLastTag tags none h = h
  tag_of-IsLastTag tags (some (v, tag)) h = (v, h.0, h.1, h.2)

  -- last_version_tag answers a tag of the list that no version tag of the list exceeds, and none
  -- exactly where the list has no version tag.
  pub last_version_tag-IsLastTag :
      (tags : List Text) → IsLastTag tags (last_version_tag unicode_digit tags)
  unfolding last_version_tag
  last_version_tag-IsLastTag tags = tag_of-IsLastTag tags (best_tag unicode_digit none tags) (
      IsBest-map (OrIn (λ t. ⊥) tags) (λ t. Memᴰ t tags) _
        (λ t q. elim q [ inl p ↦ elim p [ ] | inr m ↦ m ]) (λ t m. inr m)
        (best_tag-IsBest (λ t. ⊥) none tags (λ t p. elim p [ ])))

  validate_candidate :
      (last_tag : Text) (taken : List Text) (last v : Version)
      → parse_version unicode_digit last_tag ≡ some last
      → below last v ≡ true
      → contains taken (print_version v) ≡ false
      → validate_version unicode_digit (print_version v) last_tag taken ≡ none
  unfolding validate_version
  validate_candidate last_tag taken last v reads up free =
      rw (parse_version-print_version unicode_digit v) (rw (reads, up, free) refl)

  candidates_after-All :
      (last_tag : Text) (taken : List Text) (last : Option Version)
      → parse_version unicode_digit last_tag ≡ last
      → All
          (λ c. validate_version unicode_digit c last_tag taken ≡ none)
          (candidates_after unicode_digit last taken)
  candidates_after-All last_tag taken none reads = tt
  candidates_after-All last_tag taken (some (major, minor)) reads =
      let first =
        validate_candidate last_tag taken (major, minor) (major + 1, 0) reads (ground arith) in
      let second =
        validate_candidate last_tag taken (major, minor) (major, minor + 1) reads (ground arith) in
      elim (Bool-cases (contains taken (print_version (major + 1, 0)))) [
        | inl full ↦
            rw full (elim (Bool-cases (contains taken (print_version (major, minor + 1)))) [
              | inl both ↦ rw both tt
              | inr free ↦ rw free (second free, tt)
            ])
        | inr open_major ↦
            rw open_major (elim (Bool-cases (contains taken (print_version (major, minor + 1)))) [
              | inl busy ↦ rw busy (first open_major, tt)
              | inr free ↦ rw free (first open_major, (second free, tt))
            ])
      ]

  -- Every candidate that the planner offers passes the check that the confirmation makes: it is
  -- greater than the last tag and not taken.
  pub version_candidates-validate_version :
      (last_tag : Text) (taken : List Text)
      → All
          (λ c. validate_version unicode_digit c last_tag taken ≡ none)
          (version_candidates unicode_digit last_tag taken)
  unfolding version_candidates
  version_candidates-validate_version last_tag taken =
      candidates_after-All last_tag taken (parse_version unicode_digit last_tag) refl
