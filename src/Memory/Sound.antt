-- ===== src/Memory/Sound.antt =====
-- agent/task_memory.py: what a document keeps, and that a new item keeps it.
use ai_advent_challenge_9_v.Prelude.{
  ℕ, suc, ◌+◌, ◌≤◌, ◌<◌, ◌≡◌, refl, ap, ◌⊎◌, Bool, true, false, ◌||◌, List, [], ◌∷◌, ◌++◌, ◌==◌,
  Option, arith, leb, length, length-append, Bool-cases, inl, inr,
}
use mathlib.Core.List.{Memᴰ}
use ai_advent_challenge_9_v.Strings.{Text, strip, lstrip, rstrip, take, collapse_from}
use ai_advent_challenge_9_v.Strings.Spans.{length-take_le, length-rstrip_le, length-lstrip_le}
use ai_advent_challenge_9_v.Memory.{
  goal_max_chars, item_max_chars, list_cap, said_or_empty, Item, Doc, collapse, Side, clarified,
  constraints, items_of, append_item, is_similar, is_duplicate,
}
use ai_advent_challenge_9_v.Memory.Words.{Unicode}
use ai_advent_challenge_9_v.Memory.Items.{count, count-append, mem-count, mem-append_one}

abbrev pub IsIn : Item → Doc → Type 0
IsIn item doc = Memᴰ item doc.clarified ⊎ Memᴰ item doc.constraints

abbrev pub ids_of : ℕ → Doc → ℕ
ids_of id doc = count id doc.clarified + count id doc.constraints

abbrev pub IsShort : Item → Type 0
IsShort item = (0 < length item.said) × (length item.said ≤ item_max_chars)

pub not_zero : (n : ℕ) → (n == 0) ≡ false → 0 < n
not_zero n h = ground arith

pub not_reached : (cap n : ℕ) → leb cap n ≡ false → n < cap
not_reached cap n h = ground arith

or_false : (a b : Bool) → (a || b) ≡ false → (a ≡ false) × (b ≡ false)
or_false true b h = cc
or_false false b h = (refl, h)

mem_left : (item : Item) (items more : List Item) → Memᴰ item items → Memᴰ item (items ++ more)
mem_left item (first ∷ items) more (Memᴰ.head e) = Memᴰ.head e
mem_left item (first ∷ items) more (Memᴰ.tail m) = Memᴰ.tail (mem_left item items more m)
mem_left item [] more m = elim m [ ]

mem_right : (item : Item) (items more : List Item) → Memᴰ item more → Memᴰ item (items ++ more)
mem_right item [] more m = m
mem_right item (first ∷ items) more m = Memᴰ.tail (mem_right item items more m)

module _ (unicode : Unicode) where
  -- Both lists are within the cap; an id is used once, and none is used from the next one on; a
  -- text has its length; no item repeats one that is older; and the goal is within its length.
  abbrev pub IsSound : Doc → Type 0
  IsSound doc =
      (length doc.clarified ≤ list_cap)
      × (length doc.constraints ≤ list_cap)
      × ((id : ℕ) → ids_of id doc ≤ 1)
      × ((id : ℕ) → doc.next_id ≤ id → ids_of id doc ≡ 0)
      × ((item : Item) → IsIn item doc → IsShort item)
      × ((old new : Item)
          → IsIn old doc
          → IsIn new doc
          → old.id < new.id
          → is_similar unicode new.said old.said ≡ false)
      × (length (said_or_empty doc.goal) ≤ goal_max_chars)

  pub with_goal-IsSound :
      (doc : Doc) (goal : Option Text)
      → length (said_or_empty goal) ≤ goal_max_chars
      → IsSound doc
      → IsSound (record doc { goal = goal })
  with_goal-IsSound doc goal fits (first, second, once, unused, texts, apart, old) =
      (first, second, once, unused, texts, apart, fits)

  pub length-collapse_le : (s : Text) (limit : ℕ) → length (collapse s limit) ≤ limit
  unfolding collapse strip
  length-collapse_le s limit =
      let cut = take limit (rstrip (lstrip (collapse_from false s))) in
      let a = length-take_le limit (rstrip (lstrip (collapse_from false s))) in
      let b = length-lstrip_le cut in let c = length-rstrip_le (lstrip cut) in omega arith

  in_id-lt :
      (doc : Doc) (item : Item)
      → ((id : ℕ) → doc.next_id ≤ id → ids_of id doc ≡ 0)
      → IsIn item doc
      → item.id < doc.next_id
  in_id-lt doc item unused is_in =
      let used : 0 < ids_of item.id doc = elim is_in [
        | inl m ↦ let c = mem-count item doc.clarified m in omega arith
        | inr m ↦ let c = mem-count item doc.constraints m in omega arith
      ] in
      elim (Bool-cases (leb doc.next_id item.id)) [
        | inl e ↦ let none_used = unused item.id (ground arith) in omega arith
        | inr e ↦ ground arith
      ]

  unlike :
      (said : Text) (known : List Item) (item : Item)
      → is_duplicate unicode said known ≡ false
      → Memᴰ item known
      → is_similar unicode said item.said ≡ false
  unfolding is_duplicate
  unlike said [] item h m = elim m [ ]
  unlike said (first ∷ known) item h (Memᴰ.head e) =
      rw e (or_false (is_similar unicode said first.said) (is_duplicate unicode said known) h).0
  unlike said (first ∷ known) item h (Memᴰ.tail m) =
      unlike said known item
        (or_false (is_similar unicode said first.said) (is_duplicate unicode said known) h).1 m

  -- One side grows by an item: the members are the old ones and the new one, and the new id is counted once.
  abbrev pub Grows : Doc → Item → Doc → Type 0
  Grows doc new after =
      ((item : Item) → IsIn item after → IsIn item doc ⊎ (item ≡ new))
      × ((id : ℕ) → ids_of id after ≡ ids_of id doc + count id (new ∷ []))
      × (after.next_id ≡ doc.next_id + 1)
      × (new.id ≡ doc.next_id)
      × (after.goal ≡ doc.goal)

  pub append_item-Grows :
      (side : Side) (said : Text) (doc : Doc)
      → Grows doc (record { id = doc.next_id; said = said }) (append_item side said doc)
  append_item-Grows clarified said doc = (
    λ item is_in. elim is_in [
      | inl m ↦ elim (mem-append_one doc.clarified _ item m) [
        | inl there ↦ inl (inl there)
        | inr e ↦ inr e
      ]
      | inr m ↦ inl (inr m)
    ],
    λ id.
        let c = count-append id doc.clarified (record { id = doc.next_id; said = said } ∷ []) in
        omega arith,
    refl,
    refl,
    refl,
  )
  append_item-Grows constraints said doc = (
    λ item is_in. elim is_in [
      | inl m ↦ inl (inl m)
      | inr m ↦ elim (mem-append_one doc.constraints _ item m) [
        | inl there ↦ inl (inr there)
        | inr e ↦ inr e
      ]
    ],
    λ id.
        let c = count-append id doc.constraints (record { id = doc.next_id; said = said } ∷ []) in
        omega arith,
    refl,
    refl,
    refl,
  )

  once_more :
      {before after : ℕ} (new : Item) (id next : ℕ)
      → new.id ≡ next
      → after ≡ before + count id (new ∷ [])
      → before ≤ 1
      → (next ≤ id → before ≡ 0)
      → after ≤ 1
  once_more new id next at total once unused = elim (Bool-cases (new.id == id)) [
    | inl e ↦ let none_used = unused (ground arith) in let sum = rw e at total in omega arith
    | inr e ↦ let sum = rw e at total in omega arith
  ]

  none_more :
      {before after : ℕ} (new : Item) (id next : ℕ)
      → new.id ≡ next
      → suc next ≤ id
      → after ≡ before + count id (new ∷ [])
      → before ≡ 0
      → after ≡ 0
  none_more new id next at le total unused = elim (Bool-cases (new.id == id)) [
    | inl e ↦ ground arith
    | inr e ↦ let sum = rw e at total in omega arith
  ]

  grown-IsSound :
      (doc : Doc) (new : Item) (after : Doc)
      → Grows doc new after
      → length after.clarified ≤ list_cap
      → length after.constraints ≤ list_cap
      → IsShort new
      → is_duplicate unicode new.said (doc.clarified ++ doc.constraints) ≡ false
      → IsSound doc
      → IsSound after
  grown-IsSound doc new after (members, counts, next, at, same_goal) first_fits second_fits short
        fresh (first, second, once, unused, texts, apart, goal) =
      (
        first_fits,
        second_fits,
        λ id.
            let c = counts id in
            let o = once id in let u = unused id in once_more new id doc.next_id at c o u,
        λ id le.
            let c = counts id in
            let u = unused id in none_more new id doc.next_id at (omega arith) c (u (omega arith)),
        λ item is_in. elim (members item is_in) [
          | inl there ↦ texts item there
          | inr e ↦ rw e short
        ],
        λ old young old_in young_in lt. elim (members young young_in) [
          | inl young_there ↦ elim (members old old_in) [
            | inl old_there ↦ apart old young old_there young_there lt
            | inr e ↦
                let used = in_id-lt doc young unused young_there in
                let same : old.id ≡ new.id = ap (λ item. item.id) e in
                let bad : ⊥ = omega arith in elim bad [ ]
          ]
          | inr e ↦ elim (members old old_in) [
            | inl old_there ↦ rw e (
                unlike new.said (doc.clarified ++ doc.constraints) old fresh (elim old_there [
                  | inl m ↦ mem_left old doc.clarified doc.constraints m
                  | inr m ↦ mem_right old doc.clarified doc.constraints m
                ]))
            | inr f ↦
                let same : old.id ≡ new.id = ap (λ item. item.id) f in
                let other : young.id ≡ new.id = ap (λ item. item.id) e in
                let bad : ⊥ = omega arith in elim bad [ ]
          ]
        ],
        rw same_goal goal,
      )

  pub append_item-IsSound :
      (side : Side) (said : Text) (doc : Doc)
      → IsShort (record { id = doc.next_id; said = said })
      → is_duplicate unicode said (doc.clarified ++ doc.constraints) ≡ false
      → length (items_of side doc) < list_cap
      → IsSound doc
      → IsSound (append_item side said doc)
  append_item-IsSound clarified said doc short fresh room sound =
      let grown = length-append doc.clarified (record { id = doc.next_id; said = said } ∷ []) in
      let (first, second, once, unused, texts, apart, goal) = sound in
      grown-IsSound doc (record { id = doc.next_id; said = said }) (append_item clarified said doc)
        (append_item-Grows clarified said doc) (omega arith) second short fresh sound
  append_item-IsSound constraints said doc short fresh room sound =
      let grown = length-append doc.constraints (record { id = doc.next_id; said = said } ∷ []) in
      let (first, second, once, unused, texts, apart, goal) = sound in
      grown-IsSound doc (record { id = doc.next_id; said = said })
        (append_item constraints said doc) (append_item-Grows constraints said doc) first
        (omega arith) short fresh sound
