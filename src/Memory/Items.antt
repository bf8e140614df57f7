-- ===== src/Memory/Items.antt =====
-- agent/task_memory.py: the items of a document, counted by their ids.
use ai_advent_challenge_9_v.Prelude.{
  ℕ, ◌+◌, ◌≤◌, ◌<◌, ◌≡◌, refl, ◌⊎◌, Bool, true, false, List, [], ◌∷◌, ◌++◌, ◌==◌, arith, Bool-cases,
  inl, inr, length,
}
use mathlib.Core.List.{Memᴰ}
use ai_advent_challenge_9_v.Memory.{Item}
use ai_advent_challenge_9_v.Memory.Calls.{drop_id, above_ids}

abbrev pub one_if : Bool → ℕ
one_if true = 1
one_if false = 0

-- How many items have an id.
abbrev pub count : ℕ → List Item → ℕ
count id [] = 0
count id (item ∷ items) = one_if (item.id == id) + count id items

pub count-append :
    (id : ℕ) (items more : List Item) → count id (items ++ more) ≡ count id items + count id more
count-append id [] more = omega arith
count-append id (item ∷ items) more = let rest = count-append id items more in omega arith

pub mem-count : (item : Item) (items : List Item) → Memᴰ item items → 0 < count item.id items
mem-count item [] m = elim m [ ]
mem-count item (first ∷ items) (Memᴰ.head e) = rw (← e) (ground arith)
mem-count item (first ∷ items) (Memᴰ.tail m) = let rest = mem-count item items m in omega arith

pub mem-append_one :
    (items : List Item) (new item : Item)
    → Memᴰ item (items ++ new ∷ [])
    → Memᴰ item items ⊎ (item ≡ new)
mem-append_one [] new item (Memᴰ.head e) = inr e
mem-append_one [] new item (Memᴰ.tail m) = elim m [ ]
mem-append_one (first ∷ items) new item (Memᴰ.head e) = inl (Memᴰ.head e)
mem-append_one (first ∷ items) new item (Memᴰ.tail m) = elim (mem-append_one items new item m) [
  | inl there ↦ inl (Memᴰ.tail there)
  | inr e ↦ inr e
]

-- What is left when one item is dropped.
abbrev pub IsPart : List Item → List Item → Type 0
IsPart items after =
    ((id : ℕ) → count id after ≤ count id items)
    × ((item : Item) → Memᴰ item after → Memᴰ item items)
    × (length after ≤ length items)

kept_member :
    (first : Item) (after items : List Item) (item : Item)
    → ((item : Item) → Memᴰ item after → Memᴰ item items)
    → Memᴰ item (first ∷ after)
    → Memᴰ item (first ∷ items)
kept_member first after items item members (Memᴰ.head e) = Memᴰ.head e
kept_member first after items item members (Memᴰ.tail m) = Memᴰ.tail (members item m)

pub drop_id-IsPart : (id : ℕ) (items : List Item) → IsPart items (drop_id id items)
drop_id-IsPart id [] = (λ other. omega arith, λ item m. m, omega arith)
drop_id-IsPart id (first ∷ items) = elim (Bool-cases (first.id == id)) [
  | inl e ↦ rw e (λ other. omega arith, λ item m. Memᴰ.tail m, omega arith)
  | inr e ↦
      let (counts, members, size) = drop_id-IsPart id items in
      rw e (
        λ other. let c = counts other in omega arith,
        λ item m. kept_member first (drop_id id items) items item members m,
        omega arith,
      )
]

-- No item has an id from the next one on.
pub above_ids-count : (items : List Item) (id : ℕ) → above_ids items ≤ id → count id items ≡ 0
above_ids-count [] id h = refl
above_ids-count (item ∷ items) id h =
    let rest = above_ids-count items id (ground arith) in ground arith
