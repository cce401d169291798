-- ===== src/Memory/Search/Ranking.antt =====
-- The order in which `search_by_tags` of src/memory.py returns its keys.
use claudecodenodus.Base.{
  ℕ, ◌≤◌, length, Text, ==_iff, ◌≡◌, refl, Bool, true, false, Option, List, [], ◌∷◌, arith, All,
}
use claudecodenodus.Base.Collections.{
  contains, keep, dedup, distinct, dedup-distinct, keep-distinct,
}
use claudecodenodus.Base.Sort.{
  text_le, text_le_total, text_le_trans, insert_sorted, sort, Sorted, sort-Sorted,
}
use claudecodenodus.Memory.Store.{TagRow, has_row}
use claudecodenodus.Memory.Search.{groups, before, selects, outside, search_rows}
use claudecodenodus.Memory.Search.Members.{contains-insert_sorted, contains-sort, hits_lem}

All-keep : (P : Text → Type 0) (p : Text → Bool) (xs : List Text) → All P xs → All P (keep p xs)
unfolding keep
All-keep P p [] h = tt
All-keep P p (x ∷ xs) h = ground (arith, All-keep P p xs h.1)

module _ (wanted : List Text) (rows : List TagRow) where
  -- The number of wanted tags, each counted once, that a key carries.
  abbrev pub carried : Text → ℕ
  carried key = length (keep (λ t. has_row key t rows) (dedup wanted))

  -- Each key carries as many wanted tags as any that follows it, and comes before those that carry
  -- equally many by its text.
  abbrev pub Ranked : List Text → Type 0
  Ranked [] = Unit
  Ranked (x ∷ xs) =
      All (λ y. (carried y ≤ carried x) × (carried x ≡ carried y → text_le x y ≡ true)) xs
      × Ranked xs

  carried-before :
      (x : Text) (ys : List Text)
      → All (λ y. before wanted rows x y ≡ true) ys
      → All (λ y. (carried y ≤ carried x) × (carried x ≡ carried y → text_le x y ≡ true)) ys
  unfolding before
  carried-before x [] h = tt
  carried-before x (y ∷ ys) (h, hs) =
      (ground (arith, hits_lem wanted rows x, hits_lem wanted rows y), carried-before x ys hs)

  Sorted-Ranked : (xs : List Text) → Sorted (before wanted rows) xs → Ranked xs
  Sorted-Ranked [] h = tt
  Sorted-Ranked (x ∷ xs) (h, hs) = (carried-before x xs h, Sorted-Ranked xs hs)

  before_total : (a b : Text) → before wanted rows a b ≡ false → before wanted rows b a ≡ true
  unfolding before
  before_total a b h = ground (arith, text_le_total a b)

  before_trans :
      (a b c : Text)
      → before wanted rows a b ≡ true
      → before wanted rows b c ≡ true
      → before wanted rows a c ≡ true
  unfolding before
  before_trans a b c h k = ground (arith, text_le_trans a b c)

  sort-before-Sorted : (xs : List Text) → Sorted (before wanted rows) (sort (before wanted rows) xs)
  sort-before-Sorted = sort-Sorted (before wanted rows) before_total before_trans

  keep-Sorted :
      (p : Text → Bool) (xs : List Text)
      → Sorted (before wanted rows) xs
      → Sorted (before wanted rows) (keep p xs)
  unfolding keep
  keep-Sorted p [] h = tt
  keep-Sorted p (x ∷ xs) h =
      ground (arith, All-keep (λ j. before wanted rows x j ≡ true) p xs h.0, keep-Sorted p xs h.1)

insert-distinct :
    (le : Text → Text → Bool) (a : Text) (xs : List Text)
    → contains a xs ≡ false
    → distinct xs ≡ true
    → distinct (insert_sorted le a xs) ≡ true
unfolding insert_sorted distinct contains
insert-distinct le a [] h d = refl
insert-distinct le a (x ∷ xs) h d =
    ground
      (arith, ==_iff a x, ==_iff x a, contains-insert_sorted le x a xs, insert-distinct le a xs)

sort-distinct :
    (le : Text → Text → Bool) (xs : List Text) → distinct xs ≡ true → distinct (sort le xs) ≡ true
unfolding sort distinct
sort-distinct le [] d = refl
sort-distinct le (x ∷ xs) d =
    insert-distinct le x (sort le xs) (ground (arith, contains-sort le x xs))
      (ground (arith, sort-distinct le xs))

pub search_rows-Sorted :
    (wanted required : List Text) (all : Bool) (exclude : Option Text) (rows : List TagRow)
    → Sorted (before wanted rows) (search_rows wanted required all exclude rows)
      × (distinct (search_rows wanted required all exclude rows) ≡ true)
unfolding search_rows
search_rows-Sorted [] required all exclude rows = (tt, unfold distinct in refl)
search_rows-Sorted (w ∷ ws) required all exclude rows = (
  keep-Sorted (w ∷ ws) rows (outside exclude) (sort _ selected)
      (sort-before-Sorted (w ∷ ws) rows selected),
  keep-distinct (outside exclude) (sort _ selected) (
      sort-distinct _ selected
        (keep-distinct _ (groups (w ∷ ws) rows) (unfold groups in dedup-distinct _))),
)
  where
    selected : List Text
    selected = keep (selects (w ∷ ws) required all rows) (groups (w ∷ ws) rows)

-- A search returns no key twice, keys that carry more of the wanted tags first, where a tag that is
-- wanted twice counts once, and keys that carry equally many by their text.
pub search_rows-Ranked :
    (wanted required : List Text) (all : Bool) (exclude : Option Text) (rows : List TagRow)
    → Ranked wanted rows (search_rows wanted required all exclude rows)
      × (distinct (search_rows wanted required all exclude rows) ≡ true)
search_rows-Ranked wanted required all exclude rows =
    let (sorted, apart) = search_rows-Sorted wanted required all exclude rows in
    (Sorted-Ranked wanted rows _ sorted, apart)
