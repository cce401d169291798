-- ===== src/Memory/Search/Order.antt =====
-- A search (src/memory.py) sees the tag table as a set: in which order the rows stand, and whether
-- one stands there twice, does not matter. This is what a query in SQL promises.
use claudecodenodus.Base.{
  Text, ◌≡◌, refl, sym, ap, ◌∙◌, Bool, true, ◌&&◌, Option, List, [], ◌∷◌, arith, length, All,
}
use claudecodenodus.Base.Sort.{text_le_antisym, Sorted, Sorted-unique}
use claudecodenodus.Base.Collections.{keep, dedup}
use claudecodenodus.Memory.Store.{TagRow, has_row}
use claudecodenodus.Memory.Search.{hits, before, selects, outside, search_rows}
use claudecodenodus.Memory.Search.Members.{carries_any, hits_lem, contains-groups, contains-search}
use claudecodenodus.Memory.Search.Ranking.{search_rows-Sorted}

keep_same : (p q : Text → Bool) (xs : List Text) → ((x : Text) → p x ≡ q x) → keep p xs ≡ keep q xs
unfolding keep
keep_same p q [] h = refl
keep_same p q (x ∷ xs) h = rw (h x, keep_same p q xs h) refl

before_antisym :
    (wanted : List Text) (rows : List TagRow) (a b : Text)
    → before wanted rows a b ≡ true
    → before wanted rows b a ≡ true
    → a ≡ b
unfolding before
before_antisym wanted rows a b h k = ground (arith, text_le_antisym a b)

module _ (rows rows' : List TagRow)
    (same : (key tag : Text) → has_row key tag rows ≡ has_row key tag rows') where
  hits_same : (wanted : List Text) (key : Text) → hits wanted rows key ≡ hits wanted rows' key
  hits_same wanted key =
      hits_lem wanted rows key
      ∙ ap length (keep_same _ _ (dedup wanted) (λ t. same key t))
      ∙ sym (hits_lem wanted rows' key)

  carries_any_same :
      (wanted : List Text) (key : Text) → carries_any wanted key rows ≡ carries_any wanted key rows'
  unfolding carries_any
  carries_any_same [] key = refl
  carries_any_same (t ∷ ts) key = rw (same key t, carries_any_same ts key) refl

  before_same : (wanted : List Text) (a b : Text) → before wanted rows a b ≡ before wanted rows' a b
  unfolding before
  before_same wanted a b = rw (hits_same wanted a, hits_same wanted b) refl

  selects_same :
      (wanted required : List Text) (all : Bool) (key : Text)
      → selects wanted required all rows key ≡ selects wanted required all rows' key
  unfolding selects
  selects_same wanted required all key =
      rw
        (
          hits_same wanted key,
          hits_same required key,
          contains-groups key required rows,
          contains-groups key required rows',
          carries_any_same required key,
        )
        refl

  same-Sorted :
      (wanted xs : List Text) → Sorted (before wanted rows') xs → Sorted (before wanted rows) xs
  same-Sorted wanted [] h = tt
  same-Sorted wanted (x ∷ xs) h = (after x xs h.0, same-Sorted wanted xs h.1)
    where
      after :
          (x : Text) (xs : List Text)
          → All (λ y. before wanted rows' x y ≡ true) xs
          → All (λ y. before wanted rows x y ≡ true) xs
      after x [] h = tt
      after x (y ∷ ys) h = (before_same wanted x y ∙ h.0, after x ys h.1)

  -- Two tag tables that hold the same rows, in any order and number, give the same search, key for
  -- key and in the same order.
  search_rows_same :
      (wanted required : List Text) (all : Bool) (exclude : Option Text)
      → search_rows wanted required all exclude rows ≡ search_rows wanted required all exclude rows'
  search_rows_same [] required all exclude = unfold search_rows in refl
  search_rows_same (w ∷ ws) required all exclude =
      let (ranked, apart) = search_rows-Sorted (w ∷ ws) required all exclude rows in
      let (ranked', apart') = search_rows-Sorted (w ∷ ws) required all exclude rows' in
      Sorted-unique (before (w ∷ ws) rows) (before_antisym (w ∷ ws) rows) _ _ ranked
        (same-Sorted (w ∷ ws) _ ranked') apart apart'
        (λ key.
          contains-search w ws required all exclude rows key
          ∙ ap (λ b. outside exclude key && b)
              (rw (selects_same (w ∷ ws) required all key, carries_any_same (w ∷ ws) key) refl)
          ∙ sym (contains-search w ws required all exclude rows' key))
