-- ===== src/Memory/Search/Members.antt =====
-- Which keys `search_by_tags` of src/memory.py returns.
use claudecodenodus.Base.{
  Text, ◌==◌, ==_iff, ◌≡◌, refl, sym, ◌∙◌, ◌⊎◌, Bool, true, false, not, ◌&&◌, ◌||◌, Option, List,
  [], ◌∷◌, map, arith, length, eqb, if◌then◌else◌,
}
use claudecodenodus.Base.Collections.{
  contains, keep, dedup, distinct, contains-keep, contains-dedup, dedup-distinct, keep-distinct,
  dedup_of_distinct, length-dedup-lt, length-keep-le, length-eq-of_members,
}
use claudecodenodus.Base.Sort.{insert_sorted, sort}
use claudecodenodus.Memory.Store.{TagRow, has_row}
use claudecodenodus.Memory.Search.{
  tags_of, rows_in, hits, groups, before, selects, outside, search_rows,
}

-- The key carries one of the tags, or all of them.
unfoldable pub carries_any : List Text → Text → List TagRow → Bool
carries_any [] key rows = false
carries_any (t ∷ ts) key rows = has_row key t rows || carries_any ts key rows

unfoldable pub carries_all : List Text → Text → List TagRow → Bool
carries_all [] key rows = true
carries_all (t ∷ ts) key rows = has_row key t rows && carries_all ts key rows

pub contains-insert_sorted :
    (le : Text → Text → Bool) (t a : Text) (xs : List Text)
    → contains t (insert_sorted le a xs) ≡ (t == a || contains t xs)
unfolding contains insert_sorted
contains-insert_sorted le t a [] = refl
contains-insert_sorted le t a (x ∷ xs) = ground (arith, contains-insert_sorted le t a xs)

pub contains-sort :
    (le : Text → Text → Bool) (t : Text) (xs : List Text) → contains t (sort le xs) ≡ contains t xs
unfolding contains sort
contains-sort le t [] = refl
contains-sort le t (x ∷ xs) =
    ground (arith, contains-insert_sorted le t x (sort le xs), contains-sort le t xs)

pub contains-tags_of :
    (key t : Text) (rows : List TagRow) → contains t (tags_of key rows) ≡ has_row key t rows
unfolding contains tags_of has_row
contains-tags_of key t [] = refl
contains-tags_of key t ((k, u) ∷ rows) =
    ground (arith, ==_iff t u, ==_iff u t, contains-tags_of key t rows)

has_row-rows_in :
    (wanted : List Text) (key t : Text) (rows : List TagRow)
    → has_row key t (rows_in wanted rows) ≡ (contains t wanted && has_row key t rows)
unfolding has_row rows_in
has_row-rows_in wanted key t [] = ground arith
has_row-rows_in wanted key t ((k, u) ∷ rows) =
    ground (arith, ==_iff u t, has_row-rows_in wanted key t rows)

-- The hits of a key are the wanted tags, each counted once, that it carries.
pub hits_lem :
    (wanted : List Text) (rows : List TagRow) (key : Text)
    → hits wanted rows key ≡ length (keep (λ t. has_row key t rows) (dedup wanted))
unfolding hits
hits_lem wanted rows key =
    length-eq-of_members (dedup (tags_of key (rows_in wanted rows)))
      (keep (λ t. has_row key t rows) (dedup wanted)) (dedup-distinct _)
      (keep-distinct _ (dedup wanted) (dedup-distinct wanted))
      (λ t. simp (contains-dedup, contains-tags_of, has_row-rows_in, contains-keep) (ground arith))

length-keep-carries :
    (ts : List Text) (key : Text) (rows : List TagRow)
    → eqb (length (keep (λ t. has_row key t rows) ts)) (length ts) ≡ carries_all ts key rows
unfolding keep carries_all
length-keep-carries [] key rows = refl
length-keep-carries (t ∷ ts) key rows =
    ground (arith, length-keep-carries ts key rows, length-keep-le {0} (λ t. has_row key t rows) ts)

hits-all :
    (ts : List Text) (rows : List TagRow) (key : Text)
    → distinct ts ≡ true
    → eqb (hits ts rows key) (length ts) ≡ carries_all ts key rows
hits-all ts rows key d =
    rw (hits_lem ts rows key, dedup_of_distinct ts d) (length-keep-carries ts key rows)

hits-duplicate :
    (ts : List Text) (rows : List TagRow) (key : Text)
    → distinct ts ≡ false
    → eqb (hits ts rows key) (length ts) ≡ false
hits-duplicate ts rows key d = ground (
  arith,
  hits_lem ts rows key,
  length-keep-le {0} (λ t. has_row key t rows) (dedup ts),
  length-dedup-lt ts d,
)

-- The groups of a query are the keys that carry a wanted tag.
carries_any-nil : (wanted : List Text) (key : Text) → carries_any wanted key [] ≡ false
unfolding carries_any has_row
carries_any-nil [] key = refl
carries_any-nil (t ∷ ts) key = carries_any-nil ts key

carries_any-cons :
    (wanted : List Text) (key k u : Text) (rows : List TagRow)
    → carries_any wanted key ((k, u) ∷ rows)
      ≡ ((k == key && contains u wanted) || carries_any wanted key rows)
unfolding carries_any has_row contains
carries_any-cons [] key k u rows = ground arith
carries_any-cons (t ∷ ts) key k u rows =
    ground (arith, ==_iff u t, carries_any-cons ts key k u rows)

contains-keys :
    (key : Text) (rows : List TagRow) (wanted : List Text)
    → contains key (map (λ row. row.0) (rows_in wanted rows)) ≡ carries_any wanted key rows
unfolding contains rows_in
contains-keys key [] wanted = sym (carries_any-nil wanted key)
contains-keys key ((k, u) ∷ rows) wanted = ground (
  arith,
  ==_iff key k,
  ==_iff k key,
  carries_any-cons wanted key k u rows,
  contains-keys key rows wanted,
)

pub contains-groups :
    (key : Text) (wanted : List Text) (rows : List TagRow)
    → contains key (groups wanted rows) ≡ carries_any wanted key rows
unfolding groups
contains-groups key wanted rows = contains-dedup key _ ∙ contains-keys key rows wanted

carries_any_of_all :
    (t : Text) (ts : List Text) (key : Text) (rows : List TagRow)
    → carries_all (t ∷ ts) key rows ≡ true
    → carries_any (t ∷ ts) key rows ≡ true
unfolding carries_all carries_any
carries_any_of_all t ts key rows h = ground arith

carries_all_nil : (key : Text) (rows : List TagRow) → carries_all [] key rows ≡ true
unfolding carries_all
carries_all_nil key rows = refl

distinct_nil : distinct [] ≡ true
unfolding distinct
distinct_nil = refl

-- The condition of a query with distinct tags, in terms of what a key carries.
selects_lem :
    (wanted required : List Text) (all : Bool) (rows : List TagRow) (key : Text)
    → distinct wanted ≡ true
    → distinct required ≡ true
    → selects wanted required all rows key
      ≡ (carries_all required key rows && (not all || carries_all wanted key rows))
unfolding selects
selects_lem wanted [] all rows key dw dr =
    ground (arith, hits-all wanted rows key dw, carries_all_nil key rows)
selects_lem wanted (r ∷ rs) all rows key dw dr = ground (
  arith,
  hits-all wanted rows key dw,
  hits-all (r ∷ rs) rows key dr,
  contains-groups key (r ∷ rs) rows,
  carries_any_of_all r rs key rows,
)

pub contains-search :
    (w : Text) (ws required : List Text) (all : Bool) (exclude : Option Text) (rows : List TagRow)
    (key : Text)
    → contains key (search_rows (w ∷ ws) required all exclude rows) ≡ (
        outside exclude key
        && (selects (w ∷ ws) required all rows key && carries_any (w ∷ ws) key rows))
unfolding search_rows
contains-search w ws required all exclude rows key =
    contains-keep key _ (sort _ (keep _ (groups (w ∷ ws) rows)))
    ∙ ground (
      arith,
      contains-sort (before (w ∷ ws) rows) key
          (keep (selects (w ∷ ws) required all rows) (groups (w ∷ ws) rows)),
      contains-keep key (selects (w ∷ ws) required all rows) (groups (w ∷ ws) rows),
      contains-groups key (w ∷ ws) rows,
    )

-- A search whose tags, wanted and required, have no duplicates returns exactly the keys of other
-- sessions than the excluded one that carry all required tags and, by `match`, all of the wanted
-- tags or any of them.
pub search_rows_exact :
    (w : Text) (ws required : List Text) (all : Bool) (exclude : Option Text) (rows : List TagRow)
    (key : Text)
    → distinct (w ∷ ws) ≡ true
    → distinct required ≡ true
    → contains key (search_rows (w ∷ ws) required all exclude rows) ≡ (
        outside exclude key
        && (carries_all required key rows
            && (if all then carries_all (w ∷ ws) key rows else carries_any (w ∷ ws) key rows)))
search_rows_exact w ws required all exclude rows key dw dr = ground (
  arith,
  contains-search w ws required all exclude rows key,
  selects_lem (w ∷ ws) required all rows key dw dr,
  carries_any_of_all w ws key rows,
)

selects_duplicate :
    (wanted required : List Text) (all : Bool) (rows : List TagRow) (key : Text)
    → (distinct required ≡ false) ⊎ ((all ≡ true) × (distinct wanted ≡ false))
    → selects wanted required all rows key ≡ false
unfolding selects
selects_duplicate wanted [] all rows key h =
    ground (arith, hits-duplicate wanted rows key, distinct_nil)
selects_duplicate wanted (r ∷ rs) all rows key h =
    ground (arith, hits-duplicate wanted rows key, hits-duplicate (r ∷ rs) rows key)

keep_none {ℓ} : {A : Type ℓ} (p : A → Bool) (xs : List A) → ((x : A) → p x ≡ false) → keep p xs ≡ []
unfolding keep
keep_none p [] h = refl
keep_none p (x ∷ xs) h = rw (h x, keep_none p xs h)

-- A required tag that is given twice, or a wanted tag that is given twice with `match="all"`,
-- makes the search return nothing, whatever the index holds.
pub search_rows_duplicate :
    (wanted required : List Text) (all : Bool) (exclude : Option Text) (rows : List TagRow)
    → (distinct required ≡ false) ⊎ ((all ≡ true) × (distinct wanted ≡ false))
    → search_rows wanted required all exclude rows ≡ []
unfolding search_rows
search_rows_duplicate [] required all exclude rows h = refl
search_rows_duplicate (w ∷ ws) required all exclude rows h =
    rw (keep_none (selects (w ∷ ws) required all rows) (groups (w ∷ ws) rows) none_selected)
      (unfold keep sort in refl)
  where
    none_selected : (key : Text) → selects (w ∷ ws) required all rows key ≡ false
    none_selected key = selects_duplicate (w ∷ ws) required all rows key h
