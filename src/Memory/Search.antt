-- ===== src/Memory/Search.antt =====
-- The queries of `SqliteMemoryStore` in src/memory.py: `tags_for`, `search_by_tags` and
-- `recall_by_tags`. Texts are ordered by their code points, which is SQLite's order of their bytes.
pub mod Members
pub mod Ranking
pub mod Recall
pub mod Exclusion
pub mod Order
use claudecodenodus.Base.{
  ℕ, ◌+◌, Text, lit, text_eq, ◌==◌, Bool, true, false, not, ◌&&◌, ◌||◌, Option, none, some, List,
  [], ◌∷◌, ◌++◌, map, length, ltb, leb, eqb, if◌then◌else◌,
}
use claudecodenodus.Base.Int.{ℤ, clamp}
use claudecodenodus.Base.Dict.{Dict, lookup}
use claudecodenodus.Base.Collections.{contains, keep, dedup}
use claudecodenodus.Base.Sort.{text_le, sort}
use claudecodenodus.Json.{Json, str, Items, nil, cons}
use claudecodenodus.Memory.Topics.{session_of}
use claudecodenodus.Memory.Store.{Parent, Memory, TagRow}

-- The tags in the rows of a key.
unfoldable pub tags_of : Text → List TagRow → List Text
tags_of key [] = []
tags_of key ((k, t) ∷ rows) = let rest = tags_of key rows in if k == key then t ∷ rest else rest

-- `tags_for`
unfoldable pub tags_for : Text → List TagRow → List Text
unfolding tags_of sort
tags_for key rows = sort text_le (tags_of key rows)

-- `WHERE tag IN (...)`
unfoldable pub rows_in : List Text → List TagRow → List TagRow
unfolding keep
rows_in wanted rows = keep (λ row. contains row.1 wanted) rows

-- `COUNT(DISTINCT tag)` of the key's rows with a wanted tag
unfoldable pub hits : List Text → List TagRow → Text → ℕ
unfolding tags_of rows_in dedup
hits wanted rows key = length (dedup (tags_of key (rows_in wanted rows)))

-- `GROUP BY key` over the rows with a wanted tag
unfoldable pub groups : List Text → List TagRow → List Text
unfolding rows_in dedup
groups wanted rows = dedup (map (λ row. row.0) (rows_in wanted rows))

-- `[t for t in (tags or []) if isinstance(t, str) and t]`
unfoldable pub clean : Items → List Text
clean nil = []
clean (cons (str []) tags) = clean tags
clean (cons (str (c ∷ t)) tags) = (c ∷ t) ∷ clean tags
clean (cons tag tags) = clean tags

-- Most hits first, then by key.
unfoldable pub before : List Text → List TagRow → Text → Text → Bool
unfolding hits text_le
before wanted rows a b =
    ltb (hits wanted rows b) (hits wanted rows a)
    || (eqb (hits wanted rows a) (hits wanted rows b) && text_le a b)

-- The subquery on `require`, if there is one, and `HAVING` for `match == "all"`.
unfoldable pub selects : List Text → List Text → Bool → List TagRow → Text → Bool
unfolding hits groups
selects wanted required all rows key =
    (eqb (length required) 0
      || (contains key (groups required rows) && eqb (hits required rows key) (length required)))
    && (not all || eqb (hits wanted rows key) (length wanted))

unfoldable pub outside : Option Text → Text → Bool
outside none key = true
outside (some session) key = elim (session_of key) [ none ↦ true | some s ↦ not (s == session) ]

-- `search_by_tags` on the cleaned tags; `all` is `match == "all"`.
unfoldable pub search_rows : List Text → List Text → Bool → Option Text → List TagRow → List Text
unfolding groups selects before sort keep outside
search_rows [] required all exclude rows = []
search_rows (w ∷ ws) required all exclude rows =
    let wanted = w ∷ ws in
    keep (outside exclude)
      (sort (before wanted rows) (keep (selects wanted required all rows) (groups wanted rows)))

module _ (B : Parent) where
  unfoldable pub search_by_tags : Items → Text → Items → Option Text → Memory B → List Text
  unfolding search_rows clean
  search_by_tags tags match require exclude s =
      search_rows (clean tags) (clean require) (match == lit "all") exclude s.tag_rows

  -- One recalled node.
  pub record Node : Type 0 where
    pub key : Text
    pub session_id : Option Text
    pub content : Json
    pub tags : List Text

  -- The loop of `recall_by_tags` over the keys, with `n` nodes found so far.
  unfoldable pub recall_from : ℤ → ℕ → List Text → Memory B → List Node
  unfolding tags_for
  recall_from limit n [] s = []
  recall_from limit n (key ∷ keys) s =
      let skip = recall_from limit n keys s in
      let rest = recall_from limit (n + 1) keys s in
      let node : Node = record {
        key = key;
        session_id = session_of key;
        content = B.get key s.values;
        tags = tags_for key s.tag_rows;
      } in
      elim (lookup key s.values) [
        | none ↦ skip
        | some v ↦ node ∷ (if leb (clamp limit) (n + 1) then [] else rest)
      ]

  unfoldable pub recall_by_tags : Items → Text → Items → Option Text → ℤ → Memory B → List Node
  unfolding search_by_tags recall_from
  recall_by_tags tags match require exclude limit s =
      recall_from limit 0 (search_by_tags tags match require exclude s) s
