-- ===== src/Memory/Store.antt =====
-- `SqliteMemoryStore` of src/memory.py: the dictionary of the base class and the two tables that
-- mirror it. The base class `MemoryStore` and `json` are parameters; the SQL statements, which
-- stand in the source, are translated to operations on lists of rows.
pub mod Mirror
pub mod Tags
use claudecodenodus.Base.{
  ℕ, Text, lit, text_eq, ◌==◌, ◌≡◌, ◌≢◌, Bool, true, false, not, ◌&&◌, ◌||◌, Option, none, some,
  List, [], ◌∷◌, ◌++◌, map, if◌then◌else◌,
}
use claudecodenodus.Base.Dict.{Dict, lookup, insert, erase, UniqueKeys}
use claudecodenodus.Base.Collections.{keep}
use claudecodenodus.Exec.{Fault, Result, ok, err, Exec}
use claudecodenodus.Json.{Json, str, list, Items, nil, cons}

-- What the store calls of its base class and of `json`. `put` validates and clones the value;
-- `loads` is `none` where it raises a `ValueError`.
pub record Parent : Type 1 where
  pub put : Text → Json → Dict Text Json → Result Fault (Json × Dict Text Json)
  pub delete : Text → Dict Text Json → Bool × Json × Dict Text Json
  pub load_snapshot : Option (Dict Text Json) → Dict Text Json
  pub get : Text → Dict Text Json → Json
  pub Column : Type 0
  pub dumps : Json → Column
  pub loads : Column → Option Json

-- The documented behaviour: the base class is a dictionary, and `loads` undoes `dumps`.
pub record IsLawful (B : Parent) : Type 0 where
  pub lookup-put :
      (key j : Text) (v stored : Json) (d d' : Dict Text Json)
      → B.put key v d ≡ ok (stored, d')
      → lookup j d' ≡ (if key == j then some stored else lookup j d)
  pub lookup-delete :
      (key j : Text) (d : Dict Text Json)
      → lookup j (B.delete key d).2 ≡ (if key == j then none else lookup j d)
  pub unique_snapshot : (values : Option (Dict Text Json)) → UniqueKeys (B.load_snapshot values)
  pub get-lookup :
      (key : Text) (v : Json) (d : Dict Text Json) → lookup key d ≡ some v → B.get key d ≡ v
  pub loads-dumps : (v : Json) → B.loads (B.dumps v) ≡ some v

-- `TAG_KEY_PREFIX`
unfoldable pub tag_key_prefix : Text
unfolding lit
tag_key_prefix = lit "__nodus_tags__:"

-- `key[len(prefix):]` if `key.startswith(prefix)`
unfoldable pub strip_prefix : Text → Text → Option Text
strip_prefix [] key = some key
strip_prefix (c ∷ prefix) [] = none
strip_prefix (c ∷ prefix) (d ∷ key) = if (c ∷ []) == (d ∷ []) then strip_prefix prefix key else none

-- A row `(key, tag)`; the pair is the primary key of its table.
abbrev pub TagRow : Type 0
TagRow = Text × Text

unfoldable pub has_row : Text → Text → List TagRow → Bool
has_row key tag [] = false
has_row key tag ((k, t) ∷ rows) = (k == key && t == tag) || has_row key tag rows

-- `DELETE FROM tags WHERE key = ?`
unfoldable pub delete_rows : Text → List TagRow → List TagRow
unfolding keep
delete_rows key rows = keep (λ row. not (row.0 == key)) rows

-- `INSERT OR IGNORE INTO tags`
unfoldable pub insert_row : Text → Text → List TagRow → List TagRow
unfolding has_row
insert_row key tag rows = if has_row key tag rows then rows else rows ++ ((key, tag) ∷ [])

-- The tags of a list that are texts and not empty are inserted.
unfoldable pub insert_tags : Text → Items → List TagRow → List TagRow
insert_tags key nil rows = rows
insert_tags key (cons (str []) tags) rows = insert_tags key tags rows
insert_tags key (cons (str (c ∷ t)) tags) rows = insert_tags key tags (insert_row key (c ∷ t) rows)
insert_tags key (cons tag tags) rows = insert_tags key tags rows

-- `_index_tags`
unfoldable pub index_tags : Text → Json → List TagRow → List TagRow
index_tags key (list tags) rows = insert_tags key tags (delete_rows key rows)
index_tags key other rows = delete_rows key rows

-- Only a key with the prefix is indexed.
unfoldable pub index_put : Text → Json → List TagRow → List TagRow
index_put key stored rows = elim (strip_prefix tag_key_prefix key) [
  | none ↦ rows
  | some target ↦ index_tags target stored rows
]

module _ (B : Parent) where
  open B use {Column}

  -- The dictionary `_values` and the tables on disk.
  pub record Memory : Type 0 where
    pub values : Dict Text Json
    pub value_rows : Dict Text Column
    pub tag_rows : List TagRow

  unfoldable pub put : Text → Json → Exec Memory Fault Json
  put key v s = elim (B.put key v s.values) [
    | err f ↦ (err f, s)
    | ok (stored, values) ↦ (
      ok stored,
      record {
        values = values;
        value_rows = insert key (B.dumps stored) s.value_rows;
        tag_rows = index_put key stored s.tag_rows;
      },
    )
  ]

  unfoldable pub delete : Text → Memory → (Bool × Json) × Memory
  delete key s =
      let (existed, v, values) = B.delete key s.values in
      (
        (existed, v),
        record {
          values = values;
          value_rows = erase key s.value_rows;
          tag_rows =
              delete_rows
                (elim (strip_prefix tag_key_prefix key) [ none ↦ key | some target ↦ target ])
                s.tag_rows;
        },
      )

  -- The loop of `load_snapshot` over the new values.
  unfoldable pub insert_values : Dict Text Json → Dict Text Column
  insert_values [] = []
  insert_values ((key, v) ∷ d) = (key, B.dumps v) ∷ insert_values d

  unfoldable pub insert_value_tags : Dict Text Json → List TagRow → List TagRow
  insert_value_tags [] rows = rows
  insert_value_tags ((key, v) ∷ d) rows = insert_value_tags d (index_put key v rows)

  unfoldable pub load_snapshot : Option (Dict Text Json) → Memory → Memory
  load_snapshot snapshot s =
      let values : Dict Text Json = B.load_snapshot snapshot in
      record {
        values = values;
        value_rows = insert_values values;
        tag_rows = insert_value_tags values [];
      }

  -- The loop of `_load`: a row that cannot be read is left out.
  unfoldable pub load_rows : Dict Text Column → Dict Text Json → Dict Text Json
  load_rows [] values = values
  load_rows ((key, column) ∷ rows) values = elim (B.loads column) [
    | none ↦ load_rows rows values
    | some v ↦ load_rows rows (insert key v values)
  ]

  -- A new store on the same file: `__init__`, whose tables exist, and `_load`.
  unfoldable pub reopen : Memory → Memory
  reopen s = record s { values = load_rows s.value_rows [] }
