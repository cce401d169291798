-- ===== src/Memory/Store/Mirror.antt =====
-- The dictionary and its table on disk (src/memory.py): every operation keeps them equal, so a
-- store that is opened on the same file has the same values and tags.
use claudecodenodus.Base.{
  Text, text_eq, ==_iff, ◌≡◌, refl, ◌∙◌, Option, none, some, List, [], ◌∷◌, arith, Option-cases,
  inl, inr,
}
use claudecodenodus.Base.Dict.{
  Dict, lookup, insert, lookup-insert, lookup-erase, UniqueKeys, insert-UniqueKeys,
  erase-UniqueKeys,
}
use claudecodenodus.Exec.{Result-cases}
use claudecodenodus.Json.{Json}
use claudecodenodus.Memory.Store.{
  Parent, IsLawful, Memory, put, delete, insert_values, load_snapshot, load_rows, reopen,
}

-- The operations that change a store.
pub data Command : Type 0 where
  put_value : Text → Json → Command
  delete_key : Text → Command
  snapshot : Option (Dict Text Json) → Command

module _ (B : Parent) where
  open B use {Column, dumps, loads}

  abbrev dumped : Option Json → Option Column
  dumped none = none
  dumped (some v) = some (dumps v)

  -- Each key has one row, with its value written down, and no other key has a row.
  pub record IsMirrored (s : Memory B) : Type 0 where
    pub unique : UniqueKeys s.value_rows
    pub at : (k : Text) → lookup k s.value_rows ≡ dumped (lookup k s.values)

  unfoldable pub execute : Command → Memory B → Memory B
  execute (put_value key v) s = (put B key v s).1
  execute (delete_key key) s = (delete B key s).1
  execute (snapshot values) s = load_snapshot B values s

  unfoldable pub execute_all : List Command → Memory B → Memory B
  unfolding execute
  execute_all [] s = s
  execute_all (c ∷ cs) s = execute_all cs (execute c s)

  lookup-insert_values :
      (k : Text) (d : Dict Text Json) → lookup k (insert_values B d) ≡ dumped (lookup k d)
  unfolding insert_values lookup
  lookup-insert_values k [] = refl
  lookup-insert_values k ((j, v) ∷ d) = ground (arith, lookup-insert_values k d)

  insert_values-UniqueKeys : (d : Dict Text Json) → UniqueKeys d → UniqueKeys (insert_values B d)
  unfolding insert_values
  insert_values-UniqueKeys [] u = tt
  insert_values-UniqueKeys ((j, v) ∷ d) (fresh, u) =
      (lookup-insert_values j d ∙ rw fresh, insert_values-UniqueKeys d u)

  module _ (lawful : IsLawful B) where
    put-IsMirrored :
        (key : Text) (v : Json) (s : Memory B) → IsMirrored s → IsMirrored (put B key v s).1
    unfolding put
    put-IsMirrored key v s h = elim (Result-cases (B.put key v s.values)) [
      | inr (f, e) ↦ rw (e, put) h
      | inl ((stored, values), e) ↦
          rw (e, put)
            (record {
              unique = insert-UniqueKeys key (dumps stored) s.value_rows h.unique;
              at = λ k. ground (
                arith,
                lookup-insert key k (dumps stored) s.value_rows,
                lawful.lookup-put key k v stored s.values values e,
                h.at k,
              );
            })
    ]

    delete-IsMirrored : (key : Text) (s : Memory B) → IsMirrored s → IsMirrored (delete B key s).1
    unfolding delete
    delete-IsMirrored key s h = record {
      unique = erase-UniqueKeys key s.value_rows h.unique;
      at = λ k.
          ground
            (arith, lookup-erase key k s.value_rows, lawful.lookup-delete key k s.values, h.at k);
    }

    snapshot-IsMirrored :
        (values : Option (Dict Text Json)) (s : Memory B) → IsMirrored (load_snapshot B values s)
    unfolding load_snapshot
    snapshot-IsMirrored values s = record {
      unique = insert_values-UniqueKeys (B.load_snapshot values) (lawful.unique_snapshot values);
      at = λ k. lookup-insert_values k (B.load_snapshot values);
    }

    execute-IsMirrored : (c : Command) (s : Memory B) → IsMirrored s → IsMirrored (execute c s)
    unfolding execute
    execute-IsMirrored (put_value key v) s h = put-IsMirrored key v s h
    execute-IsMirrored (delete_key key) s h = delete-IsMirrored key s h
    execute-IsMirrored (snapshot values) s h = snapshot-IsMirrored values s

    pub execute_all-IsMirrored :
        (cs : List Command) (s : Memory B) → IsMirrored s → IsMirrored (execute_all cs s)
    unfolding execute_all
    execute_all-IsMirrored [] s h = h
    execute_all-IsMirrored (c ∷ cs) s h =
        execute_all-IsMirrored cs (execute c s) (execute-IsMirrored c s h)

    abbrev readable : Option Column → Option Json → Option Json
    readable none old = old
    readable (some column) old = elim (loads column) [ none ↦ old | some v ↦ some v ]

    lookup-load_rows :
        (k : Text) (rows : Dict Text Column) (d : Dict Text Json)
        → UniqueKeys rows
        → lookup k (load_rows B rows d) ≡ readable (lookup k rows) (lookup k d)
    unfolding load_rows lookup
    lookup-load_rows k [] d u = refl
    lookup-load_rows k ((j, column) ∷ rows) d (fresh, u) = elim (Option-cases (loads column)) [
      | inl e ↦ ground (arith, lookup-load_rows k rows d u, ==_iff j k)
      | inr (v, e) ↦
          ground
            (arith, lookup-load_rows k rows (insert j v d) u, lookup-insert j k v d, ==_iff j k)
    ]

    read_back : (o : Option Json) → readable (dumped o) none ≡ o
    read_back none = refl
    read_back (some v) = rw (lawful.loads-dumps v)

    reopened :
        (s : Memory B) (k : Text) → IsMirrored s → lookup k (reopen B s).values ≡ lookup k s.values
    unfolding reopen
    reopened s k h =
        lookup-load_rows k s.value_rows [] h.unique
        ∙ rw (h.at k) (unfold lookup in read_back (lookup k s.values))

    -- Whatever puts, deletions and snapshots a mirrored store has gone through, where the base class
    -- may have refused some and no statement of SQLite failed, a store opened on the same file holds
    -- the same value at every key.
    pub reopen-execute_all :
        (cs : List Command) (s : Memory B) (k : Text)
        → IsMirrored s
        → lookup k (reopen B (execute_all cs s)).values ≡ lookup k (execute_all cs s).values
    reopen-execute_all cs s k h = reopened (execute_all cs s) k (execute_all-IsMirrored cs s h)
