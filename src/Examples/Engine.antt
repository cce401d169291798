-- ===== src/Examples/Engine.antt =====
-- An engine for workflows/research_task.nd: the calls of `research.write_file` are counted, and the
-- effect store is a dictionary.
use claudecodenodus.Base.{
  ℕ, suc, Text, text_eq, lit, ◌==◌, ==_iff, ◌≡◌, refl, inl, inr, Bool, true, false, Option, none,
  some, [], length, arith, Option-cases, if◌then◌else◌,
}
use claudecodenodus.Base.Dict.{Dict, lookup, insert, erase, lookup-insert, lookup-erase}
use claudecodenodus.Exec.{Fault, Result, ok, err, Result-cases, ok_injective}
use claudecodenodus.Exec.Blocks.{Block}
use claudecodenodus.Json.{
  Json, null, bool, int, float, str, list, dict, cons, Fields, find, json_key_eq, json_eq_iff,
  items,
}
use claudecodenodus.Examples.Recollection.{parent}
use claudecodenodus.Workflow.{Called, value, error, Engine}
use claudecodenodus.Workflow.Gated.{HasMaps, IsQuiet}
use claudecodenodus.Workflow.Retried.{IsOnce}

-- The records of the effect store, and the number of files written.
abbrev pub World : Type 0
World = Dict Json Json × ℕ

abbrev missing : Fault
missing = record { kind = lit "KeyError"; message = [] }

abbrev found : Option Json → Result Fault Json
found none = err missing
found (some v) = ok v

abbrev at_key : Json → Text → Result Fault Json
at_key (dict fs) key = found (find key fs)
at_key v key = err missing

abbrev there : Option Json → Bool
there none = false
there (some v) = true

abbrev key_in : Json → Text → Result Fault Bool
key_in (dict fs) key = ok (there (find key fs))
key_in v key = ok false

abbrev head_of : Json → Result Fault Json
head_of (list (cons x xs)) = ok x
head_of v = err missing

abbrev size_of : Json → Result Fault ℕ
size_of (list xs) = ok (length (items xs))
size_of v = err missing

abbrev reparse : Called → Result Fault Json
reparse (value v) = ok v
reparse (error m) = err missing

-- The record of a call that threw is taken back.
unfoldable pub settle : Json → Result Fault Json → World → Result Fault Json × World
settle key (ok v) e = (ok v, (insert key v e.0, e.1))
settle key (err f) e = (err f, (erase key e.0, e.1))

unfoldable pub once : Json → Block World Json → Block World Json
once key body e = elim (lookup key e.0) [
  | some v ↦ (ok v, e)
  | none ↦ let (r, e') = body e in settle key r e'
]

-- `answers` is what the tools answer.
abbrev pub engine : (Text → Called) → Engine parent
engine answers = record {
  Effects = World;
  call = λ name args m e.
      (answers name, (e.0, if name == lit "research.write_file" then suc e.1 else e.1));
  reparse = reparse;
  stringify = λ v. ok [];
  show = λ v. lit "1";
  index = at_key;
  first = head_of;
  size = size_of;
  has_key = key_in;
  once = once;
  checkpoint = λ name e. (ok tt, e);
  workflow_wait = λ kind session v e. (ok null, e);
}

found-eq : (o : Option Json) (x : Json) → o ≡ some x → found o ≡ ok x
found-eq none x h = cc
found-eq (some v) x h = cc

there-eq : (o : Option Json) → there o ≡ true → (x : Json) × (o ≡ some x)
there-eq none h = cc
there-eq (some v) h = (v, refl)

-- No file has been written.
abbrev pub Unwritten : World → Type 0
Unwritten e = e.1 ≡ 0

module _ (answers : Text → Called) where
  key_found :
      (v : Json) (key : Text)
      → key_in v key ≡ ok true
      → (fs : Fields) × (x : Json) × (v ≡ dict fs) × (find key fs ≡ some x)
  key_found (dict fs) key h =
      let (x, e) = there-eq (find key fs) (ok_injective _ _ h) in (fs, x, refl, e)
  key_found null key h = cc
  key_found (bool b) key h = cc
  key_found (int z) key h = cc
  key_found (float m e) key h = cc
  key_found (str t) key h = cc
  key_found (list xs) key h = cc

  pub engine-HasMaps : HasMaps parent (engine answers)
  engine-HasMaps = record {
    only_maps = key_found;
    index-find = λ fs key x h. found-eq (find key fs) x h;
  }

  pub engine-IsQuiet : IsQuiet parent (engine answers) Unwritten
  engine-IsQuiet = record {
    calls = λ name args m e w n p. ground (arith, ==_iff name (lit "research.write_file"));
    checkpoints = λ name e p. p;
    waits = λ kind session v e p. p;
  }

  pub once_answered :
      (key v : Json) (body : Block World Json) (e e' : World)
      → once key body e ≡ (ok v, e')
      → lookup key e'.0 ≡ some v
  unfolding once settle
  once_answered key v body e e' h = elim (Option-cases (lookup key e.0)) [
    | inr (w, l) ↦ ground arith
    | inl l ↦ elim (Result-cases (body e).0) [
      | inl (w, b) ↦ ground (arith, lookup-insert key key w (body e).1.0, json_eq_iff key key)
      | inr (f, b) ↦ ground arith
    ]
  ]

  pub once_pending :
      (key : Json) (body : Block World Json) (e : World)
      → lookup key e.0 ≡ none
      → ((e' : World) → (f : Fault) × ((body e').0 ≡ err f))
      → (f : Fault) × ((once key body e).0 ≡ err f) × (lookup key (once key body e).1.0 ≡ none)
  unfolding once settle
  once_pending key body e l fails =
      let (f, b) = fails e in
      (f, ground arith, ground (arith, lookup-erase key key (body e).1.0, json_eq_iff key key))

  pub once_replayed :
      (key v : Json) (body : Block World Json) (e : World)
      → lookup key e.0 ≡ some v
      → once key body e ≡ (ok v, e)
  unfolding once
  once_replayed key v body e h = ground arith

  abbrev pub engine-IsOnce : IsOnce parent (engine answers)
  engine-IsOnce = record {
    recorded = λ key e. lookup key e.0;
    answered = once_answered;
    replayed = once_replayed;
    pending = once_pending;
  }
