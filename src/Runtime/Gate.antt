-- ===== src/Runtime/Gate.antt =====
-- What the tool layer of src/runtime.py promises: no gated effect without an approval, no exception
-- from a search, a fetch or a recall, and drafts that depend only on the documents they quote.
use claudecodenodus.Base.{
  Text, lit, ◌==◌, ==_iff, ◌≡◌, refl, ◌⊎◌, inl, inr, Bool, true, false, Option, none, some, List,
  [], ◌∷◌, arith, Option-cases,
}
use claudecodenodus.Base.Int.{ℤ, pos}
use claudecodenodus.Base.Collections.{contains}
use claudecodenodus.Exec.{attempt, Fault, Result, ok, err, Result-cases}
use claudecodenodus.Json.{
  or_else, Json, str, int, null, list, nil, dict, Fields, field, find, find_or,
}
use claudecodenodus.Python.{value, get}
use claudecodenodus.Runtime.Backends.{Backends, Tool}
use claudecodenodus.Runtime.Synthesis.{synthesize, canonical_json}
use claudecodenodus.Runtime.Tools.{
  Manifest, gated_effects, any_gated, is_gated, dispatch, handler, web_search, fetch_doc,
  memory_recall,
}

gated_effect :
    (effect : Text) (es : List Text)
    → contains effect es ≡ true
    → contains effect gated_effects ≡ true
    → any_gated es ≡ true
unfolding contains
gated_effect effect [] h g = h
gated_effect effect (e ∷ es) h g = ground (arith, ==_iff effect e, gated_effect effect es)

module _ (B : Backends) where
  -- The gate answered that the call is approved.
  abbrev pub approves : Result Fault (Option Bool) → Bool
  approves (ok (some true)) = true
  approves other = false

  -- The call raises, and leaves the state as given.
  abbrev pub Raises : Result Fault Json × B.State → B.State → Type 0
  Raises outcome s = (f : Fault) × (outcome ≡ (err f, s))

  -- A gated tool does what its extension does if the gate approves the call, and otherwise raises
  -- after nothing but the question to the gate.
  pub handler-approves :
      (m : Manifest) (args : Json) (s : B.State)
      → is_gated m ≡ true
      → let (answer, s') = B.check m.name args s in
        ((approves answer ≡ true) × (handler B m args s ≡ dispatch B m.name args s'))
        ⊎ ((approves answer ≡ false) × Raises (handler B m args s) s')
  unfolding handler
  handler-approves m args s g = elim (Result-cases (B.check m.name args s).0) [
    | inr (f, e) ↦ rw (g, handler, e) (inr (refl, (f, refl)))
    | inl (none, e) ↦ rw (g, handler, e) (inr (refl, (_, refl)))
    | inl (some false, e) ↦ rw (g, handler, e) (inr (refl, (_, refl)))
    | inl (some true, e) ↦ rw (g, handler, e) (inl (refl, refl))
  ]

  pub handler_open :
      (m : Manifest) (args : Json) (s : B.State)
      → is_gated m ≡ false
      → handler B m args s ≡ dispatch B m.name args s
  unfolding handler
  handler_open m args s g = rw (g, handler)

  -- The same, for a tool whose manifest names a gated effect.
  handler-gated :
      (m : Manifest) (args : Json) (s : B.State) (effect : Text)
      → contains effect m.effects ≡ true
      → contains effect gated_effects ≡ true
      → let (answer, s') = B.check m.name args s in
        ((approves answer ≡ true) × (handler B m args s ≡ dispatch B m.name args s'))
        ⊎ ((approves answer ≡ false) × Raises (handler B m args s) s')
  handler-gated m args s effect h g =
      handler-approves m args s (unfold is_gated in gated_effect effect m.effects h g)

  -- The call gives a result, whatever it does.
  abbrev pub Returns : Tool B → B.State → Type 0
  Returns tool s = (answer : Json) × ((tool s).0 ≡ ok answer)

  attempt-Returns :
      {A : Type 0} (call : B.State → Result Fault A × B.State) (done : A → Tool B)
      (failed : Fault → Tool B) (s : B.State)
      → ((a : A) (s' : B.State) → Returns (done a) s')
      → ((f : Fault) (s' : B.State) → Returns (failed f) s')
      → Returns (attempt call done failed) s
  unfolding attempt
  attempt-Returns call done failed s d e = elim (Result-cases (call s).0) [
    | inl (a, p) ↦ rw p (d a (call s).1)
    | inr (f, p) ↦ rw p (e f (call s).1)
  ]

  web_search-Returns :
      (args : Fields) (s : B.State) (n : ℤ)
      → B.to_int (find_or (lit "max_results") (int (pos 5)) args) ≡ ok n
      → Returns (web_search B (dict args)) s
  unfolding web_search get
  web_search-Returns args s n h = rw h (
      attempt-Returns (B.search (find_or (lit "query") (str []) args) n) _ _ s (λ a s'. (a, refl))
        (λ f s'. (_, refl)))

  fetch_doc-Returns :
      (args : Fields) (s : B.State) (n : ℤ) (hash : Json)
      → B.to_int (find_or (lit "max_chars") (int (pos 10000)) args) ≡ ok n
      → B.sha256 (find_or (lit "url") (str []) args) ≡ ok hash
      → Returns (fetch_doc B (dict args)) s
  unfolding fetch_doc get
  fetch_doc-Returns args s n hash h g =
      rw (h, g)
        (attempt-Returns (B.fetch (find_or (lit "url") (str []) args) n) _ _ s (λ a s'. (a, refl))
          (λ f s'. (_, refl)))

  memory_recall-Returns :
      (args : Fields) (s : B.State) (n : ℤ)
      → B.to_int (or_else (find_or (lit "limit") (int (pos 5)) args) (int (pos 5))) ≡ ok n
      → Returns (memory_recall B (dict args)) s
  unfolding memory_recall get
  memory_recall-Returns args s n h = elim (Option-cases B.recall) [
    | inl e ↦ rw (e, memory_recall) (_, refl)
    | inr (recall, e) ↦
        rw (e, h, memory_recall)
          (attempt-Returns
            (recall (or_else (find_or (lit "tags") null args) (list nil))
              (or_else (find_or (lit "match") null args) (str (lit "any")))
              (or_else (find_or (lit "require") null args) null)
              (or_else (find_or (lit "exclude_session") null args) null) n)
            _ _ s (λ a s'. (_, refl)) (λ f s'. (_, refl)))
  ]

  -- On arguments whose numbers can be read, a search and a recall return a result whatever their
  -- backends raise, and so does a fetch if its hash can be computed.
  fail_open :
      (args : Fields) (s : B.State) (results chars count : ℤ) (hash : Json)
      → B.to_int (find_or (lit "max_results") (int (pos 5)) args) ≡ ok results
      → B.to_int (find_or (lit "max_chars") (int (pos 10000)) args) ≡ ok chars
      → B.to_int (or_else (find_or (lit "limit") (int (pos 5)) args) (int (pos 5))) ≡ ok count
      → B.sha256 (find_or (lit "url") (str []) args) ≡ ok hash
      → Returns (web_search B (dict args)) s
        × Returns (fetch_doc B (dict args)) s
        × Returns (memory_recall B (dict args)) s
  fail_open args s results chars count hash r c n h = (
    web_search-Returns args s results r,
    fetch_doc-Returns args s chars hash c h,
    memory_recall-Returns args s count n,
  )

  canonical_json-same :
      (a b : Text) (i j : Json)
      → B.loads a ≡ value i
      → B.loads b ≡ value j
      → B.sorted_dumps i ≡ B.sorted_dumps j
      → canonical_json B (str a) ≡ canonical_json B (str b)
  unfolding canonical_json
  canonical_json-same a b i j la lb same = ground (arith, la, lb, same)

  -- Two analyses that parse to documents with the same canonical text lead to the same draft, from
  -- the client too.
  synthesize-canonical :
      (a b : Text) (i j : Json) (rest : Fields) (s : B.State)
      → B.loads a ≡ value i
      → B.loads b ≡ value j
      → B.sorted_dumps i ≡ B.sorted_dumps j
      → synthesize B (dict (field (lit "analysis") (str a) rest)) s
        ≡ synthesize B (dict (field (lit "analysis") (str b) rest)) s
  unfolding synthesize get find find_or ◌==◌ lit
  synthesize-canonical a b i j rest s la lb same = simp (canonical_json-same a b i j la lb same)
