-- ===== src/Workflow/Prior.antt =====
-- The recall step of workflows/research_task.nd, answered by the recall tool of src/runtime.py.
use claudecodenodus.Base.{
  Text, text_eq, lit, ◌==◌, ◌≡◌, ◌≢◌, refl, ap, ◌∙◌, inl, inr, true, false, Option, some, List, [],
  ◌∷◌, map, arith, All, length, eqb,
}
use claudecodenodus.Base.Int.{ℤ, pos}
use claudecodenodus.Base.Collections.{contains}
use claudecodenodus.Exec.{ok, attempt}
use claudecodenodus.Json.{
  Json, null, str, int, list, dict, Items, nil, cons, end, field, list_of, or_else, truthy, find,
  find_or,
}
use claudecodenodus.Python.{get}
use claudecodenodus.Memory.Topics.{topic_tags, session_of}
use claudecodenodus.Memory.Store.{Parent, Memory, has_row}
use claudecodenodus.Memory.Search.{
  Node, clean, search_rows, search_by_tags, recall_from, recall_by_tags,
}
use claudecodenodus.Memory.Search.Exclusion.{outside-session}
use claudecodenodus.Memory.Search.Members.{carries_any}
use claudecodenodus.Runtime.Backends.{Backends}
use claudecodenodus.Runtime.Tools.{memory_recall}
use claudecodenodus.Runtime.Wiring.{
  Parts, wire, found_items, recall_json, recall_wanted, iterate_or_empty, iterate,
}
use claudecodenodus.Runtime.Recall.{items-found, List-cases}
use claudecodenodus.Workflow.{Flow, text_json, texts, node_key}
use claudecodenodus.Workflow.Scripts.{recall_args}
use claudecodenodus.Workflow.Marks.{session_of-node_key}
use claudecodenodus.Workflow.Recalled.{node_exact}

list_or_nil : (xs : Items) → or_else (list xs) (list nil) ≡ list xs
unfolding or_else truthy
list_or_nil nil = refl
list_or_nil (cons x xs) = refl

named_session : (session : Text) → session ≢ [] → or_else (str session) null ≡ str session
unfolding or_else truthy
named_session [] h = absurd (h refl)
named_session (c ∷ t) h = refl

any_match : or_else (str (lit "any")) (str (lit "any")) ≡ str (lit "any")
unfolding or_else truthy
any_match = ground arith

three : or_else (int (pos 3)) (int (pos 5)) ≡ int (pos 3)
unfolding or_else truthy
three = refl

-- The arguments of the recall, as the tool reads them.
record Asked (f : Flow) : Type 0 where
  pub tags : get (recall_args f) (lit "tags") null ≡ ok (texts f.topic_tags)
  pub exclude : get (recall_args f) (lit "exclude_session") null ≡ ok (str f.session_id)
  pub limit : get (recall_args f) (lit "limit") (int (pos 5)) ≡ ok (int (pos 3))
  pub match : get (recall_args f) (lit "match") null ≡ ok (str (lit "any"))
  pub required : get (recall_args f) (lit "require") null ≡ ok (texts (lit "status:final" ∷ []))

asked : (f : Flow) → Asked f
unfolding get recall_args find_or find lit ◌==◌
asked f = record { tags = refl; exclude = refl; limit = refl; match = refl; required = refl }

required_list : or_else (texts (lit "status:final" ∷ [])) null ≡ texts (lit "status:final" ∷ [])
unfolding or_else truthy list_of
required_list = refl

module _ (P : Parent) (s : Memory P) where
  none_wanted :
      (wanted require : Items) (exclude : Option Text)
      → clean wanted ≡ []
      → recall_by_tags P wanted (lit "any") require exclude (pos 3) s ≡ []
  unfolding recall_by_tags search_by_tags search_rows recall_from
  none_wanted wanted require exclude h = rw h refl

  -- Texts can be iterated over, so that the recall does not fail.
  recall_json-found :
      (wanted require : Items) (session : Text)
      → recall_json P (str (lit "any")) (list require) (str session) (pos 3) s (list wanted)
        ≡ ok (found_items P (recall_by_tags P wanted (lit "any") require (some session) (pos 3) s))
  unfolding recall_json recall_wanted iterate_or_empty iterate found_items list_of
  recall_json-found wanted require session = elim (List-cases (clean wanted)) [
    | inl c ↦ rw (c, none_wanted wanted require (some session) c) refl
    | inr (t, ts, c) ↦ rw c refl
  ]

module _ (K : Backends) (W : Parts K.State) (f : Flow) (st : K.State) where
  -- What the recall of the step gives.
  abbrev pub prior : List (Node W.parent)
  prior =
      recall_by_tags W.parent (list_of (map text_json f.topic_tags)) (lit "any")
        (list_of (map text_json (lit "status:final" ∷ []))) (some f.session_id) (pos 3)
        (W.memory_store st)

  -- The answer of the recall tool.
  abbrev pub answer_of : List (Node W.parent) → Json
  answer_of found = dict (
      field (lit "results") (list (found_items W.parent found))
        (field (lit "count") (int (pos (length found))) end))

  recall_answers :
      K.to_int (int (pos 3)) ≡ ok (pos 3)
      → f.session_id ≢ []
      → (memory_recall (wire K W) (recall_args f) st).0 ≡ ok (answer_of prior)
  unfolding memory_recall attempt
  recall_answers number named =
      let a = asked f in
      rw
        (
          a.tags,
          a.exclude,
          a.limit,
          three,
          number,
          a.match,
          a.required,
          list_or_nil (list_of (map text_json f.topic_tags)),
          any_match,
          required_list,
          named_session f.session_id named,
          recall_json-found W.parent (W.memory_store st) (list_of (map text_json f.topic_tags))
              (list_of (map text_json (lit "status:final" ∷ []))) f.session_id,
          items-found W.parent prior,
        )
        refl

  -- The recall of a question's topics, by a session whose name is not empty and has no slash, answers
  -- with no node of that session, and each node it answers with is marked as final and tagged with
  -- one of the topics, whatever else the memory holds.
  pub prior_published :
      (lower : Text → Text) (m : ℤ)
      → K.to_int (int (pos 3)) ≡ ok (pos 3)
      → f.session_id ≢ []
      → All (λ c. eqb c b'/' ≡ false) f.session_id
      → f.topic_tags ≡ topic_tags lower f.question m
      → ((memory_recall (wire K W) (recall_args f) st).0 ≡ ok (answer_of prior))
        × ((key : Text)
            → contains key (map (λ (node : Node W.parent). node.key) prior) ≡ true
            → ((rest : Text) → key ≢ node_key f.session_id rest)
              × (session_of key ≢ some f.session_id)
              × (has_row key (lit "status:final") (W.memory_store st).tag_rows ≡ true)
              × (carries_any f.topic_tags key (W.memory_store st).tag_rows ≡ true))
  prior_published lower m number named plain topics = (
    recall_answers number named,
    λ key there.
        let (o, r, c) =
          node_exact W.parent lower f.question m f.session_id (W.memory_store st) key
            (rw topics at there) in
        let apart = outside-session f.session_id key o in
        (
          λ rest own. apart (ap session_of own ∙ session_of-node_key f.session_id rest plain),
          apart,
          r,
          rw topics c,
        ),
  )
