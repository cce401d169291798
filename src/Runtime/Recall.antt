-- ===== src/Runtime/Recall.antt =====
-- What a recall gives through the tool layer of src/runtime.py, on the memory of src/memory.py.
use claudecodenodus.Base.{
  ◌≤◌, max, Text, ◌≡◌, ◌≢◌, refl, ◌⊎◌, inl, inr, some, List, [], ◌∷◌, length, ap, suc, arith, All,
}
use claudecodenodus.Base.Int.{ℤ, clamp}
use claudecodenodus.Exec.{Fault, ok, err, Result-cases}
use claudecodenodus.Json.{Json, str, Items, items, list_of}
use claudecodenodus.Memory.Store.{Parent, Memory}
use claudecodenodus.Memory.Search.{Node, clean, recall_by_tags}
use claudecodenodus.Memory.Search.Exclusion.{length-recall_by_tags, recall_by_tags-excluded}
use claudecodenodus.Runtime.Wiring.{
  iterate_or_empty, match_text, found_items, recall_json, recall_wanted,
}

pub List-cases {ℓ} :
    {A : Type ℓ} (xs : List A) → (xs ≡ []) ⊎ ((y : A) × (ys : List A) × (xs ≡ y ∷ ys))
List-cases [] = inl refl
List-cases (y ∷ ys) = inr (y, ys, refl)

pub items-found :
    (P : Parent) (nodes : List (Node P)) → length (items (found_items P nodes)) ≡ length nodes
unfolding found_items list_of items
items-found P [] = refl
items-found P (node ∷ nodes) = ap (suc) (items-found P nodes)

module _ (P : Parent) (tags match require : Json) (session : Text) (limit : ℤ) (s : Memory P) where
  -- What a recall gives that may not look into a session.
  abbrev pub Recalled : Type 0
  Recalled =
      (nodes : List (Node P)) × (recall_json P match require (str session) limit s tags
        ≡ ok (found_items P nodes))
      × (length nodes ≤ max 1 (clamp limit))
      × All (λ (node : Node P). node.session_id ≢ some session) nodes

  wanted-Recalled :
      (wanted : Items)
      → iterate_or_empty tags ≡ ok wanted
      → Recalled ⊎ ((f : Fault) × (recall_json P match require (str session) limit s tags ≡ err f))
  unfolding recall_json recall_wanted found_items list_of
  wanted-Recalled wanted e = elim (List-cases (clean wanted)) [
    | inl c ↦ inl ([], rw (e, c) refl, omega arith, tt)
    | inr (t, ts, c) ↦ elim (Result-cases (iterate_or_empty require)) [
      | inl (required, r) ↦ inl (
        recall_by_tags P wanted (match_text match) required (some session) limit s,
        rw (e, c, r) refl,
        length-recall_by_tags P s wanted required (match_text match) limit (some session),
        recall_by_tags-excluded P s wanted required (match_text match) limit session,
      )
      | inr (f, r) ↦ inr (f, rw (e, c, r) refl)
    ]
  ]

  pub recall_json-Recalled :
      Recalled ⊎ ((f : Fault) × (recall_json P match require (str session) limit s tags ≡ err f))
  unfolding recall_json
  recall_json-Recalled = elim (Result-cases (iterate_or_empty tags)) [
    | inl (wanted, e) ↦ wanted-Recalled wanted e
    | inr (f, e) ↦ inr (f, rw e refl)
  ]
