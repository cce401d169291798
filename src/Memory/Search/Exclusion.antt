-- ===== src/Memory/Search/Exclusion.antt =====
-- A recall (src/memory.py) gives no more than it may, and nothing of the excluded session.
use claudecodenodus.Base.{
  ℕ, ◌+◌, ◌≤◌, max, Text, text_eq, ==-refl, ◌≡◌, ◌≢◌, sym, ap, ◌∙◌, Bool, true, false, Option, none,
  some, List, [], ◌∷◌, length, length-map, length-take-le, arith, All, Option-cases, inl, inr,
}
use claudecodenodus.Base.Int.{ℤ, clamp}
use claudecodenodus.Base.Dict.{lookup}
use claudecodenodus.Base.Collections.{keep}
use claudecodenodus.Json.{Items}
use claudecodenodus.Memory.Topics.{session_of}
use claudecodenodus.Memory.Store.{Parent, Memory}
use claudecodenodus.Memory.Search.{
  Node, clean, outside, search_rows, search_by_tags, recall_from, recall_by_tags,
}
use claudecodenodus.Memory.Search.Recall.{recall_by_tags-take}

keep-All {ℓ} : {A : Type ℓ} (p : A → Bool) (xs : List A) → All (λ x. p x ≡ true) (keep p xs)
unfolding keep
keep-All p [] = tt
keep-All p (x ∷ xs) = ground (arith, keep-All p xs)

search_rows-outside :
    (wanted required : List Text) (all : Bool) (exclude : Option Text) (rows : List (Text × Text))
    → All (λ key. outside exclude key ≡ true) (search_rows wanted required all exclude rows)
unfolding search_rows
search_rows-outside [] required all exclude rows = tt
search_rows-outside (w ∷ ws) required all exclude rows = keep-All (outside exclude) _

pub outside-session :
    (session key : Text) → outside (some session) key ≡ true → session_of key ≢ some session
unfolding outside
outside-session session key h e = ground (arith, ==-refl session)

module _ (B : Parent) (s : Memory B) (P : Text → Type 0) where
  recall_from-All :
      (limit : ℤ) (n : ℕ) (keys : List Text)
      → All P keys
      → All
          (λ (node : Node B). P node.key × (node.session_id ≡ session_of node.key))
          (recall_from B limit n keys s)
  unfolding recall_from
  recall_from-All limit n [] h = tt
  recall_from-All limit n (key ∷ keys) h = elim (Option-cases (lookup key s.values)) [
    | inl e ↦ ground (arith, recall_from-All limit n keys h.1)
    | inr (v, e) ↦ ground (arith, recall_from-All limit (n + 1) keys h.1)
  ]

All-mono {ℓ} :
    {A : Type ℓ} (P Q : A → Type 0) (xs : List A) → ((x : A) → P x → Q x) → All P xs → All Q xs
All-mono P Q [] k h = tt
All-mono P Q (x ∷ xs) k h = (k x h.0, All-mono P Q xs k h.1)

module _ (B : Parent) (s : Memory B) (tags require : Items) (match : Text) (limit : ℤ) where
  pub length-recall_by_tags :
      (exclude : Option Text)
      → length (recall_by_tags B tags match require exclude limit s) ≤ max 1 (clamp limit)
  length-recall_by_tags exclude = omega (
    arith,
    length-map (λ (node : Node B). node.key) (recall_by_tags B tags match require exclude limit s),
    ap length (recall_by_tags-take B s tags require match exclude limit),
    length-take-le (max 1 (clamp limit)) (
        keep (λ key. elim (lookup key s.values) [ none ↦ false | some v ↦ true ])
          (search_by_tags B tags match require exclude s)),
  )

  -- No recalled node belongs to the excluded session.
  pub recall_by_tags-excluded :
      (session : Text)
      → All
          (λ (node : Node B). node.session_id ≢ some session)
          (recall_by_tags B tags match require (some session) limit s)
  unfolding recall_by_tags search_by_tags
  recall_by_tags-excluded session =
      All-mono _ _ (recall_by_tags B tags match require (some session) limit s)
        (λ node h e. outside-session session node.key h.0 (sym h.1 ∙ e))
        (recall_from-All B s (λ key. outside (some session) key ≡ true) limit 0
          (search_by_tags B tags match require (some session) s)
          (search_rows-outside (clean tags) (clean require) _ (some session) s.tag_rows))
