-- ===== src/Memory/Search/Recall.antt =====
-- What `recall_by_tags` of src/memory.py returns.
use claudecodenodus.Base.{
  ℕ, zero, suc, ◌+◌, ◌-◌, sym, ◌∙◌, max, Text, text_eq, ◌≡◌, refl, Bool, true, false, Option, none,
  some, List, [], ◌∷◌, map, arith, All, leb, Bool-cases, Option-cases, inl, inr, take,
}
use native.Mathlib.Nat.{sub-zero}
use claudecodenodus.Base.Int.{ℤ, clamp}
use claudecodenodus.Base.Dict.{lookup}
use claudecodenodus.Base.Collections.{keep}
use claudecodenodus.Json.{Items}
use claudecodenodus.Memory.Topics.{session_of}
use claudecodenodus.Memory.Store.{Parent, IsLawful, Memory}
use claudecodenodus.Memory.Search.{search_by_tags, Node, recall_from, recall_by_tags, tags_for}

take-nil {ℓ} : {A : Type ℓ} (n : ℕ) → take {A = A} n [] ≡ []
take-nil zero = refl
take-nil (suc n) = refl

last_room : (limit : ℤ) (n : ℕ) → leb (clamp limit) (n + 1) ≡ true → max 1 (clamp limit - n) ≡ suc 0
last_room limit n h = ground arith

next_room :
    (limit : ℤ) (n : ℕ)
    → leb (clamp limit) (n + 1) ≡ false
    → max 1 (clamp limit - n) ≡ suc (max 1 (clamp limit - (n + 1)))
next_room limit n h = ground arith

module _ (B : Parent) (s : Memory B) where
  -- The key has a value.
  abbrev pub is_live : Text → Bool
  is_live key = elim (lookup key s.values) [ none ↦ false | some v ↦ true ]

  abbrev room : ℤ → ℕ → ℕ
  room limit n = max 1 (clamp limit - n)

  recall_from-take :
      (limit : ℤ) (n : ℕ) (keys : List Text)
      → map (λ (node : Node B). node.key) (recall_from B limit n keys s)
        ≡ take (room limit n) (keep is_live keys)
  unfolding recall_from keep
  recall_from-take limit n [] = sym (take-nil (room limit n))
  recall_from-take limit n (key ∷ keys) = elim (Option-cases (lookup key s.values)) [
    | inl e ↦ ground (arith, recall_from-take limit n keys)
    | inr (v, e) ↦ elim (Bool-cases (leb (clamp limit) (n + 1))) [
      | inl done ↦ rw (last_room limit n done) (ground arith)
      | inr more ↦ rw (next_room limit n more) (ground (arith, recall_from-take limit (n + 1) keys))
    ]
  ]

  -- A recall gives the nodes of the first keys of the search that have a value: `limit` of them at
  -- most, or one where the limit is 0 or negative.
  pub recall_by_tags-take :
      (tags require : Items) (match : Text) (exclude : Option Text) (limit : ℤ)
      → map (λ (node : Node B). node.key) (recall_by_tags B tags match require exclude limit s)
        ≡ take (max 1 (clamp limit)) (keep is_live (search_by_tags B tags match require exclude s))
  unfolding recall_by_tags
  recall_by_tags-take tags require match exclude limit =
      recall_from-take limit 0 (search_by_tags B tags match require exclude s) ∙ rw sub-zero

  -- A recalled node holds the value, the session and the tags that the store has for its key.
  abbrev pub Faithful : Node B → Type 0
  Faithful node =
      (lookup node.key s.values ≡ some node.content)
      × (node.session_id ≡ session_of node.key)
      × (node.tags ≡ tags_for node.key s.tag_rows)

  recall_from-Faithful :
      (lawful : IsLawful B) (limit : ℤ) (n : ℕ) (keys : List Text)
      → All Faithful (recall_from B limit n keys s)
  unfolding recall_from
  recall_from-Faithful lawful limit n [] = tt
  recall_from-Faithful lawful limit n (key ∷ keys) = elim (Option-cases (lookup key s.values)) [
    | inl e ↦ ground (arith, recall_from-Faithful lawful limit n keys)
    | inr (v, e) ↦
        ground (
          arith,
          recall_from-Faithful lawful limit (n + 1) keys,
          lawful.get-lookup key v s.values e,
        )
  ]

  -- Every recalled node holds the value, the session and the tags that the store has for its key.
  recall_by_tags-Faithful :
      (lawful : IsLawful B) (tags require : Items) (match : Text) (exclude : Option Text)
      (limit : ℤ)
      → All Faithful (recall_by_tags B tags match require exclude limit s)
  unfolding recall_by_tags
  recall_by_tags-Faithful lawful tags require match exclude limit =
      recall_from-Faithful lawful limit 0 (search_by_tags B tags match require exclude s)
