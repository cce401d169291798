-- ===== src/Memory/Topics/Words.antt =====
-- What `topic_tags` of src/memory.py keeps of a question.
use claudecodenodus.Base.{
  ◌+◌, ◌≤◌, max, Text, lit, ◌==◌, ==_iff, ==-refl, ◌≡◌, refl, sym, ◌∙◌, eq-of-==, ◌⊎◌, inl, inr,
  Bool, true, false, some, List, [], ◌∷◌, ◌++◌, map, arith, length, length-append, length-map, All,
  Bool-cases, eqb,
}
use mathlib.Core.Path.{subst}
use mathlib.Core.List.{append-nil}
use claudecodenodus.Base.Int.{ℤ, clamp}
use claudecodenodus.Base.Split.{split_on-append}
use claudecodenodus.Base.Collections.{contains, contains-append, distinct}
use claudecodenodus.Memory.Topics.{
  is_word_char, split_words, reaches, is_noise, stopwords, collect, topic_words, topic_tags,
  session_of,
}

-- The words of the split.
abbrev pub words : Text → List Text
words t = (split_words t).0 ∷ (split_words t).1

distinct-append :
    (us : List Text) (w : Text)
    → distinct us ≡ true
    → contains w us ≡ false
    → distinct (us ++ (w ∷ [])) ≡ true
unfolding distinct contains
distinct-append [] w d h = refl
distinct-append (u ∷ us) w d h =
    ground (arith, ==_iff w u, ==_iff u w, contains-append u us (w ∷ []), distinct-append us w)

module _ (m : ℤ) where
  collect-distinct :
      (seen ws : List Text) → distinct seen ≡ true → distinct (collect m seen ws) ≡ true
  unfolding collect
  collect-distinct seen [] d = d
  collect-distinct seen (w ∷ ws) d = ground (
    arith,
    distinct-append seen w d,
    collect-distinct (seen ++ (w ∷ [])) ws,
    collect-distinct seen ws d,
  )

  contains-collect :
      (t : Text) (seen ws : List Text)
      → contains t (collect m seen ws) ≡ true
      → (contains t seen ≡ true) ⊎ ((contains t ws ≡ true) × (is_noise t ≡ false))
  unfolding collect contains
  contains-collect t seen [] h = ground arith
  contains-collect t seen (w ∷ ws) h = ground (
    arith,
    ==_iff t w,
    contains-append t seen (w ∷ []),
    contains-collect t (seen ++ (w ∷ [])) ws,
    contains-collect t seen ws,
  )

  collect-keeps :
      (t : Text) (seen ws : List Text)
      → contains t seen ≡ true
      → contains t (collect m seen ws) ≡ true
  unfolding collect
  collect-keeps t seen [] h = h
  collect-keeps t seen (w ∷ ws) h = ground (
    arith,
    contains-append t seen (w ∷ []),
    collect-keeps t (seen ++ (w ∷ [])) ws,
    collect-keeps t seen ws h,
  )

  length-collect :
      (seen ws : List Text)
      → length seen + 1 ≤ max 1 (clamp m)
      → length (collect m seen ws) ≤ max 1 (clamp m)
  unfolding collect reaches
  length-collect seen [] h = omega arith
  length-collect seen (w ∷ ws) h = ground (
    arith,
    length-append {0} seen (w ∷ []),
    length-collect (seen ++ (w ∷ [])) ws,
    length-collect seen ws h,
  )

  -- If the limit was not met, every word that is no noise is there.
  collect_complete :
      (t : Text) (seen ws : List Text)
      → reaches m (length (collect m seen ws)) ≡ false
      → contains t ws ≡ true
      → is_noise t ≡ false
      → contains t (collect m seen ws) ≡ true
  unfolding collect contains
  collect_complete t seen [] h c n = ground arith
  collect_complete t seen (w ∷ ws) h c n = ground (
    arith,
    ==_iff t w,
    contains-append t seen (w ∷ []),
    collect-keeps t seen ws,
    collect-keeps t (seen ++ (w ∷ [])) ws,
    collect_complete t (seen ++ (w ∷ [])) ws,
    collect_complete t seen ws,
  )

split_words-chars : (t : Text) → All (λ w. All (λ c. is_word_char c ≡ true) w) (words t)
unfolding split_words
split_words-chars [] = ground arith
split_words-chars (c ∷ t) = ground (arith, split_words-chars t)

contains-All {ℓ} :
    (P : Text → Type ℓ) (t : Text) (ts : List Text) → All P ts → contains t ts ≡ true → P t
unfolding contains
contains-All P t [] h c = cc
contains-All P t (u ∷ us) h c = elim (Bool-cases (t == u)) [
  | inl e ↦ subst P (sym (eq-of-== t u e)) h.0
  | inr e ↦ contains-All P t us h.1 (rw e at c)
]

-- Tags of different words differ.
prefix-== : (p t u : Text) → (p ++ t == p ++ u) ≡ (t == u)
unfolding ◌==◌
prefix-== [] t u = refl
prefix-== (c ∷ p) t u = ground (arith, prefix-== p t u)

contains-prefix :
    (p t : Text) (us : List Text) → contains (p ++ t) (map (λ u. p ++ u) us) ≡ contains t us
unfolding contains
contains-prefix p t [] = refl
contains-prefix p t (u ∷ us) = ground (arith, prefix-== p t u, contains-prefix p t us)

distinct-prefix : (p : Text) (us : List Text) → distinct (map (λ u. p ++ u) us) ≡ distinct us
unfolding distinct
distinct-prefix p [] = refl
distinct-prefix p (u ∷ us) = rw (contains-prefix, distinct-prefix p us)

not_noise : (w : Text) → is_noise w ≡ false → (3 ≤ length w) × (contains w stopwords ≡ false)
unfolding is_noise
not_noise w h = ground arith

is_signal : (w : Text) → 3 ≤ length w → contains w stopwords ≡ false → is_noise w ≡ false
unfolding is_noise
is_signal w l n = ground arith

module _ (lower : Text → Text) (question : Text) (m : ℤ) where
  -- The tag of a word.
  abbrev pub is_tagged : Text → Bool
  is_tagged w = contains (lit "topic:" ++ w) (topic_tags lower question m)

  is_tagged_lem : (w : Text) → is_tagged w ≡ contains w (topic_words m (lower question))
  unfolding topic_tags
  is_tagged_lem w = contains-prefix (lit "topic:") w (topic_words m (lower question))

  -- No tag is given twice, and there are at most `max_tags` of them, or one where that is less.
  pub topic_tags_bounds :
      (distinct (topic_tags lower question m) ≡ true)
      × (length (topic_tags lower question m) ≤ max 1 (clamp m))
  unfolding topic_tags topic_words
  topic_tags_bounds = (
    distinct-prefix (lit "topic:") (topic_words m (lower question))
        ∙ collect-distinct m [] (words (lower question)) (unfold distinct in refl),
    rw length-map (length-collect m [] (words (lower question)) (omega arith)),
  )

  -- A tagged word is a word of the lowered question: of letters and digits only, of three
  -- characters at least, and no stop word.
  pub topic_tags_sound :
      (w : Text)
      → is_tagged w ≡ true
      → (contains w (words (lower question)) ≡ true)
        × All (λ c. is_word_char c ≡ true) w
        × (3 ≤ length w)
        × (contains w stopwords ≡ false)
  topic_tags_sound w h =
      elim (contains-collect m w [] (words (lower question))
        (unfold topic_words in sym (is_tagged_lem w) ∙ h)) [
          | inl e ↦ unfold contains in cc
          | inr (e, n) ↦
              let (long, signal) = not_noise w n in
              (
                e,
                contains-All _ w (words (lower question)) (split_words-chars (lower question)) e,
                long,
                signal,
              )
        ]

  -- Fewer tags than `max_tags` leave out no word of three characters that is no stop word.
  topic_tags_complete :
      (w : Text)
      → reaches m (length (topic_tags lower question m)) ≡ false
      → contains w (words (lower question)) ≡ true
      → 3 ≤ length w
      → contains w stopwords ≡ false
      → is_tagged w ≡ true
  unfolding topic_tags topic_words
  topic_tags_complete w h c l n =
      is_tagged_lem w
      ∙ collect_complete m w [] (words (lower question)) (rw length-map at h) c (is_signal w l n)

research_plain : All (λ c. eqb c b'/' ≡ false) (lit "research")
unfolding lit
research_plain = ground arith

-- The key of a session's node names its session.
pub session_of_key :
    (session rest : Text)
    → All (λ c. eqb c b'/' ≡ false) session
    → session_of (lit "research" ++ (b'/' ∷ (session ++ (b'/' ∷ rest)))) ≡ some session
unfolding session_of
session_of_key session rest h = simp (
  split_on-append b'/' (lit "research") (b'/' ∷ (session ++ (b'/' ∷ rest))) research_plain,
  split_on-append b'/' session (b'/' ∷ rest) h,
  append-nil,
  ==-refl (lit "research"),
)
