-- ===== src/Memory/Topics.antt =====
-- `topic_tags` and `session_of` of src/memory.py. `str.lower` is a parameter.
pub mod Words
use claudecodenodus.Base.{
  ℕ, ◌+◌, ◌≤◌, max, Text, lit, ◌==◌, ==-refl, ◌≡◌, refl, Bool, true, false, not, ◌&&◌, ◌||◌, Option,
  none, some, List, [], ◌∷◌, ◌++◌, map, arith, length, length-append, All, ltb, leb, eqb,
  Bool-cases, inl, inr, if◌then◌else◌,
}
use claudecodenodus.Base.Int.{ℤ, pos, negsuc, clamp}
use claudecodenodus.Base.Split.{split_on, split_on-append, nonempty}
use claudecodenodus.Base.Collections.{contains, contains-append, distinct}

unfoldable pub stopwords : List Text
unfolding split_on nonempty lit
stopwords =
    let words : Text =
      lit
        "a an the and or but if then than that this these those of in on at to for from by with without "
      ++ lit "is are was were be been being am do does did doing have has had having "
      ++ lit "what which who whom whose when where why how "
      ++ lit "i you he she it we they me him her us them my your his its our their "
      ++ lit "can could shall should will would may might must "
      ++ lit
          "about into over under again further once here there all any both each few more most other some such "
      ++ lit "no nor not only own same so too very s t just don now" in
    let (first, rest) = split_on b' ' words in nonempty (first ∷ rest)

-- A character of `[a-z0-9]`.
unfoldable pub is_word_char : ℕ → Bool
is_word_char c = (leb b'a' c && leb c b'z') || (leb b'0' c && leb c b'9')

abbrev starts_apart : Text → Bool
starts_apart [] = false
starts_apart (c ∷ t) = not (is_word_char c)

-- `re.split(r"[^a-z0-9]+", text)`: the first part and the others. A run of other characters is
-- one separator.
unfoldable pub split_words : Text → Text × List Text
unfolding is_word_char
split_words [] = ([], [])
split_words (c ∷ t) =
    let (first, rest) = split_words t in
    if is_word_char c
    then (c ∷ first, rest)
    else if starts_apart t
    then (first, rest)
    else ([], first ∷ rest)

-- `len(n) >= max_tags`
unfoldable pub reaches : ℤ → ℕ → Bool
reaches (pos m) n = leb m n
reaches (negsuc m) n = true

-- `len(word) < 3 or word in _STOPWORDS or word in seen`, the last part aside
unfoldable pub is_noise : Text → Bool
is_noise w = ltb (length w) 3 || contains w stopwords

-- The loop over the words.
unfoldable pub collect : ℤ → List Text → List Text → List Text
collect max_tags seen [] = seen
collect max_tags seen (w ∷ ws) =
    let seen' = seen ++ (w ∷ []) in
    let rest = collect max_tags seen' ws in
    let skip = collect max_tags seen ws in
    if is_noise w || contains w seen
    then skip
    else if reaches max_tags (length seen')
    then seen'
    else rest

unfoldable pub topic_words : ℤ → Text → List Text
unfolding collect
topic_words max_tags lowered =
    let (first, rest) = split_words lowered in collect max_tags [] (first ∷ rest)

unfoldable pub topic_tags : (Text → Text) → Text → ℤ → List Text
unfolding topic_words is_noise reaches
topic_tags lower question max_tags =
    map (λ w. lit "topic:" ++ w) (topic_words max_tags (lower question))

-- `_MAX_TOPIC_TAGS`
abbrev pub max_topic_tags : ℤ
max_topic_tags = pos 8

-- The parts of a key with three parts or more, the first of them `research`.
session_part : Text → List Text → Option Text
session_part first (session ∷ _ ∷ _) = if first == lit "research" then some session else none
session_part first _ = none

unfoldable pub session_of : Text → Option Text
unfolding session_part split_on
session_of key = let (first, rest) = split_on b'/' key in session_part first rest

topic_tags_first :
    topic_tags (λ t. t) (lit "what is llm safety?") max_topic_tags
    ≡ lit "topic:llm" ∷ lit "topic:safety" ∷ []
unfolding topic_tags split_words stopwords lit ◌==◌ contains
topic_tags_first = refl
