-- ===== src/Web/Bounds.antt =====
-- What searches and fetches return (src/web.py): how much, and of what shape.
use claudecodenodus.Base.{
  ℕ, ◌≤◌, ◌<◌, max, Text, lit, ◌≡◌, refl, ◌⊎◌, inl, inr, true, List, [], ◌∷◌, take, length,
  length-take-le, length-map, arith, All,
}
use claudecodenodus.Base.Int.{ℤ, pos, negsuc, clamp}
use claudecodenodus.Exec.{Fault, Result, ok, err, bind, continue, lift, Result-cases}
use claudecodenodus.Json.{
  Json, null, bool, int, float, str, list, dict, nil, end, field, truthy, items, list_of, or_else,
}
use claudecodenodus.Python.{get}
use claudecodenodus.Web.Network.{Network}
use claudecodenodus.Web.Providers.{
  slice, collect_results, first_results, result, plain_result, article_result, article_slug,
  strip_tags, read_answer, tavily_results, search_tavily, brave_results, search_brave,
  wikipedia_results, search_wikipedia,
}
use claudecodenodus.Web.Backend.{
  Keys, Provider, by_tavily, by_brave, by_wikipedia, provider, result_count, cut, document,
  title_or, provider_search, search, extract, fetch,
}

length-cut :
    (max_chars : ℤ) (text : Text)
    → 0 < clamp max_chars
    → length (cut max_chars text) ≤ clamp max_chars
unfolding cut
length-cut (pos n) text h = ground (arith, length-take-le n text)
length-cut (negsuc n) text h = ground arith

title_or-shown :
    (title : Text) (url : Json) → (title_or title url ≡ url) ⊎ (truthy (title_or title url) ≡ true)
unfolding truthy
title_or-shown [] url = inl refl
title_or-shown (c ∷ t) url = inr refl

-- A search result: a dict with exactly a URL, a title and a snippet.
abbrev pub IsHit : Json → Type 0
IsHit r = (url : Json) × (title : Json) × (snippet : Json) × (r ≡ result url title snippet)

-- If there is a value, it satisfies `P`.
abbrev pub Yields {ℓ} : {A : Type 0} → (A → Type ℓ) → Result Fault A → Type ℓ
Yields P (ok a) = P a
Yields P (err f) = Unit

bind-Yields {ℓ} :
    {A B : Type 0} (P : B → Type ℓ) (r : Result Fault A) (k : A → Result Fault B)
    → ((a : A) → r ≡ ok a → Yields P (k a))
    → Yields P (bind r k)
bind-Yields P (ok a) k h = h a refl
bind-Yields P (err f) k h = tt

Yields-ok {ℓ} :
    {A : Type 0} (P : A → Type ℓ) (r : Result Fault A) (a : A) → r ≡ ok a → Yields P r → P a
Yields-ok P r a e y = rw e at y

Yields-mono {ℓ} :
    {A : Type 0} (P Q : A → Type ℓ) (r : Result Fault A)
    → ((a : A) → P a → Q a)
    → Yields P r
    → Yields Q r
Yields-mono P Q (ok a) h y = h a y
Yields-mono P Q (err f) h y = tt

slice-length : (count : ℕ) (value : Json) → Yields (λ rs. length rs ≤ count) (slice count value)
unfolding slice
slice-length count null = tt
slice-length count (bool b) = tt
slice-length count (int z) = tt
slice-length count (float m e) = tt
slice-length count (str t) =
    omega (arith, length-map (λ c. str (c ∷ [])) (take count t), length-take-le count t)
slice-length count (list xs) = length-take-le count (items xs)
slice-length count (dict fs) = tt

-- At most `count` results.
abbrev pub FewHits : ℕ → List Json → Type 0
FewHits count rs = (length rs ≤ count) × All IsHit rs

module _ (f : Json → Result Fault Json) (shaped : (r : Json) → Yields IsHit (f r)) where
  collect_results-FewHits : (rs : List Json) → Yields (FewHits (length rs)) (collect_results f rs)
  unfolding collect_results
  collect_results-FewHits [] = (omega arith, tt)
  collect_results-FewHits (r ∷ rs) = bind-Yields _ (f r) _ (λ a e.
      bind-Yields _ (collect_results f rs) _ (λ out o.
        let (short, hits) = Yields-ok (FewHits (length rs)) _ out o (collect_results-FewHits rs) in
        (omega (arith, short), (Yields-ok IsHit _ a e (shaped r), hits))))

  first_results-FewHits :
      (count : ℕ) (value : Json) → Yields (FewHits count) (first_results f count value)
  unfolding first_results
  first_results-FewHits count value = bind-Yields _ (slice count value) _ (λ rs e.
      let short : length rs ≤ count =
        Yields-ok (λ rs. length rs ≤ count) _ rs e (slice-length count value) in
      Yields-mono (FewHits (length rs)) (FewHits count) (collect_results f rs)
        (λ out few. (omega (arith, few.0), few.1)) (collect_results-FewHits rs))

plain_result-IsHit : (key : Text) (r : Json) → Yields IsHit (plain_result key r)
unfolding plain_result
plain_result-IsHit key r = bind-Yields _ (get r (lit "url") (str [])) _ (λ url u.
    bind-Yields _ (get r (lit "title") (str [])) _
      (λ title t. bind-Yields _ (get r key (str [])) _ (λ snippet s. (url, title, snippet, refl))))

module _ {State : Type 0} (N : Network State) where
  article_result-IsHit : (h : Json) → Yields IsHit (article_result N h)
  unfolding article_result
  article_result-IsHit h = bind-Yields _ (get h (lit "title") (str [])) _ (λ title t.
      bind-Yields _ (article_slug N title) _ (λ slug g.
        bind-Yields _ (get h (lit "snippet") (str [])) _
          (λ snippet s. bind-Yields _ (strip_tags N snippet) _ (λ text x. (_, title, _, refl)))))

  tavily_results-FewHits :
      (count : ℕ) (r : N.Response) → Yields (FewHits count) (tavily_results N count r)
  unfolding tavily_results
  tavily_results-FewHits count r = bind-Yields _ (read_answer N r) _ (λ answer a.
      bind-Yields _ (get answer (lit "results") (list nil)) _ (λ v e.
        first_results-FewHits (plain_result (lit "content")) (plain_result-IsHit (lit "content"))
          count v))

  brave_results-FewHits :
      (count : ℕ) (r : N.Response) → Yields (FewHits count) (brave_results N count r)
  unfolding brave_results
  brave_results-FewHits count r = bind-Yields _ (read_answer N r) _ (λ answer a.
      bind-Yields _ (get answer (lit "web") null) _ (λ web w.
        bind-Yields _ (get (or_else web (dict end)) (lit "results") (list nil)) _ (λ v e.
          first_results-FewHits (plain_result (lit "description"))
            (plain_result-IsHit (lit "description")) count v)))

  wikipedia_results-FewHits :
      (count : ℕ) (r : N.Response) → Yields (FewHits count) (wikipedia_results N count r)
  unfolding wikipedia_results
  wikipedia_results-FewHits count r = bind-Yields _ (read_answer N r) _ (λ answer a.
      bind-Yields _ (get answer (lit "query") null) _ (λ found w.
        bind-Yields _ (get (or_else found (dict end)) (lit "search") (list nil)) _
          (λ v e. first_results-FewHits (article_result N) article_result-IsHit count v)))

  lift-Yields :
      {A : Type 0} (P : List Json → Type 0) (r : Result Fault A) (k : A → Result Fault (List Json))
      (s : State)
      → ((a : A) → Yields P (k a))
      → Yields P (continue r (λ a. lift (k a)) s).0
  lift-Yields P (ok a) k s h = h a
  lift-Yields P (err f) k s h = tt

  provider_search-FewHits :
      (p : Provider) (query : Json) (count : ℕ) (s : State)
      → Yields (FewHits count) (provider_search N p query count s).0
  unfolding provider_search search_tavily search_brave search_wikipedia
  provider_search-FewHits (by_tavily key) query count s =
      lift-Yields _ _ (tavily_results N count) _ (tavily_results-FewHits count)
  provider_search-FewHits (by_brave key) query count s =
      lift-Yields _ _ (brave_results N count) _ (brave_results-FewHits count)
  provider_search-FewHits by_wikipedia query count s =
      lift-Yields _ _ (wikipedia_results N count) _ (wikipedia_results-FewHits count)

  -- A search that returns gives at most `max(1, max_results)` results, whatever the provider
  -- answered, and each of them is a dict with exactly a URL, a title and a snippet.
  pub search_few :
      (keys : Keys) (query answer : Json) (max_results : ℤ) (s : State)
      → (search N keys query max_results s).0 ≡ ok answer
      → (results : List Json) × (answer ≡ dict (field (lit "results") (list (list_of results)) end))
        × (length results ≤ max 1 (clamp max_results))
        × All IsHit results
  unfolding search result_count
  search_few keys query answer max_results s h =
      elim (Result-cases
        (provider_search N (provider keys) query (max 1 (clamp max_results)) s).0) [
          | inl (results, e) ↦
              let few : FewHits (max 1 (clamp max_results)) results =
                Yields-ok (FewHits (max 1 (clamp max_results))) _ results e
                  (provider_search-FewHits (provider keys) query (max 1 (clamp max_results)) s) in
              (results, ground arith, few.0, few.1)
          | inr (f, e) ↦ ground arith
        ]

  -- A fetch that returns gives a document whose hash is the hash of its text, with a title that is
  -- the URL or not empty, and with no more than `max_chars` characters where that is positive.
  pub fetch_bounded :
      (url answer : Json) (max_chars : ℤ) (s : State)
      → (fetch N url max_chars s).0 ≡ ok answer
      → (text : Text) × (title : Json) × (fetched_at : Text) × (answer
          ≡ document text title fetched_at (N.sha256 text))
        × (0 < clamp max_chars → length text ≤ clamp max_chars)
        × ((title ≡ url) ⊎ (truthy title ≡ true))
  unfolding fetch
  fetch_bounded url answer max_chars s h = elim (Result-cases (N.get_page url s).0) [
    | inr (f, e) ↦ ground arith
    | inl (response, e) ↦ elim (Result-cases (N.raise_for_status response)) [
      | inr (f, r) ↦ ground arith
      | inl (u, r) ↦
          let found : Text × Text = extract N response in
          (
            cut max_chars found.1,
            title_or found.0 url,
            N.now_iso (N.get_page url s).1,
            ground arith,
            length-cut max_chars found.1,
            title_or-shown found.0 url,
          )
    ]
  ]
