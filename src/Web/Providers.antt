-- ===== src/Web/Providers.antt =====
-- The search providers of src/web.py: the request, and the results that are read from its answer.
use claudecodenodus.Base.{
  ℕ, Text, lit, text_eq, Bool, true, false, not, ◌&&◌, ◌||◌, ◌++◌, List, [], ◌∷◌, map, take, eqb,
  if◌then◌else◌,
}
use claudecodenodus.Base.Int.{pos}
use claudecodenodus.Exec.{Fault, Result, ok, err, bind, Exec, lift, ◌>>=◌}
use claudecodenodus.Json.{Json, null, int, str, list, dict, nil, end, field, items, or_else}
use claudecodenodus.Python.{get, type_name}
use claudecodenodus.Web.Layout.{trim}
use claudecodenodus.Web.Network.{Network}

abbrev type_error : Text → Fault
type_error message = record { kind = lit "TypeError"; message = message }

-- `value[:count]`: a list, or the characters of a text
unfoldable pub slice : ℕ → Json → Result Fault (List Json)
unfolding items
slice count (list xs) = ok (take count (items xs))
slice count (str t) = ok (map (λ c. str (c ∷ [])) (take count t))
slice count (dict fs) = err (type_error (lit "unhashable type: 'slice'"))
slice count other =
    err (type_error (lit "'" ++ (type_name other ++ lit "' object is not subscriptable")))

-- A list comprehension: the first exception ends it.
unfoldable pub collect_results : (Json → Result Fault Json) → List Json → Result Fault (List Json)
collect_results f [] = ok []
collect_results f (r ∷ rs) =
    let rest = collect_results f rs in bind (f r) (λ a. bind rest (λ as_list. ok (a ∷ as_list)))

-- `[f(r) for r in value[:count]]`
unfoldable pub first_results : (Json → Result Fault Json) → ℕ → Json → Result Fault (List Json)
first_results f count value = bind (slice count value) (collect_results f)

unfoldable pub result : Json → Json → Json → Json
result url title snippet =
    dict (field (lit "url") url (field (lit "title") title (field (lit "snippet") snippet end)))

-- `{"url": r.get("url", ""), "title": ..., "snippet": r.get(key, "")}`
unfoldable pub plain_result : Text → Json → Result Fault Json
unfolding get result
plain_result key r = bind (get r (lit "url") (str [])) (λ url.
    bind (get r (lit "title") (str []))
      (λ title. bind (get r key (str [])) (λ snippet. ok (result url title snippet))))

-- A `>` follows, but not at once: `[^>]+>` matches here.
unfoldable pub has_close : Text → Bool
has_close [] = false
has_close (c ∷ t) = eqb c b'>' || has_close t

unfoldable pub closes : Text → Bool
unfolding has_close
closes [] = false
closes (c ∷ t) = not (eqb c b'>') && has_close t

-- `re.sub(r"<[^>]+>", "", text)`; the flag says that a tag is being left out.
unfoldable pub strip_markup : Bool → Text → Text
unfolding closes
strip_markup inside [] = []
strip_markup true (c ∷ t) =
    let after = strip_markup false t in
    let within = strip_markup true t in if eqb c b'>' then after else within
strip_markup false (c ∷ t) =
    let tag = strip_markup true t in
    let rest = strip_markup false t in if eqb c b'<' && closes t then tag else c ∷ rest

-- `title.replace(" ", "_")`
unfoldable pub underscores : Text → Text
underscores [] = []
underscores (c ∷ t) = (if eqb c b' ' then b'_' else c) ∷ underscores t

module _ {State : Type 0} (N : Network State) where
  -- `resp.raise_for_status()` and `resp.json()`
  unfoldable pub read_answer : N.Response → Result Fault Json
  read_answer response = bind (N.raise_for_status response) (λ u. N.json response)

  unfoldable pub tavily_results : ℕ → N.Response → Result Fault (List Json)
  tavily_results count response = bind (read_answer response) (λ answer.
      bind (get answer (lit "results") (list nil))
        (first_results (plain_result (lit "content")) count))

  unfoldable pub search_tavily : Json → ℕ → Text → Exec State Fault (List Json)
  search_tavily query count api_key = do
    response ← N.post_json (lit "https://api.tavily.com/search") (
        dict (
          field (lit "api_key") (str api_key) (
            field (lit "query") query (
              field (lit "max_results") (int (pos count))
                (field (lit "search_depth") (str (lit "basic")) end)))))
    lift (tavily_results count response)

  unfoldable pub brave_results : ℕ → N.Response → Result Fault (List Json)
  brave_results count response = bind (read_answer response) (λ answer.
      bind (get answer (lit "web") null) (λ web.
        bind (get (or_else web (dict end)) (lit "results") (list nil))
          (first_results (plain_result (lit "description")) count)))

  unfoldable pub search_brave : Json → ℕ → Text → Exec State Fault (List Json)
  search_brave query count api_key = do
    response ←
        N.get_query (lit "https://api.search.brave.com/res/v1/web/search")
          (dict (field (lit "q") query (field (lit "count") (int (pos count)) end)))
          (dict (
            field (lit "Accept") (str (lit "application/json"))
              (field (lit "X-Subscription-Token") (str api_key) end)))
    lift (brave_results count response)

  -- `_strip_tags`
  unfoldable pub strip_tags : Json → Result Fault Text
  unfolding strip_markup
  strip_tags (str fragment) = ok (N.unescape (strip_markup false fragment))
  strip_tags other = err (type_error (lit "expected string or bytes-like object"))

  unfoldable pub article_slug : Json → Result Fault Text
  unfolding underscores
  article_slug (str title) = ok (N.quote (underscores title))
  article_slug other = err (record {
    kind = lit "AttributeError";
    message = lit "'" ++ (type_name other ++ lit "' object has no attribute 'replace'");
  })

  -- One round of the loop in `_search_wikipedia`.
  unfoldable pub article_result : Json → Result Fault Json
  unfolding result strip_tags article_slug trim
  article_result h = bind (get h (lit "title") (str [])) (λ title.
      bind (article_slug title) (λ slug. bind (get h (lit "snippet") (str [])) (λ snippet.
        bind (strip_tags snippet) (λ text.
          ok (
            result (str (lit "https://en.wikipedia.org/wiki/" ++ slug)) title (str (trim text)))))))

  unfoldable pub wikipedia_results : ℕ → N.Response → Result Fault (List Json)
  wikipedia_results count response = bind (read_answer response) (λ answer.
      bind (get answer (lit "query") null) (λ found.
        bind (get (or_else found (dict end)) (lit "search") (list nil))
          (first_results article_result count)))

  unfoldable pub search_wikipedia : Json → ℕ → Exec State Fault (List Json)
  search_wikipedia query count = do
    response ←
        N.get_query (lit "https://en.wikipedia.org/w/api.php")
          (dict (
            field (lit "action") (str (lit "query")) (
              field (lit "list") (str (lit "search")) (
                field (lit "srsearch") query (
                  field (lit "srlimit") (int (pos count)) (
                    field (lit "srprop") (str (lit "snippet"))
                      (field (lit "format") (str (lit "json")) end)))))))
          (dict end)
    lift (wikipedia_results count response)
