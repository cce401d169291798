-- ===== src/Web/Offline.antt =====
-- `OfflineWebBackend` of src/web.py.
use claudecodenodus.Base.{
  ℕ, ◌+◌, zero, suc, Text, lit, ◌++◌, List, [], ◌∷◌, take, ltb, if◌then◌else◌,
}
use claudecodenodus.Base.Int.{ℤ, pos, negsuc}
use claudecodenodus.Exec.{Fault, Result, ok, err, Exec, pure, lift, ◌>>=◌}
use claudecodenodus.Json.{Json, str, list, dict, Items, nil, cons, end, field}
use claudecodenodus.Python.{type_name}
use claudecodenodus.ApprovalApi.Path.{lstrip, rstrip}
use claudecodenodus.Memory.Topics.{split_words}
use claudecodenodus.Web.Network.{Network}
use claudecodenodus.Web.Providers.{result}
use claudecodenodus.Web.Backend.{result_count, document}

-- The words of a text with one `-` for each run of other characters.
unfoldable pub dashed : Text → List Text → Text
dashed first [] = first
dashed first (w ∷ ws) = first ++ (b'-' ∷ dashed w ws)

abbrev or_query : Text → Text
or_query [] = lit "query"
or_query (c ∷ t) = c ∷ t

-- `re.sub(r"[^a-z0-9]+", "-", lowered).strip("-") or "query"`
unfoldable pub slug_of : Text → Text
unfolding split_words dashed lstrip rstrip
slug_of lowered =
    let (first, rest) = split_words lowered in
    or_query (rstrip b'-' (lstrip b'-' (dashed first rest)))

module _ {State : Type 0} (N : Network State) where
  open N use {show, format}

  unfoldable pub offline_url : Text → ℕ → Text
  offline_url slug i = lit "https://example.com/" ++ (slug ++ (b'/' ∷ show (pos i)))

  unfoldable pub offline_result : Text → Json → ℕ → Json
  unfolding result offline_url
  offline_result slug query i =
      result (str (offline_url slug i))
        (str (lit "Result " ++ (show (pos i) ++ (lit " for: " ++ format query))))
        (str (
          lit "Offline snippet " ++ (show (pos i) ++ (lit " about " ++ (format query ++ lit ".")))))

  -- The results `i`, `i + 1`, … , `n` of them.
  unfoldable pub offline_results : Text → Json → ℕ → ℕ → Items
  offline_results slug query i zero = nil
  offline_results slug query i (suc n) =
      cons (offline_result slug query i) (offline_results slug query (i + 1) n)

  unfoldable pub offline_slug : Json → Result Fault Text
  unfolding slug_of
  offline_slug (str query) = ok (slug_of (N.lower query))
  offline_slug other = err (record {
    kind = lit "AttributeError";
    message = lit "'" ++ (type_name other ++ lit "' object has no attribute 'lower'");
  })

  unfoldable pub offline_search : Json → ℤ → Exec State Fault Json
  offline_search query max_results = do
    slug ← lift (offline_slug query)
    pure (
        dict (
          field (lit "results") (list (offline_results slug query 1 (result_count max_results)))
            end))

  -- `text[:max_chars]` if `max_chars > 0`
  unfoldable pub offline_cut : ℤ → Text → Text
  offline_cut (pos n) text = if ltb 0 n then take n text else text
  offline_cut (negsuc n) text = text

  unfoldable pub offline_fetch : Json → ℤ → Exec State Fault Json
  unfolding document offline_cut
  offline_fetch url max_chars =
      let text : Text = offline_cut max_chars (lit "Offline content for " ++ format url) in
      pure (
        document text (str (lit "Offline document")) (lit "1970-01-01T00:00:00+00:00")
          (N.sha256 text))
