-- ===== src/Web/Backend.antt =====
-- `HttpWebBackend` of src/web.py: the choice of the provider, `search`, `html_to_text` and `fetch`.
use claudecodenodus.Base.{
  ℕ, Text, lit, ◌==◌, ◌&&◌, ◌||◌, Option, some, List, [], ◌∷◌, take, length, max, ltb,
  if◌then◌else◌,
}
use claudecodenodus.Base.Int.{ℤ, pos, negsuc, clamp}
use claudecodenodus.Base.Split.{is_infix}
use claudecodenodus.Exec.{Fault, ok, Exec, pure, lift, ◌>>=◌, ◌>>◌}
use claudecodenodus.Json.{Json, str, list, dict, end, field, list_of}
use claudecodenodus.Web.Extractor.{Extractor, new_extractor, feed}
use claudecodenodus.Web.Layout.{trim, get_text}
use claudecodenodus.Web.Network.{Network}
use claudecodenodus.Web.Providers.{search_tavily, search_brave, search_wikipedia}

-- The keys that are configured; a missing or empty one counts as none.
pub record Keys : Type 0 where
  pub tavily : Option Text
  pub brave : Option Text

-- The provider that `search` takes, as the property `provider` names it.
pub data Provider : Type 0 where
  by_tavily : Text → Provider
  by_brave : Text → Provider
  by_wikipedia : Provider

unfoldable pub choose : Option Text → Option Text → Provider
choose (some (c ∷ t)) brave = by_tavily (c ∷ t)
choose tavily (some (c ∷ t)) = by_brave (c ∷ t)
choose tavily brave = by_wikipedia

-- `HttpWebBackend.provider`
unfoldable pub provider : Keys → Provider
unfolding choose
provider keys = choose keys.tavily keys.brave

-- `max(1, int(max_results))`
unfoldable pub result_count : ℤ → ℕ
result_count z = max 1 (clamp z)

-- `if max_chars > 0 and len(text) > max_chars: text = text[:max_chars]`
unfoldable pub cut : ℤ → Text → Text
cut (pos n) text = if ltb 0 n && ltb n (length text) then take n text else text
cut (negsuc n) text = text

unfoldable pub document : Text → Json → Text → Text → Json
document text title fetched_at content_hash = dict (
    field (lit "text") (str text) (
      field (lit "title") title (
        field (lit "fetched_at") (str fetched_at)
          (field (lit "content_hash") (str content_hash) end))))

-- `title` if it is not empty, or the URL
abbrev pub title_or : Text → Json → Json
title_or [] url = url
title_or (c ∷ t) url = str (c ∷ t)

module _ {State : Type 0} (N : Network State) where
  unfoldable pub provider_search : Provider → Json → ℕ → Exec State Fault (List Json)
  provider_search (by_tavily key) query count = search_tavily N query count key
  provider_search (by_brave key) query count = search_brave N query count key
  provider_search by_wikipedia query count = search_wikipedia N query count

  -- `HttpWebBackend.search`
  unfoldable pub search : Keys → Json → ℤ → Exec State Fault Json
  search keys query max_results = do
    results ← provider_search (provider keys) query (result_count max_results)
    pure (dict (field (lit "results") (list (list_of results)) end))

  -- `html_to_text`: the title and the text
  unfoldable pub html_to_text : Text → Text × Text
  unfolding trim get_text
  html_to_text html =
      let page : Extractor = feed (N.parse html) new_extractor in
      (trim page.title, get_text page.parts)

  -- The title and the text of a response.
  unfoldable pub extract : N.Response → Text × Text
  unfolding html_to_text is_infix
  extract response =
      if is_infix (lit "html") (N.content_type response) || N.content_type response == []
      then html_to_text (N.text response)
      else ([], N.text response)

  -- `HttpWebBackend.fetch`
  unfoldable pub fetch : Json → ℤ → Exec State Fault Json
  fetch url max_chars = do
    response ← N.get_page url
    lift (N.raise_for_status response)
    let found : Text × Text = extract response
    let text : Text = cut max_chars found.1
    λ s. (ok (document text (title_or found.0 url) (N.now_iso s) (N.sha256 text)), s)
