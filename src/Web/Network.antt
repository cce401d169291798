-- ===== src/Web/Network.antt =====
-- What the backends of src/web.py call: the HTTP client, the HTML parser and library functions, as
-- parameters on the state of the world outside.
use claudecodenodus.Base.{Text, List}
use claudecodenodus.Base.Int.{ℤ}
use claudecodenodus.Exec.{Fault, Result}
use claudecodenodus.Json.{Json}
use claudecodenodus.Web.Extractor.{Event}

pub record Network (State : Type 0) : Type 1 where
  pub Response : Type 0
  -- `client.get(url)`, with parameters and headers, and `client.post(url, json)`
  pub get_page : Json → State → Result Fault Response × State
  pub get_query : Text → Json → Json → State → Result Fault Response × State
  pub post_json : Text → Json → State → Result Fault Response × State
  pub raise_for_status : Response → Result Fault (Unit {0})
  pub json : Response → Result Fault Json
  -- `resp.headers.get("content-type", "")` and `resp.text`
  pub content_type : Response → Text
  pub text : Response → Text
  -- The calls of the handlers that `HTMLParser.feed` makes of a document, until it ends or raises.
  pub parse : Text → List Event
  pub now_iso : State → Text
  pub sha256 : Text → Text
  -- `urllib.parse.quote` and `html.unescape`
  pub quote : Text → Text
  pub unescape : Text → Text
  pub lower : Text → Text
  -- `f"{value}"` and `str(number)`
  pub format : Json → Text
  pub show : ℤ → Text
