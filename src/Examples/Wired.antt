-- ===== src/Examples/Wired.antt =====
-- The tools over backends that are wired as in src/runtime.py: a web that answers with two articles,
-- a Slack channel that answers `ok`, and a memory with two research sessions.
use claudecodenodus.Base.{
  ℕ, ◌≤◌, ◌<◌, max, Text, lit, text_eq, ◌==◌, ◌≡◌, refl, ◌⊎◌, Bool, true, none, some, List, [], ◌∷◌,
  length, All,
}
use claudecodenodus.Base.Int.{pos, clamp}
use claudecodenodus.Exec.{Fault, ok, err}
use claudecodenodus.Json.{
  Json, null, int, str, list, dict, nil, cons, Fields, end, field, truthy, find, find_or, or_else,
  list_of,
}
use claudecodenodus.Notify.Delivery.{Delivery, channel_name, outcome}
use claudecodenodus.Notify.Outcomes.{Confirmed}
use claudecodenodus.Web.Network.{Network}
use claudecodenodus.Web.Backend.{Keys, document}
use claudecodenodus.Web.Bounds.{IsHit}
use claudecodenodus.Web.Layout.{concat, get_text}
use claudecodenodus.Web.Layout.Visible
use claudecodenodus.Web.Layout.Visible.{visible}
use claudecodenodus.Web.Layout.Tidy
use claudecodenodus.Web.Layout.Tidy.{quiet, starts_shown, ends_shown}
use claudecodenodus.Sandbox.{build_cmd, RunResult, file_not_found, raised}
use claudecodenodus.Sandbox.Outcomes.{Soft, IsLockedDown}
use claudecodenodus.Examples.Container.{runner}
use claudecodenodus.Runtime.Backends.{Backends}
use claudecodenodus.Runtime.Tools.{web_search, fetch_doc, run_code, notify}
use claudecodenodus.Runtime.Wiring.{wire, Parts, seconds_of, result_json}
use claudecodenodus.Runtime.Composed
use claudecodenodus.Examples.Host.{backends, offline, text_of}
use claudecodenodus.Examples.Recollection.{parent, stored}

abbrev article : Text → Json
article title = dict (field (lit "title") (str title) end)

abbrev pub network : Network ℕ
network = record {
  Response = Unit {0};
  get_page = λ url n. (ok tt, n);
  get_query = λ url params headers n. (ok tt, n);
  post_json = λ url body n. (err offline, n);
  raise_for_status = λ response. ok tt;
  json = λ response. ok (
      dict (
        field (lit "query")
          (dict (
            field (lit "search") (list (list_of (article (lit "A") ∷ article (lit "B") ∷ []))) end))
          end));
  content_type = λ response. lit "text/plain";
  text = λ response. lit "plain text";
  parse = λ html. [];
  now_iso = λ n. lit "2026-01-01T00:00:00+00:00";
  sha256 = λ t. t;
  quote = λ t. t;
  unescape = λ t. t;
  lower = λ t. t;
  format = text_of;
  show = λ z. lit "1";
}

abbrev keys : Keys
keys = record { tavily = none; brave = some [] }

abbrev slack : Delivery ℕ
slack = record {
  lower = λ t. t;
  strip = λ t. t;
  format = text_of;
  show = λ z. lit "200";
  parse_int = λ t. err offline;
  environ = λ name. none;
  print = λ line n. (ok tt, n);
  post = λ url body n. (ok (record { status_code = pos 200; text = some (lit "ok") }), n);
  Mail = Unit {0};
  compose = λ sender to subject body. ok tt;
  smtp_connect = λ host port n. (err offline, n);
  starttls = λ n. (ok tt, n);
  login = λ user password n. (ok tt, n);
  send_message = λ mail n. (ok tt, n);
  smtp_quit = λ n. (ok tt, n);
}

abbrev pub wiring : Parts ℕ
wiring = record {
  network = network;
  keys = keys;
  delivery = slack;
  parent = parent;
  memory_store = λ n. stored;
  runner = runner;
  show = λ z. lit "1";
  strip = λ t. t;
  subprocess = λ command code deadline n. (file_not_found, n);
}

abbrev wired : Backends
wired = wire backends wiring

abbrev call : Fields
call = field (lit "channel") (str (lit "slack")) (
    field (lit "max_results") (int (pos 1)) (
      field (lit "exclude_session") (str (lit "a"))
        (field (lit "tags") (list (cons (str (lit "llm")) nil)) end)))

abbrev arg : Text → Json → Json
arg key default = find_or key default call

on_slack : channel_name slack (arg (lit "channel") (str (lit "console"))) ≡ ok (lit "slack")
unfolding channel_name find_or find or_else truthy lit ◌==◌
on_slack = refl

notify_tool-Confirmed_example :
    (delivered : Bool) × (response : Text) × ((notify wired (dict call) 0).0
      ≡ ok (outcome delivered response))
    × (delivered ≡ true
        → Confirmed slack
            (arg (lit "target") (str []))
            (arg (lit "message") (str []))
            (arg (lit "run_id") (str []))
            (lit "slack"))
notify_tool-Confirmed_example =
    Composed.notify_tool-Confirmed backends wiring call 0 (lit "slack") on_slack

one_result : backends.to_int (arg (lit "max_results") (int (pos 5))) ≡ ok (pos 1)
unfolding find_or find lit ◌==◌
one_result = refl

web_search_tool_example :
    (answer : Json) × ((web_search wired (dict call) 0).0 ≡ ok answer)
    × (((results : List Json) × (answer ≡ dict (field (lit "results") (list (list_of results)) end))
          × (length results ≤ max 1 (clamp (pos 1)))
          × All IsHit results)
        ⊎ ((message : Text) × (answer
              ≡ dict (field (lit "results") (list nil) (field (lit "error") (str message) end)))))
web_search_tool_example = Composed.web_search_tool backends wiring call 0 (pos 1) one_result

all_chars : backends.to_int (arg (lit "max_chars") (int (pos 10000))) ≡ ok (pos 10000)
unfolding find_or find lit ◌==◌
all_chars = refl

fetch_doc_tool_example :
    (answer : Json) × ((fetch_doc wired (dict call) 0).0 ≡ ok answer)
    × (((text : Text) × (title : Json) × (fetched_at : Text) × (answer
            ≡ document text title fetched_at text)
          × (0 < clamp (pos 10000) → length text ≤ clamp (pos 10000))
          × ((title ≡ arg (lit "url") (str [])) ⊎ (truthy title ≡ true)))
        ⊎ ((message : Text) × (answer
              ≡ dict (
                  field (lit "text") (str []) (
                    field (lit "title") (arg (lit "url") (str [])) (
                      field (lit "fetched_at") (str []) (
                        field
                          (lit "content_hash")
                          (arg (lit "url") (str []))
                          (field (lit "error") (str message) end))))))))
fetch_doc_tool_example =
    Composed.fetch_doc_tool backends wiring call 0 (pos 10000) (arg (lit "url") (str [])) all_chars
      refl

default_seconds : seconds_of backends wiring (arg (lit "timeout_seconds") null) ≡ ok (pos 30)
unfolding seconds_of find_or find lit ◌==◌ truthy
default_seconds = refl

run_code_tool_example :
    IsLockedDown wiring.show wiring.strip runner
      (pos 30)
      (build_cmd wiring.show wiring.strip runner (pos 30))
    × (((f : Fault) × (file_not_found ≡ raised f) × ((run_code wired (dict call) 0).0 ≡ err f))
        ⊎ ((r : RunResult) × ((run_code wired (dict call) 0).0 ≡ ok (result_json r))
            × Soft wiring.show wiring.strip runner file_not_found (ok r)))
run_code_tool_example = Composed.run_code_tool backends wiring call 0 (pos 30) default_seconds

abbrev parts : List Text
parts = lit " A\t title" ∷ lit "\n\n\n" ∷ lit "text \n" ∷ []

visible-get_text_example : visible (get_text parts) ≡ visible (concat parts)
visible-get_text_example = Visible.visible-get_text parts

get_text_tidy_example :
    (quiet 0 (get_text parts) ≡ true)
    × (starts_shown (get_text parts) ≡ true)
    × (ends_shown (get_text parts) ≡ true)
get_text_tidy_example = Tidy.get_text_tidy parts
