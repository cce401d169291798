-- ===== src/Runtime/Offline.antt =====
-- The backends that the tools of src/runtime.py take where none is configured: the offline web, the
-- disabled code runner of src/sandbox.py and the console notifier.
use claudecodenodus.Base.{
  ℕ, ◌+◌, ◌≤◌, ◌<◌, zero, suc, max, Text, lit, ◌≡◌, refl, ap, true, some, [], ◌++◌, length,
  length-take-le, arith, All,
}
use claudecodenodus.Base.Int.{ℤ, pos, negsuc, clamp}
use claudecodenodus.Exec.{ok, attempt}
use claudecodenodus.Json.{
  Json, null, int, str, list, dict, Items, Fields, end, field, find_or, items,
}
use claudecodenodus.Python.{get}
use claudecodenodus.Notify.Delivery.{outcome, console_notify}
use claudecodenodus.Web.Network.{Network}
use claudecodenodus.Web.Backend.{document, result_count}
use claudecodenodus.Web.Offline.{
  slug_of, offline_result, offline_results, offline_slug, offline_search, offline_cut,
  offline_fetch,
}
use claudecodenodus.Web.Bounds.{IsHit}
use claudecodenodus.Sandbox.{RunResult}
use claudecodenodus.Runtime.Backends.{Backends}
use claudecodenodus.Runtime.Tools.{web_search, fetch_doc, run_code, notify}
use claudecodenodus.Runtime.Wiring.{result_json}

-- `DisabledCodeRunner.run`
unfoldable pub disabled_run : Json → Json → RunResult
disabled_run code timeout_seconds = record {
  stdout = [];
  stderr = lit "code execution disabled";
  exit_code = pos 0;
  error = some (lit "disabled");
}

-- The fallbacks in `_ext_web_search`, `_ext_fetch_doc`, `_ext_run_code` and `_ext_notify`; each call
-- makes a notifier of its own.
abbrev pub fall_back : (B : Backends) → Network B.State → Backends
fall_back B N = record B {
  search = offline_search N;
  fetch = offline_fetch N;
  run_code = λ code timeout_seconds s. (ok (result_json (disabled_run code timeout_seconds)), s);
  notify =
      λ channel target message run_id s. ((console_notify channel target message run_id []).0, s);
}

module _ {State : Type 0} (N : Network State) where
  length-offline_cut : (n : ℤ) (text : Text) → 0 < clamp n → length (offline_cut N n text) ≤ clamp n
  unfolding offline_cut
  length-offline_cut (pos n) text h = ground (arith, length-take-le n text)
  length-offline_cut (negsuc n) text h = ground arith

module _ {State : Type 0} (N : Network State) (slug : Text) (query : Json) where
  length-offline_results : (i n : ℕ) → length (items (offline_results N slug query i n)) ≡ n
  unfolding offline_results items
  length-offline_results i zero = refl
  length-offline_results i (suc n) = ap suc (length-offline_results (i + 1) n)

  offline_results-IsHit : (i n : ℕ) → All IsHit (items (offline_results N slug query i n))
  unfolding offline_results items offline_result
  offline_results-IsHit i zero = tt
  offline_results-IsHit i (suc n) = ((_, _, _, refl), offline_results-IsHit (i + 1) n)

module _ (B : Backends) (N : Network B.State) (args : Fields) (s : B.State) where
  abbrev offline : Backends
  offline = fall_back B N

  abbrev arg : Text → Json → Json
  arg key default = find_or key default args

  -- Where no backend is configured, a search for a text, a fetch, a run and a notification, with
  -- numbers that can be read, always answer and change nothing: the search with exactly as many
  -- results as asked for, or one where that is smaller, the fetch with a document of at most
  -- `max_chars` characters where that is positive, the run with its refusal, and the notification
  -- as delivered.
  fall_back_lem :
      (query : Text) (n c : ℤ)
      → arg (lit "query") (str []) ≡ str query
      → B.to_int (arg (lit "max_results") (int (pos 5))) ≡ ok n
      → B.to_int (arg (lit "max_chars") (int (pos 10000))) ≡ ok c
      → ((results : Items) × (web_search offline (dict args) s
            ≡ (ok (dict (field (lit "results") (list results) end)), s))
          × (length (items results) ≡ max 1 (clamp n))
          × All IsHit (items results))
        × ((text : Text) × (title : Json) × (fetched_at : Text) × (fetch_doc offline (dict args) s
              ≡ (ok (document text title fetched_at (N.sha256 text)), s))
            × (0 < clamp c → length text ≤ clamp c))
        × (run_code offline (dict args) s ≡ (
          ok (
              result_json
                (disabled_run (arg (lit "code") (str [])) (arg (lit "timeout_seconds") null))),
          s,
        ))
        × (notify offline (dict args) s ≡ (ok (outcome true (lit "console")), s))
  unfolding web_search fetch_doc run_code notify get attempt offline_search offline_slug
      offline_fetch result_count console_notify
  fall_back_lem query n c q h k = (
    (
      offline_results N (slug_of (N.lower query)) (str query) 1 (max 1 (clamp n)),
      rw (q, h) refl,
      length-offline_results N _ (str query) 1 (max 1 (clamp n)),
      offline_results-IsHit N _ (str query) 1 (max 1 (clamp n)),
    ),
    (
      offline_cut N c shown,
      str (lit "Offline document"),
      lit "1970-01-01T00:00:00+00:00",
      rw k refl,
      length-offline_cut N c shown,
    ),
    refl,
    refl,
  )
    where
      shown : Text
      shown = lit "Offline content for " ++ N.format (arg (lit "url") (str []))
