-- ===== src/Runtime/Setup/Shipped.antt =====
-- The manifests under extensions/, and what becomes of them in src/runtime.py.
use claudecodenodus.Base.{lit, text_eq, ◌==◌, ◌≡◌, refl, Bool, true, false, List, [], ◌∷◌, map, All}
use claudecodenodus.Base.Collections.{contains}
use claudecodenodus.Base.Sort.{text_le, sort}
use claudecodenodus.Json.{Json, str, dict, end, field}
use claudecodenodus.Runtime.Backends.{Backends, Tool}
use claudecodenodus.Runtime.Synthesis.{synthesize}
use claudecodenodus.Runtime.Tools.{
  Manifest, gated_effects, is_gated, dispatch, web_search, fetch_doc, run_code, write_file,
  memory_recall, notify,
}
use claudecodenodus.Runtime.Setup.{synthesize_manifest, by_name, load_tool_manifests}

abbrev fetch_doc_manifest : Manifest
fetch_doc_manifest = record {
  name = lit "research.fetch_doc";
  description =
      lit "Fetch and parse a URL into clean text. Returns content_hash for idempotency key.";
  effects = lit "network.read" ∷ [];
  schema =
      dict (field (lit "url") (str (lit "string")) (field (lit "max_chars") (str (lit "int")) end));
}

abbrev memory_recall_manifest : Manifest
memory_recall_manifest = record {
  name = lit "research.memory_recall";
  description =
      lit
        "Recall prior sessions' work from tag-indexed memory. Returns the best-matching nodes, most tag overlap first.";
  effects = lit "memory.read" ∷ [];
  schema = dict (
      field (lit "tags") (str (lit "list")) (
        field (lit "match") (str (lit "string")) (
          field (lit "require") (str (lit "list")) (
            field (lit "exclude_session") (str (lit "string"))
              (field (lit "limit") (str (lit "int")) end)))));
}

abbrev notify_manifest : Manifest
notify_manifest = record {
  name = lit "research.notify";
  description = lit "Send a notification via webhook, email, or Slack.";
  effects = lit "network.write" ∷ [];
  schema = dict (
      field (lit "channel") (str (lit "string")) (
        field (lit "target") (str (lit "string")) (
          field (lit "message") (str (lit "string"))
            (field (lit "run_id") (str (lit "string")) end))));
}

abbrev run_code_manifest : Manifest
run_code_manifest = record {
  name = lit "research.run_code";
  description = lit "Execute Python in an isolated container; return stdout/stderr/exit_code.";
  effects = lit "subprocess.exec" ∷ [];
  schema = dict (
      field (lit "code") (str (lit "string"))
        (field (lit "timeout_seconds") (str (lit "int")) end));
}

abbrev web_search_manifest : Manifest
web_search_manifest = record {
  name = lit "research.web_search";
  description = lit "Query a search engine; return ranked URL + snippet list.";
  effects = lit "network.read" ∷ [];
  schema =
      dict (
        field (lit "query") (str (lit "string")) (field (lit "max_results") (str (lit "int")) end));
}

abbrev pub write_file_manifest : Manifest
write_file_manifest = record {
  name = lit "research.write_file";
  description = lit "Write final output to a file in the workspace.";
  effects = lit "fs.write" ∷ [];
  schema = dict (
      field (lit "path") (str (lit "string")) (
        field (lit "content") (str (lit "string"))
          (field (lit "format") (str (lit "string")) end)));
}

-- The files, in the order of their paths.
unfoldable pub extension_manifests : List Manifest
extension_manifests =
    fetch_doc_manifest ∷ memory_recall_manifest ∷ notify_manifest ∷ run_code_manifest
    ∷ web_search_manifest ∷ write_file_manifest ∷ []

module _ (B : Backends) where
  -- A manifest, whether its tool is gated, and the function behind it.
  abbrev pub Row : Type 0
  Row = Manifest × Bool × (Json → Tool B)

  abbrev pub shipped : List Row
  shipped =
      (fetch_doc_manifest, false, fetch_doc B)
      ∷ (memory_recall_manifest, false, memory_recall B)
      ∷ (notify_manifest, true, notify B)
      ∷ (run_code_manifest, false, run_code B)
      ∷ (synthesize_manifest, false, synthesize B)
      ∷ (web_search_manifest, false, web_search B)
      ∷ (write_file_manifest, true, write_file B)
      ∷ []

  -- The call of the tool reaches its function, and it is gated if the row says so.
  abbrev pub Serves : Row → Type 0
  Serves (m, gated, tool) =
      (is_gated m ≡ gated) × ((args : Json) (s : B.State) → dispatch B m.name args s ≡ tool args s)

  -- The manifests of the repository are loaded in the order of their names; exactly the tools that
  -- notify and that write a file are gated; and each of the seven reaches a function of its own.
  shipped-Serves :
      (load_tool_manifests extension_manifests ≡ map (λ row. row.0) shipped) × All Serves shipped
  unfolding load_tool_manifests extension_manifests by_name sort text_le synthesize_manifest
      dispatch is_gated contains gated_effects lit ◌==◌
  shipped-Serves = (
    refl,
    (
      (refl, λ args s. refl),
      (
        (refl, λ args s. refl),
        (
          (refl, λ args s. refl),
          (
            (refl, λ args s. refl),
            ((refl, λ args s. refl), ((refl, λ args s. refl), ((refl, λ args s. refl), tt))),
          ),
        ),
      ),
    ),
  )
