-- ===== src/Runtime/Tools.antt =====
-- The tools of src/runtime.py: the gate in front of them, `_dispatch` and the `_ext_` functions but
-- `_ext_synthesize`.
use claudecodenodus.Base.{
  Text, lit, ◌==◌, Bool, true, false, not, ◌||◌, ◌++◌, none, some, List, [], ◌∷◌, length,
  if◌then◌else◌,
}
use claudecodenodus.Base.Int.{pos}
use claudecodenodus.Base.Collections.{contains}
use claudecodenodus.Exec.{describe, attempt, Fault, pure, raise, lift, ◌>>=◌, ◌>>◌}
use claudecodenodus.Json.{or_else, Json, null, int, str, list, dict, nil, end, field, items}
use claudecodenodus.Python.{get}
use claudecodenodus.Runtime.Backends.{Backends, Tool}
use claudecodenodus.Runtime.Synthesis.{synthesize}

-- What the registration reads of a tool manifest; a missing list of effects is empty, and a missing
-- schema the empty dict.
pub record Manifest : Type 0 where
  pub name : Text
  pub description : Text
  pub effects : List Text
  pub schema : Json

-- `GATED_EFFECTS`
unfoldable pub gated_effects : List Text
unfolding lit
gated_effects = lit "fs.write" ∷ lit "network.write" ∷ []

abbrev pub any_gated : List Text → Bool
any_gated [] = false
any_gated (e ∷ es) = contains e gated_effects || any_gated es

-- `bool(frozenset(effects) & GATED_EFFECTS)`
unfoldable pub is_gated : Manifest → Bool
unfolding gated_effects
is_gated m = any_gated m.effects

runtime_error : Text → Fault
runtime_error message = record { kind = lit "RuntimeError"; message = message }

module _ (B : Backends) where
  unfoldable pub web_search : Json → Tool B
  unfolding attempt describe
  web_search args = do
    query ← lift (get args (lit "query") (str []))
    limit ← lift (get args (lit "max_results") (int (pos 5)))
    max_results ← lift (B.to_int limit)
    attempt (B.search query max_results) pure (λ f.
        pure (dict (field (lit "results") (list nil) (field (lit "error") (str (describe f)) end))))

  unfoldable pub fetch_doc : Json → Tool B
  unfolding attempt describe
  fetch_doc args = do
    url ← lift (get args (lit "url") (str []))
    limit ← lift (get args (lit "max_chars") (int (pos 10000)))
    max_chars ← lift (B.to_int limit)
    attempt (B.fetch url max_chars) pure (λ f. do
      hash ← lift (B.sha256 url)
      pure (
          dict (
            field (lit "text") (str []) (
              field (lit "title") url (
                field (lit "fetched_at") (str []) (
                  field (lit "content_hash") hash (field (lit "error") (str (describe f)) end)))))))

  unfoldable pub run_code : Json → Tool B
  run_code args = do
    code ← lift (get args (lit "code") (str []))
    timeout_seconds ← lift (get args (lit "timeout_seconds") null)
    B.run_code code timeout_seconds

  unfoldable pub write_file : Json → Tool B
  write_file args = do
    rel_path ← lift (get args (lit "path") (str (lit "output/result.md")))
    content ← lift (get args (lit "content") (str []))
    path ← lift (B.full_path rel_path)
    B.make_parents path
    B.write_text path content
    written ← lift (B.encoded_length content)
    pure (dict (field (lit "written_bytes") (int written) (field (lit "path") (str path) end)))

  no_results : Text → Json
  no_results error = dict (
      field (lit "results") (list nil)
        (field (lit "count") (int (pos 0)) (field (lit "error") (str error) end)))

  unfoldable pub memory_recall : Json → Tool B
  unfolding attempt no_results or_else items
  memory_recall args = elim B.recall [
    | none ↦ pure (no_results (lit "memory_recall_unavailable"))
    | some recall ↦ do
      tags ← lift (get args (lit "tags") null)
      exclude ← lift (get args (lit "exclude_session") null)
      limit ← lift (get args (lit "limit") (int (pos 5)))
      n ← lift (B.to_int (or_else limit (int (pos 5))))
      match ← lift (get args (lit "match") null)
      require ← lift (get args (lit "require") null)
      attempt
          (recall (or_else tags (list nil)) (or_else match (str (lit "any"))) (or_else require null)
            (or_else exclude null) n)
          (λ results. pure (
            dict (
              field (lit "results") (list results)
                (field (lit "count") (int (pos (length (items results)))) end))))
          (λ f. pure (no_results f.message))
  ]

  unfoldable pub notify : Json → Tool B
  notify args = do
    channel ← lift (get args (lit "channel") (str (lit "console")))
    target ← lift (get args (lit "target") (str []))
    message ← lift (get args (lit "message") (str []))
    run_id ← lift (get args (lit "run_id") (str []))
    B.notify channel target message run_id

  -- `_dispatch`
  unfoldable pub dispatch : Text → Json → Tool B
  dispatch name args =
      if name == lit "research.web_search"
      then web_search args
      else if name == lit "research.fetch_doc"
      then fetch_doc args
      else if name == lit "research.run_code"
      then run_code args
      else if name == lit "research.synthesize"
      then synthesize B args
      else if name == lit "research.write_file"
      then write_file args
      else if name == lit "research.notify"
      then notify args
      else if name == lit "research.memory_recall"
      then memory_recall args
      else raise (record { kind = lit "ValueError"; message = lit "Unknown extension: " ++ name })

  -- The handler that `_make_handler` makes of a manifest.
  unfoldable pub handler : Manifest → Json → Tool B
  unfolding dispatch is_gated runtime_error
  handler m args = if not (is_gated m) then dispatch m.name args else do
    result ← B.check m.name args
    elim result [
      | none ↦ raise (
          runtime_error (
            lit "Tool '"
            ++ (m.name
                ++ (lit "' requires human approval. "
                    ++ lit "This should not happen inside a post-approval publish step."))))
      | some false ↦
          raise (runtime_error (lit "Tool '" ++ (m.name ++ lit "' was denied by policy.")))
      | some true ↦ dispatch m.name args
    ]
