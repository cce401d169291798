-- ===== src/Workflow.antt =====
-- The workflow of workflows/research_task.nd: its helper functions and its steps. The engine that
-- runs the steps, its tools, its waits and its effect store are parameters; `mem.put` and `mem.tag`
-- write the memory store of src/memory.py.
pub mod Scripts
pub mod Runs
pub mod Keeping
pub mod Marks
pub mod Gated
pub mod Retried
pub mod Recalled
pub mod Sessions
pub mod Prior
pub mod Isolated
pub mod Denied
pub mod Reviewed
pub mod Decided
use claudecodenodus.Base.{
  ℕ, Text, lit, text_eq, ◌==◌, Bool, true, false, not, List, [], ◌∷◌, ◌++◌, map, if◌then◌else◌, ltb,
}
use claudecodenodus.Base.Int.{pos}
use claudecodenodus.Base.Dict.{Dict, insert}
use claudecodenodus.Exec.{Fault, Result, ok, err}
use claudecodenodus.Exec.Blocks.{Block, pure, throw, lift, ◌>>=◌, ◌>>◌}
use claudecodenodus.Json.{
  Json, null, bool, int, str, list, dict, nil, cons, end, field, list_of, json_eq,
}
use claudecodenodus.Memory.Store.{Parent, Memory, tag_key_prefix}
use claudecodenodus.Memory.Store

-- What `tool.call` gives: it does not throw, and an error is a value of type `"error"`.
pub data Called : Type 0 where
  value : Json → Called
  error : Text → Called

-- What the workflow uses of Nodus. The tools may read the memory store, and do not write it.
pub record Engine (B : Parent) : Type 1 where
  pub Effects : Type 0
  pub call : Text → Json → Memory B → Effects → Called × Effects
  -- `json.parse(json.stringify(v))`, `json.stringify(v)`, and `v` in a text
  pub reparse : Called → Result Fault Json
  pub stringify : Json → Result Fault Text
  pub show : Json → Text
  -- `v[key]`, `v[0]`, `len(v)` and `has_key(v, key)`
  pub index : Json → Text → Result Fault Json
  pub first : Json → Result Fault Json
  pub size : Json → Result Fault ℕ
  pub has_key : Json → Text → Result Fault Bool
  -- The annotation `@exactly_once`, with the arguments of the call as the key.
  pub once : Json → Block Effects Json → Block Effects Json
  pub checkpoint : Text → Block Effects (Unit {0})
  pub workflow_wait : Text → Text → Json → Block Effects Json

-- The state of the workflow, and the results of its steps by their names. `payload` is what
-- `workflow_resume_payload()` gives.
pub record Flow : Type 0 where
  pub question : Text
  pub session_id : Text
  pub notify_channel : Text
  pub notify_target : Text
  pub draft : Json
  pub topic_tags : List Text
  pub results : Dict Text Json
  pub payload : Json

abbrev pub text_json : Text → Json
text_json t = str t

-- A list of texts as a value.
abbrev pub texts : List Text → Json
texts ts = list (list_of (map text_json ts))

-- `research/{session}/{rest}`
unfoldable pub node_key : Text → Text → Text
node_key session_id rest = lit "research/" ++ (session_id ++ (lit "/" ++ rest))

-- `topic_tags + (["session:…", "status:…"])`
unfoldable pub tags_with : Flow → Text → List Text
tags_with f status = f.topic_tags ++ ((lit "session:" ++ f.session_id) ∷ status ∷ [])

unfoldable pub is_null : Json → Bool
is_null null = true
is_null other = false

-- The arguments of the two calls of `publish_once`.
unfoldable pub write_args : Flow → Json
write_args f = dict (
    field (lit "path") (str (lit "output/" ++ (f.session_id ++ lit "/final.md")))
      (field (lit "content") f.draft (field (lit "format") (str (lit "markdown")) end)))

unfoldable pub notify_args : Flow → Json
notify_args f = dict (
    field (lit "channel") (str f.notify_channel) (
      field (lit "target") (str f.notify_target) (
        field (lit "message") (str (lit "Research complete: " ++ f.question))
          (field (lit "run_id") (str f.session_id) end))))

-- The arguments of `publish_once`, which are the key of its record.
unfoldable pub publish_key : Flow → Json
publish_key f = list (
    cons (str f.session_id) (
      cons f.draft
        (cons (str f.question) (cons (str f.notify_channel) (cons (str f.notify_target) nil)))))

module _ (B : Parent) (E : Engine B) where
  open E use {Effects}

  pub record Run : Type 0 where
    pub flow : Flow
    pub memory : Memory B
    pub effects : Effects

  abbrev pub Action : Type 0 → Type 0
  Action A = Block Run A

  unfoldable pub on_memory : {A : Type 0} → Block (Memory B) A → Action A
  on_memory m s = let (r, memory) = m s.memory in (r, record s { memory = memory })

  unfoldable pub on_effects : {A : Type 0} → Block Effects A → Action A
  on_effects m s = let (r, effects) = m s.effects in (r, record s { effects = effects })

  -- `tool.call`
  unfoldable pub call : Text → Json → Action Called
  call name args s =
      let (answer, effects) = E.call name args s.memory s.effects in
      (ok answer, record s { effects = effects })

  unfoldable pub fetch_top : Json → Action Json
  fetch_top results = do
    n ← lift (E.size results)
    if not (ltb 0 n) then pure null else do
      top ← lift (E.first results)
      url ← lift (E.index top (lit "url"))
      fetched ←
          call (lit "research.fetch_doc")
            (dict (field (lit "url") url (field (lit "max_chars") (int (pos 4000)) end)))
      lift (E.reparse fetched)

  unfoldable pub gather_sources : Text → ℕ → Action Json
  gather_sources q n = do
    raw ←
        call (lit "research.web_search")
          (dict (field (lit "query") (str q) (field (lit "max_results") (int (pos n)) end)))
    parsed ← lift (E.reparse raw)
    results ← lift (E.index parsed (lit "results"))
    doc ← fetch_top results
    pure (dict (field (lit "results") results (field (lit "top_doc") doc end)))

  -- A call of a tool that reads the memory as it is.
  unfoldable pub ask : Memory B → Text → Json → Block Effects Called
  ask memory name args e = let (answer, e') = E.call name args memory e in (ok answer, e')

  -- What `publish_once` does with the answer of `research.write_file`.
  unfoldable pub after_write : Flow → Memory B → Called → Block Effects Json
  after_write f memory (error message) = throw (record {
    kind = lit "Throw";
    message = lit "publish: research.write_file failed: " ++ message;
  })
  after_write f memory (value v) = do
    answer ← ask memory (lit "research.notify") (notify_args f)
    wr ← lift (E.reparse (value v))
    nr ← lift (E.reparse answer)
    pure (dict (field (lit "written") wr (field (lit "notified") nr end)))

  -- The body of `publish_once`.
  unfoldable pub publish_body : Flow → Memory B → Block Effects Json
  publish_body f memory = do
    answer ← ask memory (lit "research.write_file") (write_args f)
    after_write f memory answer

  unfoldable pub publish_once : Flow → Action Json
  publish_once f s = on_effects (E.once (publish_key f) (publish_body f s.memory)) s

  -- `mem.put`
  unfoldable pub mem_put : Text → Json → Action Json
  mem_put key v = on_memory (Store.put B key v)

  -- `mem.tag`
  unfoldable pub mem_tag : Text → List Text → Action Json
  mem_tag key tags = on_memory (Store.put B (tag_key_prefix ++ key) (texts tags))

  unfoldable pub remember : Text → Json → List Text → Action Text
  remember key v tags = do mem_put key v; mem_tag key tags; pure key

  unfoldable pub remember_source : Flow → Text → Json → Action (Unit {0})
  remember_source f domain gathered = do
    doc ← lift (E.index gathered (lit "top_doc"))
    if is_null doc then pure tt else do
      hash ← lift (E.index doc (lit "content_hash"))
      remember (node_key f.session_id (lit "sources/" ++ E.show hash)) doc (
          f.topic_tags
          ++ ((lit "session:" ++ f.session_id) ∷ (lit "domain:" ++ domain) ∷ lit "status:raw" ∷ []))
      pure tt
