-- ===== src/Workflow/Scripts.antt =====
-- The steps of workflows/research_task.nd.
use claudecodenodus.Base.{
  ℕ, Text, lit, text_eq, ◌++◌, Bool, true, false, not, Option, none, some, [], ◌∷◌, if◌then◌else◌,
}
use claudecodenodus.Base.Int.{pos}
use claudecodenodus.Base.Dict.{lookup}
use claudecodenodus.Exec.{Fault, Result, ok, bind}
use claudecodenodus.Exec.Blocks.{pure, lift, gets, modify, ◌>>=◌, ◌>>◌}
use claudecodenodus.Json.{Json, null, bool, int, str, list, dict, nil, end, field, json_eq}
use claudecodenodus.Memory.Store.{Parent}
use claudecodenodus.Workflow.{
  Called, value, error, Engine, Flow, texts, node_key, tags_with, is_null, Run, Action, on_effects,
  call, gather_sources, publish_once, remember, remember_source,
}

abbrev or_null : Option Json → Json
or_null none = null
or_null (some v) = v

-- The result of an earlier step.
unfoldable pub result_of : Text → Flow → Json
result_of name f = or_null (lookup name f.results)

-- The arguments of the recall: any of the topics, published, and of other sessions.
unfoldable pub recall_args : Flow → Json
recall_args f = dict (
    field (lit "tags") (texts f.topic_tags) (
      field (lit "match") (str (lit "any")) (
        field (lit "require") (texts (lit "status:final" ∷ [])) (
          field (lit "exclude_session") (str f.session_id)
            (field (lit "limit") (int (pos 3)) end)))))

-- The answer of a publish step that nobody approved.
unfoldable pub refused : Flow → Json
refused f = dict (
    field (lit "published") (bool false) (
      field (lit "session_id") (str f.session_id)
        (field (lit "revision_requested") (bool true) end)))

unfoldable pub published : Flow → Json → Json
published f effects = dict (
    field (lit "published") (bool true)
      (field (lit "session_id") (str f.session_id) (field (lit "effects") effects end)))

module _ (B : Parent) (E : Engine B) where
  abbrev pub flow_now : Action B E Flow
  flow_now = gets (λ (s : Run B E). s.flow)

  unfoldable pub init : Action B E Json
  init = do
    f ← flow_now
    remember B E (node_key f.session_id (lit "meta"))
        (dict (field (lit "question") (str f.question) end)) (tags_with f (lit "status:raw"))
    pure (str f.session_id)

  -- An error is no prior research.
  unfoldable pub recalled : Called → Result Fault Json
  recalled (error message) =
      ok (dict (field (lit "results") (list nil) (field (lit "count") (int (pos 0)) end)))
  recalled (value v) = E.reparse (value v)

  unfoldable pub recall : Action B E Json
  recall = do
    f ← flow_now
    r ← call B E (lit "research.memory_recall") (recall_args f)
    lift (recalled r)

  -- `gather_web`, `gather_code` and `gather_data`
  unfoldable pub gather : Text → Text → ℕ → Action B E Json
  gather domain suffix n = do
    f ← flow_now
    g ← gather_sources B E (f.question ++ suffix) n
    remember_source B E f domain g
    pure g

  unfoldable pub analyze : Action B E Json
  analyze = do
    f ← flow_now
    pure (
        dict (
          field (lit "web") (result_of (lit "gather_web") f) (
            field (lit "code") (result_of (lit "gather_code") f)
              (field (lit "data") (result_of (lit "gather_data") f) end))))

  -- `p["feedback"]` where there is a payload
  unfoldable pub feedback_of : Json → Result Fault Json
  feedback_of p = if is_null p then ok (str []) else E.index p (lit "feedback")

  unfoldable pub draft_step : Action B E Json
  draft_step = do
    on_effects B E (E.checkpoint (lit "before_draft"))
    f ← flow_now
    feedback ← lift (feedback_of f.payload)
    analysis_json ← lift (E.stringify (result_of (lit "analyze") f))
    results ← lift (E.index (result_of (lit "recall") f) (lit "results"))
    prior_json ← lift (E.stringify results)
    answer ← call B E (lit "research.synthesize") (
        dict (
          field (lit "question") (str f.question) (
            field (lit "analysis") (str analysis_json)
              (field (lit "feedback") feedback (field (lit "prior") (str prior_json) end)))))
    r ← lift (E.reparse answer)
    new_draft ← lift (E.index r (lit "draft"))
    modify (λ s. record s { flow = record s.flow { draft = new_draft } })
    remember B E (node_key f.session_id (lit "draft")) new_draft (tags_with f (lit "status:draft"))
    pure new_draft

  unfoldable pub review : Action B E Json
  review = do
    f ← flow_now
    on_effects B E (
        E.workflow_wait (lit "approval_required") f.session_id
          (dict (field (lit "draft") f.draft (field (lit "session_id") (str f.session_id) end))))

  -- `approval["approved"] == true`, where `has_key(approval, "approved")` and it is not nil
  unfoldable pub approved_by : Json → Result Fault Bool
  approved_by approval =
      if is_null approval
      then ok false
      else bind (E.has_key approval (lit "approved")) (λ has.
        if not has
        then ok false
        else bind (E.index approval (lit "approved")) (λ v. ok (json_eq v (bool true))))

  -- What the publish step does once the draft is approved.
  unfoldable pub publish_approved : Flow → Action B E Json
  publish_approved f = do
    effects ← publish_once B E f
    remember B E (node_key f.session_id (lit "final")) f.draft (tags_with f (lit "status:final"))
    pure (published f effects)

  unfoldable pub publish : Action B E Json
  publish = do
    f ← flow_now
    approved ← lift (approved_by f.payload)
    if not approved then pure (refused f) else publish_approved f
