-- ===== src/Workflow/Reviewed.antt =====
-- What is drafted, reviewed and published in workflows/research_task.nd is one draft.
use claudecodenodus.Base.{Text, text_eq, lit, ◌≡◌, some}
use claudecodenodus.Json.{Json, str, dict, end, field, Fields, find}
use claudecodenodus.Memory.Store.{Parent, Memory}
use claudecodenodus.Workflow.{Engine, Flow, Run, after_write, publish_body}

module _ (B : Parent) (E : Engine B) where
  -- The draft that was returned is the draft of the state.
  abbrev Drafted : Json → Run B E → Type 0
  Drafted v s = s.flow.draft ≡ v

  -- What `review` puts before the human.
  abbrev pub review_request : Text → Json → Json
  review_request session draft =
      dict (field (lit "draft") draft (field (lit "session_id") (str session) end))

  -- Whenever the body runs, it first asks for a file with the draft as its content.
  abbrev pub WritesFirst : Flow → Json → Type 0
  WritesFirst f v =
      (m : Memory B) (e : E.Effects)
      → (fs : Fields) × (find (lit "content") fs ≡ some v)
        × (publish_body B E f m e ≡ (
            let (answer, e') = E.call (lit "research.write_file") (dict fs) m e in
            after_write B E f m answer e'))
