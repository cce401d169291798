-- ===== src/Workflow/Decided.antt =====
-- A rejection from its HTTP request (src/approval_api.py) over the runtime (src/runtime.py) to the steps
-- of workflows/research_task.nd.
use claudecodenodus.Base.{Text, lit, ◌==◌, ◌≡◌, ap, ◌∙◌, inl, inr, true, some, List, [], ◌++◌, All}
use mathlib.Core.List.{append_assoc}
use claudecodenodus.Base.Int.{ℤ}
use claudecodenodus.Base.Dict.{lookup}
use claudecodenodus.Exec.{ok}
use claudecodenodus.Json.{Json, str, dict, Fields, end, find, truthy, json_key_eq}
use claudecodenodus.Python.{Python, get}
use claudecodenodus.ApprovalApi.Path.{Plain}
use claudecodenodus.ApprovalApi.Service.{Run, Service, is_waiting}
use claudecodenodus.ApprovalApi.Http.{Request, read_json}
use claudecodenodus.Memory.Topics.{topic_tags}
use claudecodenodus.Memory.Store.{Parent, has_row}
use claudecodenodus.Runtime.Resume.{Nodus, Runtime, rejection, replay, resume_on_vm, host}
use claudecodenodus.Runtime.Handover.{Sent, Logs}
use claudecodenodus.Runtime.Decisions.{sent_after, decisions_sent}
use claudecodenodus.Workflow.{Engine}
use claudecodenodus.Workflow
use claudecodenodus.Workflow.Runs.{Step, run_steps}
use claudecodenodus.Workflow.Gated.{Approves, HasMaps, IsQuiet, unapproved}
use claudecodenodus.Workflow.Marks.{Clones}

fields_of : Json → Fields
fields_of (dict fs) = fs
fields_of other = end

rejection_no_approval : (feedback : Json) → ¬ Approves (rejection feedback)
unfolding rejection fields_of find lit ◌==◌
rejection_no_approval feedback (fs, e, at) = let same = ap fields_of e in cc

replay_no_approval : (feedback : Json) → ¬ Approves (replay feedback)
unfolding replay fields_of find lit ◌==◌
replay_no_approval feedback (fs, e, at) = let same = ap fields_of e in cc

module _ (B : Parent) (E : Engine B) (P : E.Effects → Type 0) (lower : Text → Text) (m : ℤ) where
  -- A run of the workflow's steps, resumed with the payload, publishes nothing.
  abbrev pub Harmless : Json → Type 0
  Harmless payload =
      (s : Workflow.Run B E) (steps : List Step)
      → s.flow.payload ≡ payload
      → s.flow.topic_tags ≡ topic_tags lower s.flow.question m
      → P s.effects
      → P (run_steps B E steps s).1.effects
        × ((k : Text)
            → has_row k (lit "status:final") (run_steps B E steps s).1.memory.tag_rows ≡ true
            → has_row k (lit "status:final") s.memory.tag_rows ≡ true)

  harmless :
      (payload : Json)
      → HasMaps B E
      → Clones B
      → IsQuiet B E P
      → ¬ Approves payload
      → Harmless payload
  harmless payload maps clones quiet refused s steps e topics p =
      unapproved B E P lower m s steps maps clones quiet topics (λ a. refused (rw e at a)) p

  module _ (N : Nodus) (py : Python) (log : Runtime N → List (Sent N))
      (logs : Logs N (resume_on_vm N) log) (req : Request) (run_id query : Text)
      (plain : Plain run_id) (s : Service (host N)) (r : Run)
      (found : lookup (str run_id) s.runs ≡ some r) (waits : is_waiting r ≡ true) where
    -- However a request to reject a waiting run ends, every message that the runtime gives to the
    -- workflow for it carries a payload with which no steps publish anything: what only the tools
    -- `research.write_file` and `research.notify` can end holds on, and no key becomes one that is
    -- marked as final.
    pub rejection_publishes_nothing :
        (body feedback : Json)
        → read_json py req ≡ ok body
        → get body (lit "feedback") (str []) ≡ ok feedback
        → truthy feedback ≡ true
        → HasMaps B E
        → Clones B
        → IsQuiet B E P
        → (new : List (Sent N)) × (sent_after N py log logs req run_id query plain s r found waits
              (lit "reject")
            ≡ log s.world ++ new)
          × All (λ (message : Sent N). Harmless message.1) new
    rejection_publishes_nothing body feedback b f t maps clones quiet =
        let first =
          harmless (rejection feedback) maps clones quiet (rejection_no_approval feedback) in
        let second = harmless (replay feedback) maps clones quiet (replay_no_approval feedback) in
        elim (decisions_sent N py log logs req run_id query plain s r found waits body feedback b f
          t).1 [
            | inl (one, ends) ↦ (_, one, (first, tt))
            | inr two ↦ (_, two ∙ append_assoc (log s.world) _ _, (first, (second, tt)))
          ]
