-- ===== src/ApprovalApi/Issued.antt =====
-- The ids of the runs that a runtime starts, through the methods of the service
-- (src/approval_api.py).
use claudecodenodus.Base.{
  Text, lit, ◌==◌, ==_iff, eq-of-==, ◌≡◌, ◌∙◌, ◌≢◌, true, false, none, arith, Bool-cases, inl, inr,
}
use claudecodenodus.Base.Dict.{lookup}
use claudecodenodus.Exec.{ok}
use claudecodenodus.Json.{Json, null, bool, str, dict, end, field, json_key_eq}
use claudecodenodus.Python.{Python, get}
use claudecodenodus.ApprovalApi.Service.{
  Host, Service, start_research, store_run, approve, reject, redraft, update_run,
}
use claudecodenodus.ApprovalApi.Lifecycle.{decide_frame}

module _ (H : Host) (py : Python) where
  -- What the runtime promises of the ids of its runs: a run that it starts gets a new one, and an id
  -- that was given stays given, whatever else is called.
  pub record Issues : Type 1 where
    pub Issued : Text → H.State → Type 0
    pub fresh :
        (q i result : Json) (id : Text) (w : H.State)
        → (H.start q i w).0 ≡ ok result
        → get result (lit "graph_id") null ≡ ok (str id)
        → ¬ Issued id w
    pub issued :
        (q i result : Json) (id : Text) (w : H.State)
        → (H.start q i w).0 ≡ ok result
        → get result (lit "graph_id") null ≡ ok (str id)
        → Issued id (H.start q i w).1
    pub at_start :
        (q i : Json) (id : Text) (w : H.State) → Issued id w → Issued id (H.start q i w).1
    pub at_resume :
        (run_id : Text) (payload : Json) (id : Text) (w : H.State)
        → Issued id w
        → Issued id (H.resume run_id payload w).1
    pub at_resume_with_feedback :
        (run_id : Text) (feedback : Json) (id : Text) (w : H.State)
        → Issued id w
        → Issued id (H.resume_with_feedback run_id feedback w).1
    pub at_gate_approve :
        (request_id : Text) (approver : Json) (id : Text) (w : H.State)
        → Issued id w
        → Issued id (H.gate_approve request_id approver w).1
    pub at_gate_deny :
        (request_id : Text) (approver : Json) (id : Text) (w : H.State)
        → Issued id w
        → Issued id (H.gate_deny request_id approver w).1

  pub other_run : (id run_id : Text) → (id == run_id) ≡ false → str run_id ≢ str id
  other_run id run_id e p = ground (arith, ==_iff id run_id)

  -- A decision adds no key to the index.
  pub approve_adds_none :
      (id t : Text) (s : Service H)
      → lookup (str t) s.runs ≡ none
      → lookup (str t) (approve H py id s).1.runs ≡ none
  unfolding approve
  approve_adds_none id t s h = elim (Bool-cases (id == t)) [
    | inl e ↦ let same = eq-of-== id t e in ground arith
    | inr e ↦ (decide_frame H py id s null (str t) (other_run id t e)).0 ∙ h
  ]

  pub reject_adds_none :
      (id t : Text) (feedback : Json) (s : Service H)
      → lookup (str t) s.runs ≡ none
      → lookup (str t) (reject H py id feedback s).1.runs ≡ none
  unfolding reject
  reject_adds_none id t feedback s h = elim (Bool-cases (id == t)) [
    | inl e ↦ let same = eq-of-== id t e in ground arith
    | inr e ↦ (decide_frame H py id s feedback (str t) (other_run id t e)).1 ∙ h
  ]

  module _ (ids : Issues) (t : Text) where
    pub start-Issued :
        (q i : Json) (s : Service H)
        → ids.Issued t s.world
        → ids.Issued t (start_research H q i s).1.world
    unfolding start_research store_run
    start-Issued q i s h = ground (arith, ids.at_start q i t s.world h)

    pub approve-Issued :
        (id : Text) (s : Service H)
        → ids.Issued t s.world
        → ids.Issued t (approve H py id s).1.world
    unfolding approve
    approve-Issued id s h =
        ground (arith, ids.at_resume id (dict (field (lit "approved") (bool true) end)) t s.world h)

    pub reject-Issued :
        (id : Text) (feedback : Json) (s : Service H)
        → ids.Issued t s.world
        → ids.Issued t (reject H py id feedback s).1.world
    unfolding reject redraft update_run
    reject-Issued id feedback s h =
        ground (arith, ids.at_resume_with_feedback id feedback t s.world h)
