-- ===== src/ApprovalApi/Service.antt =====
-- `ApprovalService` of src/approval_api.py: each method is an action on the service's state, which
-- is the index `_runs` and the state of the runtime behind it.
use claudecodenodus.Base.{
  ℕ, Text, lit, ◌++◌, Bool, not, ◌||◌, none, some, List, [], ◌∷◌, if◌then◌else◌,
}
use claudecodenodus.Base.Dict.{Dict, lookup, insert}
use claudecodenodus.Exec.{Fault, Result, ok, err, bind, Exec, pure, raise, lift, gets, ◌>>=◌, ◌>>◌}
use claudecodenodus.Json.{
  Json, null, bool, str, list, dict, end, field, truthy, json_eq, json_key_eq,
}
use claudecodenodus.Python.{Python, get}

-- A pending request of the effect gate, with `created_at.isoformat()` taken.
pub record GateRequest : Type 0 where
  pub id : Json
  pub action : Json
  pub requester_id : Json
  pub context : Json
  pub created_at : Text

-- What the service calls of a `ResearchRuntime`. A call may change the runtime's state and may
-- raise; `pending_gate_requests` only reads.
pub record Host : Type 1 where
  pub State : Type 0
  pub start : Json → Json → State → Result Fault Json × State
  pub resume : Text → Json → State → Result Fault Json × State
  pub resume_with_feedback : Text → Json → State → Result Fault Json × State
  pub gate_approve : Text → Json → State → Result Fault (Unit {0}) × State
  pub gate_deny : Text → Json → State → Result Fault (Unit {0}) × State
  pub pending_gate_requests : State → Result Fault (List GateRequest)

-- `ApprovalError` with its message and HTTP status, or any other exception.
pub data Error : Type 0 where
  refused : Text → ℕ → Error
  fault : Fault → Error

-- One record of `_runs`.
pub record Run : Type 0 where
  pub run_id : Json
  pub session_id : Json
  pub question : Json
  pub status : Json
  pub draft : Json

unfoldable pub run_json : Run → Json
run_json r = dict (
    field (lit "run_id") r.run_id (
      field (lit "session_id") r.session_id (
        field (lit "question") r.question
          (field (lit "status") r.status (field (lit "draft") r.draft end)))))

unfoldable pub gate_json : GateRequest → Json
gate_json r = dict (
    field (lit "id") r.id (
      field (lit "action") r.action (
        field (lit "requester_id") r.requester_id
          (field (lit "context") r.context (field (lit "created_at") (str r.created_at) end)))))

-- A list or a dict is no key of a dict.
unfoldable pub hashable : Json → Bool
hashable (list xs) = Bool.false
hashable (dict fs) = Bool.false
hashable other = Bool.true

-- `status == "waiting"`
unfoldable pub is_waiting : Run → Bool
is_waiting r = json_eq r.status (str (lit "waiting"))

pub record Service (H : Host) : Type 0 where
  pub runs : Dict Json Run
  pub world : H.State

unfoldable pub unknown_run : Text → Error
unknown_run run_id = refused (lit "unknown run '" ++ (run_id ++ lit "'")) 404

unfoldable pub not_waiting : Python → Text → Run → Error
not_waiting py run_id r =
    refused
      (lit "run '"
        ++ (run_id ++ (lit "' is '" ++ (py.format r.status ++ lit "', not awaiting approval"))))
      409

-- `result.get("status", "unknown")`
unfoldable pub status_of : Json → Result Fault Json
unfolding get
status_of result = get result (lit "status") (str (lit "unknown"))

-- `result.get("state", {}).get("draft")`
unfoldable pub draft_of : Json → Result Fault Json
unfolding get
draft_of result = bind (get result (lit "state") (dict end)) (λ state. get state (lit "draft") null)

-- The record of a started run.
unfoldable pub new_run : Json → Json → Json → Result Fault Run
unfolding status_of draft_of get
new_run question session_id result = bind (get result (lit "graph_id") null) (λ run_id.
    bind (status_of result) (λ status. bind (draft_of result) (λ draft. ok (record {
      run_id = run_id;
      session_id = session_id;
      question = question;
      status = status;
      draft = draft;
    }))))

-- `bool(result.get("steps", {}).get("publish", {}).get("published"))`
unfoldable pub published_flag : Json → Result Fault Bool
unfolding get truthy
published_flag result = bind (get result (lit "steps") (dict end)) (λ steps.
    bind (get steps (lit "publish") (dict end))
      (λ publish. bind (get publish (lit "published") null) (λ flag. ok (truthy flag))))

-- The records that wait for a decision, in the order of the index.
unfoldable pub waiting_runs : Dict Json Run → List Run
unfolding is_waiting
waiting_runs [] = []
waiting_runs ((k, r) ∷ d) = let rest = waiting_runs d in if is_waiting r then r ∷ rest else rest

-- An exception of the runtime passes through the service as it is.
abbrev pub wrap : {A : Type 0} → Result Fault A → Result Error A
wrap (ok a) = ok a
wrap (err e) = err (fault e)

module _ (H : Host) where
  abbrev pub Action : Type 0 → Type 0
  Action A = Exec (Service H) Error A

  -- A call of the runtime.
  unfoldable pub call : {A : Type 0} → (H.State → Result Fault A × H.State) → Action A
  call f s = let (r, w) = f s.world in (wrap r, record s { world = w })

  -- `self._runs[run_id] = record`
  unfoldable pub store_run : Run → Action (Unit {0})
  unfolding hashable
  store_run r s =
      if hashable r.run_id
      then (ok tt, record s { runs = insert r.run_id r s.runs })
      else (err (fault (record { kind = lit "TypeError"; message = lit "unhashable type" })), s)

  unfoldable pub start_research : Json → Json → Action Run
  unfolding truthy call
  start_research question session_id =
      if not (truthy question) || not (truthy session_id)
      then raise (refused (lit "both 'question' and 'session_id' are required") 400)
      else do
        result ← call (H.start question session_id)
        r ← lift (wrap (new_run question session_id result))
        store_run r
        pure r

  unfoldable pub list_pending : Action (List Run)
  unfolding waiting_runs
  list_pending = gets (λ s. waiting_runs s.runs)

  unfoldable pub get_run : Text → Action Run
  unfolding unknown_run
  get_run run_id s = elim (lookup (str run_id) s.runs) [
    | none ↦ raise (unknown_run run_id) s
    | some r ↦ pure r s
  ]

  -- `record = self._runs[run_id]` followed by assignments to its fields
  unfoldable pub update_run : Text → (Run → Run) → Action (Unit {0})
  update_run run_id change s = elim (lookup (str run_id) s.runs) [
    | none ↦ raise (fault (record { kind = lit "KeyError"; message = run_id })) s
    | some r ↦ (ok tt, record s { runs = insert (str run_id) (change r) s.runs })
  ]

  -- The record takes the status and the draft of the replayed run.
  unfoldable pub redraft : Text → Json → Action Json
  redraft run_id result = do
    status ← lift (wrap (status_of result))
    update_run run_id (λ r. record r { status = status })
    draft ← lift (wrap (draft_of result))
    update_run run_id (λ r. record r { draft = draft })
    pure (
        dict (
          field (lit "run_id") (str run_id)
            (field (lit "status") status (field (lit "draft") draft end))))

  module _ (py : Python) where
    unfoldable pub require_waiting : Text → Action (Unit {0})
    unfolding unknown_run is_waiting not_waiting
    require_waiting run_id s = elim (lookup (str run_id) s.runs) [
      | none ↦ raise (unknown_run run_id) s
      | some r ↦ if is_waiting r then pure tt s else raise (not_waiting py run_id r) s
    ]

    -- The answer is `{run_id, status, published}`.
    unfoldable pub approve : Text → Action Json
    unfolding require_waiting call update_run
    approve run_id = do
      require_waiting run_id
      result ← call (H.resume run_id (dict (field (lit "approved") (bool Bool.true) end)))
      published ← lift (wrap (published_flag result))
      let status : Json = str (if published then lit "published" else lit "completed")
      update_run run_id (λ r. record r { status = status })
      pure (
          dict (
            field (lit "run_id") (str run_id)
              (field (lit "status") status (field (lit "published") (bool published) end))))

    -- The answer is `{run_id, status, draft}`.
    unfoldable pub reject : Text → Json → Action Json
    unfolding require_waiting call truthy
    reject run_id feedback =
        if not (truthy feedback)
        then raise (refused (lit "'feedback' is required to reject a draft") 400)
        else do
          require_waiting run_id
          result ← call (H.resume_with_feedback run_id feedback)
          redraft run_id result

  unfoldable pub list_gate_requests : Action (List GateRequest)
  list_gate_requests s = (wrap (H.pending_gate_requests s.world), s)

  unfoldable pub approve_gate : Text → Json → Action Json
  unfolding call
  approve_gate request_id approver_id = do
    call (H.gate_approve request_id approver_id)
    pure (
        dict (
          field (lit "request_id") (str request_id)
            (field (lit "approved") (bool Bool.true) (field (lit "approver_id") approver_id end))))

  unfoldable pub deny_gate : Text → Json → Action Json
  unfolding call
  deny_gate request_id approver_id = do
    call (H.gate_deny request_id approver_id)
    pure (
        dict (
          field (lit "request_id") (str request_id)
            (field (lit "approved") (bool Bool.false) (field (lit "approver_id") approver_id end))))
