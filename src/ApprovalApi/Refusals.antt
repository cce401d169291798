-- ===== src/ApprovalApi/Refusals.antt =====
-- Refused requests of src/approval_api.py: which status they get, and that they change nothing.
use claudecodenodus.Base.{ℕ, Text, lit, ◌≡◌, refl, ◌⊎◌, List, [], ◌∷◌, arith}
use claudecodenodus.Exec.{Fault, Result, ok, err, Exec, lift, pure, ◌>>=◌}
use claudecodenodus.Json.{Json, str}
use claudecodenodus.Python.{Python, get}
use claudecodenodus.ApprovalApi.Path.{path_parts}
use claudecodenodus.ApprovalApi.Service.{
  Host, Service, Error, refused, fault, Action, start_research, list_pending, get_run, approve,
  reject, list_gate_requests, approve_gate, deny_gate, redraft, update_run, store_run, wrap,
  run_json,
}
use claudecodenodus.ApprovalApi.Http.{
  Request, read_json, no_route, route, respond, dispatch, research_route, pending_route, run_route,
  reject_route, gate_pending_route, gate_route,
}

-- The statuses that the service refuses with.
abbrev pub IsRefusal : ℕ → Type 0
IsRefusal n = (n ≡ 400) ⊎ ((n ≡ 404) ⊎ (n ≡ 409))

-- An outcome that is a refusal left the state `s` alone.
abbrev Careful : {A S : Type 0} → S → Result Error A × S → Type 0
Careful s (ok a, s') = Unit
Careful s (err (fault f), s') = Unit
Careful s (err (refused message n), s') = (s' ≡ s) × IsRefusal n

module _ (H : Host) (s : Service H) where
  Careful-start : (q i : Json) → Careful s (start_research H q i s)
  unfolding start_research store_run
  Careful-start q i = ground arith

  Careful-get_run : (run_id : Text) → Careful s (get_run H run_id s)
  unfolding get_run
  Careful-get_run run_id = ground arith

  Careful-gates :
      (request_id : Text) (approver : Json)
      → Careful s (approve_gate H request_id approver s)
        × Careful s (deny_gate H request_id approver s)
  unfolding approve_gate deny_gate
  Careful-gates request_id approver = ground arith

  module _ (py : Python) where
    Careful-approve : (run_id : Text) → Careful s (approve H py run_id s)
    unfolding approve
    Careful-approve run_id = ground arith

    Careful-reject : (run_id : Text) (feedback : Json) → Careful s (reject H py run_id feedback s)
    unfolding reject redraft update_run
    Careful-reject run_id feedback = ground arith

-- The refusals of a pure step are refusals too.
abbrev CarefulResult : {A : Type 0} → Result Error A → Type 0
CarefulResult (err (refused message n)) = IsRefusal n
CarefulResult r = Unit

module _ (H : Host) {A B : Type 0} (s : Service H) (f : A → Action H B)
    (rest : (a : A) → Careful s (f a s)) where
  Careful-lift : (r : Result Error A) → CarefulResult r → Careful s ((lift r >>= f) s)
  Careful-lift (ok a) h = rest a
  Careful-lift (err (refused message n)) h = (refl, h)
  Careful-lift (err (fault e)) h = tt

  Careful-wrap : (r : Result Fault A) → Careful s ((lift (wrap r) >>= f) s)
  Careful-wrap (ok a) = rest a
  Careful-wrap (err e) = tt

-- A refusal passes through a step that cannot refuse.
Careful-map :
    {A B S : Type 0} (s : S) (m : Exec S Error A) (g : A → B)
    → Careful s (m s)
    → Careful s ((m >>= λ a. pure (g a)) s)
Careful-map s m g h = ground arith

module _ (py : Python) (H : Host) (s : Service H) (req : Request) where
  read_json-Careful : CarefulResult (read_json py req)
  unfolding read_json
  read_json-Careful = ground arith

  Careful-research : Careful s (research_route py H req s)
  unfolding research_route
  Careful-research =
      Careful-lift H s _
        (λ body.
          Careful-wrap H s _
            (λ q.
              Careful-wrap H s _
                (λ i. Careful-map s (start_research H q i) run_json (Careful-start H s q i))
                (get body (lit "session_id") (str [])))
            (get body (lit "question") (str [])))
        (read_json py req) read_json-Careful

  Careful-reject_route : (run_id : Text) → Careful s (reject_route py H req run_id s)
  unfolding reject_route
  Careful-reject_route run_id =
      Careful-lift H s _
        (λ body.
          Careful-wrap H s (reject H py run_id) (Careful-reject H s py run_id)
            (get body (lit "feedback") (str [])))
        (read_json py req) read_json-Careful

  Careful-gate_route :
      (request_id action method : Text) (parts : List Text)
      → Careful s (gate_route py H req request_id action (no_route py method parts) s)
  unfolding gate_route no_route
  Careful-gate_route request_id action method parts =
      Careful-lift H s _
        (λ body.
          Careful-wrap H s _ (λ approver. ground (arith, Careful-gates H s request_id approver))
            (get body (lit "approver_id") (str (lit "human"))))
        (read_json py req) read_json-Careful

  Careful-route : (parts : List Text) → Careful s (route py H req parts s)
  unfolding route no_route pending_route run_route gate_pending_route list_pending
      list_gate_requests
  Careful-route (a ∷ []) = ground (arith, Careful-research)
  Careful-route (a ∷ b ∷ []) = ground (arith, Careful-get_run H s b)
  Careful-route (a ∷ b ∷ c ∷ []) = ground (
    arith,
    Careful-approve H s py b,
    Careful-reject_route b,
    Careful-gate_route b c req.method (a ∷ b ∷ c ∷ []),
  )
  Careful-route parts = ground arith

  -- Every response has status 200, 500 or one of the refusals 400, 404 and 409, and a refused request leaves the
  -- service and its runtime as they were.
  pub dispatch_statuses :
      let (response, s') = dispatch py H req s in
      (response.status ≡ 200) ⊎ ((response.status ≡ 500) ⊎ (IsRefusal response.status × (s' ≡ s)))
  unfolding dispatch respond
  dispatch_statuses = ground (arith, Careful-route (path_parts req.path))
