-- ===== src/ApprovalApi/Invariants.antt =====
-- What every operation of the service keeps, every sequence of requests keeps
-- (src/approval_api.py), such as the form of the index `_runs`.
use claudecodenodus.Base.{Text, lit, ◌≡◌, List, [], ◌∷◌, arith}
use claudecodenodus.Exec.{Result, ok, err, lift, pure, ◌>>=◌}
use claudecodenodus.Json.{Json, null, str, json_key_eq}
use claudecodenodus.Python.{Python, get}
use claudecodenodus.ApprovalApi.Path.{path_parts}
use claudecodenodus.ApprovalApi.Service.{
  Host, Service, Error, Run, Action, run_json, wrap, new_run, start_research, list_pending, get_run,
  approve, reject, list_gate_requests, approve_gate, deny_gate,
}
use claudecodenodus.ApprovalApi.Http.{
  Request, read_json, no_route, route, dispatch, serve_all, research_route, pending_route,
  run_route, reject_route, gate_pending_route, gate_route,
}
use claudecodenodus.ApprovalApi.Index.{
  IsIndexed, start-IsIndexed, approve-IsIndexed, reject-IsIndexed,
}

graph_id-new_run :
    (q i result : Json) (r : Run)
    → new_run q i result ≡ ok r
    → get result (lit "graph_id") null ≡ ok r.run_id
unfolding new_run
graph_id-new_run q i result r h = ground arith

module _ (H : Host) (py : Python) where
  -- `P` is kept by each operation of the service.
  pub record IsKept (P : Service H → Type 0) : Type 0 where
    pub at_start : (q i : Json) (s : Service H) → P s → P (start_research H q i s).1
    pub at_approve : (run_id : Text) (s : Service H) → P s → P (approve H py run_id s).1
    pub at_reject :
        (run_id : Text) (feedback : Json) (s : Service H)
        → P s
        → P (reject H py run_id feedback s).1
    pub at_gate_approve :
        (id : Text) (approver : Json) (s : Service H)
        → P s
        → P (record s { world = (H.gate_approve id approver s.world).1 })
    pub at_gate_deny :
        (id : Text) (approver : Json) (s : Service H)
        → P s
        → P (record s { world = (H.gate_deny id approver s.world).1 })

  module _ (P : Service H → Type 0) (s : Service H) (h : P s) where
    keep-lift :
        {A B : Type 0} (f : A → Action H B) (r : Result Error A)
        → ((a : A) → P (f a s).1)
        → P ((lift r >>= f) s).1
    keep-lift f (ok a) k = k a
    keep-lift f (err e) k = h

    keep-map :
        {A B : Type 0} (m : Action H A) (g : A → B) → P (m s).1 → P ((m >>= λ a. pure (g a)) s).1
    keep-map m g k = ground arith

  module _ (P : Service H → Type 0) (kept : IsKept P) (req : Request) (s : Service H)
      (h : P s) where
    keep-research : P (research_route py H req s).1
    unfolding research_route
    keep-research = keep-lift P s h _ (read_json py req) (λ body.
        keep-lift P s h _ (wrap (get body (lit "question") (str []))) (λ q.
          keep-lift P s h _ (wrap (get body (lit "session_id") (str [])))
            (λ i. keep-map P s h (start_research H q i) run_json (kept.at_start q i s h))))

    keep-reject_route : (run_id : Text) → P (reject_route py H req run_id s).1
    unfolding reject_route
    keep-reject_route run_id = keep-lift P s h _ (read_json py req) (λ body.
        keep-lift P s h (reject H py run_id) (wrap (get body (lit "feedback") (str [])))
          (λ feedback. kept.at_reject run_id feedback s h))

    keep-gates :
        (request_id : Text) (approver : Json)
        → P (approve_gate H request_id approver s).1 × P (deny_gate H request_id approver s).1
    unfolding approve_gate deny_gate
    keep-gates request_id approver = ground (
      arith,
      kept.at_gate_approve request_id approver s h,
      kept.at_gate_deny request_id approver s h,
    )

    keep-gate_route :
        (request_id action : Text) (e : Error) → P (gate_route py H req request_id action e s).1
    unfolding gate_route
    keep-gate_route request_id action e = keep-lift P s h _ (read_json py req) (λ body.
        keep-lift P s h _ (wrap (get body (lit "approver_id") (str (lit "human"))))
          (λ approver. ground (arith, keep-gates request_id approver)))

    keep-route : (parts : List Text) → P (route py H req parts s).1
    unfolding route pending_route run_route gate_pending_route list_pending list_gate_requests
        get_run
    keep-route (a ∷ []) = ground (arith, keep-research)
    keep-route (a ∷ b ∷ []) = ground arith
    keep-route (a ∷ b ∷ c ∷ []) = ground (
      arith,
      kept.at_approve b s h,
      keep-reject_route b,
      keep-gate_route b c (no_route py req.method (a ∷ b ∷ c ∷ [])),
    )
    keep-route parts = ground arith

  module _ (P : Service H → Type 0) (kept : IsKept P) where
    pub serve_all-kept : (reqs : List Request) (s : Service H) → P s → P (serve_all py H reqs s)
    unfolding serve_all dispatch
    serve_all-kept [] s h = h
    serve_all-kept (req ∷ reqs) s h =
        serve_all-kept reqs (route py H req (path_parts req.path) s).1
          (keep-route P kept req s h (path_parts req.path))

  -- Whatever the requests, an indexed service stays indexed.
  serve_all-IsIndexed :
      (reqs : List Request) (s : Service H)
      → IsIndexed s.runs
      → IsIndexed (serve_all py H reqs s).runs
  serve_all-IsIndexed =
      serve_all-kept (λ s. IsIndexed s.runs)
        (record {
          at_start = start-IsIndexed H;
          at_approve = approve-IsIndexed H py;
          at_reject = reject-IsIndexed H py;
          at_gate_approve = λ id approver s h. h;
          at_gate_deny = λ id approver s h. h;
        })
