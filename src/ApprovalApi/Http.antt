-- ===== src/ApprovalApi/Http.antt =====
-- `ResearchApprovalHandler` of src/approval_api.py: a JSON request is routed to the service, and
-- every outcome becomes one response.
use claudecodenodus.Base.{
  ℕ, Text, lit, ◌==◌, ◌++◌, ◌&&◌, Option, none, some, List, [], ◌∷◌, map, if◌then◌else◌,
}
use claudecodenodus.Base.Int.{ℤ, pos, is_zero}
use claudecodenodus.Exec.{Result, ok, err, bind, pure, raise, lift, ◌>>=◌}
use claudecodenodus.Json.{Json, str, list, dict, end, field, list_of}
use claudecodenodus.Python.{Python, Loaded, value, malformed, broken, get}
use claudecodenodus.ApprovalApi.Path.{path_parts}
use claudecodenodus.ApprovalApi.Service.{
  Host, Service, Error, refused, fault, Action, wrap, run_json, gate_json, start_research,
  list_pending, get_run, approve, reject, list_gate_requests, approve_gate, deny_gate,
}

-- A request as the handler reads it; `read n` is what `rfile.read(n)` returns.
pub record Request : Type 0 where
  pub method : Text
  pub path : Text
  pub content_length : Option Text
  pub read : ℤ → Text

pub record Response : Type 0 where
  pub status : ℕ
  pub body : Json

-- `" / ".join(parts)` without the spaces
unfoldable pub join_slash : List Text → Text
join_slash [] = []
join_slash (p ∷ []) = p
join_slash (p ∷ q ∷ parts) = p ++ b'/' ∷ join_slash (q ∷ parts)

error_body : Text → Json
error_body message = dict (field (lit "error") (str message) end)

-- `_send` of the payload, of an `ApprovalError`, or of any other exception
unfoldable pub respond : Result Error Json → Response
unfolding error_body
respond (ok payload) = record { status = 200; body = payload }
respond (err (refused message status)) = record { status = status; body = error_body message }
respond (err (fault f)) = record {
  status = 500;
  body = error_body (f.kind ++ (lit ": " ++ f.message));
}

module _ (py : Python) where
  -- `int(headers.get("Content-Length", 0) or 0)`
  unfoldable pub body_length : Request → Result Error ℤ
  body_length req = elim req.content_length [
    | none ↦ ok (pos 0)
    | some [] ↦ ok (pos 0)
    | some (c ∷ t) ↦ wrap (py.parse_int (c ∷ t))
  ]

  parsed : Loaded → Result Error Json
  parsed (value j) = ok j
  parsed (malformed message) = err (refused (lit "invalid JSON body: " ++ message) 400)
  parsed (broken f) = err (fault f)

  unfoldable pub read_json : Request → Result Error Json
  unfolding body_length parsed
  read_json req = bind (body_length req) (λ n.
      if is_zero n
      then ok (dict end)
      else let raw = req.read n in parsed (py.loads (if raw == [] then lit "{}" else raw)))

  unfoldable pub no_route : Text → List Text → Error
  unfolding join_slash
  no_route method parts =
      refused (lit "no route for " ++ (method ++ (lit " /" ++ join_slash parts))) 404

  module _ (H : Host) where
    unfoldable pub research_route : Request → Action H Json
    research_route req = do
      body ← lift (read_json req)
      question ← lift (wrap (get body (lit "question") (str [])))
      session_id ← lift (wrap (get body (lit "session_id") (str [])))
      r ← start_research H question session_id
      pure (run_json r)

    unfoldable pub pending_route : Action H Json
    pending_route = do rs ← list_pending H; pure (list (list_of (map run_json rs)))

    unfoldable pub run_route : Text → Action H Json
    run_route run_id = do r ← get_run H run_id; pure (run_json r)

    unfoldable pub reject_route : Request → Text → Action H Json
    reject_route req run_id = do
      body ← lift (read_json req)
      feedback ← lift (wrap (get body (lit "feedback") (str [])))
      reject H py run_id feedback

    unfoldable pub gate_pending_route : Action H Json
    gate_pending_route = do rs ← list_gate_requests H; pure (list (list_of (map gate_json rs)))

    -- The body is read before the action is looked at.
    unfoldable pub gate_route : Request → Text → Text → Error → Action H Json
    gate_route req request_id action missing = do
      body ← lift (read_json req)
      approver ← lift (wrap (get body (lit "approver_id") (str (lit "human"))))
      if action == lit "approve"
          then approve_gate H request_id approver
          else if action == lit "deny"
          then deny_gate H request_id approver
          else raise missing

    -- The routes of `_route`, by the number of parts that each of them asks for.
    unfoldable pub route : Request → List Text → Action H Json
    route req (a ∷ []) s =
        if req.method == lit "POST" && a == lit "research"
        then research_route req s
        else if req.method == lit "GET" && a == lit "approvals"
        then pending_route s
        else raise (no_route req.method (a ∷ [])) s
    route req (a ∷ b ∷ []) s =
        if req.method == lit "GET" && a == lit "approvals"
        then run_route b s
        else if req.method == lit "GET" && (a == lit "gate" && b == lit "pending")
        then gate_pending_route s
        else raise (no_route req.method (a ∷ b ∷ [])) s
    route req (a ∷ b ∷ c ∷ []) s =
        if req.method == lit "POST" && (a == lit "approvals" && c == lit "approve")
        then approve H py b s
        else if req.method == lit "POST" && (a == lit "approvals" && c == lit "reject")
        then reject_route req b s
        else if req.method == lit "POST" && a == lit "gate"
        then gate_route req b c (no_route req.method (a ∷ b ∷ c ∷ [])) s
        else raise (no_route req.method (a ∷ b ∷ c ∷ [])) s
    route req parts s = raise (no_route req.method parts) s

    -- `_dispatch`: the response and the service after it
    unfoldable pub dispatch : Request → Service H → Response × Service H
    dispatch req s = let (outcome, s') = route req (path_parts req.path) s in (respond outcome, s')

    -- Requests one after the other, for their effect on the service.
    unfoldable pub serve_all : List Request → Service H → Service H
    serve_all [] s = s
    serve_all (req ∷ reqs) s = serve_all reqs (dispatch req s).1
