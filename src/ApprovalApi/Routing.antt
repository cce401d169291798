-- ===== src/ApprovalApi/Routing.antt =====
-- The routes of src/approval_api.py, from the path of a request to the method of the service.
use claudecodenodus.Base.{
  Text, lit, ◌==◌, ==-refl, ◌≡◌, ◌∙◌, refl, ◌++◌, false, List, [], ◌∷◌, arith, All,
}
use claudecodenodus.Python.{Python}
use claudecodenodus.ApprovalApi.Path.{
  path_parts, path_of, Plain, path_parts-path_of, path_parts-query,
}
use claudecodenodus.ApprovalApi.Service.{
  Host, Service, approve, list_pending, get_run, list_gate_requests,
}
use claudecodenodus.ApprovalApi.Http.{
  Request, read_json, body_length, Response, route, respond, dispatch, research_route,
  pending_route, run_route, reject_route, gate_pending_route, gate_route,
}

-- The words of the routes are all different.
words :
    ((lit "POST" == lit "GET") ≡ false)
    × ((lit "GET" == lit "POST") ≡ false)
    × ((lit "approvals" == lit "gate") ≡ false)
    × ((lit "gate" == lit "approvals") ≡ false)
    × ((lit "reject" == lit "approve") ≡ false)
    × ((lit "deny" == lit "approve") ≡ false)
unfolding lit ◌==◌
words = (refl, refl, refl, refl, refl, refl)

-- The words are plain parts of a path.
fixed_words :
    Plain (lit "research")
    × Plain (lit "approvals")
    × Plain (lit "approve")
    × Plain (lit "reject")
    × Plain (lit "gate")
    × Plain (lit "pending")
unfolding lit
fixed_words = ground arith

module _ (py : Python) (H : Host) (req : Request) (s : Service H) where
  route_get : (parts : List Text) → req.method ≡ lit "GET" → (route py H req parts s).1 ≡ s
  unfolding route pending_route run_route gate_pending_route list_pending get_run list_gate_requests
  route_get (a ∷ []) get = ground (arith, words)
  route_get (a ∷ b ∷ []) get = ground (arith, words)
  route_get (a ∷ b ∷ c ∷ []) get = ground (arith, words)
  route_get parts get = ground arith

  -- No route reads the path again.
  route-path :
      (p q : Text) (parts : List Text)
      → route py H (record req { path = p }) parts s ≡ route py H (record req { path = q }) parts s
  unfolding route research_route reject_route gate_route read_json body_length
  route-path p q (a ∷ []) = refl
  route-path p q (a ∷ b ∷ []) = refl
  route-path p q (a ∷ b ∷ c ∷ []) = refl
  route-path p q parts = refl

  -- A GET request, whatever its path, changes neither the index nor the runtime.
  dispatch_get : req.method ≡ lit "GET" → (dispatch py H req s).1 ≡ s
  unfolding dispatch
  dispatch_get get = route_get (path_parts req.path) get

  -- The query string of a request does not change its response or its effect.
  dispatch_query :
      (path query : Text)
      → dispatch py H (record req { path = path ++ b'?' ∷ query }) s
        ≡ dispatch py H (record req { path = path }) s
  unfolding dispatch
  dispatch_query path query =
      rw (path_parts-query path query, route-path (path ++ b'?' ∷ query) path (path_parts path))

-- A request with the method and the path that names the parts, with a query string.
abbrev pub at : Request → Text → Text → List Text → Request
at req query method parts = record req { method = method; path = path_of parts ++ b'?' ∷ query }

module _ (py : Python) (H : Host) (req : Request) (s : Service H) (run_id query : Text)
    (plain : Plain run_id) where
  abbrev send : Text → List Text → Response × Service H
  send method parts = dispatch py H (at req query method parts) s

  send-route :
      (method : Text) (parts : List Text)
      → All Plain parts
      → send method parts ≡ (
          let (outcome, s') = route py H (at req query method parts) parts s in
          (respond outcome, s'))
  unfolding dispatch
  send-route method parts h = rw (path_parts-path_of parts query h)

  -- The four approval paths of the documentation lead to their methods, for every plain run id
  -- and with any query string.
  pub dispatch_routes :
      (send (lit "GET") (lit "approvals" ∷ [])
        ≡ (let (outcome, s') = pending_route py H s in (respond outcome, s')))
      × (send (lit "GET") (lit "approvals" ∷ run_id ∷ [])
          ≡ (let (outcome, s') = run_route py H run_id s in (respond outcome, s')))
      × (send (lit "POST") (lit "approvals" ∷ run_id ∷ lit "approve" ∷ [])
          ≡ (let (outcome, s') = approve H py run_id s in (respond outcome, s')))
      × (send (lit "POST") (lit "approvals" ∷ run_id ∷ lit "reject" ∷ [])
          ≡ (let (outcome, s') = reject_route py H req run_id s in (respond outcome, s')))
  unfolding route reject_route read_json body_length
  dispatch_routes = (
    send-route (lit "GET") (lit "approvals" ∷ []) (fixed_words.1, tt)
        ∙ ground (arith, words, ==-refl (lit "GET"), ==-refl (lit "approvals")),
    send-route (lit "GET") (lit "approvals" ∷ run_id ∷ []) (fixed_words.1, (plain, tt))
        ∙ ground (arith, words, ==-refl (lit "GET"), ==-refl (lit "approvals")),
    send-route (lit "POST") (lit "approvals" ∷ run_id ∷ lit "approve" ∷ [])
          (fixed_words.1, (plain, (fixed_words.2, tt)))
        ∙ ground (
          arith,
          words,
          ==-refl (lit "POST"),
          ==-refl (lit "approvals"),
          ==-refl (lit "approve"),
        ),
    send-route (lit "POST") (lit "approvals" ∷ run_id ∷ lit "reject" ∷ [])
          (fixed_words.1, (plain, (fixed_words.3, tt)))
        ∙ ground
            (arith, words, ==-refl (lit "POST"), ==-refl (lit "approvals"), ==-refl (lit "reject")),
  )
