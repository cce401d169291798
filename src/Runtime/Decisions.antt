-- ===== src/Runtime/Decisions.antt =====
-- A decision all the way from an HTTP request (src/approval_api.py) to what the Nodus runtime is
-- told (src/runtime.py).
use claudecodenodus.Base.{
  Text, lit, ◌≡◌, refl, ap, ◌∙◌, ◌⊎◌, inl, inr, true, none, some, List, [], ◌∷◌, ◌++◌, arith,
}
use claudecodenodus.Base.Dict.{lookup}
use claudecodenodus.Exec.{Fault, Result, ok, err, Result-cases}
use claudecodenodus.Json.{Json, bool, str, dict, end, field, truthy, json_key_eq}
use claudecodenodus.Python.{Python, get}
use claudecodenodus.ApprovalApi.Path.{Plain}
use claudecodenodus.ApprovalApi.Service.{
  Host, Run, Service, is_waiting, approve, reject, redraft, update_run, status_of, draft_of,
  published_flag,
}
use claudecodenodus.ApprovalApi.Http.{Request, read_json, reject_route, dispatch}
use claudecodenodus.ApprovalApi.Routing.{at, dispatch_routes}
use claudecodenodus.Runtime.Resume.{
  Nodus, Runtime, is_failed, rejection, replay, resume, resume_on_vm, resume_with_feedback, host,
}
use claudecodenodus.Runtime.Handover.{Sent, Logs, reject_and_replay-Sent}

module _ (H : Host) (run_id : Text) where
  update_run-world : (f : Run → Run) (s : Service H) → (update_run H run_id f s).1.world ≡ s.world
  unfolding update_run
  update_run-world f s = ground arith

  redraft-world : (result : Json) (s : Service H) → (redraft H run_id result s).1.world ≡ s.world
  unfolding redraft
  redraft-world result s = elim (Result-cases (status_of result)) [
    | inr (f, p) ↦ ground arith
    | inl (st, p) ↦
        let set_status : Run → Run = λ r. record r { status = st } in
        let s_new : Service H = (update_run H run_id set_status s).1 in
        elim (Result-cases (draft_of result)) [
          | inr (f, q) ↦ ground (arith, update_run-world set_status s)
          | inl (d, q) ↦
              let set_draft : Run → Run = λ r. record r { draft = d } in
              ground (arith, update_run-world set_status s, update_run-world set_draft s_new)
        ]
  ]

  module _ (py : Python) (s : Service H) (r : Run) (waits : is_waiting r ≡ true)
      (found : lookup (str run_id) s.runs ≡ some r) where
    approve-world :
        (approve H py run_id s).1.world
        ≡ (H.resume run_id (dict (field (lit "approved") (bool true) end)) s.world).1
    unfolding approve
    approve-world =
        elim (Result-cases
          (H.resume run_id (dict (field (lit "approved") (bool true) end)) s.world).0) [
            | inr (f, p) ↦ ground arith
            | inl (result, p) ↦ elim (Result-cases (published_flag result)) [
              | inr (f, q) ↦ ground arith
              | inl (b, q) ↦ ground arith
            ]
          ]

    reject-world :
        (feedback : Json)
        → truthy feedback ≡ true
        → (reject H py run_id feedback s).1.world
          ≡ (H.resume_with_feedback run_id feedback s.world).1
    unfolding reject
    reject-world feedback t =
        elim (Result-cases (H.resume_with_feedback run_id feedback s.world).0) [
          | inr (f, p) ↦ ground arith
          | inl (result, p) ↦
              let w : H.State = (H.resume_with_feedback run_id feedback s.world).1 in
              ground (arith, redraft-world result (record s { world = w }))
        ]

-- An answer after which nothing is replayed: a failure, or an exception.
abbrev pub Ends : Result Fault Json → Type 0
Ends r =
    ((answer : Json) × (r ≡ ok answer) × (is_failed answer ≡ true)) ⊎ ((f : Fault) × (r ≡ err f))

module _ (N : Nodus) (py : Python) (log : Runtime N → List (Sent N))
    (logs : Logs N (resume_on_vm N) log) (req : Request) (run_id query : Text)
    (plain : Plain run_id) (s : Service (host N)) (r : Run)
    (found : lookup (str run_id) s.runs ≡ some r) (waits : is_waiting r ≡ true) where
  -- The messages to the runtime, after a request to the path of a decision.
  abbrev pub sent_after : Text → List (Sent N)
  sent_after action =
      log
        (dispatch py (host N) (at req query (lit "POST") (lit "approvals" ∷ run_id ∷ action ∷ []))
          s).1.world

  read_feedback :
      (body feedback : Json)
      → read_json py req ≡ ok body
      → get body (lit "feedback") (str []) ≡ ok feedback
      → reject_route py (host N) req run_id s ≡ reject (host N) py run_id feedback s
  unfolding reject_route
  read_feedback body feedback b f = rw (b, f) refl

  sent-reject :
      (body feedback : Json)
      → read_json py req ≡ ok body
      → get body (lit "feedback") (str []) ≡ ok feedback
      → truthy feedback ≡ true
      → sent_after (lit "reject") ≡ log (resume_with_feedback N run_id feedback s.world).1
  sent-reject body feedback b f t =
      ap (λ p. log p.1.world) (dispatch_routes py (host N) req s run_id query plain).3
      ∙ ap (λ p. log p.1.world) (read_feedback body feedback b f)
      ∙ ap log (reject-world (host N) run_id py s r waits found feedback t)

  pub decisions_sent :
      (body feedback : Json)
      → read_json py req ≡ ok body
      → get body (lit "feedback") (str []) ≡ ok feedback
      → truthy feedback ≡ true
      → (sent_after (lit "approve")
          ≡ log s.world ++ ((none, dict (field (lit "approved") (bool true) end)) ∷ []))
        × (((sent_after (lit "reject") ≡ log s.world ++ ((none, rejection feedback) ∷ []))
              × Ends (resume_on_vm N run_id none (rejection feedback) s.world).0)
            ⊎ (sent_after (lit "reject")
                ≡ (log s.world ++ ((none, rejection feedback) ∷ []))
                  ++ ((some (lit "before_draft"), replay feedback) ∷ [])))
  unfolding resume_with_feedback
  decisions_sent body feedback b f t = (
    ap (λ p. log p.1.world) (dispatch_routes py (host N) req s run_id query plain).2
        ∙ ap log (approve-world (host N) run_id py s r waits found)
        ∙ (unfold resume in logs run_id none _ s.world),
    elim (reject_and_replay-Sent N (resume_on_vm N) log logs run_id feedback s.world) [
      | inl one ↦ inl (sent-reject body feedback b f t ∙ one.0, one.2)
      | inr two ↦ inr (sent-reject body feedback b f t ∙ two.0)
    ],
  )
