-- ===== src/ApprovalApi/Threads/Alone.antt =====
-- The steps of a thread against the method that they come from (src/approval_api.py).
use claudecodenodus.Base.{
  Text, lit, ◌≡◌, inl, inr, true, not, ◌||◌, arith, Option-cases, Bool-cases,
}
use claudecodenodus.Base.Dict.{lookup}
use claudecodenodus.Exec.{ok, bind, Result-cases}
use claudecodenodus.Json.{Json, bool, str, dict, end, field, truthy, json_key_eq}
use claudecodenodus.Python.{Python}
use claudecodenodus.ApprovalApi.Service.{
  Host, Service, start_research, new_run, store_run, run_json, approve, reject, require_waiting,
  update_run, redraft, status_of, draft_of, published_flag,
}
use claudecodenodus.ApprovalApi.Threads.{
  approving, rejecting, starting, finished, next, advance, alone,
}

module _ (H : Host) (py : Python) where
  -- Alone, a thread does what its method does, in one go.
  alone-approve :
      (run_id : Text) (s : Service H)
      → alone H py 4 (approving run_id) s
        ≡ (finished (approve H py run_id s).0, (approve H py run_id s).1)
  unfolding alone advance next approve update_run require_waiting
  alone-approve run_id s = elim (Option-cases (lookup (str run_id) s.runs)) [
    | inl e ↦ ground arith
    | inr (r, e) ↦
        elim (Result-cases
          (H.resume run_id (dict (field (lit "approved") (bool true) end)) s.world).0) [
            | inl (result, h) ↦ elim (Result-cases (published_flag result)) [
              | inl (b, p) ↦ ground arith
              | inr (f, p) ↦ ground arith
            ]
            | inr (f, h) ↦ ground arith
          ]
  ]

  alone-reject :
      (run_id : Text) (feedback : Json) (s : Service H)
      → alone H py 4 (rejecting run_id feedback) s
        ≡ (finished (reject H py run_id feedback s).0, (reject H py run_id feedback s).1)
  unfolding alone advance next reject redraft update_run require_waiting
  alone-reject run_id feedback s = elim (Bool-cases (truthy feedback)) [
    | inr t ↦ ground arith
    | inl t ↦ elim (Option-cases (lookup (str run_id) s.runs)) [
      | inl e ↦ ground arith
      | inr (r, e) ↦ elim (Result-cases (H.resume_with_feedback run_id feedback s.world).0) [
        | inr (f, h) ↦ ground arith
        | inl (result, h) ↦ elim (Result-cases (status_of result)) [
          | inr (f, p) ↦ ground arith
          | inl (st, p) ↦ elim (Result-cases (draft_of result)) [
            | inr (f, q) ↦ ground arith
            | inl (d, q) ↦ ground arith
          ]
        ]
      ]
    ]
  ]

  alone-start :
      (question session_id : Json) (s : Service H)
      → let (r, s') = start_research H question session_id s in
        alone H py 4 (starting question session_id) s
        ≡ (finished (bind r (λ run. ok (run_json run))), s')
  unfolding alone advance next start_research
  alone-start question session_id s =
      elim (Bool-cases (not (truthy question) || not (truthy session_id))) [
        | inl t ↦ ground arith
        | inr t ↦ elim (Result-cases (H.start question session_id s.world).0) [
          | inr (f, h) ↦ ground arith
          | inl (result, h) ↦ elim (Result-cases (new_run question session_id result)) [
            | inr (f, n) ↦ ground arith
            | inl (r, n) ↦
                let w : H.State = (H.start question session_id s.world).1 in
                elim (Result-cases (store_run H r (record s { world = w })).0) [
                  | inl (u, k) ↦ ground arith
                  | inr (e, k) ↦ ground arith
                ]
          ]
        ]
      ]

  -- Run without interruption, a thread does exactly what its method does as one action: it starts
  -- a run, approves it or rejects it.
  alone_lem :
      (run_id : Text) (question session_id feedback : Json) (s : Service H)
      → (let (r, s') = start_research H question session_id s in
          alone H py 4 (starting question session_id) s
          ≡ (finished (bind r (λ run. ok (run_json run))), s'))
        × (alone H py 4 (approving run_id) s
            ≡ (finished (approve H py run_id s).0, (approve H py run_id s).1))
        × (alone H py 4 (rejecting run_id feedback) s
            ≡ (finished (reject H py run_id feedback s).0, (reject H py run_id feedback s).1))
  alone_lem run_id question session_id feedback s =
      (alone-start question session_id s, alone-approve run_id s, alone-reject run_id feedback s)
