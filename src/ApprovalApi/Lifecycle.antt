-- ===== src/ApprovalApi/Lifecycle.antt =====
-- The review of a draft through `ApprovalService` (src/approval_api.py): what approving and
-- rejecting do to the index of runs and to the runtime.
use claudecodenodus.Base.{
  Text, ◌==◌, lit, ◌≡◌, refl, ◌≢◌, ◌⊎◌, inl, inr, true, false, some, arith, Holds, Option-cases,
}
use claudecodenodus.Base.Dict.{Dict, lookup, lookup-insert}
use claudecodenodus.Exec.{ok, err, Result-cases}
use claudecodenodus.Json.{Json, str, truthy, json_eq, json_eq_iff, json_key_eq}
use claudecodenodus.Python.{Python}
use claudecodenodus.ApprovalApi.Service.{
  Host, Error, Run, Service, is_waiting, not_waiting, approve, reject, update_run, redraft,
  status_of, draft_of,
}

-- Neither outcome of an approval reads as waiting.
published_decided : (r : Run) → is_waiting (record r { status = str (lit "published") }) ≡ false
unfolding is_waiting json_eq lit ◌==◌
published_decided r = refl

completed_decided : (r : Run) → is_waiting (record r { status = str (lit "completed") }) ≡ false
unfolding is_waiting json_eq lit ◌==◌
completed_decided r = refl

module _ (H : Host) (run_id : Text) (s : Service H) (other : Json) (ne : other ≢ str run_id) where
  differs : json_eq (str run_id) other ≡ false
  differs = ground (arith, json_eq_iff (str run_id) other)

  -- An update of one record leaves the others.
  pub update_run-frame :
      (f : Run → Run) → lookup other (update_run H run_id f s).1.runs ≡ lookup other s.runs
  unfolding update_run
  update_run-frame f = elim (Option-cases (lookup (str run_id) s.runs)) [
    | inl e ↦ ground arith
    | inr (r, e) ↦ ground (arith, differs, lookup-insert (str run_id) other (f r) s.runs)
  ]

module _ (H : Host) (run_id : Text) (other : Json) (ne : other ≢ str run_id) where
  redraft-frame :
      (s : Service H) (result : Json)
      → lookup other (redraft H run_id result s).1.runs ≡ lookup other s.runs
  unfolding redraft
  redraft-frame s result = elim (Result-cases (status_of result)) [
    | inr (f, p) ↦ ground arith
    | inl (st, p) ↦
        let set_status : Run → Run = λ r. record r { status = st } in
        let s_new : Service H = (update_run H run_id set_status s).1 in
        elim (Result-cases (draft_of result)) [
          | inr (f, q) ↦ ground (arith, update_run-frame H run_id s other ne set_status)
          | inl (d, q) ↦
              let set_draft : Run → Run = λ r. record r { draft = d } in
              ground (
                arith,
                update_run-frame H run_id s other ne set_status,
                update_run-frame H run_id s_new other ne set_draft,
              )
        ]
  ]

module _ (H : Host) (py : Python) (run_id : Text) where
  abbrev pub Decided : Run → Type 0
  Decided r = (r.status ≡ str (lit "published")) ⊎ (r.status ≡ str (lit "completed"))

  pub approve-Decided :
      (s s' : Service H) (answer : Json)
      → approve H py run_id s ≡ (ok answer, s')
      → Holds (lookup (str run_id) s'.runs) (λ r. Decided r × (is_waiting r ≡ false))
  unfolding approve
  approve-Decided s s' answer h = elim (Option-cases (lookup (str run_id) s.runs)) [
    | inl e ↦ ground arith
    | inr (r, e) ↦ ground (
      arith,
      lookup-insert (str run_id) (str run_id) (record r { status = str (lit "published") }) s.runs,
      lookup-insert (str run_id) (str run_id) (record r { status = str (lit "completed") }) s.runs,
      json_eq_iff (str run_id) (str run_id),
      published_decided r,
      completed_decided r,
    )
  ]

  -- A run that does not wait is neither approved nor rejected.
  pub decided-refused :
      (s : Service H) (r : Run) (feedback : Json)
      → lookup (str run_id) s.runs ≡ some r
      → is_waiting r ≡ false
      → truthy feedback ≡ true
      → (approve H py run_id s ≡ (err (not_waiting py run_id r), s))
        × (reject H py run_id feedback s ≡ (err (not_waiting py run_id r), s))
  unfolding approve reject
  decided-refused s r feedback e w t = ground arith

  pub decided-unchanged :
      (s : Service H) (r : Run) (feedback : Json)
      → lookup (str run_id) s.runs ≡ some r
      → is_waiting r ≡ false
      → ((approve H py run_id s).1 ≡ s) × ((reject H py run_id feedback s).1 ≡ s)
  unfolding approve reject
  decided-unchanged s r feedback e w = ground arith

  -- An approval that raises leaves the index of runs as it was.
  approve_atomic :
      (s s' : Service H) (e : Error) → approve H py run_id s ≡ (err e, s') → s'.runs ≡ s.runs
  unfolding approve
  approve_atomic s s' e h = ground arith

  -- Approving or rejecting one run, whatever comes of it, leaves the records of all other runs.
  pub decide_frame :
      (s : Service H) (feedback other : Json)
      → other ≢ str run_id
      → (lookup other (approve H py run_id s).1.runs ≡ lookup other s.runs)
        × (lookup other (reject H py run_id feedback s).1.runs ≡ lookup other s.runs)
  unfolding approve reject
  decide_frame s feedback other h = (
    elim (Option-cases (lookup (str run_id) s.runs)) [
      | inl e ↦ ground arith
      | inr (r, e) ↦ ground (
        arith,
        differs H run_id s other h,
        lookup-insert (str run_id) other (record r { status = str (lit "published") }) s.runs,
        lookup-insert (str run_id) other (record r { status = str (lit "completed") }) s.runs,
      )
    ],
    let (outcome, w) = H.resume_with_feedback run_id feedback s.world in
        elim (Result-cases outcome) [
          | inl (result, p) ↦
              ground (arith, redraft-frame H run_id other h (record s { world = w }) result)
          | inr (f, p) ↦ ground arith
        ],
  )
