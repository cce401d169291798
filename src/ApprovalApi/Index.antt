-- ===== src/ApprovalApi/Index.antt =====
-- The index `_runs` of src/approval_api.py: every record stands under its own run id, once, and
-- the list of pending runs is what single look-ups say.
use claudecodenodus.Base.{
  Text, lit, ◌≡◌, refl, ◌↔◌, inl, inr, true, some, [], ◌∷◌, arith, All, In, Option-cases,
}
use claudecodenodus.Base.Dict.{Dict, lookup, insert, UniqueKeys, insert-UniqueKeys}
use claudecodenodus.Exec.{ok, Result-cases}
use claudecodenodus.Json.{Json, str, json_eq_iff, json_key_eq}
use claudecodenodus.Python.{Python}
use claudecodenodus.ApprovalApi.Service.{
  Host, Run, Service, is_waiting, waiting_runs, get_run, start_research, list_pending, approve,
  reject, update_run, store_run, redraft, status_of, draft_of, new_run,
}

abbrev Keyed : Dict Json Run → Type 0
Keyed d = All (λ e. e.1.run_id ≡ e.0) d

-- No run id occurs twice, and each record carries the id that it is stored under.
pub record IsIndexed (runs : Dict Json Run) : Type 0 where
  pub unique : UniqueKeys runs
  pub keyed : Keyed runs

insert-Keyed :
    (k : Json) (r : Run) (d : Dict Json Run) → r.run_id ≡ k → Keyed d → Keyed (insert k r d)
unfolding insert
insert-Keyed k r [] e h = (e, tt)
insert-Keyed k r ((j, q) ∷ d) e h = ground (arith, json_eq_iff j k, insert-Keyed k r d e h.1)

insert-IsIndexed :
    (k : Json) (r : Run) (d : Dict Json Run) → r.run_id ≡ k → IsIndexed d → IsIndexed (insert k r d)
insert-IsIndexed k r d e h = record {
  unique = insert-UniqueKeys k r d h.unique;
  keyed = insert-Keyed k r d e h.keyed;
}

pub run_id-lookup :
    (k : Json) (r : Run) (d : Dict Json Run) → Keyed d → lookup k d ≡ some r → r.run_id ≡ k
unfolding lookup
run_id-lookup k r [] h e = cc
run_id-lookup k r ((j, q) ∷ d) h e = ground (arith, json_eq_iff j k, run_id-lookup k r d h.1)

module _ (H : Host) where
  abbrev pub Indexed : Service H → Type 0
  Indexed s = IsIndexed s.runs

  pub update_run-IsIndexed :
      (run_id : Text) (f : Run → Run) (s : Service H)
      → ((r : Run) → (f r).run_id ≡ r.run_id)
      → Indexed s
      → Indexed (update_run H run_id f s).1
  unfolding update_run
  update_run-IsIndexed run_id f s same h = elim (Option-cases (lookup (str run_id) s.runs)) [
    | inl e ↦ ground arith
    | inr (r, e) ↦ ground (
      arith,
      insert-IsIndexed (str run_id) (f r) s.runs,
      run_id-lookup (str run_id) r s.runs,
      same r,
    )
  ]

  pub store_run-IsIndexed : (r : Run) (s : Service H) → Indexed s → Indexed (store_run H r s).1
  unfolding store_run
  store_run-IsIndexed r s h = ground (arith, insert-IsIndexed r.run_id r s.runs refl h)

  pub start-IsIndexed :
      (q i : Json) (s : Service H) → Indexed s → Indexed (start_research H q i s).1
  unfolding start_research
  start-IsIndexed q i s h =
      let (outcome, w) = H.start q i s.world in
      elim (Result-cases outcome) [
        | inr (f, p) ↦ ground arith
        | inl (result, p) ↦ elim (Result-cases (new_run q i result)) [
          | inr (f, e) ↦ ground arith
          | inl (r, e) ↦ ground (arith, store_run-IsIndexed r (record s { world = w }))
        ]
      ]

  redraft-IsIndexed :
      (run_id : Text) (result : Json) (s : Service H)
      → Indexed s
      → Indexed (redraft H run_id result s).1
  unfolding redraft
  redraft-IsIndexed run_id result s h = elim (Result-cases (status_of result)) [
    | inr (f, p) ↦ ground arith
    | inl (st, p) ↦
        let set_status : Run → Run = λ r. record r { status = st } in
        let s_new : Service H = (update_run H run_id set_status s).1 in
        let first : Indexed s_new = update_run-IsIndexed run_id set_status s (λ r. refl) h in
        elim (Result-cases (draft_of result)) [
          | inr (f, q) ↦ ground arith
          | inl (d, q) ↦
              let set_draft : Run → Run = λ r. record r { draft = d } in
              ground (arith, update_run-IsIndexed run_id set_draft s_new (λ r. refl) first)
        ]
  ]

  module _ (py : Python) where
    pub approve-IsIndexed :
        (run_id : Text) (s : Service H) → Indexed s → Indexed (approve H py run_id s).1
    unfolding approve
    approve-IsIndexed run_id s h = elim (Option-cases (lookup (str run_id) s.runs)) [
      | inl e ↦ ground arith
      | inr (r, e) ↦
          let published : Run = record r { status = str (lit "published") } in
          let completed : Run = record r { status = str (lit "completed") } in
          ground (
            arith,
            run_id-lookup (str run_id) r s.runs h.keyed e,
            insert-IsIndexed (str run_id) published s.runs,
            insert-IsIndexed (str run_id) completed s.runs,
          )
    ]

    pub reject-IsIndexed :
        (run_id : Text) (feedback : Json) (s : Service H)
        → Indexed s
        → Indexed (reject H py run_id feedback s).1
    unfolding reject
    reject-IsIndexed run_id feedback s h =
        let (outcome, w) = H.resume_with_feedback run_id feedback s.world in
        elim (Result-cases outcome) [
          | inl (result, p) ↦
              ground (arith, redraft-IsIndexed run_id result (record s { world = w }))
          | inr (f, p) ↦ ground arith
        ]

-- A record is among the pending ones exactly if a look-up of its id finds it waiting.
waiting_runs-In :
    (r : Run) (d : Dict Json Run)
    → IsIndexed d
    → In r (waiting_runs d) ↔ ((lookup r.run_id d ≡ some r) × (is_waiting r ≡ true))
unfolding waiting_runs lookup
waiting_runs-In r [] h = ground arith
waiting_runs-In r ((k, q) ∷ d) h =
    let tail : IsIndexed d = record { unique = h.unique.1; keyed = h.keyed.1 } in
    ground (arith, waiting_runs-In r d tail, json_eq_iff k r.run_id)

-- In an indexed service a record is listed as pending exactly if looking up its id finds it and
-- it waits; listing changes nothing.
list_pending-In :
    (H : Host) (s : Service H) (run_id : Text) (r : Run)
    → IsIndexed s.runs
    → r.run_id ≡ str run_id
    → (list_pending H s ≡ (ok (waiting_runs s.runs), s))
      × (In r (waiting_runs s.runs) ↔ ((get_run H run_id s ≡ (ok r, s)) × (is_waiting r ≡ true)))
unfolding list_pending get_run
list_pending-In H s run_id r h e = (refl, iff)
  where
    found : (get_run H run_id s ≡ (ok r, s)) ↔ (lookup r.run_id s.runs ≡ some r)
    found = rw e (ground arith)

    iff : In r (waiting_runs s.runs) ↔ ((get_run H run_id s ≡ (ok r, s)) × (is_waiting r ≡ true))
    iff =
        let both = waiting_runs-In r s.runs h in
        (λ m. (found.1 (both.0 m).0, (both.0 m).1), λ (g, w). both.1 (found.0 g, w))
