-- ===== src/ApprovalApi/Decided.antt =====
-- Runs that were decided (src/approval_api.py), whatever requests came before and come after.
use mathlib.Core.Path.{subst}
use claudecodenodus.Base.{
  ap, Text, lit, ◌==◌, eq-of-==, ◌≡◌, ◌∙◌, ◌⊎◌, true, false, none, some, Option-cases, List, [],
  arith, Bool-cases, inl, inr, Holds,
}
use claudecodenodus.Base.Dict.{lookup, lookup-insert}
use claudecodenodus.Exec.{ok, err, Result-cases}
use claudecodenodus.Json.{Json, null, str, truthy, json_eq_iff, json_key_eq}
use claudecodenodus.Python.{Python, get}
use claudecodenodus.ApprovalApi.Service.{
  Host, Service, Run, is_waiting, not_waiting, new_run, store_run, start_research, approve, reject,
}
use claudecodenodus.ApprovalApi.Http.{Request, serve_all}
use claudecodenodus.ApprovalApi.Lifecycle.{
  decided-unchanged, decide_frame, approve-Decided, decided-refused,
}
use claudecodenodus.ApprovalApi.Invariants.{IsKept, serve_all-kept}
use claudecodenodus.ApprovalApi.Issued.{
  Issues, other_run, approve_adds_none, reject_adds_none, start-Issued, approve-Issued,
  reject-Issued,
}

graph_id-new_run :
    (q i result : Json) (r : Run)
    → new_run q i result ≡ ok r
    → get result (lit "graph_id") null ≡ ok r.run_id
unfolding new_run
graph_id-new_run q i result r h = ground arith

module _ (H : Host) (py : Python) where
  -- The service of a process that has answered no request.
  abbrev pub fresh_service : H.State → Service H
  fresh_service w = record { runs = []; world = w }

  module _ (ids : Issues H py) where
    new_run_issued :
        (q i : Json) (t : Text) (r : Run) (s : Service H)
        → lookup (str t) s.runs ≡ none
        → lookup (str t) (start_research H q i s).1.runs ≡ some r
        → ids.Issued t (start_research H q i s).1.world
    unfolding start_research store_run
    new_run_issued q i t r s n e = elim (Result-cases (H.start q i s.world).0) [
      | inr (f, p) ↦ ground arith
      | inl (result, p) ↦ elim (Result-cases (new_run q i result)) [
        | inr (f, w) ↦ ground arith
        | inl (r', w) ↦ ground (
          arith,
          lookup-insert r'.run_id (str t) r' s.runs,
          json_eq_iff r'.run_id (str t),
          graph_id-new_run q i result r' w,
          ids.issued q i result t s.world p,
        )
      ]
    ]

    -- The runtime gave out the id of each run of the index.
    record AreIssued (s : Service H) : Type 0 where
      pub at : (t : Text) (r : Run) → lookup (str t) s.runs ≡ some r → ids.Issued t s.world

    -- A method that adds no run, and after which every id is still given.
    after_decision :
        (s s' : Service H)
        → AreIssued s
        → ((t : Text) → lookup (str t) s.runs ≡ none → lookup (str t) s'.runs ≡ none)
        → ((t : Text) → ids.Issued t s.world → ids.Issued t s'.world)
        → AreIssued s'
    after_decision s s' h none_new kept = record {
      at = λ t r e. elim (Option-cases (lookup (str t) s.runs)) [
        | inl n ↦ let gone = none_new t n in absurd cc
        | inr (old, f) ↦ kept t (h.at t old f)
      ];
    }

    AreIssued-IsKept : IsKept H py AreIssued
    AreIssued-IsKept = record {
      at_start = λ q i s h. record {
        at = λ t r e. elim (Option-cases (lookup (str t) s.runs)) [
          | inl n ↦ new_run_issued q i t r s n e
          | inr (old, f) ↦ start-Issued H py ids t q i s (h.at t old f)
        ];
      };
      at_approve = λ id s h.
          after_decision s _ h (λ t. approve_adds_none H py id t s)
            (λ t. approve-Issued H py ids t id s);
      at_reject = λ id feedback s h.
          after_decision s _ h (λ t. reject_adds_none H py id t feedback s)
            (λ t. reject-Issued H py ids t id feedback s);
      at_gate_approve = λ id approver s h.
          after_decision s _ h (λ t n. n) (λ t. ids.at_gate_approve id approver t s.world);
      at_gate_deny = λ id approver s h.
          after_decision s _ h (λ t n. n) (λ t. ids.at_gate_deny id approver t s.world);
    }

    module _ (run_id : Text) (r : Run) (decided : is_waiting r ≡ false) where
      record Stays (s : Service H) : Type 0 where
        pub found : lookup (str run_id) s.runs ≡ some r
        pub given : ids.Issued run_id s.world

      start-found :
          (q i : Json) (s : Service H)
          → Stays s
          → lookup (str run_id) (start_research H q i s).1.runs ≡ some r
      unfolding start_research store_run
      start-found q i s h = elim (Result-cases (H.start q i s.world).0) [
        | inr (f, p) ↦ ground (arith, h.found)
        | inl (result, p) ↦ elim (Result-cases (new_run q i result)) [
          | inr (f, e) ↦ ground (arith, h.found)
          | inl (r', e) ↦ ground (
            arith,
            h.found,
            h.given,
            lookup-insert r'.run_id (str run_id) r' s.runs,
            json_eq_iff r'.run_id (str run_id),
            graph_id-new_run q i result r' e,
            ids.fresh q i result run_id s.world p,
          )
        ]
      ]

      approve-found :
          (id : Text) (s : Service H)
          → lookup (str run_id) s.runs ≡ some r
          → lookup (str run_id) (approve H py id s).1.runs ≡ some r
      approve-found id s h = elim (Bool-cases (id == run_id)) [
        | inl e ↦ rw (eq-of-== id run_id e, (decided-unchanged H py run_id s r null h decided).0) h
        | inr e ↦ (decide_frame H py id s null (str run_id) (other_run H py id run_id e)).0 ∙ h
      ]

      reject-found :
          (id : Text) (feedback : Json) (s : Service H)
          → lookup (str run_id) s.runs ≡ some r
          → lookup (str run_id) (reject H py id feedback s).1.runs ≡ some r
      reject-found id feedback s h = elim (Bool-cases (id == run_id)) [
        | inl e ↦
            rw (eq-of-== id run_id e, (decided-unchanged H py run_id s r feedback h decided).1) h
        | inr e ↦ (decide_frame H py id s feedback (str run_id) (other_run H py id run_id e)).1 ∙ h
      ]

      Stays-IsKept : IsKept H py Stays
      Stays-IsKept = record {
        at_start = λ q i s h. record {
          found = start-found q i s h;
          given = start-Issued H py ids run_id q i s h.given;
        };
        at_approve = λ id s h. record {
          found = approve-found id s h.found;
          given = approve-Issued H py ids run_id id s h.given;
        };
        at_reject = λ id feedback s h. record {
          found = reject-found id feedback s h.found;
          given = reject-Issued H py ids run_id id feedback s h.given;
        };
        at_gate_approve = λ id approver s h. record {
          found = h.found;
          given = ids.at_gate_approve id approver run_id s.world h.given;
        };
        at_gate_deny = λ id approver s h. record {
          found = h.found;
          given = ids.at_gate_deny id approver run_id s.world h.given;
        };
      }

      stays_decided :
          (s : Service H) (later : List Request)
          → AreIssued s
          → lookup (str run_id) s.runs ≡ some r
          → lookup (str run_id) (serve_all py H later s).runs ≡ some r
      stays_decided s later known e =
          (serve_all-kept H py Stays Stays-IsKept later s
            (record { found = e; given = known.at run_id r e })).found

    served-AreIssued :
        (w : H.State) (earlier : List Request)
        → AreIssued (serve_all py H earlier (fresh_service w))
    unfolding lookup
    served-AreIssued w earlier =
        serve_all-kept H py AreIssued AreIssued-IsKept earlier (fresh_service w)
          (record { at = λ t r e. absurd cc })

    -- Whatever requests a service has answered since its process began, one after the other, a run
    -- that then no longer waits keeps its record through all later requests, if the runtime gives
    -- each run an id of its own.
    pub serve_all-decided :
        (w : H.State) (earlier later : List Request) (run_id : Text) (r : Run)
        → let s = serve_all py H earlier (fresh_service w) in
          lookup (str run_id) s.runs ≡ some r
          → is_waiting r ≡ false
          → lookup (str run_id) (serve_all py H later s).runs ≡ some r
    serve_all-decided w earlier later run_id r e decided =
        stays_decided run_id r decided (serve_all py H earlier (fresh_service w)) later
          (served-AreIssued w earlier) e

    -- Whatever requests a service has answered since its process began, one after the other, after a
    -- successful approval the run is published or completed, and however many such requests follow,
    -- its record stays as it is, and an approval of it, or a rejection with a feedback that is not empty, is refused with
    -- status 409 and leaves the service and its runtime alone. The runtime gives each run an id of
    -- its own.
    pub approve_once :
        (w : H.State) (earlier later : List Request) (run_id : Text) (s' : Service H)
        (answer feedback : Json)
        → truthy feedback ≡ true
        → approve H py run_id (serve_all py H earlier (fresh_service w)) ≡ (ok answer, s')
        → let s'' = serve_all py H later s' in
          Holds (lookup (str run_id) s'.runs) (λ r.
            ((r.status ≡ str (lit "published")) ⊎ (r.status ≡ str (lit "completed")))
            × (lookup (str run_id) s''.runs ≡ some r)
            × (approve H py run_id s'' ≡ (err (not_waiting py run_id r), s''))
            × (reject H py run_id feedback s'' ≡ (err (not_waiting py run_id r), s'')))
    approve_once w earlier later run_id s' answer feedback t h =
        let s = serve_all py H earlier (fresh_service w) in
        let known : AreIssued s' =
          subst (λ (x : Service H). AreIssued x) (ap (λ p. p.1) h)
            (AreIssued-IsKept.at_approve run_id s (served-AreIssued w earlier)) in
        elim (Option-cases (lookup (str run_id) s'.runs)) [
          | inl e ↦ ground (arith, approve-Decided H py run_id s s' answer h)
          | inr (r, e) ↦
              let d = rw e at (approve-Decided H py run_id s s' answer h) in
              let stays = stays_decided run_id r d.1 s' later known e in
              let (a, b) =
                decided-refused H py run_id (serve_all py H later s') r feedback stays d.1 t in
              rw e (d.0, stays, a, b)
        ]
