-- ===== src/Examples/Requests.antt =====
-- A service over a runtime that numbers its runs, from its first request on (src/approval_api.py).
use claudecodenodus.Base.{
  ℕ, ◌+◌, ◌<◌, Text, lit, text_eq, ◌==◌, ◌≡◌, refl, sym, ap, ◌∙◌, ◌⊎◌, true, false, none, some,
  List, [], ◌∷◌, arith, Holds,
}
use claudecodenodus.Base.Int.{pos}
use claudecodenodus.Base.Dict.{lookup, insert}
use claudecodenodus.Exec.{ok, err}
use claudecodenodus.Json.{
  Json, null, bool, str, dict, end, field, truthy, json_eq, json_key_eq, find_or,
}
use claudecodenodus.Python.{Python, value, get}
use claudecodenodus.ApprovalApi.Path.{path_parts, segments, lstrip, rstrip}
use claudecodenodus.ApprovalApi.Service.{
  Host, Run, Service, is_waiting, not_waiting, approve, reject, published_flag, status_of, draft_of,
  new_run, start_research, store_run, hashable, update_run, require_waiting,
}
use claudecodenodus.ApprovalApi.Http.{
  Request, dispatch, serve_all, route, research_route, read_json, body_length,
}
use claudecodenodus.ApprovalApi.Decided
use claudecodenodus.ApprovalApi.Decided.{fresh_service}
use claudecodenodus.ApprovalApi.Issued.{Issues}
use claudecodenodus.Examples.Api.{published_result}

abbrev numbered : ℕ → Json
numbered n = dict (
    field (lit "graph_id") (str (n ∷ [])) (
      field (lit "status") (str (lit "waiting"))
        (field (lit "state") (dict (field (lit "draft") (str (lit "first")) end)) end)))

-- The name of a run is one character: the first is A, with the number 65.
abbrev host : Host
host = record {
  State = ℕ;
  start = λ q i n. (ok (numbered n), n + 1);
  resume = λ run_id payload n. (ok published_result, n);
  resume_with_feedback = λ run_id feedback n. (ok (numbered n), n);
  gate_approve = λ request_id approver n. (ok tt, n);
  gate_deny = λ request_id approver n. (ok tt, n);
  pending_gate_requests = λ n. ok [];
}

abbrev python : Python
python = record {
  format = λ j. [];
  parse_int = λ t. ok (pos 1);
  loads = λ t. value (
      dict (field (lit "question") (str (lit "q")) (field (lit "session_id") (str (lit "s")) end)));
}

numbered_id :
    (n : ℕ) (id : Text) → get (numbered n) (lit "graph_id") null ≡ ok (str id) → id ≡ n ∷ []
unfolding get find_or lit ◌==◌
numbered_id n id h = cc

host-Issues : Issues host python
host-Issues = record {
  Issued = λ id n. (k : ℕ) × (id ≡ k ∷ []) × (k < n);
  fresh = λ q i result id n started named (k, e, less).
      let same : result ≡ numbered n = cc in
      let own = numbered_id n id (ap (λ r. get r (lit "graph_id") null) (sym same) ∙ named) in
      let one : k ≡ n = cc in absurd (omega arith);
  issued = λ q i result id n started named.
      let same : result ≡ numbered n = cc in
      let own = numbered_id n id (ap (λ r. get r (lit "graph_id") null) (sym same) ∙ named) in
      (n, own, omega arith);
  at_start = λ q i id n (k, e, less). (k, e, omega arith);
  at_resume = λ run_id payload id n h. h;
  at_resume_with_feedback = λ run_id feedback id n h. h;
  at_gate_approve = λ request_id approver id n h. h;
  at_gate_deny = λ request_id approver id n h. h;
}

abbrev research : Request
research = record {
  method = lit "POST";
  path = lit "/research";
  content_length = some (lit "9");
  read = λ n. [];
}

abbrev approval : Request
approval = record {
  method = lit "POST";
  path = lit "/approvals/A/approve";
  content_length = none;
  read = λ n. [];
}

abbrev run_a : Text → Run
run_a status = record {
  run_id = str (65 ∷ []);
  session_id = str (lit "s");
  question = str (lit "q");
  status = str status;
  draft = str (lit "first");
}

abbrev earlier : List Request
earlier = research ∷ []

abbrev later : List Request
later = approval ∷ research ∷ approval ∷ []

code : Unit {0}
unfolding serve_all dispatch route research_route read_json body_length path_parts segments lstrip
    rstrip start_research store_run hashable new_run status_of draft_of get find_or truthy approve
    require_waiting published_flag update_run is_waiting json_eq lookup insert lit ◌==◌
code = tt

abbrev after_approval : Service host
after_approval = record { runs = (str (65 ∷ []), run_a (lit "published")) ∷ []; world = 66 }

abbrev answer : Json
answer = dict (
    field (lit "run_id") (str (65 ∷ []))
      (field (lit "status") (str (lit "published")) (field (lit "published") (bool true) end)))

approves :
    approve host python (65 ∷ []) (serve_all python host earlier (fresh_service host python 65))
    ≡ (ok answer, after_approval)
unfolding code
approves = refl

approve_once_example :
    let s'' = serve_all python host later after_approval in
    Holds (lookup (str (65 ∷ [])) after_approval.runs) (λ r.
      ((r.status ≡ str (lit "published")) ⊎ (r.status ≡ str (lit "completed")))
      × (lookup (str (65 ∷ [])) s''.runs ≡ some r)
      × (approve host python (65 ∷ []) s'' ≡ (err (not_waiting python (65 ∷ []) r), s''))
      × (reject host python (65 ∷ []) (str (lit "more")) s''
          ≡ (err (not_waiting python (65 ∷ []) r), s'')))
approve_once_example =
    Decided.approve_once host python host-Issues 65 earlier later (65 ∷ []) after_approval answer
      (str (lit "more")) (unfold truthy lit in refl) approves

published_found :
    lookup
      (str (65 ∷ []))
      (serve_all python host (research ∷ approval ∷ []) (fresh_service host python 65)).runs
    ≡ some (run_a (lit "published"))
unfolding code
published_found = refl

published_decided : is_waiting (run_a (lit "published")) ≡ false
unfolding code
published_decided = refl

serve_all-decided_example :
    lookup
      (str (65 ∷ []))
      (serve_all python host later
        (serve_all python host (research ∷ approval ∷ []) (fresh_service host python 65))).runs
    ≡ some (run_a (lit "published"))
serve_all-decided_example =
    Decided.serve_all-decided host python host-Issues 65 (research ∷ approval ∷ []) later (65 ∷ [])
      (run_a (lit "published")) published_found published_decided
