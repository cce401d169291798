-- ===== src/Examples/Api.antt =====
-- A service with one waiting run, over a runtime that publishes (src/approval_api.py).
use claudecodenodus.Base.{
  ℕ, ◌+◌, lit, ◌==◌, ◌≡◌, ◌≢◌, refl, ◌⊎◌, true, none, [], ◌∷◌, arith, text_eq,
}
use claudecodenodus.Base.Int.{pos}
use claudecodenodus.Base.Dict.{lookup, insert}
use claudecodenodus.Exec.{ok}
use claudecodenodus.Json.{Json, bool, str, dict, end, field, json_eq, json_key_eq, find_or}
use claudecodenodus.Python.{Python, value, get}
use claudecodenodus.ApprovalApi.Path.{
  path_parts, path_of, path_parts-path_of, segments, lstrip, rstrip,
}
use claudecodenodus.ApprovalApi.Service.{Host, Run, Service, is_waiting, approve, published_flag}
use claudecodenodus.ApprovalApi.Http.{
  Request, Response, dispatch, serve_all, respond, pending_route, run_route, reject_route,
}
use claudecodenodus.ApprovalApi.Lifecycle
use claudecodenodus.ApprovalApi.Refusals
use claudecodenodus.ApprovalApi.Refusals.{IsRefusal}
use claudecodenodus.ApprovalApi.Index.{IsIndexed}

abbrev pub published_result : Json
published_result = dict (
    field (lit "steps")
      (dict (field (lit "publish") (dict (field (lit "published") (bool true) end)) end)) end)

abbrev waiting_result : Json
waiting_result = dict (
    field (lit "graph_id") (str (lit "r2")) (
      field (lit "status") (str (lit "waiting"))
        (field (lit "state") (dict (field (lit "draft") (str (lit "second")) end)) end)))

-- The runtime counts its calls.
abbrev pub host : Host
host = record {
  State = ℕ;
  start = λ q i w. (ok waiting_result, w + 1);
  resume = λ run_id payload w. (ok published_result, w + 1);
  resume_with_feedback = λ run_id feedback w. (ok waiting_result, w + 1);
  gate_approve = λ request_id approver w. (ok tt, w);
  gate_deny = λ request_id approver w. (ok tt, w);
  pending_gate_requests = λ w. ok [];
}

abbrev pub python : Python
python = record {
  format = λ j. [];
  parse_int = λ t. ok (pos 1);
  loads = λ t. value (dict (field (lit "feedback") (str (lit "more")) end));
}

abbrev pub first_run : Run
first_run = record {
  run_id = str (lit "r1");
  session_id = str (lit "s1");
  question = str (lit "q1");
  status = str (lit "waiting");
  draft = str (lit "first");
}

abbrev pub service : Service host
service = record { runs = (str (lit "r1"), first_run) ∷ []; world = 0 }

abbrev pub feedback : Json
feedback = str (lit "more")

abbrev approved : Json
approved = dict (
    field (lit "run_id") (str (lit "r1"))
      (field (lit "status") (str (lit "published")) (field (lit "published") (bool true) end)))

abbrev after_approval : Service host
after_approval = record {
  runs = (str (lit "r1"), record first_run { status = str (lit "published") }) ∷ [];
  world = 1;
}

abbrev rejected : Json
rejected = dict (
    field (lit "run_id") (str (lit "r1"))
      (field (lit "status") (str (lit "waiting")) (field (lit "draft") (str (lit "second")) end)))

abbrev after_rejection : Service host
after_rejection = record {
  runs = (str (lit "r1"), record first_run { draft = str (lit "second") }) ∷ [];
  world = 1;
}

pub r2-ne-r1 : str (lit "r2") ≢ str (lit "r1")
unfolding lit
r2-ne-r1 = ground arith

abbrev pub request : Request
request = record {
  method = lit "POST";
  path = lit "/approvals/r1/approve/?x";
  content_length = none;
  read = λ n. [];
}

-- The whole way from the path of the request to the published run.
dispatch_runs :
    dispatch python host request service
    ≡ (record { status = 200; body = approved }, after_approval)
unfolding dispatch claudecodenodus.ApprovalApi.Http.route respond path_parts approve published_flag
    is_waiting json_eq lookup insert lit ◌==◌ find_or get
dispatch_runs = refl

dispatch_statuses_example :
    let (response, s') = dispatch python host request after_approval in
    (response.status ≡ 200)
    ⊎ ((response.status ≡ 500) ⊎ (IsRefusal response.status × (s' ≡ after_approval)))
dispatch_statuses_example = Refusals.dispatch_statuses python host after_approval request

pub service-IsIndexed : IsIndexed service.runs
unfolding lookup
service-IsIndexed = record { unique = (refl, tt); keyed = (refl, tt) }

pub r1-Plain : claudecodenodus.ApprovalApi.Path.Plain (lit "r1")
unfolding lit
r1-Plain = ground arith
