-- ===== src/Examples/Host.antt =====
-- A Nodus runtime that logs what it is sent and answers with an empty dict, and a workspace whose
-- backends raise (src/runtime.py).
use claudecodenodus.Base.{
  ℕ, Text, lit, text_eq, ◌==◌, ◌≡◌, refl, true, false, Option, none, some, List, [], ◌∷◌, ◌++◌,
}
use claudecodenodus.Base.Int.{ℤ, pos}
use claudecodenodus.Exec.{Fault, Result, ok, err}
use claudecodenodus.Json.{
  or_else, Json, null, bool, int, str, dict, Fields, end, field, truthy, find, find_or,
}
use claudecodenodus.Python.{Python, value, malformed}
use claudecodenodus.Runtime.Resume.{Nodus, Runtime}
use claudecodenodus.Runtime.Handover
use claudecodenodus.Runtime.Handover.{Sent}
use claudecodenodus.Runtime.Backends.{Backends}
use claudecodenodus.Runtime.Tools.{Manifest}

abbrev pub offline : Fault
offline = record { kind = lit "OSError"; message = lit "offline" }

abbrev pub text_of : Json → Text
text_of (str t) = t
text_of other = []

abbrev python : Python
python = record { format = text_of; parse_int = λ t. err offline; loads = λ t. malformed t }

abbrev pub Log : Type 0
Log = List (Option Text × Json)

abbrev answer : Text → Option Text → Json → Log → Result Fault Json × Log
answer run_id checkpoint payload log = (ok (dict end), log ++ ((checkpoint, payload) ∷ []))

abbrev pub nodus : Nodus
nodus = record {
  python = python;
  State = Log;
  Vm = Unit {0};
  Raw = Json;
  run_source =
      λ source globals log. ((ok (dict (field (lit "ok") (bool true) end)), some globals), log);
  active_vm = λ log. some tt;
  registered_vm = λ run_id log. none;
  builtin_resume_workflow = λ vm. answer;
  runner_resume_workflow = λ vm. answer;
  to_host_value = ok;
  gate_approve = λ request_id approver_id log. (ok tt, log);
  gate_deny = λ request_id approver_id log. (ok tt, log);
  pending = λ log. ok [];
  environ = λ name. none;
  lower = λ t. t;
  workflow_source = lit "workflow";
}

abbrev pub idle : Runtime nodus
idle = record { last_result = some null; nodus = [] }

abbrev question : Json
question = str (lit "what is llm safety?")

abbrev feedback : Json
feedback = str (lit "more detail")

abbrev payload : Json
payload = dict (field (lit "feedback") feedback end)

-- A number, or 0 for any other value.
abbrev number : Json → Result Fault ℤ
number (int z) = ok z
number other = ok (pos 0)

abbrev pub backends : Backends
backends = record {
  State = ℕ;
  check = λ name args n. (ok (some false), n);
  search = λ query limit n. (err offline, n);
  fetch = λ url limit n. (err offline, n);
  run_code = λ code timeout_seconds n. (err offline, n);
  notify = λ channel target message run_id n. (err offline, n);
  chat = none;
  recall = none;
  full_path = λ path. ok (text_of path);
  make_parents = λ path n. (ok tt, n);
  write_text = λ path content n. (ok tt, n);
  encoded_length = λ content. ok (pos 0);
  to_int = number;
  format = text_of;
  loads = λ t. value null;
  sorted_dumps = λ j. lit "null";
  sha256 = ok;
}

abbrev pub writer : Manifest
writer = record {
  name = lit "research.write_file";
  description = lit "Write final output to a file in the workspace.";
  effects = lit "fs.write" ∷ [];
  schema = dict end;
}

abbrev query : Fields
query = field (lit "query") question end

limit :
    backends.to_int (or_else (find_or (lit "limit") (int (pos 5)) query) (int (pos 5))) ≡ ok (pos 5)
unfolding find_or find lit ◌==◌ or_else truthy
limit = refl
