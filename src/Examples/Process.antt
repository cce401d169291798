-- ===== src/Examples/Process.antt =====
-- A process of the approval service and a runtime (src/approval_api.py, src/runtime.py) that keep a log
-- of what is closed.
use claudecodenodus.Base.{Text, lit, ◌≡◌, refl, none, some, List, [], ◌∷◌, ◌++◌}
use claudecodenodus.Exec.{Fault, Result, ok, err}
use claudecodenodus.Exec.Blocks.{◌>>=◌}
use claudecodenodus.ApprovalApi.Main.{raised, Process}
use claudecodenodus.Runtime.Lifecycle.{
  auto, given, Library, Options, ResearchRuntime, workspace_path, given_or, chosen_or, construct,
}

-- The log of what was called, the last call first.
abbrev Log : Type 0
Log = List Text

abbrev call : Text → Log → Result Fault (Unit {0}) × Log
call name log = (ok tt, name ∷ log)

abbrev disconnected : Fault
disconnected = record { kind = lit "OSError"; message = lit "disconnected" }

abbrev process : Process Log
process = record {
  Runtime = Unit {0};
  Server = Unit {0};
  new_runtime = λ workspace log. (ok tt, log);
  shutdown_runtime = λ runtime. call (lit "runtime");
  listen = λ host port log. (ok tt, log);
  attach = λ server runtime log. (ok tt, log);
  address_line = λ server. lit "127.0.0.1:8000";
  print = λ line log. (ok tt, log);
  serve_forever = λ server log. (raised disconnected, log);
  shutdown_server = λ server. call (lit "server");
}

abbrev library : Library Log
library = record {
  Client = Unit {0};
  Policy = Text;
  Store = Text;
  Gate = Text × Text;
  Effects = Text;
  Memory = Text;
  Llm = Unit {0};
  Runner = Unit {0};
  Nodus = Unit {0};
  new_client = λ log. (ok tt, log);
  close_client = λ client. call (lit "client");
  environ = λ name. none;
  cwd = λ log. (ok (lit "/home"), log);
  join = λ path name. path ++ name;
  mkdir = λ path log. (ok tt, log);
  default_policy = lit "effects";
  file_store = λ path log. (ok path, log);
  gate = λ policy store. (policy, store);
  effect_store = λ path log. (ok path, log);
  memory_store = λ path log. (ok path, log);
  llm_client = λ log. (ok none, log);
  code_runner = λ log. (ok none, log);
  nodus_runtime = λ memory log. (ok tt, log);
  set_effect_store = λ runtime effects log. (ok tt, log);
  read_workflow = λ log. (ok [], log);
  register_function = λ runtime name log. (ok tt, log);
  register_tools = λ runtime gate log. (ok tt, log);
  close_effects = λ effects. some (λ log. (err disconnected, log));
  close_memory = λ memory. some (call (lit "memory"));
  shutdown_nodus = λ runtime. call (lit "nodus");
  clear_shared_state = call (lit "shared");
}

abbrev options : Options library
options = record {
  workspace = none;
  policy = some (lit "allow all");
  store = none;
  effect_store = none;
  memory_store = some (lit "mine");
  llm_client = given none;
  web_backend = given (some (record { close = call (lit "web") }));
  code_runner = auto;
  notifier = given none;
}

abbrev runtime : ResearchRuntime library
runtime = record {
  workspace = lit "/homeworkspace";
  policy = lit "allow all";
  store = lit "/homeworkspace.approvals";
  gate = (lit "allow all", lit "/homeworkspace.approvals");
  effect_store = lit "/homeworkspace.effects.sqlite3";
  memory_store = lit "mine";
  llm_client = none;
  web_backend = some (record { close = call (lit "web") });
  code_runner = none;
  notifier = none;
  runtime = tt;
  workflow_source = [];
}

constructed : construct library options [] ≡ (ok runtime, [])
unfolding construct workspace_path given_or chosen_or lit ◌>>=◌
constructed = refl
