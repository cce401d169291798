-- ===== src/Runtime/Backends.antt =====
-- The backends that the tools of src/runtime.py call. The backends are parameters; each stands for the configured one, or for the offline one that the code takes where
-- none is configured.
use claudecodenodus.Base.{Text, Bool, Option}
use claudecodenodus.Base.Int.{ℤ}
use claudecodenodus.Exec.{Fault, Result, Exec}
use claudecodenodus.Json.{Json, Items}
use claudecodenodus.Python.{Loaded}

-- What a handler calls: the approval gate, whose answer is missing while a request is pending, the
-- backends, and Python's own functions.
pub record Backends : Type 1 where
  pub State : Type 0
  pub check : Text → Json → State → Result Fault (Option Bool) × State
  pub search : Json → ℤ → State → Result Fault Json × State
  pub fetch : Json → ℤ → State → Result Fault Json × State
  pub run_code : Json → Json → State → Result Fault Json × State
  pub notify : Json → Json → Json → Json → State → Result Fault Json × State
  -- `chat(messages, max_tokens)`, if there is a client
  pub chat : Option (Json → ℤ → State → Result Fault Json × State)
  -- `recall_by_tags(tags, match, require, exclude_session, limit)`, if the store has it
  pub recall : Option (Json → Json → Json → Json → ℤ → State → Result Fault Items × State)
  -- `str(workspace / path)`, `mkdir` of its parents, `write_text`, and `len(text.encode())`
  pub full_path : Json → Result Fault Text
  pub make_parents : Text → State → Result Fault (Unit {0}) × State
  pub write_text : Text → Json → State → Result Fault (Unit {0}) × State
  pub encoded_length : Json → Result Fault ℤ
  -- `int(value)`, `f"{value}"`, `json.loads`, the sorted `json.dumps`, and `_sha256`
  pub to_int : Json → Result Fault ℤ
  pub format : Json → Text
  pub loads : Text → Loaded
  pub sorted_dumps : Json → Text
  pub sha256 : Json → Result Fault Json

module _ (B : Backends) where
  open B use {State}

  abbrev pub Tool : Type 0
  Tool = Exec State Fault Json
