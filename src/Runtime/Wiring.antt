-- ===== src/Runtime/Wiring.antt =====
-- The backends that `ResearchRuntime` of src/runtime.py puts together: the web backend, the
-- notifier and the memory store, as the tools see them.
use claudecodenodus.Base.{
  Text, lit, text_eq, Option, none, some, List, [], ◌∷◌, ◌++◌, map, if◌then◌else◌,
}
use claudecodenodus.Base.Int.{ℤ, ◌+ℤ◌}
use claudecodenodus.Exec.{Fault, Result, ok, err, bind, Exec, lift, ◌>>=◌}
use claudecodenodus.Json.{
  Json, null, int, str, list, dict, Items, nil, cons, Fields, end, field, list_of, truthy,
}
use claudecodenodus.Python.{type_name}
use claudecodenodus.Memory.Store.{Parent, Memory}
use claudecodenodus.Memory.Search.{Node, clean, recall_by_tags}
use claudecodenodus.Notify.Delivery.{Delivery}
use claudecodenodus.Notify.Delivery
use claudecodenodus.Web.Network.{Network}
use claudecodenodus.Web.Backend.{Keys}
use claudecodenodus.Web.Backend
use claudecodenodus.Sandbox.{DockerCodeRunner, Outcome, RunResult, build_cmd, conclude}
use claudecodenodus.Runtime.Backends.{Backends}

-- The texts of one character that iterating over a text gives.
unfoldable pub characters : Text → Items
characters [] = nil
characters (c ∷ t) = cons (str (c ∷ [])) (characters t)

unfoldable pub keys_of : Fields → Items
keys_of end = nil
keys_of (field k v fs) = cons (str k) (keys_of fs)

-- `for t in value`
unfoldable pub iterate : Json → Result Fault Items
unfolding characters keys_of
iterate (list xs) = ok xs
iterate (str t) = ok (characters t)
iterate (dict fs) = ok (keys_of fs)
iterate other = err (record {
  kind = lit "TypeError";
  message = lit "'" ++ (type_name other ++ lit "' object is not iterable");
})

-- `for t in (value or [])`, where `value` is not falsy or null
unfoldable pub iterate_or_empty : Json → Result Fault Items
iterate_or_empty null = ok nil
iterate_or_empty other = iterate other

-- A session that is no text equals the session of no key.
abbrev pub session_json : Json → Option Text
session_json (str t) = some t
session_json other = none

-- The value of `match`; only `"all"` counts.
abbrev pub match_text : Json → Text
match_text (str t) = t
match_text other = []

abbrev pub text_or_null : Option Text → Json
text_or_null none = null
text_or_null (some t) = str t

module _ (P : Parent) where
  -- The dict of a recalled node.
  unfoldable pub node_json : Node P → Json
  node_json node = dict (
      field (lit "key") (str node.key) (
        field (lit "session_id") (text_or_null node.session_id) (
          field (lit "value") node.content
            (field (lit "tags") (list (list_of (map (λ t. str t) node.tags))) end))))

  unfoldable pub found_items : List (Node P) → Items
  found_items nodes = list_of (map node_json nodes)

  -- `recall_by_tags` on the values that a tool call carries. Where no wanted tag is left, `require`
  -- is not read.
  module _ (match require exclude : Json) (limit : ℤ) (s : Memory P) where
    unfoldable pub recall_wanted : Items → List Text → Result Fault Items
    unfolding found_items
    recall_wanted wanted [] = ok nil
    recall_wanted wanted (t ∷ ts) = bind (iterate_or_empty require) (λ required. ok (
        found_items
          (recall_by_tags P wanted (match_text match) required (session_json exclude) limit s)))

    unfoldable pub recall_json : Json → Result Fault Items
    recall_json tags = bind (iterate_or_empty tags) (λ wanted. recall_wanted wanted (clean wanted))

-- The dict of a run's result; `error` is there if it is set.
abbrev error_field : Option Text → Fields
error_field none = end
error_field (some t) = field (lit "error") (str t) end

unfoldable pub result_json : RunResult → Json
result_json r = dict (
    field (lit "stdout") (str r.stdout) (
      field (lit "stderr") (str r.stderr)
        (field (lit "exit_code") (int r.exit_code) (error_field r.error))))

-- What the runtime puts together: the clients behind the tools, on the state of the world outside.
-- `subprocess` takes the command, its input and its deadline.
pub record Parts (State : Type 0) : Type 1 where
  pub network : Network State
  pub keys : Keys
  pub delivery : Delivery State
  pub parent : Parent
  pub memory_store : State → Memory parent
  pub runner : DockerCodeRunner
  pub show : ℤ → Text
  pub strip : Text → Text
  pub subprocess : List Text → Json → ℤ → State → Outcome × State

module _ (B : Backends) (W : Parts B.State) where
  -- `int(timeout_seconds) if timeout_seconds else self._default_timeout`
  unfoldable pub seconds_of : Json → Result Fault ℤ
  seconds_of timeout_seconds =
      if truthy timeout_seconds then B.to_int timeout_seconds else ok W.runner.default_timeout

  -- `DockerCodeRunner.run` on the values that a tool call carries.
  unfoldable pub run_json : Json → Json → Exec B.State Fault Json
  unfolding seconds_of conclude build_cmd
  run_json code timeout_seconds = do
    seconds ← lift (seconds_of timeout_seconds)
    λ s.
        let (outcome, s') =
          W.subprocess (build_cmd W.show W.strip W.runner seconds) code
            (seconds +ℤ W.runner.startup_overhead) s in
        (bind (conclude W.show W.strip W.runner seconds outcome) (λ r. ok (result_json r)), s')

  abbrev pub wire : Backends
  wire = record B {
    search = Backend.search W.network W.keys;
    fetch = Backend.fetch W.network;
    run_code = run_json;
    notify = Delivery.notify W.delivery;
    recall = some (λ tags match require exclude limit s.
        (recall_json W.parent match require exclude limit (W.memory_store s) tags, s));
  }
