-- ===== src/Runtime/Resume.antt =====
-- How `ResearchRuntime` of src/runtime.py starts, resumes and rejects runs of the workflow. The
-- Nodus runtime below it is a parameter; `host` is what the approval service uses of the result.
use claudecodenodus.Base.{
  Text, lit, Bool, true, false, ◌++◌, Option, none, some, List, [], map, if◌then◌else◌,
}
use claudecodenodus.Exec.{Fault, Result, ok, err, bind, Exec, pure, lift, ◌>>=◌, ◌>>◌}
use claudecodenodus.Json.{Json, bool, str, list, dict, end, field, truthy, find, list_of}
use claudecodenodus.Python.{Python, get, type_name}
use claudecodenodus.Memory.Topics.{topic_tags, max_topic_tags}
use claudecodenodus.ApprovalApi.Service.{Host, GateRequest}

-- What the program calls of Nodus, its approval gate and its environment. `run_source` also gives
-- the last value that the program passed to the registered function `_capture`.
pub record Nodus : Type 1 where
  pub python : Python
  pub State : Type 0
  pub Vm : Type 0
  pub Raw : Type 0
  pub run_source : Text → Json → State → (Result Fault Json × Option Json) × State
  pub active_vm : State → Option Vm
  pub registered_vm : Text → State → Option Vm
  pub builtin_resume_workflow : Vm → Text → Option Text → Json → State → Result Fault Raw × State
  pub runner_resume_workflow : Vm → Text → Option Text → Json → State → Result Fault Raw × State
  pub to_host_value : Raw → Result Fault Json
  pub gate_approve : Text → Json → State → Result Fault (Unit {0}) × State
  pub gate_deny : Text → Json → State → Result Fault (Unit {0}) × State
  pub pending : State → Result Fault (List GateRequest)
  pub environ : Text → Option Text
  pub lower : Text → Text
  pub workflow_source : Text

-- `result["ok"]`
unfoldable pub ok_of : Json → Result Fault Json
unfolding find
ok_of (dict fs) = elim (find (lit "ok") fs) [
  | none ↦ err (record { kind = lit "KeyError"; message = lit "'ok'" })
  | some v ↦ ok v
]
ok_of other = err (record { kind = lit "TypeError"; message = lit "indices must be integers" })

abbrev is_false : Option Json → Bool
is_false (some (bool false)) = true
is_false other = false

-- `isinstance(rejected, dict) and rejected.get("ok") is False`
unfoldable pub is_failed : Json → Bool
unfolding find
is_failed (dict fs) = is_false (find (lit "ok") fs)
is_failed other = false

-- `"feedback" in payload` and the value there
unfoldable pub feedback_in : Json → Option Json
unfolding find
feedback_in (dict fs) = find (lit "feedback") fs
feedback_in other = none

unfoldable pub rejection : Json → Json
rejection feedback =
    dict (field (lit "approved") (bool false) (field (lit "feedback") feedback end))

unfoldable pub replay : Json → Json
replay feedback = dict (field (lit "feedback") feedback end)

-- The topic tags of a question; a value that is no text has no `lower`.
unfoldable pub question_tags : (Text → Text) → Json → Result Fault Json
unfolding topic_tags
question_tags lower (str question) =
    ok (list (list_of (map (λ t. str t) (topic_tags lower question max_topic_tags))))
question_tags lower other = err (record {
  kind = lit "AttributeError";
  message = lit "'" ++ (type_name other ++ lit "' object has no attribute 'lower'");
})

-- `os.environ.get(name, default)`
abbrev or_default : Option Text → Text → Json
or_default none default = str default
or_default (some t) default = str t

module _ (N : Nodus) where
  open N use {python, Vm, run_source, active_vm, registered_vm, environ, lower, workflow_source}

  -- The value of `_last_result`, and the runtime below.
  pub record Runtime : Type 0 where
    pub last_result : Option Json
    pub nodus : N.State

  abbrev pub Call : Type 0 → Type 0
  Call A = Exec Runtime Fault A

  -- A call below that captures nothing.
  unfoldable pub below : {A : Type 0} → (N.State → Result Fault A × N.State) → Call A
  below f s = let (r, w) = f s.nodus in (r, record s { nodus = w })

  -- `run_source`, with what `_capture` leaves in `_last_result`
  unfoldable pub run_captured : Text → Json → Call Json
  run_captured source globals s =
      let ((r, captured), w) = run_source source globals s.nodus in
      (
        r,
        record {
          last_result = elim captured [ none ↦ s.last_result | some v ↦ some v ];
          nodus = w;
        },
      )

  unfoldable pub last_value : Call Json
  last_value s = (ok (elim s.last_result [ none ↦ dict end | some v ↦ v ]), s)

  -- The error of a run that is not ok.
  unfoldable pub run_error : Json → Result Fault Json
  unfolding get
  run_error result = bind (get result (lit "error") (dict end)) (λ error.
      bind (get error (lit "message") result) (λ message. err (record {
        kind = lit "RuntimeError";
        message = lit "Nodus error: " ++ python.format message;
      })))

  -- `_run`
  unfoldable pub run : Text → Json → Call Json
  unfolding run_captured last_value run_error ok_of truthy
  run source globals s =
      (do
        result ← run_captured source globals
        flag ← lift (ok_of result)
        if truthy flag then last_value else lift (run_error result))
        (record s { last_result = none })

  -- `_initial_globals`
  unfoldable pub initial_globals : Json → Json → Result Fault Json
  unfolding question_tags
  initial_globals question session_id = bind (question_tags lower question) (λ tags. ok (
      dict (
        field (lit "_init_question") question (
          field (lit "_init_session_id") session_id (
            field (lit "_init_notify_channel")
              (or_default (environ (lit "RESEARCH_NOTIFY_CHANNEL")) (lit "console"))
              (field (lit "_init_notify_target")
                (or_default (environ (lit "RESEARCH_NOTIFY_TARGET")) (lit "researcher"))
                (field (lit "_init_topic_tags") tags end)))))))

  unfoldable pub start : Json → Json → Call Json
  unfolding initial_globals run
  start question session_id = do
    globals ← lift (initial_globals question session_id)
    run (workflow_source ++ (lit "\n_prime_vm()\n" ++ lit "_capture(run_workflow(research_task))"))
        globals

  -- `_prime_resume_vm`: it ends with the machine that ran the declarations.
  unfoldable pub prime_resume_vm : Call Vm
  unfolding initial_globals run_captured
  prime_resume_vm = do
    globals ← lift (initial_globals (str []) (str []))
    run_captured (workflow_source ++ lit "\n_prime_vm()\n") globals
    λ s. elim (active_vm s.nodus) [
      | none ↦ (
        err (record {
          kind = lit "RuntimeError";
          message = lit "Failed to prime a VM for cross-process resume.";
        }),
        s,
      )
      | some vm ↦ (ok vm, s)
    ]

  unfoldable pub resume_fresh : Text → Option Text → Json → Call Json
  unfolding prime_resume_vm below
  resume_fresh run_id checkpoint payload = do
    vm ← prime_resume_vm
    raw ← below (N.runner_resume_workflow vm run_id checkpoint payload)
    lift (N.to_host_value raw)

  -- `_resume_on_vm`: the machine that started the run, or a fresh one
  unfoldable pub resume_on_vm : Text → Option Text → Json → Call Json
  unfolding prime_resume_vm below
  resume_on_vm run_id checkpoint payload s = elim (registered_vm run_id s.nodus) [
    | none ↦
        (do
          vm ← prime_resume_vm
          raw ← below (N.runner_resume_workflow vm run_id checkpoint payload)
          lift (N.to_host_value raw))
          s
    | some vm ↦
        (do
          raw ← below (N.builtin_resume_workflow vm run_id checkpoint payload)
          lift (N.to_host_value raw))
          s
  ]

  unfoldable pub reject_and_replay :
      Text → Json → (Text → Option Text → Json → Call Json) → Call Json
  unfolding is_failed
  reject_and_replay run_id feedback resume_run = do
    rejected ← resume_run run_id none (rejection feedback)
    if is_failed rejected
        then pure rejected
        else resume_run run_id (some (lit "before_draft")) (replay feedback)

  unfoldable pub resume : Text → Json → Call Json
  resume run_id payload = resume_on_vm run_id none payload

  unfoldable pub resume_with_feedback : Text → Json → Call Json
  unfolding reject_and_replay
  resume_with_feedback run_id feedback = reject_and_replay run_id feedback resume_on_vm

  unfoldable pub resume_in_fresh_process : Text → Json → Option Text → Call Json
  unfolding feedback_in
  resume_in_fresh_process run_id payload none = resume_fresh run_id none payload
  resume_in_fresh_process run_id payload (some checkpoint) = elim (feedback_in payload) [
    | none ↦ resume_fresh run_id (some checkpoint) payload
    | some feedback ↦ reject_and_replay run_id feedback resume_fresh
  ]

  -- The runtime as the approval service uses it.
  abbrev pub host : Host
  host = record {
    State = Runtime;
    start = start;
    resume = resume;
    resume_with_feedback = resume_with_feedback;
    gate_approve = λ request_id approver_id. below (N.gate_approve request_id approver_id);
    gate_deny = λ request_id approver_id. below (N.gate_deny request_id approver_id);
    pending_gate_requests = λ s. N.pending s.nodus;
  }
