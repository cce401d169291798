-- ===== src/Examples/Decisions.antt =====
-- Decisions over HTTP on a run that waits, with a Nodus runtime that logs what it is sent.
use claudecodenodus.Base.{lit, text_eq, ◌==◌, ◌≡◌, refl, true, some, List, [], ◌∷◌, ◌++◌, All}
use claudecodenodus.Base.Dict.{lookup}
use claudecodenodus.Exec.{ok}
use claudecodenodus.Json.{
  null, Json, str, dict, end, field, truthy, json_eq, json_key_eq, find, find_or,
}
use claudecodenodus.Python.{get}
use claudecodenodus.ApprovalApi.Service.{Service, is_waiting}
use claudecodenodus.ApprovalApi.Http.{Request, read_json, body_length}
use claudecodenodus.Runtime.Resume.{
  resume_on_vm, prime_resume_vm, host, below, initial_globals, question_tags, run_captured,
}
use claudecodenodus.Runtime.Handover.{Logs, Sent}
use claudecodenodus.Runtime.Decisions
use claudecodenodus.Runtime.Decisions.{sent_after}
use claudecodenodus.Examples.Api.{python, first_run, request, r1-Plain}
use claudecodenodus.Memory.Topics.{max_topic_tags}
use claudecodenodus.Workflow.{value}
use claudecodenodus.Workflow.Decided
use claudecodenodus.Workflow.Decided.{Harmless}
use claudecodenodus.Examples.Recollection.{parent}
use claudecodenodus.Examples.Engine.{Unwritten, engine-HasMaps, engine-IsQuiet}
use claudecodenodus.Examples.Sessions.{done, parent-Clones}
use claudecodenodus.Examples.Host.{nodus, idle}

logged : Logs nodus (resume_on_vm nodus) (λ s. s.nodus)
unfolding resume_on_vm prime_resume_vm below initial_globals question_tags run_captured
logged run_id checkpoint payload s = refl

abbrev reviewed : Service (host nodus)
reviewed = record { runs = (str (lit "r1"), first_run) ∷ []; world = idle }

found : lookup (str (lit "r1")) reviewed.runs ≡ some first_run
unfolding lookup json_eq lit ◌==◌
found = refl

waits : is_waiting first_run ≡ true
unfolding is_waiting json_eq lit ◌==◌
waits = refl

abbrev body : Json
body = dict (field (lit "feedback") (str (lit "more")) end)

abbrev posted : Request
posted = record request { content_length = some (lit "23") }

read : read_json python posted ≡ ok body
unfolding read_json body_length lit ◌==◌
read = refl

feedback_read : get body (lit "feedback") (str []) ≡ ok (str (lit "more"))
unfolding get find find_or lit ◌==◌
feedback_read = refl

rejection_publishes_nothing_example :
    (new : List (Sent nodus)) × (sent_after nodus python
        (λ s. s.nodus)
        logged
        posted
        (lit "r1")
        (lit "a")
        r1-Plain
        reviewed
        first_run
        found
        waits
        (lit "reject")
      ≡ [] ++ new)
    × All
        (λ (message : Sent nodus). Harmless parent done Unwritten (λ t. t) max_topic_tags message.1)
        new
rejection_publishes_nothing_example =
    Decided.rejection_publishes_nothing parent done Unwritten (λ t. t) max_topic_tags nodus python
      (λ s. s.nodus) logged posted (lit "r1") (lit "a") r1-Plain reviewed first_run found waits body
      (str (lit "more")) read feedback_read (unfold truthy lit in refl)
      (engine-HasMaps (λ name. value null)) parent-Clones (engine-IsQuiet (λ name. value null))
