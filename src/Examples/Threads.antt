-- ===== src/Examples/Threads.antt =====
-- Threads that start, approve and reject runs, and a crash while a request is saved (src/approval_api.py,
-- src/approval_store.py).
use claudecodenodus.Base.{
  All, ℕ, Text, lit, text_eq, ◌==◌, ◌≡◌, refl, ◌⊎◌, true, some, none, List, [], ◌∷◌,
}
use claudecodenodus.Base.Dict.{lookup}
use claudecodenodus.Json.{Json, str, json_eq, json_key_eq}
use claudecodenodus.ApprovalApi.Service.{is_waiting}
use claudecodenodus.ApprovalApi.Threads.{Thread, approving, rejecting, starting}
use claudecodenodus.ApprovalApi.Threads.Interleavings
use claudecodenodus.ApprovalApi.Threads.Frames
use claudecodenodus.ApprovalStore.Files.{save, resolve}
use claudecodenodus.ApprovalStore.Crash.{cut_save, cut_resolve, writing}
use claudecodenodus.ApprovalStore.Crash.Readers
use claudecodenodus.ApprovalStore.Crash.Readers.{SameReads}
use claudecodenodus.Examples.Api.{host, python, service, first_run, feedback}
use claudecodenodus.Examples.Approvals.{platform, request, result, disk}

abbrev run : Text
run = lit "r1"

abbrev threads : List Thread
threads = approving run ∷ rejecting run feedback ∷ starting (str (lit "q2")) (str (lit "s2")) ∷ []

abbrev order : List ℕ
order = 1 ∷ 0 ∷ 2 ∷ 1 ∷ 1 ∷ 2 ∷ 0 ∷ 1 ∷ []

first_waits : is_waiting first_run ≡ true
unfolding is_waiting json_eq lit ◌==◌
first_waits = refl

found : lookup (str run) service.runs ≡ some first_run
unfolding lookup json_eq lit ◌==◌
found = refl

approve_twice_example :
    All (Interleavings.BothResume host python run service) Interleavings.two_steps_each
approve_twice_example =
    Interleavings.approve_twice host python run service first_run found first_waits

cut_save-SameReads_example :
    let crash = writing (str (lit "half")) in
    let kept = request (lit "d") none in
    (SameReads platform (cut_save platform crash kept disk) disk
      ⊎ SameReads platform (cut_save platform crash kept disk) (save platform kept disk))
    × SameReads platform
        (save platform kept (cut_save platform crash kept disk))
        (save platform kept disk)
    × (SameReads platform (cut_resolve platform crash (lit "a") result disk) disk
        ⊎ SameReads platform
            (cut_resolve platform crash (lit "a") result disk)
            (resolve platform (lit "a") result disk))
    × SameReads platform
        (resolve platform (lit "a") result (cut_resolve platform crash (lit "a") result disk))
        (resolve platform (lit "a") result disk)
cut_save-SameReads_example =
    Readers.cut_save-SameReads platform (writing (str (lit "half"))) (request (lit "d") none)
      (lit "a") result disk
