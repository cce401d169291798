-- ===== src/Examples/Approvals.antt =====
-- A store with three requests at time 5: one open, one expired, one expired but resolved
-- (src/approval_store.py). Times are numbers, and a file holds its JSON value.
use claudecodenodus.Base.{
  ℕ, ◌+◌, Text, lit, text_eq, ◌==◌, ◌≡◌, refl, true, not, Option, none, some, [], ◌∷◌, length, ltb,
  if◌then◌else◌,
}
use claudecodenodus.Base.Collections.{keep}
use claudecodenodus.Base.Dict.{Dict, lookup, insert, erase}
use claudecodenodus.Exec.{Fault, Result, ok, err}
use claudecodenodus.Json.{Json, null, str, dict, Fields, end, truthy, find_or}
use claudecodenodus.Python.{value}
use claudecodenodus.ApprovalStore.Records.{
  Platform, IsLawful, ApprovalRequest, ApprovalResult, request_to_dict, request_from_dict,
  result_to_dict, dt_to_iso, dt_from_iso, time_or_now, dict_or_empty,
}
use claudecodenodus.ApprovalStore.Files.{
  Folder, Disk, save, resolve, get, pending, expire_old, exists, is_alive, read_content,
  pending_entry, expired_entry, is_expired, atomic_write,
}
use claudecodenodus.ApprovalStore.Access
use claudecodenodus.ApprovalStore.Pending

abbrev mismatch : Fault
mismatch = record { kind = []; message = [] }

abbrev read_number : Json → Result Fault ℕ
read_number (str (c ∷ [])) = ok c
read_number other = err mismatch

abbrev copy : Json → Result Fault Fields
copy (dict fs) = ok fs
copy other = err mismatch

abbrev name_of : Json → Text
name_of (str t) = t
name_of other = []

abbrev pub platform : Platform
platform = record {
  Time = ℕ;
  isoformat = λ t. t ∷ [];
  fromisoformat = read_number;
  gt = λ a b. ok (ltb b a);
  le = λ a b. ok (not (ltb b a));
  to_dict = copy;
  format = name_of;
  Content = Json;
  dump = λ j. j;
  load = value;
}

platform-IsLawful : IsLawful platform
unfolding truthy
platform-IsLawful = record {
  read_time = λ t. refl;
  written_time = λ t. refl;
  copy_dict = λ fs. refl;
  load-dump = λ j. refl;
  le-gt = λ a b. refl;
}

abbrev pub request : Text → Option ℕ → ApprovalRequest platform
request name expires = record {
  id = str name;
  action = str (lit "research.notify");
  requester_id = str (lit "workflow");
  context = end;
  created_at = 1;
  expires_at = expires;
  metadata = end;
}

abbrev pub result : ApprovalResult platform
result = record {
  request_id = str (lit "c");
  approved = true;
  approver_id = str (lit "human");
  timestamp = 2;
  reason = null;
}

abbrev folder : Dict Text Json → Folder platform
folder files = record { files = files; temps = [] }

abbrev entry : Text → Option ℕ → Text × Json
entry name expires = (name, request_to_dict platform (request name expires))

abbrev pub disk : Disk platform
disk = record {
  requests =
      folder (entry (lit "a") none ∷ entry (lit "b") (some 3) ∷ entry (lit "c") (some 3) ∷ []);
  results = folder ((lit "c", result_to_dict platform result) ∷ []);
}

abbrev swept : Disk platform
swept = record disk { requests = folder (entry (lit "a") none ∷ entry (lit "c") (some 3) ∷ []) }

store_code : Unit {0}
unfolding pending expire_old pending_entry expired_entry is_expired is_alive read_content exists
    request_to_dict request_from_dict time_or_now dict_or_empty dt_to_iso dt_from_iso truthy find_or
    lookup insert erase lit ◌==◌ save atomic_write
store_code = tt

expire_old_runs : expire_old platform 5 disk ≡ (ok 1, swept)
unfolding store_code
expire_old_runs = refl

pending_runs : pending platform 5 disk ≡ ok (request (lit "a") none ∷ [])
unfolding store_code
pending_runs = refl

get-save_example : get platform 5 (lit "d") (save platform (request (lit "d") (some 9)) disk) ≡ (
    if lit "d" == lit "d"
    then ok (some (request (lit "d") (some 9)))
    else get platform 5 (lit "d") disk)
get-save_example =
    Access.get-save platform platform-IsLawful 5 (request (lit "d") (some 9)) (lit "d") disk

pending-resolve_example :
    pending platform 5 (resolve platform (lit "a") result disk)
    ≡ pending platform 5 (record disk {
      requests = record disk.requests { files = erase (lit "a") disk.requests.files };
    })
pending-resolve_example = Pending.pending-resolve platform 5 (lit "a") result disk

expire_old_lem_example :
    (pending platform 5 swept ≡ pending platform 5 disk)
    × (1 + length swept.requests.files ≡ length disk.requests.files)
    × (swept.requests.files
        ≡ keep (λ file. not (Pending.is_overdue platform 5 disk.results file)) disk.requests.files)
    × (swept.results ≡ disk.results)
    × (expire_old platform 5 swept ≡ (ok 0, swept))
expire_old_lem_example =
    Pending.expire_old_lem platform 5 platform-IsLawful disk swept 1 expire_old_runs
