-- ===== src/ApprovalStore/Crash.antt =====
-- A process that dies inside `_atomic_write` (src/approval_store.py): how far it came, and what it
-- leaves on the disk. `Readers` holds the proof.
pub mod Readers
use claudecodenodus.Base.{Text, text_eq}
use claudecodenodus.Json.{Json}
use claudecodenodus.ApprovalStore.Records.{
  Platform, ApprovalRequest, ApprovalResult, request_to_dict, result_to_dict,
}
use claudecodenodus.ApprovalStore.Files.{Folder, Disk, write_temp, atomic_write}

module _ (P : Platform) where
  -- Before `open`; with any part of the temporary file written; before `os.replace`; after it.
  pub data Crash : Type 0 where
    unopened : Crash
    writing : P.Content → Crash
    written : Crash
    replaced : Crash

  unfoldable pub cut_write : Crash → Text → Json → Folder P → Folder P
  cut_write unopened name payload d = d
  cut_write (writing part) name payload d = write_temp P name part d
  cut_write written name payload d = write_temp P name (P.dump payload) d
  cut_write replaced name payload d = atomic_write P name payload d

  unfoldable pub cut_save : Crash → ApprovalRequest P → Disk P → Disk P
  unfolding cut_write
  cut_save crash req disk = record disk {
    requests = cut_write crash (P.format req.id) (request_to_dict P req) disk.requests;
  }

  unfoldable pub cut_resolve : Crash → Text → ApprovalResult P → Disk P → Disk P
  unfolding cut_write
  cut_resolve crash request_id res disk = record disk {
    results = cut_write crash request_id (result_to_dict P res) disk.results;
  }
