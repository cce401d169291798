-- ===== src/ApprovalStore/Access.antt =====
-- Reading back what was written to the store (src/approval_store.py), also when a writer stopped
-- half way.
use claudecodenodus.Base.{Text, text_eq, ◌==◌, ==-refl, ◌≡◌, some, arith, if◌then◌else◌}
use claudecodenodus.Base.Dict.{lookup, lookup-insert}
use claudecodenodus.Exec.{ok}
use claudecodenodus.Json.{Json}
use claudecodenodus.ApprovalStore.Records.{
  Platform, IsLawful, ApprovalRequest, ApprovalResult, request-round_trip, result-round_trip,
  request_to_dict, result_to_dict,
}
use claudecodenodus.ApprovalStore.Files.{
  Folder, Disk, atomic_write, read_json, read_content, save, resolve, get, get_result,
}

module _ (P : Platform) where
  -- The new file is there whole, and the other files are as before.
  pub lookup-atomic_write :
      (name j : Text) (payload : Json) (d : Folder P)
      → lookup j (atomic_write P name payload d).files
        ≡ (if name == j then some (P.dump payload) else lookup j d.files)
  unfolding atomic_write
  lookup-atomic_write name j payload d = ground (
    arith,
    lookup-insert name name (P.dump payload) d.temps,
    lookup-insert name j (P.dump payload) d.files,
    ==-refl name,
  )

  module _ (lawful : IsLawful P) (now : P.Time) where
    read_json-atomic_write :
        (name j : Text) (payload : Json) (d : Folder P)
        → read_json P j (atomic_write P name payload d)
          ≡ (if name == j then ok (some payload) else read_json P j d)
    unfolding read_json read_content
    read_json-atomic_write name j payload d =
        ground (arith, lookup-atomic_write name j payload d, lawful.load-dump payload)

    -- After `save` the request is read back under its id as it was, and all others as before.
    pub get-save :
        (req : ApprovalRequest P) (request_id : Text) (disk : Disk P)
        → get P now request_id (save P req disk)
          ≡ (if P.format req.id == request_id then ok (some req) else get P now request_id disk)
    unfolding get save
    get-save req request_id disk = ground (
      arith,
      read_json-atomic_write (P.format req.id) request_id (request_to_dict P req) disk.requests,
      request-round_trip P lawful now req,
    )

    -- After `resolve` the result is read back under the id that it was given for, and all others,
    -- and all requests, as before.
    get_result-resolve :
        (name request_id : Text) (res : ApprovalResult P) (disk : Disk P)
        → (get_result P now request_id (resolve P name res disk)
            ≡ (if name == request_id then ok (some res) else get_result P now request_id disk))
          × (get P now request_id (resolve P name res disk) ≡ get P now request_id disk)
    unfolding get_result get resolve
    get_result-resolve name request_id res disk = ground (
      arith,
      read_json-atomic_write name request_id (result_to_dict P res) disk.results,
      result-round_trip P lawful now res,
    )
