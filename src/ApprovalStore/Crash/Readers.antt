-- ===== src/ApprovalStore/Crash/Readers.antt =====
-- What readers of the store see after a crash (src/approval_store.py).
use claudecodenodus.Base.{
  Text, text_eq, ==-refl, ◌≡◌, refl, sym, ◌∙◌, ◌⊎◌, inl, inr, [], ◌∷◌, arith,
}
use claudecodenodus.Base.Dict.{Dict, insert, lookup-insert}
use claudecodenodus.Json.{Json}
use claudecodenodus.ApprovalStore.Records.{
  Platform, ApprovalRequest, ApprovalResult, request_to_dict, result_to_dict,
}
use claudecodenodus.ApprovalStore.Files.{
  Folder, Disk, write_temp, replace, atomic_write, read_json, exists, save, resolve, get,
  get_result, pending_entry, pending_files, pending, expired_entry, expire_files, expire_old,
}
use claudecodenodus.ApprovalStore.Crash.{
  Crash, unopened, writing, written, replaced, cut_write, cut_save, cut_resolve,
}

module _ (P : Platform) where
  -- Every operation that reads gives the same on both disks.
  abbrev pub SameReads : Disk P → Disk P → Type 0
  SameReads d e =
      (now : P.Time) (request_id : Text)
      → (get P now request_id d ≡ get P now request_id e)
        × (get_result P now request_id d ≡ get_result P now request_id e)
        × (pending P now d ≡ pending P now e)
        × ((expire_old P now d).0 ≡ (expire_old P now e).0)

  module _ (now : P.Time) (r r' : Folder P) (h : r.files ≡ r'.files) where
    exists-files : (name : Text) → exists P name r ≡ exists P name r'
    unfolding exists
    exists-files name = rw h refl

    read_json-files : (name : Text) → read_json P name r ≡ read_json P name r'
    unfolding read_json
    read_json-files name = rw h refl

    pending_entry-files :
        (name : Text) (c : P.Content) → pending_entry P now r name c ≡ pending_entry P now r' name c
    unfolding pending_entry
    pending_entry-files name c = rw (exists-files name) refl

    expired_entry-files :
        (name : Text) (c : P.Content) → expired_entry P now r name c ≡ expired_entry P now r' name c
    unfolding expired_entry
    expired_entry-files name c = rw (exists-files name) refl

    pending_files-files :
        (files : Dict Text P.Content) → pending_files P now r files ≡ pending_files P now r' files
    unfolding pending_files
    pending_files-files [] = refl
    pending_files-files ((request_id, content) ∷ files) =
        rw (pending_entry-files request_id content, pending_files-files files) refl

    expire_files-files :
        (files : Dict Text P.Content) → expire_files P now r files ≡ expire_files P now r' files
    unfolding expire_files
    expire_files-files [] = refl
    expire_files-files ((request_id, content) ∷ files) =
        ground (arith, expired_entry-files request_id content, expire_files-files files)

  files-SameReads :
      (d e : Disk P)
      → d.requests.files ≡ e.requests.files
      → d.results.files ≡ e.results.files
      → SameReads d e
  unfolding get get_result pending expire_old
  files-SameReads d e h k now request_id = (
    rw (read_json-files now d.requests e.requests h request_id) refl,
    rw (read_json-files now d.results e.results k request_id) refl,
    rw (h, pending_files-files now d.results e.results k e.requests.files) refl,
    rw (h, expire_files-files now d.results e.results k e.requests.files) refl,
  )

  insert_twice :
      (name : Text) (c : P.Content) (files : Dict Text P.Content)
      → insert name c (insert name c files) ≡ insert name c files
  unfolding insert
  insert_twice name c [] = ground (arith, ==-refl name)
  insert_twice name c ((j, v) ∷ files) = ground (arith, insert_twice name c files, ==-refl name)

  -- A write that was cut off has left the old files or the new ones.
  cut_write-files :
      (crash : Crash P) (name : Text) (payload : Json) (d : Folder P)
      → ((cut_write P crash name payload d).files ≡ d.files)
        ⊎ ((cut_write P crash name payload d).files ≡ (atomic_write P name payload d).files)
  unfolding cut_write write_temp
  cut_write-files unopened name payload d = inl refl
  cut_write-files (writing part) name payload d = inl refl
  cut_write-files written name payload d = inl refl
  cut_write-files replaced name payload d = inr refl

  atomic_write-files :
      (name : Text) (payload : Json) (d : Folder P)
      → (atomic_write P name payload d).files ≡ insert name (P.dump payload) d.files
  unfolding atomic_write replace write_temp
  atomic_write-files name payload d =
      ground (arith, lookup-insert name name (P.dump payload) d.temps, ==-refl name)

  -- Writing again after that gives the new files.
  atomic_write-cut_write :
      (crash : Crash P) (name : Text) (payload : Json) (d : Folder P)
      → (atomic_write P name payload (cut_write P crash name payload d)).files
        ≡ (atomic_write P name payload d).files
  atomic_write-cut_write crash name payload d =
      atomic_write-files name payload (cut_write P crash name payload d)
      ∙ ground (
        arith,
        cut_write-files crash name payload d,
        atomic_write-files name payload d,
        insert_twice name (P.dump payload) d.files,
      )
      ∙ sym (atomic_write-files name payload d)

  -- A process that dies while it saves a request leaves a store in which every operation reads what
  -- it read before, or all that a complete save would show; and saving again gives the complete
  -- save. The same holds of a result.
  pub cut_save-SameReads :
      (crash : Crash P) (req : ApprovalRequest P) (name : Text) (res : ApprovalResult P)
      (disk : Disk P)
      → (SameReads (cut_save P crash req disk) disk
          ⊎ SameReads (cut_save P crash req disk) (save P req disk))
        × SameReads (save P req (cut_save P crash req disk)) (save P req disk)
        × (SameReads (cut_resolve P crash name res disk) disk
            ⊎ SameReads (cut_resolve P crash name res disk) (resolve P name res disk))
        × SameReads
            (resolve P name res (cut_resolve P crash name res disk))
            (resolve P name res disk)
  unfolding cut_save cut_resolve save resolve
  cut_save-SameReads crash req name res disk = (
    elim (cut_write-files crash (P.format req.id) (request_to_dict P req) disk.requests) [
      | inl h ↦ inl (files-SameReads _ _ h refl)
      | inr h ↦ inr (files-SameReads _ _ h refl)
    ],
    files-SameReads _ _
        (atomic_write-cut_write crash (P.format req.id) (request_to_dict P req) disk.requests) refl,
    elim (cut_write-files crash name (result_to_dict P res) disk.results) [
      | inl h ↦ inl (files-SameReads _ _ refl h)
      | inr h ↦ inr (files-SameReads _ _ refl h)
    ],
    files-SameReads _ _ refl
        (atomic_write-cut_write crash name (result_to_dict P res) disk.results),
  )
