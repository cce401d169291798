-- ===== src/ApprovalStore/Pending.antt =====
-- Which requests of the store are pending (src/approval_store.py).
use claudecodenodus.Base.{
  ℕ, ◌+◌, Text, text_eq, ◌==◌, ==_iff, ==-refl, ◌≡◌, refl, Bool, not, ◌&&◌, ◌||◌, true, false,
  Option, none, some, List, [], ◌∷◌, arith, In, length, Option-cases, inl, inr,
}
use claudecodenodus.Base.Dict.{Dict, lookup, insert, erase, lookup-insert}
use claudecodenodus.Base.Collections.{keep}
use claudecodenodus.Exec.{Fault, Result, ok, err, Result-cases}
use claudecodenodus.Json.{Json}
use claudecodenodus.ApprovalStore.Records.{
  Platform, IsLawful, ApprovalRequest, ApprovalResult, request-round_trip, request_to_dict,
  request_from_dict, result_to_dict,
}
use claudecodenodus.ApprovalStore.Files.{
  Folder, Disk, atomic_write, read_content, exists, save, resolve, is_alive, is_expired,
  pending_entry, pending_files, pending, expired_entry, expire_files, expire_old,
}
use claudecodenodus.ApprovalStore.Access.{lookup-atomic_write}

module _ (P : Platform) (now : P.Time) where
  exists-atomic_write :
      (name j : Text) (payload : Json) (d : Folder P)
      → exists P j (atomic_write P name payload d) ≡ (name == j || exists P j d)
  unfolding exists
  exists-atomic_write name j payload d = ground (arith, lookup-atomic_write P name j payload d)

  -- Writing a result takes the request's file out of the loop.
  pending_files-resolve :
      (name : Text) (payload : Json) (results : Folder P) (files : Dict Text P.Content)
      → pending_files P now (atomic_write P name payload results) files
        ≡ pending_files P now results (erase name files)
  unfolding pending_files pending_entry erase
  pending_files-resolve name payload results [] = refl
  pending_files-resolve name payload results ((j, content) ∷ files) = ground (
    arith,
    ==_iff name j,
    ==_iff j name,
    exists-atomic_write name j payload results,
    pending_files-resolve name payload results files,
  )

  -- After a request is resolved, the pending requests are those that would be pending if it had
  -- no file: it is never listed again, and nothing else changes.
  pub pending-resolve :
      (name : Text) (res : ApprovalResult P) (disk : Disk P)
      → pending P now (resolve P name res disk)
        ≡ pending P now (record disk {
          requests = record disk.requests { files = erase name disk.requests.files };
        })
  unfolding pending resolve
  pending-resolve name res disk =
      pending_files-resolve name (result_to_dict P res) disk.results disk.requests.files

  -- The time at which the request in a file expires, if it has one and the file can be read.
  abbrev pub expiry_of : Result Fault (ApprovalRequest P) → Option P.Time
  expiry_of (err f) = none
  expiry_of (ok req) = req.expires_at

  abbrev pub expiry_in : Result Fault (Option Json) → Option P.Time
  expiry_in (err f) = none
  expiry_in (ok none) = none
  expiry_in (ok (some d)) = expiry_of (request_from_dict P now d)

  -- Whether a time has come.
  abbrev pub has_come : Option P.Time → Bool
  has_come none = false
  has_come (some t) = elim (P.le t now) [ err f ↦ false | ok come ↦ come ]

  -- A request is overdue if it has no result and has expired by now.
  abbrev pub is_overdue : Folder P → Text × P.Content → Bool
  is_overdue results file =
      not (exists P file.0 results) && has_come (expiry_in (read_content P file.1))

  module _ (lawful : IsLawful P) where
    -- A file that `expire_old` removes is one that `pending` does not list.
    entry-expired :
        (results : Folder P) (name : Text) (content : P.Content)
        → expired_entry P now results name content ≡ ok true
        → pending_entry P now results name content ≡ ok none
    unfolding expired_entry pending_entry is_expired is_alive
    entry-expired results name content h = elim (Result-cases (read_content P content)) [
      | inr (f, e) ↦ ground arith
      | inl (none, e) ↦ ground arith
      | inl (some d, e) ↦ elim (Result-cases (request_from_dict P now d)) [
        | inr (f, p) ↦ ground arith
        | inl (req, p) ↦ elim (Option-cases req.expires_at) [
          | inl q ↦ ground arith
          | inr (t, q) ↦ ground (arith, lawful.le-gt t now)
        ]
      ]
    ]

    -- What a finished round finds is whether the file is overdue.
    entry_overdue :
        (results : Folder P) (name : Text) (content : P.Content) (b : Bool)
        → expired_entry P now results name content ≡ ok b
        → is_overdue results (name, content) ≡ b
    unfolding expired_entry is_expired
    entry_overdue results name content b h = elim (Result-cases (read_content P content)) [
      | inr (f, e) ↦ ground arith
      | inl (none, e) ↦ ground arith
      | inl (some d, e) ↦ elim (Result-cases (request_from_dict P now d)) [
        | inr (f, p) ↦ ground arith
        | inl (req, p) ↦ elim (Option-cases req.expires_at) [
          | inl q ↦ ground arith
          | inr (t, q) ↦ ground arith
        ]
      ]
    ]

    -- What a finished run of the loop leaves: the same pending requests, the files that are not
    -- overdue, as many fewer as it says, and nothing for a second run to remove.
    abbrev Swept : Folder P → Dict Text P.Content → Result Fault ℕ → Dict Text P.Content → Type 0
    Swept results files (err f) left = Unit
    Swept results files (ok n) left =
        (pending_files P now results left ≡ pending_files P now results files)
        × (n + length left ≡ length files)
        × (left ≡ keep (λ file. not (is_overdue results file)) files)
        × (expire_files P now results left ≡ (ok 0, left))

    expire_files-Swept :
        (results : Folder P) (files : Dict Text P.Content)
        → Swept results files
            (expire_files P now results files).0
            (expire_files P now results files).1
    unfolding expire_files pending_files keep
    expire_files-Swept results [] = (refl, omega arith, refl, refl)
    expire_files-Swept results ((name, content) ∷ files) =
        elim (Result-cases (expired_entry P now results name content)) [
          | inr (f, e) ↦ ground arith
          | inl (true, e) ↦ ground (
            arith,
            expire_files-Swept results files,
            entry-expired results name content e,
            entry_overdue results name content true e,
          )
          | inl (false, e) ↦
              ground (
                arith,
                expire_files-Swept results files,
                entry_overdue results name content false e,
              )
        ]

    -- When `expire_old` returns, it has removed exactly the files of requests that have no result and
    -- have expired, as many as it says, and no result. The pending requests are the same as before,
    -- and another run at that time removes nothing and changes nothing.
    pub expire_old_lem :
        (disk after : Disk P) (n : ℕ)
        → expire_old P now disk ≡ (ok n, after)
        → (pending P now after ≡ pending P now disk)
          × (n + length after.requests.files ≡ length disk.requests.files)
          × (after.requests.files
              ≡ keep (λ file. not (is_overdue disk.results file)) disk.requests.files)
          × (after.results ≡ disk.results)
          × (expire_old P now after ≡ (ok 0, after))
    unfolding expire_old pending
    expire_old_lem disk after n h =
        ground (arith, expire_files-Swept disk.results disk.requests.files)

  expire_files-resolved :
      (results : Folder P) (name : Text) (files : Dict Text P.Content)
      → exists P name results ≡ true
      → lookup name (expire_files P now results files).1 ≡ lookup name files
  unfolding expire_files expired_entry lookup
  expire_files-resolved results name [] h = refl
  expire_files-resolved results name ((j, content) ∷ files) h =
      ground (arith, ==_iff j name, expire_files-resolved results name files h)

  -- Whatever the outcome, `expire_old` keeps the file of a request that has a result, and all
  -- results.
  expire_old-resolved :
      (disk : Disk P) (name : Text)
      → exists P name disk.results ≡ true
      → (lookup name (expire_old P now disk).1.requests.files ≡ lookup name disk.requests.files)
        × ((expire_old P now disk).1.results ≡ disk.results)
  unfolding expire_old
  expire_old-resolved disk name h =
      (expire_files-resolved disk.results name disk.requests.files h, refl)

  module _ (lawful : IsLawful P) (req : ApprovalRequest P) where
    abbrev name : Text
    name = P.format req.id

    saved_entry :
        (results : Folder P)
        → exists P name results ≡ false
        → is_alive P now req ≡ ok true
        → pending_entry P now results name (P.dump (request_to_dict P req)) ≡ ok (some req)
    unfolding pending_entry read_content
    saved_entry results fresh alive =
        ground
          (arith, lawful.load-dump (request_to_dict P req), request-round_trip P lawful now req)

    -- If the loop ends, the request is in its list.
    abbrev Listed : Result Fault (List (ApprovalRequest P)) → Type 0
    Listed (err f) = Unit
    Listed (ok rs) = In req rs

    saved-Listed :
        (results : Folder P) (files : Dict Text P.Content)
        → pending_entry P now results name (P.dump (request_to_dict P req)) ≡ ok (some req)
        → Listed (pending_files P now results (insert name (P.dump (request_to_dict P req)) files))
    unfolding pending_files insert
    saved-Listed results [] e = ground arith
    saved-Listed results ((j, content) ∷ files) e =
        elim (Result-cases
          (pending_files P now results (insert name (P.dump (request_to_dict P req)) files))) [
            | inr (f, p) ↦ ground (arith, ==_iff j name)
            | inl (rs, p) ↦ ground (arith, ==_iff j name, saved-Listed results files e)
          ]

    lookup-saved :
        (disk : Disk P)
        → (save P req disk).requests.files
          ≡ insert name (P.dump (request_to_dict P req)) disk.requests.files
    unfolding save atomic_write
    lookup-saved disk = ground (
      arith,
      lookup-insert name name (P.dump (request_to_dict P req)) disk.requests.temps,
      ==-refl name,
    )

    results-save : (disk : Disk P) → (save P req disk).results ≡ disk.results
    unfolding save
    results-save disk = refl

    -- A request that was saved, has no result and has not expired is pending.
    pending-save :
        (disk : Disk P) (rs : List (ApprovalRequest P))
        → exists P name disk.results ≡ false
        → is_alive P now req ≡ ok true
        → pending P now (save P req disk) ≡ ok rs
        → In req rs
    unfolding pending
    pending-save disk rs fresh alive h = ground (
      arith,
      saved-Listed disk.results disk.requests.files (saved_entry disk.results fresh alive),
      lookup-saved disk,
      results-save disk,
    )
