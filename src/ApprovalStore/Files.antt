-- ===== src/ApprovalStore/Files.antt =====
-- `FileApprovalStore` of src/approval_store.py on a modelled directory. The file `<id>.json` is
-- the entry `<id>`, and a temporary file of an atomic write is an entry of its own map, since its
-- name does not match `*.json`. A directory is listed in the order of its map.
use claudecodenodus.Base.{
  ℕ, ◌+◌, Text, text_eq, Bool, true, false, Option, none, some, List, [], ◌∷◌, if◌then◌else◌,
}
use claudecodenodus.Base.Dict.{Dict, lookup, insert, erase}
use claudecodenodus.Exec.{Fault, Result, ok, err, bind}
use claudecodenodus.Json.{Json}
use claudecodenodus.Python.{value, malformed, broken}
use claudecodenodus.ApprovalStore.Records.{
  Platform, ApprovalRequest, ApprovalResult, request_to_dict, request_from_dict, result_to_dict,
  result_from_dict,
}

module _ (P : Platform) where
  open P use {Time, Content}

  pub record Folder : Type 0 where
    pub files : Dict Text Content
    pub temps : Dict Text Content

  pub record Disk : Type 0 where
    pub requests : Folder
    pub results : Folder

  -- The two steps of `_atomic_write`: the temporary file, and `os.replace`.
  unfoldable pub write_temp : Text → Content → Folder → Folder
  write_temp name content d = record d { temps = insert name content d.temps }

  unfoldable pub replace : Text → Folder → Folder
  replace name d = elim (lookup name d.temps) [
    | none ↦ d
    | some content ↦ record { files = insert name content d.files; temps = erase name d.temps }
  ]

  unfoldable pub atomic_write : Text → Json → Folder → Folder
  unfolding write_temp replace
  atomic_write name payload d = replace name (write_temp name (P.dump payload) d)

  -- `_read_json`: a missing or malformed file reads as absent.
  unfoldable pub read_content : Content → Result Fault (Option Json)
  read_content content = elim (P.load content) [
    | value j ↦ ok (some j)
    | malformed message ↦ ok none
    | broken f ↦ err f
  ]

  unfoldable pub read_json : Text → Folder → Result Fault (Option Json)
  unfolding read_content
  read_json name d = elim (lookup name d.files) [
    | none ↦ ok none
    | some content ↦ read_content content
  ]

  unfoldable pub exists : Text → Folder → Bool
  exists name d = elim (lookup name d.files) [ none ↦ false | some c ↦ true ]

  unfoldable pub save : ApprovalRequest P → Disk → Disk
  save req disk = record disk {
    requests = atomic_write (P.format req.id) (request_to_dict P req) disk.requests;
  }

  unfoldable pub resolve : Text → ApprovalResult P → Disk → Disk
  resolve request_id res disk = record disk {
    results = atomic_write request_id (result_to_dict P res) disk.results;
  }

  abbrev optional : {A : Type 0} → (Json → Result Fault A) → Option Json → Result Fault (Option A)
  optional f none = ok none
  optional f (some d) = bind (f d) (λ a. ok (some a))

  unfoldable pub get : Time → Text → Disk → Result Fault (Option (ApprovalRequest P))
  get now request_id disk =
      bind (read_json request_id disk.requests) (optional (request_from_dict P now))

  unfoldable pub get_result : Time → Text → Disk → Result Fault (Option (ApprovalResult P))
  get_result now request_id disk =
      bind (read_json request_id disk.results) (optional (result_from_dict P now))

  -- `req.expires_at is None or req.expires_at > now`
  unfoldable pub is_alive : Time → ApprovalRequest P → Result Fault Bool
  is_alive now req = elim req.expires_at [ none ↦ ok true | some t ↦ P.gt t now ]

  -- `req.expires_at is not None and req.expires_at <= now`
  unfoldable pub is_expired : Time → ApprovalRequest P → Result Fault Bool
  is_expired now req = elim req.expires_at [ none ↦ ok false | some t ↦ P.le t now ]

  -- One round of the loop in `pending`: the request that it appends, if any.
  unfoldable pub pending_entry :
      Time → Folder → Text → Content → Result Fault (Option (ApprovalRequest P))
  unfolding exists is_alive
  pending_entry now results request_id content =
      if exists request_id results
      then ok none
      else bind (read_content content) (λ d. bind (optional (request_from_dict P now) d) (λ r.
        elim r [
          | none ↦ ok none
          | some req ↦ bind (is_alive now req) (λ alive. ok (if alive then some req else none))
        ]))

  abbrev cons_some : {A : Type 0} → Option A → List A → List A
  cons_some none xs = xs
  cons_some (some x) xs = x ∷ xs

  unfoldable pub pending_files :
      Time → Folder → Dict Text Content → Result Fault (List (ApprovalRequest P))
  pending_files now results [] = ok []
  pending_files now results ((request_id, content) ∷ files) =
      let rest = pending_files now results files in
      bind (pending_entry now results request_id content)
        (λ r. bind rest (λ rs. ok (cons_some r rs)))

  unfoldable pub pending : Time → Disk → Result Fault (List (ApprovalRequest P))
  unfolding pending_files
  pending now disk = pending_files now disk.results disk.requests.files

  -- One round of the loop in `expire_old`: whether the file is removed.
  unfoldable pub expired_entry : Time → Folder → Text → Content → Result Fault Bool
  unfolding exists is_expired
  expired_entry now results request_id content =
      if exists request_id results
      then ok false
      else bind (read_content content) (λ d.
        bind (optional (request_from_dict P now) d)
          (λ r. elim r [ none ↦ ok false | some req ↦ is_expired now req ]))

  -- The number of files removed, and the files that are left. An exception ends the loop; what
  -- was removed before it stays removed.
  unfoldable pub expire_files :
      Time → Folder → Dict Text Content → Result Fault ℕ × Dict Text Content
  expire_files now results [] = (ok 0, [])
  expire_files now results ((request_id, content) ∷ files) =
      elim (expired_entry now results request_id content) [
        | err f ↦ (err f, (request_id, content) ∷ files)
        | ok true ↦
            let (count, left) = expire_files now results files in
            (bind count (λ n. ok (n + 1)), left)
        | ok false ↦
            let (count, left) = expire_files now results files in
            (count, (request_id, content) ∷ left)
      ]

  unfoldable pub expire_old : Time → Disk → Result Fault ℕ × Disk
  unfolding expire_files
  expire_old now disk =
      let (count, left) = expire_files now disk.results disk.requests.files in
      (count, record disk { requests = record disk.requests { files = left } })
