-- ===== src/ApprovalStore/Records.antt =====
-- Requests and results of approvals, and their dictionaries (src/approval_store.py, the functions
-- above the class). What Python's `datetime`, `json` and `dict` do is a parameter.
use claudecodenodus.Base.{
  Text, lit, ◌++◌, ◌≡◌, refl, ◌==◌, Bool, true, not, Option, none, some, arith, if◌then◌else◌,
}
use claudecodenodus.Exec.{Fault, Result, ok, err, bind}
use claudecodenodus.Json.{Json, null, bool, str, dict, Fields, end, field, truthy, find, find_or}
use claudecodenodus.Python.{Loaded, value}

-- The parts of Python that the store uses. `gt` and `le` compare two times and may raise.
pub record Platform : Type 1 where
  pub Time : Type 0
  pub isoformat : Time → Text
  pub fromisoformat : Json → Result Fault Time
  pub gt : Time → Time → Result Fault Bool
  pub le : Time → Time → Result Fault Bool
  -- `dict(value)`
  pub to_dict : Json → Result Fault Fields
  -- `f"{value}"`
  pub format : Json → Text
  -- The content of a file, `json.dump` and `json.load`.
  pub Content : Type 0
  pub dump : Json → Content
  pub load : Content → Loaded

-- The documented behaviour: both writers are undone by their readers, a time is written as a
-- text that is not empty, and `<=` is the opposite of `>`.
pub record IsLawful (P : Platform) : Type 0 where
  pub read_time : (t : P.Time) → P.fromisoformat (str (P.isoformat t)) ≡ ok t
  pub written_time : (t : P.Time) → truthy (str (P.isoformat t)) ≡ true
  pub copy_dict : (fs : Fields) → P.to_dict (dict fs) ≡ ok fs
  pub load-dump : (j : Json) → P.load (P.dump j) ≡ value j
  pub le-gt : (a b : P.Time) → P.le a b ≡ bind (P.gt a b) (λ later. ok (not later))

pub record ApprovalRequest (P : Platform) : Type 0 where
  pub id : Json
  pub action : Json
  pub requester_id : Json
  pub context : Fields
  pub created_at : P.Time
  pub expires_at : Option P.Time
  pub metadata : Fields

pub record ApprovalResult (P : Platform) : Type 0 where
  pub request_id : Json
  pub approved : Bool
  pub approver_id : Json
  pub timestamp : P.Time
  pub reason : Json

-- `d[key]`
unfoldable pub item : Text → Fields → Result Fault Json
unfolding find
item key fs = elim (find key fs) [
  | none ↦ err (record { kind = lit "KeyError"; message = lit "'" ++ (key ++ lit "'") })
  | some v ↦ ok v
]

no_dict : Fault
no_dict = record { kind = lit "TypeError"; message = lit "indices must be integers" }

module _ (P : Platform) where
  open P use {Time}

  unfoldable pub dt_to_iso : Option Time → Json
  dt_to_iso none = null
  dt_to_iso (some t) = str (P.isoformat t)

  unfoldable pub dt_from_iso : Json → Result Fault (Option Time)
  dt_from_iso raw = if truthy raw then bind (P.fromisoformat raw) (λ t. ok (some t)) else ok none

  -- `_dt_from_iso(raw) or datetime.now(timezone.utc)`
  unfoldable pub time_or_now : Time → Json → Result Fault Time
  time_or_now now raw = bind (dt_from_iso raw) (λ t. ok (elim t [ none ↦ now | some t' ↦ t' ]))

  -- `dict(raw or {})`
  unfoldable pub dict_or_empty : Json → Result Fault Fields
  dict_or_empty raw = if truthy raw then P.to_dict raw else ok end

  unfoldable pub request_to_dict : ApprovalRequest P → Json
  request_to_dict req = dict (
      field (lit "id") req.id (
        field (lit "action") req.action (
          field (lit "requester_id") req.requester_id (
            field (lit "context") (dict req.context) (
              field (lit "created_at") (dt_to_iso (some req.created_at)) (
                field (lit "expires_at") (dt_to_iso req.expires_at)
                  (field (lit "metadata") (dict req.metadata) end)))))))

  -- A value that is no dict cannot be indexed by a text.
  unfoldable pub request_from_dict : Time → Json → Result Fault (ApprovalRequest P)
  unfolding item find_or no_dict
  request_from_dict now (dict d) = bind (item (lit "id") d) (λ id.
      bind (item (lit "action") d) (λ action. bind (item (lit "requester_id") d) (λ requester_id.
        bind (dict_or_empty (find_or (lit "context") null d)) (λ context.
          bind (time_or_now now (find_or (lit "created_at") null d)) (λ created_at.
            bind (dt_from_iso (find_or (lit "expires_at") null d)) (λ expires_at.
              bind (dict_or_empty (find_or (lit "metadata") null d)) (λ metadata. ok (record {
                id = id;
                action = action;
                requester_id = requester_id;
                context = context;
                created_at = created_at;
                expires_at = expires_at;
                metadata = metadata;
              }))))))))
  request_from_dict now other = err no_dict

  unfoldable pub result_to_dict : ApprovalResult P → Json
  result_to_dict res = dict (
      field (lit "request_id") res.request_id (
        field (lit "approved") (bool res.approved) (
          field (lit "approver_id") res.approver_id (
            field (lit "timestamp") (dt_to_iso (some res.timestamp))
              (field (lit "reason") res.reason end)))))

  unfoldable pub result_from_dict : Time → Json → Result Fault (ApprovalResult P)
  unfolding item find_or no_dict truthy
  result_from_dict now (dict d) = bind (item (lit "request_id") d) (λ request_id.
      bind (item (lit "approved") d) (λ approved.
        bind (time_or_now now (find_or (lit "timestamp") null d)) (λ timestamp. ok (record {
          request_id = request_id;
          approved = truthy approved;
          approver_id = find_or (lit "approver_id") null d;
          timestamp = timestamp;
          reason = find_or (lit "reason") null d;
        }))))
  result_from_dict now other = err no_dict

  module _ (lawful : IsLawful P) (now : Time) where
    dict_or_empty-dict : (fs : Fields) → dict_or_empty (dict fs) ≡ ok fs
    unfolding dict_or_empty truthy
    dict_or_empty-dict end = refl
    dict_or_empty-dict (field k v fs) = lawful.copy_dict (field k v fs)

    dt-round_trip : (t : Option Time) → dt_from_iso (dt_to_iso t) ≡ ok t
    unfolding dt_from_iso dt_to_iso
    dt-round_trip none = unfold truthy in refl
    dt-round_trip (some t) = ground (arith, lawful.written_time t, lawful.read_time t)

    time-round_trip : (t : Time) → time_or_now now (dt_to_iso (some t)) ≡ ok t
    unfolding time_or_now
    time-round_trip t = rw (dt-round_trip (some t))

    -- A request is read back from its dictionary as it was, whatever the time of reading.
    pub request-round_trip :
        (req : ApprovalRequest P) → request_from_dict now (request_to_dict req) ≡ ok req
    unfolding request_from_dict request_to_dict lit ◌==◌
    request-round_trip req = simp (dict_or_empty-dict, time-round_trip, dt-round_trip)

    -- So is a result.
    pub result-round_trip :
        (res : ApprovalResult P) → result_from_dict now (result_to_dict res) ≡ ok res
    unfolding result_from_dict result_to_dict lit ◌==◌
    result-round_trip res = simp time-round_trip
