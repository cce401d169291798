-- ===== src/ApprovalApi/Threads.antt =====
-- Requests in several threads (src/approval_api.py). `serve` runs each request in a thread of its own
-- over one `ApprovalService`, which takes no lock: between two steps of `start_research`, `approve`
-- or `reject` other threads may act. The other methods are single steps.
pub mod Alone
pub mod Interleavings
pub mod Frames
use claudecodenodus.Base.{
  ℕ, zero, suc, Text, lit, ◌++◌, Bool, true, not, ◌||◌, List, [], ◌∷◌, if◌then◌else◌,
}
use claudecodenodus.Exec.{Result, ok, err, pure, raise, lift, ◌>>=◌, ◌>>◌}
use claudecodenodus.Json.{Json, bool, str, dict, end, field, truthy}
use claudecodenodus.Python.{Python}
use claudecodenodus.ApprovalApi.Service.{
  Host, Error, refused, Run, Service, Action, call, wrap, status_of, draft_of, published_flag,
  new_run, run_json, store_run, update_run, require_waiting,
}

-- Where the thread of a request stands: what it still has to do, with its local variables.
pub data Thread : Type 0 where
  approving : Text → Thread
  approve_checked : Text → Thread
  approve_resumed : Text → Json → Thread
  rejecting : Text → Json → Thread
  reject_checked : Text → Json → Thread
  reject_resumed : Text → Json → Thread
  reject_recorded : Text → Json → Json → Thread
  starting : Json → Json → Thread
  started : Json → Json → Json → Thread
  finished : Result Error Json → Thread

-- An exception ends the thread.
abbrev pub thread_of : Result Error Thread → Thread
thread_of (ok t) = t
thread_of (err e) = finished (err e)

module _ (H : Host) (py : Python) where
  -- The next step: the check, the call of the runtime, or an assignment to the record with what
  -- follows it.
  unfoldable pub next : Thread → Action H Thread
  unfolding call
  next (approving run_id) = do require_waiting H py run_id; pure (approve_checked run_id)
  next (approve_checked run_id) = do
    result ← call H (H.resume run_id (dict (field (lit "approved") (bool true) end)))
    pure (approve_resumed run_id result)
  next (approve_resumed run_id result) = do
    published ← lift (wrap (published_flag result))
    let status : Json = str (if published then lit "published" else lit "completed")
    update_run H run_id (λ r. record r { status = status })
    pure (
        finished (
          ok (
            dict (
              field (lit "run_id") (str run_id)
                (field (lit "status") status (field (lit "published") (bool published) end))))))
  next (rejecting run_id feedback) =
      if not (truthy feedback)
      then raise (refused (lit "'feedback' is required to reject a draft") 400)
      else do require_waiting H py run_id; pure (reject_checked run_id feedback)
  next (reject_checked run_id feedback) = do
    result ← call H (H.resume_with_feedback run_id feedback)
    pure (reject_resumed run_id result)
  next (reject_resumed run_id result) = do
    status ← lift (wrap (status_of result))
    update_run H run_id (λ r. record r { status = status })
    pure (reject_recorded run_id result status)
  next (reject_recorded run_id result status) = do
    draft ← lift (wrap (draft_of result))
    update_run H run_id (λ r. record r { draft = draft })
    pure (
        finished (
          ok (
            dict (
              field (lit "run_id") (str run_id)
                (field (lit "status") status (field (lit "draft") draft end))))))
  next (starting question session_id) =
      if not (truthy question) || not (truthy session_id)
      then raise (refused (lit "both 'question' and 'session_id' are required") 400)
      else do
        result ← call H (H.start question session_id)
        pure (started question session_id result)
  next (started question session_id result) = do
    r ← lift (wrap (new_run question session_id result))
    store_run H r
    pure (finished (ok (run_json r)))
  next (finished outcome) = pure (finished outcome)

  unfoldable pub advance : Thread → Service H → Thread × Service H
  advance t s = let (r, s') = next t s in (thread_of r, s')

  -- A thread alone, for some steps.
  unfoldable pub alone : ℕ → Thread → Service H → Thread × Service H
  alone zero t s = (t, s)
  alone (suc n) t s = let (t', s') = advance t s in alone n t' s'

  -- A step of the `n`-th thread; there may be none.
  unfoldable pub turn : ℕ → List Thread → Service H → List Thread × Service H
  turn n [] s = ([], s)
  turn zero (t ∷ ts) s = let (t', s') = advance t s in (t' ∷ ts, s')
  turn (suc n) (t ∷ ts) s = let (ts', s') = turn n ts s in (t ∷ ts', s')

  -- An interleaving: whose turn it is, step by step.
  unfoldable pub interleave : List ℕ → List Thread → Service H → List Thread × Service H
  interleave [] ts s = (ts, s)
  interleave (n ∷ ns) ts s = let (ts', s') = turn n ts s in interleave ns ts' s'
