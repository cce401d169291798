-- ===== src/ApprovalApi/Threads/Frames.antt =====
-- What requests in any interleaving leave alone (src/approval_api.py).
use claudecodenodus.Base.{
  ℕ, zero, suc, Text, lit, ◌≡◌, refl, inl, inr, true, not, ◌||◌, List, [], ◌∷◌, All, arith,
  Option-cases, Bool-cases,
}
use claudecodenodus.Base.Dict.{lookup}
use claudecodenodus.Exec.{ok, pure, ◌>>◌, Result-cases}
use claudecodenodus.Json.{Json, bool, str, dict, end, field, truthy, json_key_eq}
use claudecodenodus.Python.{Python}
use claudecodenodus.ApprovalApi.Service.{
  Host, Run, Service, require_waiting, update_run, status_of, draft_of, published_flag, new_run,
  store_run,
}
use claudecodenodus.ApprovalApi.Threads.{
  Thread, approving, approve_checked, approve_resumed, rejecting, reject_checked, reject_resumed,
  reject_recorded, starting, started, finished, thread_of, next, advance, turn, interleave,
}

-- The run that the thread decides satisfies `Q`, and the record that it may store satisfies `S`.
abbrev pub Acts : (H : Host) → (Text → Type 0) → (Run → Type 0) → Thread → Type 0
Acts H Q S (approving run_id) = Q run_id
Acts H Q S (approve_checked run_id) = Q run_id
Acts H Q S (approve_resumed run_id result) = Q run_id
Acts H Q S (rejecting run_id feedback) = Q run_id
Acts H Q S (reject_checked run_id feedback) = Q run_id
Acts H Q S (reject_resumed run_id result) = Q run_id
Acts H Q S (reject_recorded run_id result status) = Q run_id
Acts H Q S (starting question session_id) =
    (w : H.State) (result : Json)
    → (H.start question session_id w).0 ≡ ok result
    → (r : Run) → new_run question session_id result ≡ ok r
    → S r
Acts H Q S (started question session_id result) =
    (r : Run) → new_run question session_id result ≡ ok r → S r
Acts H Q S (finished outcome) = Unit

module _ (H : Host) (py : Python) (P : Service H → Type 0) (Q : Text → Type 0)
    (S : Run → Type 0) where
  -- `P` survives any change of the runtime, changes of the records of runs in `Q` that keep the
  -- run's id, and new records in `S`.
  pub record Kept : Type 0 where
    pub at_world : (w : H.State) (s : Service H) → P s → P (record s { world = w })
    pub at_update :
        (run_id : Text)
        → Q run_id
        → (f : Run → Run) → ((r : Run) → (f r).run_id ≡ r.run_id)
        → (s : Service H) → P s
        → P (update_run H run_id f s).1
    pub at_store : (r : Run) → S r → (s : Service H) → P s → P (store_run H r s).1

  module _ (k : Kept) where
    open k use {at_world, at_update, at_store}

    -- An assignment to a record, after which the thread is `t`.
    update_run-kept :
        (run_id : Text) (f : Run → Run) (t : Thread) (s : Service H)
        → Q run_id
        → ((r : Run) → (f r).run_id ≡ r.run_id)
        → Acts H Q S t
        → P s
        → let (r, s') = (update_run H run_id f >> pure t) s in P s' × Acts H Q S (thread_of r)
    update_run-kept run_id f t s q same d h = elim (Result-cases (update_run H run_id f s).0) [
      | inl (u, l) ↦ rw l (at_update run_id q f same s h, d)
      | inr (x, l) ↦ rw l (at_update run_id q f same s h, tt)
    ]

    advance-kept :
        (t : Thread) (s : Service H)
        → Acts H Q S t
        → P s
        → P (advance H py t s).1 × Acts H Q S (advance H py t s).0
    unfolding advance next require_waiting
    advance-kept (approving run_id) s q h = elim (Option-cases (lookup (str run_id) s.runs)) [
      | inl e ↦ ground arith
      | inr (r, e) ↦ ground arith
    ]
    advance-kept (approve_checked run_id) s q h =
        elim (Result-cases
          (H.resume run_id (dict (field (lit "approved") (bool true) end)) s.world).0) [
            | inl (result, e) ↦ rw e (at_world _ s h, q)
            | inr (f, e) ↦ rw e (at_world _ s h, tt)
          ]
    advance-kept (approve_resumed run_id result) s q h =
        elim (Result-cases (published_flag result)) [
          | inr (f, e) ↦ rw e (h, tt)
          | inl (b, e) ↦ rw e (update_run-kept run_id _ _ s q (λ r. refl) tt h)
        ]
    advance-kept (rejecting run_id feedback) s q h = elim (Bool-cases (truthy feedback)) [
      | inr f ↦ ground arith
      | inl f ↦ elim (Option-cases (lookup (str run_id) s.runs)) [
        | inl e ↦ ground arith
        | inr (r, e) ↦ ground arith
      ]
    ]
    advance-kept (reject_checked run_id feedback) s q h =
        elim (Result-cases (H.resume_with_feedback run_id feedback s.world).0) [
          | inl (result, e) ↦ rw e (at_world _ s h, q)
          | inr (f, e) ↦ rw e (at_world _ s h, tt)
        ]
    advance-kept (reject_resumed run_id result) s q h = elim (Result-cases (status_of result)) [
      | inr (f, e) ↦ rw e (h, tt)
      | inl (st, e) ↦ rw e (update_run-kept run_id _ _ s q (λ r. refl) q h)
    ]
    advance-kept (reject_recorded run_id result status) s q h =
        elim (Result-cases (draft_of result)) [
          | inr (f, e) ↦ rw e (h, tt)
          | inl (d, e) ↦ rw e (update_run-kept run_id _ _ s q (λ r. refl) tt h)
        ]
    advance-kept (starting question session_id) s q h =
        elim (Bool-cases (not (truthy question) || not (truthy session_id))) [
          | inl t ↦ ground arith
          | inr t ↦ elim (Result-cases (H.start question session_id s.world).0) [
            | inl (result, e) ↦ rw (t, e) (at_world _ s h, q s.world result e)
            | inr (f, e) ↦ rw (t, e) (at_world _ s h, tt)
          ]
        ]
    advance-kept (started question session_id result) s q h =
        elim (Result-cases (new_run question session_id result)) [
          | inr (f, e) ↦ rw e (h, tt)
          | inl (r, e) ↦ elim (Result-cases (store_run H r s).0) [
            | inl (u, l) ↦ rw (e, l) (at_store r (q r e) s h, tt)
            | inr (x, l) ↦ rw (e, l) (at_store r (q r e) s h, tt)
          ]
        ]
    advance-kept (finished outcome) s q h = (h, tt)

    turn-kept :
        (n : ℕ) (ts : List Thread) (s : Service H)
        → All (Acts H Q S) ts
        → P s
        → P (turn H py n ts s).1 × All (Acts H Q S) (turn H py n ts s).0
    unfolding turn
    turn-kept n [] s q h = (h, tt)
    turn-kept zero (t ∷ ts) s q h = let (p, d) = advance-kept t s q.0 h in (p, (d, q.1))
    turn-kept (suc n) (t ∷ ts) s q h = let (p, d) = turn-kept n ts s q.1 h in (p, (q.0, d))

    pub interleave-kept :
        (ns : List ℕ) (ts : List Thread) (s : Service H)
        → All (Acts H Q S) ts
        → P s
        → P (interleave H py ns ts s).1
    unfolding interleave
    interleave-kept [] ts s q h = h
    interleave-kept (n ∷ ns) ts s q h =
        let (p, d) = turn-kept n ts s q h in interleave-kept ns _ _ d p
