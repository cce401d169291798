-- ===== src/ApprovalApi/Threads/Interleavings.antt =====
-- Two approvals of one run in threads of their own (src/approval_api.py).
use claudecodenodus.Base.{
  ℕ, zero, suc, Text, lit, ◌++◌, ◌≡◌, refl, ap, ◌∙◌, inl, inr, Bool, true, false, some, List, [],
  ◌∷◌, arith, All, Option-cases,
}
use claudecodenodus.Base.Dict.{lookup}
use claudecodenodus.Exec.{Result-cases}
use claudecodenodus.Json.{Json, bool, str, dict, end, field, json_key_eq}
use claudecodenodus.Python.{Python}
use claudecodenodus.ApprovalApi.Service.{
  Host, Run, Service, is_waiting, require_waiting, update_run, published_flag,
}
use claudecodenodus.ApprovalApi.Threads.{
  Thread, approving, approve_checked, approve_resumed, rejecting, reject_checked, reject_resumed,
  reject_recorded, starting, started, finished, next, advance, turn, interleave,
}

-- The orders in which two threads can take two steps each.
abbrev pub two_steps_each : List (List ℕ)
two_steps_each =
    (0 ∷ 0 ∷ 1 ∷ 1 ∷ [])
    ∷ (0 ∷ 1 ∷ 0 ∷ 1 ∷ [])
    ∷ (0 ∷ 1 ∷ 1 ∷ 0 ∷ [])
    ∷ (1 ∷ 0 ∷ 0 ∷ 1 ∷ [])
    ∷ (1 ∷ 0 ∷ 1 ∷ 0 ∷ [])
    ∷ (1 ∷ 1 ∷ 0 ∷ 0 ∷ [])
    ∷ []

-- An approval that has made its call of the runtime.
unfoldable has_called : Thread → Bool
has_called (approve_resumed run_id result) = true
has_called (finished outcome) = true
has_called t = false

abbrev Called : List Thread → Type 0
Called ts = All (λ t. has_called t ≡ true) ts

All-map :
    {A : Type 0} {P Q : A → Type 0} (xs : List A) → ((x : A) → P x → Q x) → All P xs → All Q xs
All-map [] f h = tt
All-map (x ∷ xs) f (h, hs) = (f x h, All-map xs f hs)

module _ (H : Host) (py : Python) where
  interleave-append :
      (ms ns : List ℕ) (ts : List Thread) (s : Service H)
      → interleave H py (ms ++ ns) ts s
        ≡ (let (ts', s') = interleave H py ms ts s in interleave H py ns ts' s')
  unfolding interleave
  interleave-append [] ns ts s = refl
  interleave-append (m ∷ ms) ns ts s =
      let (ts', s') = turn H py m ts s in interleave-append ms ns ts' s'

  -- What an approval does after its call does not reach the runtime.
  advance-Called :
      (t : Thread) (s : Service H)
      → has_called t ≡ true
      → (has_called (advance H py t s).0 ≡ true) × ((advance H py t s).1.world ≡ s.world)
  unfolding advance next update_run has_called
  advance-Called (approve_resumed run_id result) s h = elim (Result-cases (published_flag result)) [
    | inr (f, e) ↦ ground arith
    | inl (b, e) ↦ elim (Option-cases (lookup (str run_id) s.runs)) [
      | inl l ↦ ground arith
      | inr (r, l) ↦ ground arith
    ]
  ]
  advance-Called (finished outcome) s h = ground arith
  advance-Called (approving run_id) s h = absurd cc
  advance-Called (approve_checked run_id) s h = absurd cc
  advance-Called (rejecting run_id feedback) s h = absurd cc
  advance-Called (reject_checked run_id feedback) s h = absurd cc
  advance-Called (reject_resumed run_id result) s h = absurd cc
  advance-Called (reject_recorded run_id result status) s h = absurd cc
  advance-Called (starting question session_id) s h = absurd cc
  advance-Called (started question session_id result) s h = absurd cc

  turn-Called :
      (n : ℕ) (ts : List Thread) (s : Service H)
      → Called ts
      → Called (turn H py n ts s).0 × ((turn H py n ts s).1.world ≡ s.world)
  unfolding turn
  turn-Called n [] s h = (tt, refl)
  turn-Called zero (t ∷ ts) s (h, hs) =
      let (called, same) = advance-Called t s h in ((called, hs), same)
  turn-Called (suc n) (t ∷ ts) s (h, hs) =
      let (called, same) = turn-Called n ts s hs in ((h, called), same)

  interleave-Called :
      (ns : List ℕ) (ts : List Thread) (s : Service H)
      → Called ts
      → (interleave H py ns ts s).1.world ≡ s.world
  unfolding interleave
  interleave-Called [] ts s h = refl
  interleave-Called (n ∷ ns) ts s h =
      let (called, same) = turn-Called n ts s h in
      let (ts', s') = turn H py n ts s in interleave-Called ns ts' s' called ∙ same

  module _ (run_id : Text) where
    abbrev pub approved : Json
    approved = dict (field (lit "approved") (bool true) end)

    -- The state after the call of the runtime.
    abbrev resumed : Service H → Service H
    resumed s = record s { world = (H.resume run_id approved s.world).1 }

    abbrev called : Service H → Thread
    called s = (advance H py (approve_checked run_id) s).0

    call_step :
        (s : Service H)
        → (advance H py (approve_checked run_id) s ≡ (called s, resumed s))
          × (has_called (called s) ≡ true)
    unfolding advance next has_called
    call_step s = elim (Result-cases (H.resume run_id approved s.world).0) [
      | inl (result, h) ↦ ground arith
      | inr (f, h) ↦ ground arith
    ]

    module _ (r : Run) (w : is_waiting r ≡ true) where
      check_step :
          (s : Service H)
          → lookup (str run_id) s.runs ≡ some r
          → advance H py (approving run_id) s ≡ (approve_checked run_id, s)
      unfolding advance next require_waiting
      check_step s e = ground arith

      -- Both threads have called the runtime, one after the other.
      abbrev BothCalled : Service H → List ℕ → Type 0
      BothCalled s first =
          let (ts, s') = interleave H py first (approving run_id ∷ approving run_id ∷ []) s in
          Called ts × (s'.world ≡ (resumed (resumed s)).world)

      both_called :
          (s : Service H) → lookup (str run_id) s.runs ≡ some r → All (BothCalled s) two_steps_each
      unfolding interleave turn
      both_called s e =
          let check = check_step s e in
          let again = check_step (resumed s) e in
          let (call, c) = call_step s in
          let (second, d) = call_step (resumed s) in
          (
            rw (check, call, again, second) ((c, (d, tt)), refl),
            (
              rw (check, check, call, second) ((c, (d, tt)), refl),
              (
                rw (check, check, call, second) ((d, (c, tt)), refl),
                (
                  rw (check, check, call, second) ((c, (d, tt)), refl),
                  (
                    rw (check, check, call, second) ((d, (c, tt)), refl),
                    (rw (check, call, again, second) ((d, (c, tt)), refl), tt),
                  ),
                ),
              ),
            ),
          )

  -- After two approvals of the run have taken the first steps, the runtime has resumed it twice.
  abbrev pub BothResume : Text → Service H → List ℕ → Type 0
  BothResume run_id s first =
      let payload : Json = dict (field (lit "approved") (bool true) end) in
      (ns : List ℕ)
      → (interleave H py (first ++ ns) (approving run_id ∷ approving run_id ∷ []) s).1.world
        ≡ (H.resume run_id payload (H.resume run_id payload s.world).1).1

  -- Two approvals of one waiting run that both check it and call the runtime before either records
  -- its outcome, in whatever order they take these steps, both resume the run, whatever becomes of
  -- the two calls and however the rest is scheduled.
  pub approve_twice :
      (run_id : Text) (s : Service H) (r : Run)
      → lookup (str run_id) s.runs ≡ some r
      → is_waiting r ≡ true
      → All (BothResume run_id s) two_steps_each
  approve_twice run_id s r e w =
      All-map {P = BothCalled run_id r w s} {Q = BothResume run_id s} two_steps_each
        (λ first h ns.
          ap (λ p. p.1.world)
            (interleave-append first ns (approving run_id ∷ approving run_id ∷ []) s)
          ∙ (interleave-Called ns _ _ h.0 ∙ h.1))
        (both_called run_id r w s e)
