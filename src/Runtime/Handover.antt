-- ===== src/Runtime/Handover.antt =====
-- Rejections, and resuming in another process (src/runtime.py).
use claudecodenodus.Base.{
  Text, lit, ◌≡◌, refl, ap, ◌∙◌, ◌⊎◌, inl, inr, true, Option, none, some, List, [], ◌∷◌, ◌++◌,
  Bool-cases,
}
use claudecodenodus.Exec.{Fault, ok, err, Result-cases}
use claudecodenodus.Json.{Json}
use claudecodenodus.Runtime.Resume.{
  Nodus, Runtime, Call, is_failed, rejection, replay, reject_and_replay, run, start,
  initial_globals,
}

module _ (N : Nodus) where
  run-fresh :
      (source : Text) (globals : Json) (s : Runtime N) (old : Option Json)
      → run N source globals (record s { last_result = old }) ≡ run N source globals s
  unfolding run
  run-fresh source globals s old = refl

  -- What an earlier run left behind does not reach the outcome of a start.
  start-fresh :
      (question session_id : Json) (s : Runtime N) (old : Option Json)
      → (start N question session_id (record s { last_result = old })).0
        ≡ (start N question session_id s).0
  unfolding start
  start-fresh question session_id s old =
      elim (Result-cases (initial_globals N question session_id)) [
        | inr (f, e) ↦ rw e
        | inl (globals, e) ↦ rw e (ap (λ p. p.0) (run-fresh _ globals s old))
      ]

  -- A decision that is sent to a run: the checkpoint and the payload.
  abbrev pub Sent : Type 0
  Sent = Option Text × Json

  module _ (resume_run : Text → Option Text → Json → Call N Json)
      (log : Runtime N → List Sent) where
    -- Every call of the resume function leaves its checkpoint and payload in the log.
    abbrev pub Logs : Type 0
    Logs =
        (run_id : Text) (checkpoint : Option Text) (payload : Json) (s : Runtime N)
        → log (resume_run run_id checkpoint payload s).1 ≡ log s ++ ((checkpoint, payload) ∷ [])

    -- A rejection sends a run `approved: false` with the feedback first. If that raises or is
    -- answered by a failure, it is all that is sent, and the outcome; otherwise the feedback is
    -- sent once more, to the checkpoint before the draft, and nothing else.
    pub reject_and_replay-Sent :
        Logs
        → (run_id : Text) (feedback : Json) (s : Runtime N)
        → let (outcome, s') = reject_and_replay N run_id feedback resume_run s in
          let (first, between) = resume_run run_id none (rejection feedback) s in
          ((log s' ≡ log s ++ ((none, rejection feedback) ∷ []))
            × (outcome ≡ first)
            × (((answer : Json) × (first ≡ ok answer) × (is_failed answer ≡ true))
                ⊎ ((f : Fault) × (first ≡ err f))))
          ⊎ ((log s'
                ≡ (log s ++ ((none, rejection feedback) ∷ []))
                  ++ ((some (lit "before_draft"), replay feedback) ∷ []))
              × (outcome
                  ≡ (resume_run run_id (some (lit "before_draft")) (replay feedback) between).0))
    unfolding reject_and_replay
    reject_and_replay-Sent logs run_id feedback s =
        elim (Result-cases (resume_run run_id none (rejection feedback) s).0) [
          | inr (f, e) ↦ rw e (inl (logs run_id none (rejection feedback) s, refl, inr (f, refl)))
          | inl (answer, e) ↦ elim (Bool-cases (is_failed answer)) [
            | inl failed ↦
                rw (e, failed)
                  (inl (logs run_id none (rejection feedback) s, refl, inl (answer, refl, failed)))
            | inr going ↦
                rw (e, going)
                  (inr (
                    logs run_id (some (lit "before_draft")) (replay feedback) _
                        ∙ ap (λ l. l ++ ((some (lit "before_draft"), replay feedback) ∷ []))
                            (logs run_id none (rejection feedback) s),
                    refl,
                  ))
          ]
        ]
