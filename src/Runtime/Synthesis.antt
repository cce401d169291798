-- ===== src/Runtime/Synthesis.antt =====
-- `_canonical_json` and `_ext_synthesize` of src/runtime.py: the draft from the findings.
use claudecodenodus.Base.{
  Text, lit, ◌==◌, Bool, false, not, ◌&&◌, ◌||◌, ◌++◌, none, some, [], if◌then◌else◌,
}
use claudecodenodus.Base.Int.{pos}
use claudecodenodus.Exec.{Fault, Result, ok, err, pure, lift, ◌>>=◌}
use claudecodenodus.Json.{or_else, Json, str, list, dict, nil, cons, end, field, truthy}
use claudecodenodus.Python.{value, malformed, broken, get}
use claudecodenodus.Runtime.Backends.{Backends, Tool}

module _ (B : Backends) where
  open B use {State, format}

  -- `_canonical_json`
  unfoldable pub canonical_json : Json → Result Fault Json
  canonical_json (str text) = elim (B.loads text) [
    | value j ↦ ok (str (B.sorted_dumps j))
    | malformed message ↦ ok (str text)
    | broken f ↦ err f
  ]
  canonical_json other = ok other

  abbrev is_empty_document : Json → Bool
  is_empty_document (str t) = t == lit "[]" || t == lit "\"\""
  is_empty_document other = false

  -- `prior and prior not in ("[]", '""')`
  unfoldable pub has_prior : Json → Bool
  unfolding truthy
  has_prior prior = truthy prior && not (is_empty_document prior)

  -- The deterministic draft, where there is no client.
  unfoldable pub offline_draft : Json → Json → Json → Json → Text
  unfolding has_prior truthy
  offline_draft question analysis feedback prior =
      let prior_block : Text =
        if has_prior prior
        then lit "Prior research on this topic:\n" ++ (format prior ++ lit "\n\n")
        else [] in
      if truthy feedback
      then lit "Revised draft on: "
        ++ (format question
            ++ (lit "\n\nAddressing feedback: "
                ++ (format feedback
                    ++ (lit "\n\n"
                        ++ (prior_block ++ (lit "Findings considered:\n" ++ format analysis))))))
      else lit "Initial draft on: "
        ++ (format question
            ++ (lit "\n\n" ++ (prior_block ++ (lit "Findings considered:\n" ++ format analysis))))

  -- `_SYNTH_SYSTEM`
  unfoldable pub synth_system : Text
  synth_system =
      lit "You are a research analyst. Using only the supplied findings, write a clear, "
      ++ (lit "well-structured markdown research brief that answers the question. Cite source "
          ++ lit "URLs inline where the findings support a claim. Be concise and factual.")

  -- The message of the user to the client.
  unfoldable pub user_prompt : Json → Json → Json → Json → Text
  unfolding has_prior truthy
  user_prompt question analysis feedback prior =
      let recalled : Text =
        if has_prior prior
        then lit "Findings from earlier research sessions on this topic (JSON):\n"
          ++ (format prior
              ++ (lit
                    "\nTreat these as background: reuse what still holds, and say so if the new findings"
                  ++ lit " contradict them.\n\n"))
        else [] in
      let findings : Text =
        lit "Question: "
        ++ (format question
            ++ (lit "\n\n"
                ++ (recalled ++ (lit "Findings (JSON):\n" ++ (format analysis ++ lit "\n\n"))))) in
      if truthy feedback
      then findings
        ++ (lit "Revise the research brief to address this reviewer feedback: " ++ format feedback)
      else findings
        ++ lit "Write the initial research brief answering the question from these findings."

  message : Text → Text → Json
  message role content =
      dict (field (lit "role") (str role) (field (lit "content") (str content) end))

  -- The draft from the arguments as they are used.
  unfoldable pub draft : Json → Json → Json → Json → Tool B
  unfolding offline_draft user_prompt synth_system message
  draft question analysis feedback prior = elim B.chat [
    | none ↦
        pure (dict (field (lit "draft") (str (offline_draft question analysis feedback prior)) end))
    | some chat ↦ do
      text ←
          chat
            (list (
              cons (message (lit "system") synth_system)
                (cons (message (lit "user") (user_prompt question analysis feedback prior)) nil)))
            (pos 1500)
      pure (dict (field (lit "draft") text end))
  ]

  unfoldable pub synthesize : Json → Tool B
  unfolding canonical_json or_else draft
  synthesize args = do
    question ← lift (get args (lit "question") (str []))
    raw ← lift (get args (lit "analysis") (str []))
    analysis ← lift (canonical_json raw)
    feedback ← lift (get args (lit "feedback") (str []))
    recalled ← lift (get args (lit "prior") (str []))
    prior ← lift (canonical_json (or_else recalled (str [])))
    draft question analysis (or_else feedback (str [])) prior
