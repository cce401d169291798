-- ===== src/Runtime/Composed.antt =====
-- The tools of src/runtime.py over the backends that the runtime wires to them.
use claudecodenodus.Base.{
  ◌≤◌, ◌<◌, max, Text, lit, ◌≡◌, ◌≢◌, refl, ◌⊎◌, inl, inr, Bool, true, some, List, [], length, All,
}
use claudecodenodus.Base.Int.{ℤ, pos, clamp, ◌+ℤ◌}
use claudecodenodus.Exec.{Fault, ok, err, Result-cases, attempt, describe}
use claudecodenodus.Json.{
  Json, null, int, str, list, dict, nil, Fields, end, field, find_or, or_else, truthy, list_of,
}
use claudecodenodus.Python.{get}
use claudecodenodus.Memory.Search.{Node}
use claudecodenodus.Notify.Delivery.{channel_name, outcome}
use claudecodenodus.Notify.Outcomes.{Confirmed, notify-Confirmed}
use claudecodenodus.Web.Backend.{document}
use claudecodenodus.Web.Backend
use claudecodenodus.Web.Bounds.{IsHit, search_few, fetch_bounded}
use claudecodenodus.Sandbox.{RunResult, raised, build_cmd}
use claudecodenodus.Sandbox.Outcomes.{Soft, Outcome-cases, IsLockedDown, build_cmd-IsLockedDown}
use claudecodenodus.Runtime.Recall.{items-found, recall_json-Recalled}
use claudecodenodus.Runtime.Backends.{Backends}
use claudecodenodus.Runtime.Tools.{web_search, fetch_doc, run_code, memory_recall, notify}
use claudecodenodus.Runtime.Wiring.{found_items, Parts, result_json, seconds_of, run_json, wire}

module _ (B : Backends) (W : Parts B.State) (args : Fields) (s : B.State) where
  abbrev wired : Backends
  wired = wire B W

  -- The argument of a tool call.
  abbrev arg : Text → Json → Json
  arg key default = find_or key default args

  -- With a channel that is a text, or falsy, the notification tool never raises, and its answer
  -- says that the message was delivered only on the evidence of the channel.
  pub notify_tool-Confirmed :
      (ch : Text)
      → channel_name W.delivery (arg (lit "channel") (str (lit "console"))) ≡ ok ch
      → (delivered : Bool) × (response : Text) × ((notify wired (dict args) s).0
          ≡ ok (outcome delivered response))
        × (delivered ≡ true
            → Confirmed W.delivery
                (arg (lit "target") (str []))
                (arg (lit "message") (str []))
                (arg (lit "run_id") (str []))
                ch)
  unfolding notify get
  notify_tool-Confirmed ch h =
      notify-Confirmed W.delivery (arg (lit "target") (str [])) (arg (lit "message") (str []))
        (arg (lit "run_id") (str [])) (arg (lit "channel") (str (lit "console"))) ch s h

  -- With a number of results that can be read, the search tool always answers: with at most that
  -- many results, or one where the number is smaller, each of them a URL, a title and a snippet,
  -- or with no result and the error.
  pub web_search_tool :
      (n : ℤ)
      → B.to_int (arg (lit "max_results") (int (pos 5))) ≡ ok n
      → (answer : Json) × ((web_search wired (dict args) s).0 ≡ ok answer)
        × (((results : List Json) × (answer
                ≡ dict (field (lit "results") (list (list_of results)) end))
              × (length results ≤ max 1 (clamp n))
              × All IsHit results)
            ⊎ ((message : Text) × (answer
                  ≡ dict
                      (field (lit "results") (list nil) (field (lit "error") (str message) end)))))
  unfolding web_search get attempt
  web_search_tool n h =
      elim (Result-cases (Backend.search W.network W.keys (arg (lit "query") (str [])) n s).0) [
        | inl (answer, e) ↦
            rw (h, e)
              (
                answer,
                refl,
                inl (search_few W.network W.keys (arg (lit "query") (str [])) answer n s e),
              )
        | inr (f, e) ↦ rw (h, e) (_, refl, inr (describe f, refl))
      ]

  -- With a limit that can be read, and a session that is to be left out, the recall tool always
  -- answers: with at most that many nodes, or one where the limit is smaller, none of them of that
  -- session, and their count, or with none and an error.
  memory_recall_tool :
      (n : ℤ) (session : Text)
      → B.to_int (or_else (arg (lit "limit") (int (pos 5))) (int (pos 5))) ≡ ok n
      → or_else (arg (lit "exclude_session") null) null ≡ str session
      → (answer : Json) × ((memory_recall wired (dict args) s).0 ≡ ok answer)
        × (((nodes : List (Node W.parent)) × (answer
                ≡ dict (
                    field
                      (lit "results")
                      (list (found_items W.parent nodes))
                      (field (lit "count") (int (pos (length nodes))) end)))
              × (length nodes ≤ max 1 (clamp n))
              × All (λ (node : Node W.parent). node.session_id ≢ some session) nodes)
            ⊎ ((message : Text) × (answer
                  ≡ dict (
                      field (lit "results") (list nil) (
                        field
                          (lit "count")
                          (int (pos 0))
                          (field (lit "error") (str message) end))))))
  unfolding memory_recall get attempt
  memory_recall_tool n session h x =
      elim (recall_json-Recalled W.parent (or_else (arg (lit "tags") null) (list nil))
        (or_else (arg (lit "match") null) (str (lit "any")))
        (or_else (arg (lit "require") null) null) session n (W.memory_store s)) [
          | inl r ↦
              rw (h, x, r.1) (_, refl, inl (r.0, rw (items-found W.parent r.0) refl, r.2, r.3))
          | inr (f, e) ↦ rw (h, x, e) (_, refl, inr (f.message, refl))
        ]

  -- With a length that can be read and a URL that can be hashed, the fetch tool always answers: with
  -- a document whose hash is the hash of its text, whose title is the URL or not empty, and whose
  -- text has no more characters than asked for where that is positive, or with an empty document
  -- and the error.
  pub fetch_doc_tool :
      (n : ℤ) (hash : Json)
      → B.to_int (arg (lit "max_chars") (int (pos 10000))) ≡ ok n
      → B.sha256 (arg (lit "url") (str [])) ≡ ok hash
      → let url = arg (lit "url") (str []) in
        (answer : Json) × ((fetch_doc wired (dict args) s).0 ≡ ok answer)
        × (((text : Text) × (title : Json) × (fetched_at : Text) × (answer
                ≡ document text title fetched_at (W.network.sha256 text))
              × (0 < clamp n → length text ≤ clamp n)
              × ((title ≡ url) ⊎ (truthy title ≡ true)))
            ⊎ ((message : Text) × (answer
                  ≡ dict (
                      field (lit "text") (str []) (
                        field (lit "title") url (
                          field (lit "fetched_at") (str []) (
                            field
                              (lit "content_hash")
                              hash
                              (field (lit "error") (str message) end))))))))
  unfolding fetch_doc get attempt
  fetch_doc_tool n hash h c =
      elim (Result-cases (Backend.fetch W.network (arg (lit "url") (str [])) n s).0) [
        | inl (answer, e) ↦
            rw (h, e)
              (answer, refl, inl (fetch_bounded W.network (arg (lit "url") (str [])) answer n s e))
        | inr (f, e) ↦ rw (h, e, c) (_, refl, inr (describe f, refl))
      ]

  -- With a timeout that can be read, the code tool answers, unless the subprocess call raised
  -- something else than a missing executable or an expired deadline: with the exit code, or with
  -- exit code -1, no output and a marker. The call gets the code, and a command that runs Python on
  -- its input, under that timeout, in a container with no network, no capabilities, no new
  -- privileges, a user without rights, the memory limit of the runner and a read-only file system.
  pub run_code_tool :
      (seconds : ℤ)
      → seconds_of B W (arg (lit "timeout_seconds") null) ≡ ok seconds
      → let command = build_cmd W.show W.strip W.runner seconds in
        let outcome =
          (W.subprocess command
            (arg (lit "code") (str []))
            (seconds +ℤ W.runner.startup_overhead)
            s).0 in
        IsLockedDown W.show W.strip W.runner seconds command
        × (((f : Fault) × (outcome ≡ raised f) × ((run_code wired (dict args) s).0 ≡ err f))
            ⊎ ((r : RunResult) × ((run_code wired (dict args) s).0 ≡ ok (result_json r))
                × Soft W.show W.strip W.runner outcome (ok r)))
  unfolding run_code get run_json
  run_code_tool seconds h = (
    build_cmd-IsLockedDown W.show W.strip W.runner seconds,
    elim (Outcome-cases W.show W.strip W.runner seconds
        (W.subprocess (build_cmd W.show W.strip W.runner seconds) (arg (lit "code") (str []))
          (seconds +ℤ W.runner.startup_overhead) s).0) [
            | inl (f, o, e) ↦ inl (f, o, rw (h, e) refl)
            | inr (r, e, soft) ↦ inr (r, rw (h, e) refl, soft)
          ],
  )
