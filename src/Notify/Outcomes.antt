-- ===== src/Notify/Outcomes.antt =====
-- What a notification comes to (src/notify.py).
use claudecodenodus.Base.{
  Text, lit, ◌==◌, ◌≡◌, refl, Bool, true, false, ◌&&◌, ◌++◌, Option, arith, Bool-cases, inl, inr,
  if◌then◌else◌,
}
use claudecodenodus.Base.Collections.{contains}
use claudecodenodus.Exec.{
  Fault, Result, ok, err, Exec, pure, bind-ok, Result-cases, attempt, describe,
}
use claudecodenodus.Json.{Json, dict, field, end}
use claudecodenodus.Notify.Delivery.{
  Reply, Delivery, console_channels, outcome, is_success, is_ok_status, text_or_empty, is_set,
  or_text, channel_name, to_console, to_webhook, to_slack, finally_quit, smtp_session,
  send_configured, send_email, deliver, notify,
}

module _ {State : Type 0} (D : Delivery State) (target message run_id : Json) where
  -- The evidence, by channel, that the world outside took the message: the line was printed, the
  -- webhook answered with a 2xx, Slack answered 200 and `ok`, or the mail server took a mail that
  -- was composed for the target.
  pub data Confirmed (ch : Text) : Type 0 where
    by_console :
        (s : State)
        → contains ch console_channels ≡ true
        → (D.print (lit "[notify:" ++ (D.format run_id ++ (lit "] " ++ D.format message))) s).0
          ≡ ok tt
        → Confirmed ch
    by_webhook :
        (s : State) (reply : Reply)
        → ch == lit "webhook" ≡ true
        → (D.post target
            (dict (field (lit "run_id") run_id (field (lit "message") message end)))
            s).0
          ≡ ok reply
        → is_success reply.status_code ≡ true
        → Confirmed ch
    by_slack :
        (s : State) (reply : Reply)
        → ch == lit "slack" ≡ true
        → (D.post target (dict (field (lit "text") message end)) s).0 ≡ ok reply
        → is_ok_status reply.status_code ≡ true
        → D.lower (D.strip (text_or_empty reply.text)) == lit "ok" ≡ true
        → Confirmed ch
    by_email :
        (s : State) (mail : D.Mail) (sender subject : Text)
        → ch == lit "email" ≡ true
        → D.compose sender target subject message ≡ ok mail
        → (D.send_message mail s).0 ≡ ok tt
        → Confirmed ch

  -- If there is an outcome, it says whether the message was delivered, and only says so if `P`.
  abbrev Honest : Type 0 → Result Fault Json → Type 0
  Honest P (err f) = Unit
  Honest P (ok answer) =
      (delivered : Bool) × (response : Text) × (answer ≡ outcome delivered response)
      × (delivered ≡ true → P)

  to_console-Honest :
      (ch : Text) (s : State)
      → contains ch console_channels ≡ true
      → Honest (Confirmed ch) (to_console D run_id message s).0
  unfolding to_console
  to_console-Honest ch s h =
      elim (Result-cases
        (D.print (lit "[notify:" ++ (D.format run_id ++ (lit "] " ++ D.format message))) s).0) [
          | inr (f, e) ↦ rw e tt
          | inl (tt, e) ↦ rw e (true, _, refl, λ d. by_console s h e)
        ]

  to_webhook-Honest :
      (ch : Text) (s : State)
      → ch == lit "webhook" ≡ true
      → Honest (Confirmed ch) (to_webhook D target run_id message s).0
  unfolding to_webhook
  to_webhook-Honest ch s h =
      elim (Result-cases
        (D.post target (dict (field (lit "run_id") run_id (field (lit "message") message end)))
          s).0) [
            | inr (f, e) ↦ rw e tt
            | inl (reply, e) ↦
                rw e (is_success reply.status_code, _, refl, λ d. by_webhook s reply h e d)
          ]

  to_slack-Honest :
      (ch : Text) (s : State)
      → ch == lit "slack" ≡ true
      → Honest (Confirmed ch) (to_slack D target message s).0
  unfolding to_slack
  to_slack-Honest ch s h =
      elim (Result-cases (D.post target (dict (field (lit "text") message end)) s).0) [
        | inr (f, e) ↦ rw e tt
        | inl (reply, e) ↦
            rw e (_, _, refl, λ d. by_slack s reply h e (ground arith) (ground arith))
      ]

  finally_quit-ok :
      (r : Result Fault (Unit {0})) (s : State) → (finally_quit D (r, s)).0 ≡ ok tt → r ≡ ok tt
  unfolding finally_quit
  finally_quit-ok r s h = elim (Result-cases (D.smtp_quit s).0) [
    | inl (u, e) ↦ rw e at h
    | inr (f, e) ↦ let k : ◌≡◌ {A = Result Fault (Unit {0})} (err f) (ok tt) = rw e at h in cc
  ]

  -- A session that ends without an exception has sent its mail.
  smtp_session-sent :
      (user password : Option Text) (mail : D.Mail) (s : State)
      → (smtp_session D user password mail s).0 ≡ ok tt
      → (t : State) × ((D.send_message mail t).0 ≡ ok tt)
  unfolding smtp_session
  smtp_session-sent user password mail s h =
      let (u, started, p) = bind-ok D.starttls _ s tt h in
      let (v, logged, q) =
        bind-ok
          (if is_set user && is_set password
            then D.login (text_or_empty user) (text_or_empty password)
            else pure tt)
          (λ w. D.send_message mail) (D.starttls s).1 tt p in
      (_, q)

  send_configured-sent :
      (host sender : Text) (user password : Option Text) (s : State) (answer : Json)
      → (send_configured D host user password sender target message run_id s).0 ≡ ok answer
      → (answer ≡ outcome true (lit "email sent to " ++ D.format target))
        × ((mail : D.Mail) × (t : State) × (subject : Text) × (D.compose sender target subject
                message
              ≡ ok mail)
            × ((D.send_message mail t).0 ≡ ok tt))
  unfolding send_configured
  send_configured-sent host sender user password s answer h =
      let title : Text = lit "Research notification (" ++ (D.format run_id ++ lit ")") in
      elim (Result-cases
        (D.parse_int (or_text (D.environ (lit "RESEARCH_SMTP_PORT")) (lit "587")))) [
          | inr (f, p) ↦ ground arith
          | inl (port, p) ↦ elim (Result-cases (D.compose sender target title message)) [
            | inr (f, c) ↦ ground arith
            | inl (mail, c) ↦ elim (Result-cases (D.smtp_connect host port s).0) [
              | inr (f, n) ↦ ground arith
              | inl (u, n) ↦
                  let session : Result Fault (Unit {0}) × State =
                    smtp_session D user password mail (D.smtp_connect host port s).1 in
                  elim (Result-cases (finally_quit D session).0) [
                    | inr (f, e) ↦ ground arith
                    | inl (v, e) ↦
                        let (t, sent) =
                          smtp_session-sent user password mail (D.smtp_connect host port s).1
                            (finally_quit-ok session.0 session.1 e) in
                        (ground arith, (mail, t, title, c, sent))
                  ]
            ]
          ]
        ]

  sent-Honest :
      (ch host sender : Text) (user password : Option Text) (s : State)
      → ch == lit "email" ≡ true
      → Honest
          (Confirmed ch)
          (send_configured D host user password sender target message run_id s).0
  sent-Honest ch host sender user password s h =
      elim (Result-cases (send_configured D host user password sender target message run_id s).0) [
        | inr (f, e) ↦ rw e tt
        | inl (answer, e) ↦
            let (told, (mail, t, subject, composed, sent)) =
              send_configured-sent host sender user password s answer e in
            rw e (true, _, told, λ d. by_email t mail sender subject h composed sent)
      ]

  send_email-Honest :
      (ch : Text) (s : State)
      → ch == lit "email" ≡ true
      → Honest (Confirmed ch) (send_email D target message run_id s).0
  unfolding send_email
  send_email-Honest ch s h = elim (Bool-cases (is_set (D.environ (lit "RESEARCH_SMTP_HOST")))) [
    | inr e ↦ rw e (false, _, refl, λ d. cc)
    | inl e ↦ rw e (sent-Honest ch _ _ _ _ s h)
  ]

  deliver-Honest :
      (ch : Text) (channel : Json) (s : State)
      → Honest (Confirmed ch) (deliver D ch channel target message run_id s).0
  unfolding deliver
  deliver-Honest ch channel s = elim (Bool-cases (contains ch console_channels)) [
    | inl h ↦ rw h (to_console-Honest ch s h)
    | inr h ↦ elim (Bool-cases (ch == lit "webhook")) [
      | inl k ↦ rw (h, k) (to_webhook-Honest ch s k)
      | inr k ↦ elim (Bool-cases (ch == lit "slack")) [
        | inl l ↦ rw (h, k, l) (to_slack-Honest ch s l)
        | inr l ↦ elim (Bool-cases (ch == lit "email")) [
          | inl m ↦ rw (h, k, l, m) (send_email-Honest ch s m)
          | inr m ↦ rw (h, k, l, m) (false, _, refl, λ d. cc)
        ]
      ]
    ]
  ]

  attempt-Honest :
      (P : Type 0) (call : Exec State Fault Json) (s : State)
      → Honest P (call s).0
      → (delivered : Bool) × (response : Text) × ((attempt call pure
            (λ f. pure (outcome false (describe f)))
            s).0
          ≡ ok (outcome delivered response))
        × (delivered ≡ true → P)
  unfolding attempt
  attempt-Honest P call s h = elim (Result-cases (call s).0) [
    | inl (answer, e) ↦
        let k : Honest P (ok answer) = rw e at h in
        let (d, response, told, p) = k in (d, response, rw (e, told), p)
    | inr (f, e) ↦ (false, describe f, rw e, λ d. cc)
  ]

  -- A notification whose channel is a text, or falsy, never raises: the result says whether the
  -- message was delivered, and says that it was only on the evidence of the channel.
  pub notify-Confirmed :
      (channel : Json) (ch : Text) (s : State)
      → channel_name D channel ≡ ok ch
      → (delivered : Bool) × (response : Text) × ((notify D channel target message run_id s).0
          ≡ ok (outcome delivered response))
        × (delivered ≡ true → Confirmed ch)
  unfolding notify
  notify-Confirmed channel ch s h = rw h (
      attempt-Honest (Confirmed ch) (deliver D ch channel target message run_id) s
        (deliver-Honest ch channel s))
