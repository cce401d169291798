-- ===== src/Notify/Delivery.antt =====
-- `HttpNotifier` and `ConsoleNotifier` of src/notify.py. The HTTP client, `smtplib`, `print` and
-- what Python does with texts are parameters.
use claudecodenodus.Base.{
  Text, lit, ◌==◌, Bool, true, false, ◌&&◌, ◌++◌, Option, none, some, List, [], ◌∷◌, take, ltb, leb,
  eqb, if◌then◌else◌,
}
use claudecodenodus.Base.Int.{ℤ, pos, negsuc}
use claudecodenodus.Base.Collections.{contains}
use claudecodenodus.Exec.{Fault, Result, ok, err, Exec, pure, lift, attempt, describe, ◌>>=◌, ◌>>◌}
use claudecodenodus.Json.{Json, bool, str, dict, end, field, or_else}
use claudecodenodus.Python.{type_name}

-- A response of the HTTP client.
pub record Reply : Type 0 where
  pub status_code : ℤ
  pub text : Option Text

-- `_CONSOLE_CHANNELS`
unfoldable pub console_channels : List Text
unfolding lit
console_channels = lit "console" ∷ lit "log" ∷ lit "print" ∷ lit "stdout" ∷ []

-- The result dict of a notification.
unfoldable pub outcome : Bool → Text → Json
outcome delivered response =
    dict (field (lit "delivered") (bool delivered) (field (lit "response") (str response) end))

-- `200 <= status < 300`
unfoldable pub is_success : ℤ → Bool
is_success (pos n) = leb 200 n && ltb n 300
is_success (negsuc n) = false

-- `status == 200`
unfoldable pub is_ok_status : ℤ → Bool
is_ok_status (pos n) = eqb n 200
is_ok_status (negsuc n) = false

-- `value or ""`
abbrev pub text_or_empty : Option Text → Text
text_or_empty none = []
text_or_empty (some t) = t

-- `value and ...` on a text that may be missing
abbrev pub is_set : Option Text → Bool
is_set none = false
is_set (some []) = false
is_set (some (c ∷ t)) = true

-- `user or "research-agent@localhost"`, the default sender
abbrev pub sender_default : Option Text → Text
sender_default user = if is_set user then text_or_empty user else lit "research-agent@localhost"

-- `environ.get(name, default)`
abbrev pub or_text : Option Text → Text → Text
or_text none default = default
or_text (some t) default = t

-- What a notifier calls, on the state of the world outside. `compose` builds the `EmailMessage`.
pub record Delivery (State : Type 0) : Type 1 where
  pub lower : Text → Text
  pub strip : Text → Text
  pub format : Json → Text
  pub show : ℤ → Text
  pub parse_int : Text → Result Fault ℤ
  pub environ : Text → Option Text
  pub print : Text → State → Result Fault (Unit {0}) × State
  pub post : Json → Json → State → Result Fault Reply × State
  pub Mail : Type 0
  pub compose : Text → Json → Text → Json → Result Fault Mail
  pub smtp_connect : Text → ℤ → State → Result Fault (Unit {0}) × State
  pub starttls : State → Result Fault (Unit {0}) × State
  pub login : Text → Text → State → Result Fault (Unit {0}) × State
  pub send_message : Mail → State → Result Fault (Unit {0}) × State
  pub smtp_quit : State → Result Fault (Unit {0}) × State

module _ {State : Type 0} (D : Delivery State) where
  open D use {lower, strip, format, show, environ, print, post}

  abbrev pub Call : Type 0 → Type 0
  Call A = Exec State Fault A

  -- `(channel or "console").lower()`, outside the `try`
  unfoldable pub channel_name : Json → Result Fault Text
  unfolding or_else
  channel_name channel = elim (or_else channel (str (lit "console"))) [
    | str t ↦ ok (lower t)
    | other ↦ err (record {
      kind = lit "AttributeError";
      message = lit "'" ++ (type_name other ++ lit "' object has no attribute 'lower'");
    })
  ]

  unfoldable pub to_console : Json → Json → Call Json
  to_console run_id message = do
    print (lit "[notify:" ++ (format run_id ++ (lit "] " ++ format message)))
    pure (outcome true (lit "logged to console"))

  unfoldable pub to_webhook : Json → Json → Json → Call Json
  unfolding is_success
  to_webhook target run_id message = do
    reply ← post target (dict (field (lit "run_id") run_id (field (lit "message") message end)))
    pure (outcome (is_success reply.status_code) (lit "HTTP " ++ show reply.status_code))

  unfoldable pub to_slack : Json → Json → Call Json
  unfolding is_ok_status
  to_slack target message = do
    reply ← post target (dict (field (lit "text") message end))
    let body : Text = strip (text_or_empty reply.text)
    pure (
        outcome (is_ok_status reply.status_code && lower body == lit "ok")
          (lit "HTTP " ++ (show reply.status_code ++ (lit ": " ++ take 120 body))))

  -- The end of the `with` block: `QUIT` is sent whatever happened, and an exception of its own
  -- replaces the outcome.
  unfoldable pub finally_quit : Result Fault (Unit {0}) × State → Result Fault (Unit {0}) × State
  finally_quit (r, s) = let (q, s') = D.smtp_quit s in (elim q [ ok u ↦ r | err f ↦ err f ], s')

  -- The body of the `with` block.
  unfoldable pub smtp_session : Option Text → Option Text → D.Mail → Call (Unit {0})
  smtp_session user password mail = do
    D.starttls
    if is_set user && is_set password
        then D.login (text_or_empty user) (text_or_empty password)
        else pure tt
    D.send_message mail

  -- `_send_email` from the reading of the port on
  unfoldable pub send_configured :
      Text → Option Text → Option Text → Text → Json → Json → Json → Call Json
  send_configured host user password sender target message run_id = do
    port ← lift (D.parse_int (or_text (environ (lit "RESEARCH_SMTP_PORT")) (lit "587")))
    mail ← lift (
        D.compose sender target (lit "Research notification (" ++ (format run_id ++ lit ")"))
          message)
    D.smtp_connect host port
    λ s. finally_quit (smtp_session user password mail s)
    pure (outcome true (lit "email sent to " ++ format target))

  -- `_send_email`
  unfoldable pub send_email : Json → Json → Json → Call Json
  send_email target message run_id =
      let host : Option Text = environ (lit "RESEARCH_SMTP_HOST") in
      let user : Option Text = environ (lit "RESEARCH_SMTP_USER") in
      let password : Option Text = environ (lit "RESEARCH_SMTP_PASS") in
      let sender : Text = or_text (environ (lit "RESEARCH_SMTP_FROM")) (sender_default user) in
      if is_set host
      then send_configured (text_or_empty host) user password sender target message run_id
      else pure (
          outcome false (
            lit
              "email channel not configured (set RESEARCH_SMTP_HOST / _PORT / _USER / _PASS / _FROM)"))

  -- The body of the `try`, for the lowered channel.
  unfoldable pub deliver : Text → Json → Json → Json → Json → Call Json
  deliver ch channel target message run_id =
      if contains ch console_channels
      then to_console run_id message
      else if ch == lit "webhook"
      then to_webhook target run_id message
      else if ch == lit "slack"
      then to_slack target message
      else if ch == lit "email"
      then send_email target message run_id
      else pure (outcome false (lit "unknown channel '" ++ (format channel ++ lit "'")))

  -- `HttpNotifier.notify`
  unfoldable pub notify : Json → Json → Json → Json → Call Json
  notify channel target message run_id = do
    ch ← lift (channel_name channel)
    attempt (deliver ch channel target message run_id) pure (λ f. pure (outcome false (describe f)))

-- `ConsoleNotifier.notify`, on the list `sent`
unfoldable pub console_notify : Json → Json → Json → Json → Exec (List Json) Fault Json
unfolding outcome
console_notify channel target message run_id sent = (
  ok (outcome true (lit "console")),
  sent
      ++ (dict (
            field (lit "channel") channel (
              field (lit "target") target
                (field (lit "message") message (field (lit "run_id") run_id end))))
          ∷ []),
)
