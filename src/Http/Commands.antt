-- ===== src/Http/Commands.antt =====
-- device-agent/src/http_server/cmd.rs: the commands that requests ask for, and their responses.
pub mod Answers
use devicekit.Prelude.{ℕ, Bool, true, false, not, Option, none, some, List, [], ◌∷◌, if◌then◌else◌}
use devicekit.Prelude.Text.{Str, chars}
use devicekit.Prelude.Result.{Result, ok, err}
use devicekit.Outside.{Outside}
use devicekit.Protocol.{PulseType, MailAckType}
use devicekit.MailId.{uuidv7_str}
use devicekit.Response.{Mail}
use devicekit.Client.Txns.{Chan}
use devicekit.Client.State.{ReturnChanResult, ClientCmd}
use devicekit.Client.Messages.{decimal}
use devicekit.Session.State.{MoonlightClient, send_cmd}
use devicekit.Http.Response.{
  FailureResp, forbidden, timeout, internal_server_error, Resp, Web, add_header, set_body, ok_resp,
  make, bool_text,
}

-- What `recv_timeout` ends in.
pub data Received (V : Type 0) : Type 0 where
  timed_out disconnected : Received V
  received : ReturnChanResult V → Received V

-- What happens around a request: whether the client is connected each time that it is looked at in
-- ten seconds, and once behind them; the request's channel; and what comes on that if `send_cmd`
-- sends nothing on it itself.
pub record Exchange (V : Type 0) : Type 0 where
  pub polls : List Bool
  pub at_end : Bool
  pub chan : Chan
  pub answer : Received V

unfoldable pub wait_for_connected : List Bool → Bool → Bool
wait_for_connected [] at_end = at_end
wait_for_connected (true ∷ polls) at_end = true
wait_for_connected (false ∷ polls) at_end = wait_for_connected polls at_end

abbrev pub not_connected : FailureResp
not_connected = forbidden (chars "not_connected: Device Agent is still connecting to Fostrom")

unfoldable pub result_of : {V : Type 0} → Received V → Result (ReturnChanResult V) FailureResp
result_of timed_out = err timeout
result_of disconnected = err (internal_server_error (chars "Failed to receive response"))
result_of (received ReturnChanResult.timeout) = err timeout
result_of (received (ReturnChanResult.failure msg)) = err (forbidden msg)
result_of (received ReturnChanResult.success) = ok ReturnChanResult.success
result_of (received (ReturnChanResult.mail found)) = ok (ReturnChanResult.mail found)
result_of (received (ReturnChanResult.mail_ack_successful more)) =
    ok (ReturnChanResult.mail_ack_successful more)

-- The first that comes on the channel.
abbrev pub first_received :
    {V : Type 0} → Option (Chan × ReturnChanResult V) → Received V → Received V
first_received none answer = answer
first_received (some (chan, r)) answer = received r

abbrev pub exchanged :
    {V : Type 0}
    → Received V
    → MoonlightClient V × Option (Chan × ReturnChanResult V)
    → MoonlightClient V × Result (ReturnChanResult V) FailureResp
exchanged answer (client, at_once) = (client, result_of (first_received at_once answer))

unfoldable pub make_request :
    {V : Type 0}
    → Exchange V
    → ClientCmd V
    → MoonlightClient V
    → MoonlightClient V × Result (ReturnChanResult V) FailureResp
make_request x cmd client =
    if not (wait_for_connected x.polls x.at_end)
    then (client, err not_connected)
    else exchanged x.answer (send_cmd cmd client)

module _ (o : Outside) (web : Web) where
  abbrev pub unexpected : Resp
  unexpected = make o web (internal_server_error (chars "Unexpected Response"))

  unfoldable pub mail_op_resp : Result (ReturnChanResult o.Value) FailureResp → Resp
  mail_op_resp (err f) = make o web f
  mail_op_resp (ok (ReturnChanResult.mail_ack_successful mail_available)) =
      add_header (chars "X-Mail-Available") (bool_text mail_available)
        (ok_resp o web (web.mail_available_json mail_available))
  mail_op_resp (ok _) = unexpected

  abbrev pub empty_mailbox : Resp
  empty_mailbox =
      add_header (chars "X-Mailbox-Empty") (chars "true")
        (add_header (chars "X-Mailbox-Size") (chars "0") (ok_resp o web []))

  abbrev pub has_payload : Option o.Value → Str
  has_payload none = chars "false"
  has_payload (some v) = chars "true"

  abbrev pub with_payload : Bool → Option o.Value → Resp → Resp
  with_payload header_only none r = r
  with_payload header_only (some payload) r =
      if header_only then r else set_body (o.to_string payload) r

  unfoldable pub mail_resp : Bool → Mail o.Value → Resp
  mail_resp header_only mail = with_payload header_only mail.payload (
      add_header (chars "X-Mail-Has-Payload") (has_payload mail.payload) (
        add_header (chars "X-Mail-Name") mail.name (
          add_header (chars "X-Mail-ID") (uuidv7_str mail.pulse_id) (
            add_header (chars "X-Mailbox-Empty") (chars "false") (
              add_header (chars "X-Mailbox-Size") (decimal mail.mailbox_size)
                (ok_resp o web []))))))

  unfoldable pub mailbox_next_resp : Bool → Result (ReturnChanResult o.Value) FailureResp → Resp
  mailbox_next_resp header_only (err f) = make o web f
  mailbox_next_resp header_only (ok (ReturnChanResult.mail none)) = empty_mailbox
  mailbox_next_resp header_only (ok (ReturnChanResult.mail (some mail))) =
      mail_resp header_only mail
  mailbox_next_resp header_only (ok _) = unexpected

  unfoldable pub send_pulse_resp : Result (ReturnChanResult o.Value) FailureResp → Resp
  send_pulse_resp (err f) = make o web f
  send_pulse_resp (ok ReturnChanResult.success) = ok_resp o web web.ok_json
  send_pulse_resp (ok _) = unexpected

  abbrev pub respond :
      (Result (ReturnChanResult o.Value) FailureResp → Resp)
      → MoonlightClient o.Value × Result (ReturnChanResult o.Value) FailureResp
      → MoonlightClient o.Value × Resp
  respond f (client, r) = (client, f r)

  unfoldable pub mail_op :
      Exchange o.Value → MailAckType → ℕ → MoonlightClient o.Value → MoonlightClient o.Value × Resp
  mail_op x ack_type mail_id client =
      respond mail_op_resp (make_request x (ClientCmd.mail_op ack_type mail_id x.chan) client)

  unfoldable pub mailbox_next :
      Exchange o.Value → Bool → MoonlightClient o.Value → MoonlightClient o.Value × Resp
  mailbox_next x header_only client =
      respond (λ r. mailbox_next_resp header_only r)
        (make_request x (ClientCmd.mailbox_next header_only x.chan) client)

  unfoldable pub send_pulse :
      Exchange o.Value
      → PulseType
      → Str
      → Option o.Value
      → MoonlightClient o.Value
      → MoonlightClient o.Value × Resp
  send_pulse x pulse_type name payload client =
      respond send_pulse_resp
        (make_request x (ClientCmd.send_pulse pulse_type name payload x.chan) client)
