-- ===== src/Response.antt =====
-- `Mail`, `DisconnectedReason` and `ServerResp` of device-agent/src/moonlight_codec.rs: what the
-- client makes of a packet from the server.
pub mod Replies
use devicekit.Prelude.{
  ℕ, zero, Bool, true, false, not, ◌&&◌, Option, none, some, is_positive, if◌then◌else◌,
}
use devicekit.Prelude.Text.{Str}
use devicekit.Prelude.Text.Utf8.{from_utf8}
use devicekit.Prelude.Result.{Result, ok, err}
use devicekit.Protocol.{
  Bytes, Packet, UnauthorizedError, ConnectFailedError, PulseErrorReason, MailAckType,
}
use devicekit.Outside.{Outside}

pub data DisconnectedReason : Type 0 where
  force_close_socket normal_disconnect : DisconnectedReason
  unauthorized : UnauthorizedError → DisconnectedReason
  connect_failed : ConnectFailedError → DisconnectedReason

pub record Mail (V : Type 0) : Type 0 where
  pub pulse_id : ℕ
  pub name : Str
  pub payload : Option V
  pub mailbox_size : ℕ

pub data ServerResp (V : Type 0) : Type 0 where
  force_close_socket : ServerResp V
  connected : (mail_available : Bool) → ServerResp V
  disconnected : DisconnectedReason → ServerResp V
  heartbeat_ack : ServerResp V
  new_mail : ServerResp V
  pulse_resp : Result ℕ (ℕ × PulseErrorReason) → ServerResp V
  ack_mail_resp : Result (ℕ × Bool) (ℕ × MailAckType) → ServerResp V
  mailbox_next : Result (ℕ × Option (Mail V)) ℕ → ServerResp V

module _ (o : Outside) where
  abbrev pub unwrap_or_default : Option (Option o.Value) → Option o.Value
  unwrap_or_default none = none
  unwrap_or_default (some v) = v

  -- The payload of a mail: none where the bytes are no UTF-8 or no JSON.
  abbrev pub payload_of : Option Bytes → Option o.Value
  payload_of none = none
  payload_of (some bytes) = elim (from_utf8 bytes) [
    | none ↦ none
    | some text ↦ unwrap_or_default (o.from_str text)
  ]

  abbrev pub mail_of : Bool → ℕ → ℕ → ℕ → Option Bytes → Str → Mail o.Value
  mail_of header_only txn_id mailbox_size pulse_id payload name = record {
    pulse_id = pulse_id;
    name = name;
    payload = if header_only then none else payload_of payload;
    mailbox_size = mailbox_size;
  }

  -- The branch of `MailboxNextResp` for a reply with mail.
  unfoldable pub handle_mail :
      Bool → ℕ → ℕ → Option ℕ → Option Bytes → Option Bytes → ServerResp o.Value
  handle_mail header_only txn_id mailbox_size none name payload = mailbox_next (err txn_id)
  handle_mail header_only txn_id mailbox_size (some pulse_id) none payload =
      mailbox_next (err txn_id)
  handle_mail header_only txn_id mailbox_size (some pulse_id) (some name) payload =
      elim (from_utf8 name) [
        | none ↦ mailbox_next (err txn_id)
        | some text ↦
            mailbox_next
              (ok (txn_id, some (mail_of header_only txn_id mailbox_size pulse_id payload text)))
      ]

  abbrev pulse_result : Bool → ℕ → Option PulseErrorReason → Result ℕ (ℕ × PulseErrorReason)
  pulse_result true txn_id reason = ok txn_id
  pulse_result false txn_id (some reason) = err (txn_id, reason)
  pulse_result false txn_id none = err (txn_id, PulseErrorReason.unknown)

  unfoldable pub handle_packet : Packet → ServerResp o.Value
  unfolding handle_mail
  handle_packet (Packet.close_connection true) = disconnected DisconnectedReason.normal_disconnect
  handle_packet (Packet.connect_failed reason) =
      disconnected (DisconnectedReason.connect_failed reason)
  handle_packet (Packet.unauthorized reason) = disconnected (DisconnectedReason.unauthorized reason)
  handle_packet (Packet.connected mail_available keep_alive) = connected mail_available
  handle_packet (Packet.heartbeat_ack successful) = heartbeat_ack
  handle_packet (Packet.pulse_resp successful txn_id error_reason) =
      pulse_resp (pulse_result successful txn_id error_reason)
  handle_packet (Packet.ack_mail_resp successful mailbox_size pulse_id kind) =
      ack_mail_resp
        (if successful then ok (pulse_id, is_positive mailbox_size) else err (pulse_id, kind))
  handle_packet
        (Packet.mailbox_next_resp header_only successful txn_id mailbox_size pulse_id name_len name
          payload_len payload) =
      if successful && is_positive mailbox_size
      then handle_mail header_only txn_id mailbox_size pulse_id name payload
      else if successful && not (is_positive mailbox_size)
      then mailbox_next (ok (txn_id, none))
      else mailbox_next (err txn_id)
  handle_packet (Packet.new_mail_event zero) = new_mail
  handle_packet _ = ServerResp.force_close_socket
