-- ===== src/Protocol/Layout.antt =====
-- The layout that the deku attributes of `MoonlightPacket` declare, as a writer and a reader: an
-- id byte, then the fields in order, words with the high byte first.
pub mod RoundTrip
pub mod Truncation
use devicekit.Prelude.{
  ℕ, zero, suc, ◌+◌, ◌*◌, ◌/◌, ◌%◌, ◌<◌, Bool, true, false, not, ◌&&◌, Option, none, some, List, [],
  ◌∷◌, ◌++◌, ◌==◌, is_positive, if◌then◌else◌,
}
use devicekit.Protocol.{
  Bytes, ByteEnum, serialization_format, pulse_type, unauthorized_error, connect_failed_error,
  pulse_error_reason, mail_ack_type, Packet,
}
use devicekit.Protocol.Packet.{
  close_connection, connect, connected, unauthorized, connect_failed, heartbeat, heartbeat_ack,
  pulse, pulse_resp, new_mail_event, mailbox_next, mailbox_next_resp, ack_mail, ack_mail_resp,
}
use devicekit.Protocol.Reader.{
  Read, Reader, invalid, ◌>>=◌, pure, read_word, read_u8, read_vec, read_enum, low_flag, next_flag,
  read_if,
}

-- The `k` bytes of a word, the high one first.
unfoldable pub word : ℕ → ℕ → Bytes
word zero v = []
word (suc k) v = word k (v / 256) ++ (v % 256 ∷ [])

abbrev bit : Bool → ℕ
bit true = 1
bit false = 0

abbrev pub write_enum : {E : Type 0} → ByteEnum E → E → Bytes
write_enum e x = e.id x ∷ []

abbrev write_option {ℓ} : {A : Type ℓ} → (A → Bytes) → Option A → Bytes
write_option w none = []
write_option w (some a) = w a

-- A field under `cond` is written where its condition holds and it is `Some`.
abbrev write_if {ℓ} : {A : Type ℓ} → Bool → (A → Bytes) → Option A → Bytes
write_if true w o = write_option w o
write_if false w o = []

-- The conditions of the fields of `MailboxNextResp`.
abbrev pub has_mail : Bool → ℕ → Bool
has_mail successful mailbox_size = successful && is_positive mailbox_size

abbrev pub has_payload : Bool → Bool → ℕ → Bool
has_payload header_only successful mailbox_size =
    successful && not header_only && is_positive mailbox_size

abbrev unwrap_or_zero : Option ℕ → ℕ
unwrap_or_zero none = 0
unwrap_or_zero (some n) = n

abbrev u8 : ℕ → Bytes
u8 n = n ∷ []

abbrev raw : Bytes → Bytes
raw bs = bs

unfoldable pub to_bytes : Packet → Bytes
to_bytes (close_connection server) = 1 ∷ bit server ∷ []
to_bytes (connect keep_alive version format fleet_id device_id device_secret) =
    2
    ∷ bit keep_alive
    ∷ version
    ∷ (write_enum serialization_format format ++ (fleet_id ++ (device_id ++ device_secret)))
to_bytes (connected mail_available keep_alive) = 3 ∷ (2 * bit mail_available + bit keep_alive) ∷ []
to_bytes (unauthorized reason) = 4 ∷ 0 ∷ write_enum unauthorized_error reason
to_bytes (connect_failed reason) = 5 ∷ 0 ∷ write_enum connect_failed_error reason
to_bytes (heartbeat flags) = 8 ∷ flags ∷ []
to_bytes (heartbeat_ack successful) = 9 ∷ bit successful ∷ []
to_bytes (pulse kind txn_id name_len name payload_len payload) =
    10
    ∷ 0
    ∷ (write_enum pulse_type kind
        ++ (word 8 txn_id ++ (name_len ∷ (name ++ (word 4 payload_len ++ payload)))))
to_bytes (pulse_resp successful txn_id error_reason) =
    11
    ∷ bit successful
    ∷ (word 8 txn_id ++ write_if (not successful) (write_enum pulse_error_reason) error_reason)
to_bytes (new_mail_event flags) = 20 ∷ flags ∷ []
to_bytes (mailbox_next header_only txn_id) = 21 ∷ bit header_only ∷ word 8 txn_id
to_bytes
      (mailbox_next_resp header_only successful txn_id mailbox_size pulse_id name_len name
        payload_len payload) =
    let mail = has_mail successful mailbox_size in
    let full = has_payload header_only successful mailbox_size in
    22
    ∷ (2 * bit header_only + bit successful)
    ∷ (word 8 txn_id
        ++ (word 2 mailbox_size
            ++ (write_if mail (word 16) pulse_id
                ++ (write_if mail u8 name_len
                    ++ (write_if mail raw name
                        ++ (write_if full (word 4) payload_len ++ write_if full raw payload))))))
to_bytes (ack_mail pulse_id kind) = 25 ∷ 0 ∷ (word 16 pulse_id ++ write_enum mail_ack_type kind)
to_bytes (ack_mail_resp successful mailbox_size pulse_id kind) =
    26
    ∷ bit successful
    ∷ (word 2 mailbox_size ++ (word 16 pulse_id ++ write_enum mail_ack_type kind))

-- The fields of each variant, behind its id.
unfoldable pub read_close_connection : Reader Packet
read_close_connection = do flags ← read_u8; pure (close_connection (low_flag flags))

unfoldable pub read_connect : Reader Packet
read_connect = do
  flags ← read_u8
  version ← read_u8
  format ← read_enum serialization_format
  fleet_id ← read_vec 8
  device_id ← read_vec 10
  device_secret ← read_vec 36
  pure (connect (low_flag flags) version format fleet_id device_id device_secret)

unfoldable pub read_connected : Reader Packet
read_connected = do flags ← read_u8; pure (connected (next_flag flags) (low_flag flags))

unfoldable pub read_unauthorized : Reader Packet
read_unauthorized = do
  _ ← read_u8
  reason ← read_enum unauthorized_error
  pure (unauthorized reason)

unfoldable pub read_connect_failed : Reader Packet
read_connect_failed = do
  _ ← read_u8
  reason ← read_enum connect_failed_error
  pure (connect_failed reason)

unfoldable pub read_heartbeat : Reader Packet
read_heartbeat = do flags ← read_u8; pure (heartbeat flags)

unfoldable pub read_heartbeat_ack : Reader Packet
read_heartbeat_ack = do flags ← read_u8; pure (heartbeat_ack (low_flag flags))

unfoldable pub read_pulse : Reader Packet
read_pulse = do
  _ ← read_u8
  kind ← read_enum pulse_type
  txn_id ← read_word 8 0
  name_len ← read_u8
  name ← read_vec name_len
  payload_len ← read_word 4 0
  payload ← read_vec payload_len
  pure (pulse kind txn_id name_len name payload_len payload)

unfoldable pub read_pulse_resp : Reader Packet
read_pulse_resp = do
  flags ← read_u8
  txn_id ← read_word 8 0
  error_reason ← read_if (not (low_flag flags)) (read_enum pulse_error_reason)
  pure (pulse_resp (low_flag flags) txn_id error_reason)

unfoldable pub read_new_mail_event : Reader Packet
read_new_mail_event = do flags ← read_u8; pure (new_mail_event flags)

unfoldable pub read_mailbox_next : Reader Packet
read_mailbox_next = do
  flags ← read_u8
  txn_id ← read_word 8 0
  pure (mailbox_next (low_flag flags) txn_id)

-- What `MailboxNextResp` holds behind its `name`.
unfoldable pub read_mail_payload :
    Bool → Bool → ℕ → ℕ → Option ℕ → Option ℕ → Option Bytes → Reader Packet
read_mail_payload header_only successful txn_id mailbox_size pulse_id name_len name =
    let full = has_payload header_only successful mailbox_size in
    do
      payload_len ← read_if full (read_word 4 0)
      payload ← read_if full (read_vec (unwrap_or_zero payload_len))
      pure (
          mailbox_next_resp header_only successful txn_id mailbox_size pulse_id name_len name
            payload_len payload)

-- And behind its `mailbox_size`.
unfoldable pub read_mail_fields : Bool → Bool → ℕ → ℕ → Reader Packet
read_mail_fields header_only successful txn_id mailbox_size =
    let mail = has_mail successful mailbox_size in
    do
      pulse_id ← read_if mail (read_word 16 0)
      name_len ← read_if mail read_u8
      name ← read_if mail (read_vec (unwrap_or_zero name_len))
      read_mail_payload header_only successful txn_id mailbox_size pulse_id name_len name

unfoldable pub read_mailbox_next_resp : Reader Packet
read_mailbox_next_resp = do
  flags ← read_u8
  txn_id ← read_word 8 0
  mailbox_size ← read_word 2 0
  read_mail_fields (next_flag flags) (low_flag flags) txn_id mailbox_size

unfoldable pub read_ack_mail : Reader Packet
read_ack_mail = do
  _ ← read_u8
  pulse_id ← read_word 16 0
  kind ← read_enum mail_ack_type
  pure (ack_mail pulse_id kind)

unfoldable pub read_ack_mail_resp : Reader Packet
read_ack_mail_resp = do
  flags ← read_u8
  mailbox_size ← read_word 2 0
  pulse_id ← read_word 16 0
  kind ← read_enum mail_ack_type
  pure (ack_mail_resp (low_flag flags) mailbox_size pulse_id kind)

abbrev no_variant : Reader Packet
no_variant bs = invalid

unfoldable pub read_variant : ℕ → Reader Packet
read_variant id =
    if id == 1
    then read_close_connection
    else if id == 2
    then read_connect
    else if id == 3
    then read_connected
    else if id == 4
    then read_unauthorized
    else if id == 5
    then read_connect_failed
    else if id == 8
    then read_heartbeat
    else if id == 9
    then read_heartbeat_ack
    else if id == 10
    then read_pulse
    else if id == 11
    then read_pulse_resp
    else if id == 20
    then read_new_mail_event
    else if id == 21
    then read_mailbox_next
    else if id == 22
    then read_mailbox_next_resp
    else if id == 25
    then read_ack_mail
    else if id == 26
    then read_ack_mail_resp
    else no_variant

unfoldable pub from_bytes : Reader Packet
from_bytes = do id ← read_u8; read_variant id
