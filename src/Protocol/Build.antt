-- ===== src/Protocol/Build.antt =====
-- The packet constructors of `impl MoonlightPacket` (device-agent/src/moonlight_codec.rs). `none`
-- is a panic; `as u8` and `as u32` wrap.
use devicekit.Prelude.{
  ℕ, zero, suc, ◌%◌, ◌^◌, ◌<◌, ◌≤◌, ◌≡◌, subst, ◌⊎◌, inl, inr, Bool, true, false, Option, none,
  some, Bool-cases, ltb, if◌then◌else◌, arith,
}
use devicekit.Prelude.Text.{Str, as_bytes, len}
use devicekit.Prelude.Result.{Result, ok, ◌>>=◌}
use devicekit.Outside.{Outside}
use devicekit.Creds.{Creds, CredErr}
use devicekit.Creds
use devicekit.Creds.Laws.{new_outcome}
use devicekit.Protocol.{
  Packet, SerializationFormat, PulseType, UnauthorizedError, ConnectFailedError, PulseErrorReason,
  MailAckType,
}
use devicekit.Protocol.Layout.RoundTrip.{IsWellFormed}

abbrev connect_packet : Str → Str → Str → Packet
connect_packet fleet_id device_id device_secret =
    Packet.connect true 1 SerializationFormat.json (as_bytes fleet_id) (as_bytes device_id)
      (as_bytes device_secret)

unfoldable pub connect : Outside → Str → Str → Str → Bool → Result (Packet × Creds) CredErr
connect o fleet_id device_id device_secret prod = do
  creds ← Creds.new o fleet_id device_id device_secret prod
  ok (connect_packet fleet_id device_id device_secret, creds)

unfoldable pub server_close_connection : Packet
server_close_connection = Packet.close_connection true

unfoldable pub client_close_connection : Packet
client_close_connection = Packet.close_connection false

unfoldable pub connected : Bool → Bool → Packet
connected mail_available keep_alive = Packet.connected mail_available keep_alive

unfoldable pub unauthorized : UnauthorizedError → Packet
unauthorized reason = Packet.unauthorized reason

unfoldable pub connect_failed : ConnectFailedError → Packet
connect_failed reason = Packet.connect_failed reason

unfoldable pub heartbeat : Packet
heartbeat = Packet.heartbeat 0

unfoldable pub heartbeat_ack : Bool → Packet
heartbeat_ack successful = Packet.heartbeat_ack successful

abbrev pulse_packet : PulseType → ℕ → Str → Str → Packet
pulse_packet pulse_type txn_id name payload =
    Packet.pulse pulse_type txn_id (len name % 2 ^ 8) (as_bytes name) (len payload % 2 ^ 32)
      (as_bytes payload)

unfoldable pub pulse : PulseType → ℕ → Str → Str → Option Packet
pulse pulse_type txn_id name payload =
    if ltb 255 (len name) then none else some (pulse_packet pulse_type txn_id name payload)

unfoldable pub pulse_resp_success : ℕ → Packet
pulse_resp_success txn_id = Packet.pulse_resp true txn_id none

unfoldable pub pulse_resp_error : ℕ → PulseErrorReason → Packet
pulse_resp_error txn_id error_reason = Packet.pulse_resp false txn_id (some error_reason)

unfoldable pub new_mail_event : Packet
new_mail_event = Packet.new_mail_event 0

unfoldable pub mailbox_next : Bool → ℕ → Packet
mailbox_next header_only txn_id = Packet.mailbox_next header_only txn_id

unfoldable pub mailbox_next_resp_empty : ℕ → Packet
mailbox_next_resp_empty txn_id =
    Packet.mailbox_next_resp false true txn_id 0 none none none none none

unfoldable pub mailbox_next_resp_failed : ℕ → Packet
mailbox_next_resp_failed txn_id =
    Packet.mailbox_next_resp false false txn_id 0 none none none none none

unfoldable pub mailbox_next_resp_header_only : ℕ → ℕ → ℕ → Str → Packet
mailbox_next_resp_header_only txn_id mailbox_size pulse_id name =
    Packet.mailbox_next_resp true true txn_id mailbox_size (some pulse_id) (some (len name % 2 ^ 8))
      (some (as_bytes name)) none none

unfoldable pub mailbox_next_resp_full : ℕ → ℕ → ℕ → Str → Str → Option Packet
mailbox_next_resp_full txn_id mailbox_size pulse_id name payload =
    if ltb 255 (len name)
    then none
    else some (
        Packet.mailbox_next_resp false true txn_id mailbox_size (some pulse_id)
          (some (len name % 2 ^ 8)) (some (as_bytes name)) (some (len payload % 2 ^ 32))
          (some (as_bytes payload)))

unfoldable pub ack_mail : ℕ → MailAckType → Packet
ack_mail pulse_id ack_type = Packet.ack_mail pulse_id ack_type

unfoldable pub ack_mail_resp : ℕ → ℕ → MailAckType → Packet
ack_mail_resp mailbox_size pulse_id ack_type =
    Packet.ack_mail_resp true mailbox_size pulse_id ack_type

unfoldable pub ack_mail_resp_failed : ℕ → MailAckType → Packet
ack_mail_resp_failed pulse_id ack_type = Packet.ack_mail_resp false 0 pulse_id ack_type

-- The connect packet of accepted credentials fits its fixed-width fields.
pub connect-IsWellFormed :
    (o : Outside) (f d s : Str) (prod : Bool) (p : Packet) (c : Creds)
    → connect o f d s prod ≡ ok (p, c)
    → IsWellFormed p × (c ≡ record { fleet_id = f; device_id = d; device_secret = s; prod = prod })
unfolding connect
connect-IsWellFormed o f d s prod p c e = elim (new_outcome o f d s prod) [
  | inl (made, (hf, _), (hd, _), (hs, _, _)) ↦
      let packet : connect_packet f d s ≡ p = cc (rw made at e) in
      let creds : c ≡ record { fleet_id = f; device_id = d; device_secret = s; prod = prod } =
        cc (rw made at e) in
      (subst IsWellFormed packet (hf, hd, hs), creds)
  | inr (x, refused, _) ↦ absurd (cc (rw refused at e))
]

-- A pulse panics exactly for a name of more than 255 bytes; any other name, with a payload below
-- 4 GiB, makes a packet that fits.
pub pulse_outcome :
    (t : PulseType) (id : ℕ) (name payload : Str)
    → id < 2 ^ 64
    → len payload < 2 ^ 32
    → ((255 < len name) × (pulse t id name payload ≡ none))
      ⊎ ((len name ≤ 255) × ((p : Packet) × (pulse t id name payload ≡ some p) × IsWellFormed p))
unfolding pulse
pulse_outcome t id name payload hid hp = elim (Bool-cases (ltb 255 (len name))) [
  | inl long ↦ inl (ground arith, rw long)
  | inr short ↦ inr (
    ground arith,
    (pulse_packet t id name payload, rw short, (hid, ground arith, omega arith, omega arith)),
  )
]

-- The header-only reply has no such check: with mail, a name of more than 255 bytes makes a packet
-- whose length byte does not hold the length.
pub header_only_unfit :
    (txn_id mailbox_size pulse_id : ℕ) (name : Str)
    → 0 < mailbox_size
    → 255 < len name
    → ¬ IsWellFormed (mailbox_next_resp_header_only txn_id mailbox_size pulse_id name)
unfolding mailbox_next_resp_header_only
header_only_unfit t zero id name h long w = elim h [ ]
header_only_unfit t (suc size) id name h long w = ground arith
