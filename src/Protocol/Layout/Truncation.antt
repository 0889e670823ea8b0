-- ===== src/Protocol/Layout/Truncation.antt =====
-- What `from_bytes` makes of input that is cut, or that goes on behind the packet.
use devicekit.Prelude.{
  ℕ, ◌<◌, ◌≡◌, refl, ap, subst, [], ◌∷◌, ◌++◌, append-nil, length, arith, inl, inr,
}
use devicekit.Protocol.{Bytes, Packet}
use devicekit.Protocol.Reader.{done, incomplete, invalid}
use devicekit.Protocol.Reader.Laws.{
  Agrees, EndsIn, IsLawful, lawful, Read-cases, if-IsLawful, invalid-IsLawful,
}
use devicekit.Protocol.Layout.{
  to_bytes, from_bytes, read_variant, read_close_connection, read_connect, read_connected,
  read_unauthorized, read_connect_failed, read_heartbeat, read_heartbeat_ack, read_pulse,
  read_pulse_resp, read_new_mail_event, read_mailbox_next, read_mail_payload, read_mail_fields,
  read_mailbox_next_resp, read_ack_mail, read_ack_mail_resp,
}
use devicekit.Protocol.Layout.RoundTrip.{IsWellFormed, from_bytes-to_bytes}

read_close_connection-IsLawful : IsLawful read_close_connection
unfolding read_close_connection
read_close_connection-IsLawful = search lawful

read_connect-IsLawful : IsLawful read_connect
unfolding read_connect
read_connect-IsLawful = search lawful depth 9

read_connected-IsLawful : IsLawful read_connected
unfolding read_connected
read_connected-IsLawful = search lawful

read_unauthorized-IsLawful : IsLawful read_unauthorized
unfolding read_unauthorized
read_unauthorized-IsLawful = search lawful

read_connect_failed-IsLawful : IsLawful read_connect_failed
unfolding read_connect_failed
read_connect_failed-IsLawful = search lawful

read_heartbeat-IsLawful : IsLawful read_heartbeat
unfolding read_heartbeat
read_heartbeat-IsLawful = search lawful

read_heartbeat_ack-IsLawful : IsLawful read_heartbeat_ack
unfolding read_heartbeat_ack
read_heartbeat_ack-IsLawful = search lawful

read_pulse-IsLawful : IsLawful read_pulse
unfolding read_pulse
read_pulse-IsLawful = search lawful depth 9

read_pulse_resp-IsLawful : IsLawful read_pulse_resp
unfolding read_pulse_resp
read_pulse_resp-IsLawful = search lawful depth 6

read_new_mail_event-IsLawful : IsLawful read_new_mail_event
unfolding read_new_mail_event
read_new_mail_event-IsLawful = search lawful

read_mailbox_next-IsLawful : IsLawful read_mailbox_next
unfolding read_mailbox_next
read_mailbox_next-IsLawful = search lawful

read_mailbox_next_resp-IsLawful : IsLawful read_mailbox_next_resp
unfolding read_mailbox_next_resp read_mail_fields read_mail_payload
read_mailbox_next_resp-IsLawful = search lawful depth 10

read_ack_mail-IsLawful : IsLawful read_ack_mail
unfolding read_ack_mail
read_ack_mail-IsLawful = search lawful

read_ack_mail_resp-IsLawful : IsLawful read_ack_mail_resp
unfolding read_ack_mail_resp
read_ack_mail_resp-IsLawful = search lawful depth 6

ruleset variants = (
  if-IsLawful, invalid-IsLawful, read_close_connection-IsLawful, read_connect-IsLawful,
  read_connected-IsLawful, read_unauthorized-IsLawful, read_connect_failed-IsLawful,
  read_heartbeat-IsLawful, read_heartbeat_ack-IsLawful, read_pulse-IsLawful,
  read_pulse_resp-IsLawful, read_new_mail_event-IsLawful, read_mailbox_next-IsLawful,
  read_mailbox_next_resp-IsLawful, read_ack_mail-IsLawful, read_ack_mail_resp-IsLawful,
)

read_variant-IsLawful : (id : ℕ) → IsLawful (read_variant id)
unfolding read_variant
read_variant-IsLawful id = search variants depth 16

from_bytes-IsLawful : IsLawful from_bytes
unfolding from_bytes
from_bytes-IsLawful = search (lawful, read_variant-IsLawful)

-- A packet that is read from some bytes is read from them whatever follows.
pub from_bytes-append :
    (bs more : Bytes) {p : Packet} {rest : Bytes}
    → from_bytes bs ≡ done p rest
    → from_bytes (bs ++ more) ≡ done p (rest ++ more)
from_bytes-append bs more {p} {rest} e =
    subst (λ r. Agrees r more (from_bytes (bs ++ more))) e (from_bytes-IsLawful.stable bs more)

pub from_bytes-append_invalid :
    (bs more : Bytes) → from_bytes bs ≡ invalid → from_bytes (bs ++ more) ≡ invalid
from_bytes-append_invalid bs more e =
    subst (λ r. Agrees r more (from_bytes (bs ++ more))) e (from_bytes-IsLawful.stable bs more)

-- A packet takes the front of the bytes, its id at least.
pub from_bytes_takes :
    (bs : Bytes) {p : Packet} {rest : Bytes}
    → from_bytes bs ≡ done p rest
    → (used : Bytes) × (bs ≡ used ++ rest) × (0 < length used)
unfolding from_bytes
from_bytes_takes [] e = cc
from_bytes_takes (b ∷ bs) {p} {rest} e =
    let (used, front) = subst (EndsIn bs) e ((read_variant-IsLawful b).frugal bs) in
    (b ∷ used, ap (λ r. b ∷ r) front, omega arith)

append-ne-nil : (xs : Bytes) (x : ℕ) (ys : Bytes) → xs ++ (x ∷ ys) ≡ [] → ⊥
append-ne-nil [] x ys e = cc
append-ne-nil (z ∷ xs) x ys e = cc

-- Every proper prefix of the bytes of a well-formed packet is incomplete: it is neither refused nor
-- taken for another packet.
pub from_bytes_truncated :
    (p : Packet) (front : Bytes) (x : ℕ) (back : Bytes)
    → IsWellFormed p
    → to_bytes p ≡ front ++ (x ∷ back)
    → from_bytes front ≡ incomplete
from_bytes_truncated p front x back w e = elim (Read-cases (from_bytes front)) [
  | inl (q, rest, r) ↦
      absurd
        (append-ne-nil rest x back (ground (arith, whole, from_bytes-append front (x ∷ back) r)))
  | inr (inl r) ↦ r
  | inr (inr r) ↦ cc (whole, from_bytes-append_invalid front (x ∷ back) r)
]
  where
    whole : from_bytes (front ++ (x ∷ back)) ≡ done p []
    whole = rw (append-nil, e) at (from_bytes-to_bytes p w [])

pub from_bytes-nil : from_bytes [] ≡ incomplete
unfolding from_bytes
from_bytes-nil = refl
