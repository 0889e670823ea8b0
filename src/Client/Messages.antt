-- ===== src/Client/Messages.antt =====
-- The texts of errors and replies (`#[error]`, `strum`) that reach a caller.
use devicekit.Prelude.{ℕ, zero, suc, ◌+◌, ◌/◌, ◌%◌, [], ◌∷◌, ◌++◌}
use devicekit.Prelude.Text.{Str, chars}
use devicekit.Protocol.{PulseErrorReason, MailAckType}

-- The decimal digits of a number below 10 ^ fuel, without leading zeros, in front of `acc`.
digits_loop : ℕ → ℕ → Str → Str
digits_loop zero n acc = acc
digits_loop (suc fuel) n acc = elim (n / 10) [
  | zero ↦ (b'0' + n % 10) ∷ acc
  | suc m ↦ digits_loop fuel (n / 10) ((b'0' + n % 10) ∷ acc)
]

-- `{}` of a u128, which has at most 39 digits.
pub decimal : ℕ → Str
decimal n = digits_loop 39 n []

pub pulse_error_message : PulseErrorReason → Str
pulse_error_message PulseErrorReason.unknown =
    chars "unknown_error: An unknown error occurred while sending the packet."
pulse_error_message PulseErrorReason.deserialization_failed =
    chars "deserialization_failed: The Fostrom server failed to deserialize the packet correctly."
pulse_error_message PulseErrorReason.packet_schema_not_found =
    chars "packet_schema_not_found: There is no Packet Schema associated with the name provided."
pulse_error_message PulseErrorReason.packet_schema_type_mismatch =
    chars "packet_schema_type_mismatch: The Packet Schema does exist but not of the type provided."

abbrev pub ack_type_str : MailAckType → Str
ack_type_str MailAckType.ack = chars "acknowledge"
ack_type_str MailAckType.reject = chars "reject"
ack_type_str MailAckType.requeue = chars "requeue"

pub ack_mail_failed_message : ℕ → MailAckType → Str
ack_mail_failed_message pulse_id ack_type =
    chars "mail_ack_failed: Failed to "
    ++ (ack_type_str ack_type ++ (chars " the mail with ID " ++ (decimal pulse_id ++ chars ".")))

pub duplicate_req_message : Str
duplicate_req_message =
    chars "duplicate_request: A request with the same transaction ID has already been queued."

pub txn_exhaustion_message : Str
txn_exhaustion_message = chars "txn_failed: Transaction ID Exhaustion"

pub invalid_name_message : Str
invalid_name_message = chars "invalid_name: Pulse Name needs to be under 255 characters."

pub next_mail_failed_message : Str
next_mail_failed_message = chars "failed: Failed to fetch next mail"
