-- ===== src/Protocol.antt =====
-- The Moonlight packets of device-agent/src/moonlight_codec.rs: the enums that travel as one byte
-- with their ids, and `MoonlightPacket`. A `Vec<u8>` is a list of numbers, a word a number.
pub mod Reader
pub mod Layout
pub mod Build
use devicekit.Prelude.{ℕ, Bool, Option, none, some, List, ◌==◌, if◌then◌else◌}

abbrev pub Bytes : Type 0
Bytes = List ℕ

pub data SerializationFormat : Type 0 where
  msg_pack json : SerializationFormat

pub data PulseType : Type 0 where
  unknown system datapoint msg : PulseType

pub data UnauthorizedError : Type 0 where
  unknown invalid_credentials fleet_not_found device_not_found : UnauthorizedError
  device_secret_incorrect device_disabled temporary_ban : UnauthorizedError

pub data ConnectFailedError : Type 0 where
  unknown service_restarting service_unavailable service_degraded : ConnectFailedError

pub data PulseErrorReason : Type 0 where
  unknown deserialization_failed : PulseErrorReason
  packet_schema_not_found packet_schema_type_mismatch : PulseErrorReason

pub data MailAckType : Type 0 where
  ack reject requeue : MailAckType

-- An enum that is read and written as one byte, by the `id` attributes of its variants.
pub record ByteEnum (E : Type 0) : Type 0 where
  pub id : E → ℕ
  pub of_id : ℕ → Option E

abbrev serialization_format_id : SerializationFormat → ℕ
serialization_format_id SerializationFormat.msg_pack = 1
serialization_format_id SerializationFormat.json = 2

abbrev serialization_format_of_id : ℕ → Option SerializationFormat
serialization_format_of_id n =
    if n == 1
    then some SerializationFormat.msg_pack
    else if n == 2
    then some SerializationFormat.json
    else none

abbrev pub serialization_format : ByteEnum SerializationFormat
serialization_format = record { id = serialization_format_id; of_id = serialization_format_of_id }

abbrev pulse_type_id : PulseType → ℕ
pulse_type_id PulseType.unknown = 0
pulse_type_id PulseType.system = 1
pulse_type_id PulseType.datapoint = 2
pulse_type_id PulseType.msg = 3

abbrev pulse_type_of_id : ℕ → Option PulseType
pulse_type_of_id n =
    if n == 0
    then some PulseType.unknown
    else if n == 1
    then some PulseType.system
    else if n == 2
    then some PulseType.datapoint
    else if n == 3
    then some PulseType.msg
    else none

abbrev pub pulse_type : ByteEnum PulseType
pulse_type = record { id = pulse_type_id; of_id = pulse_type_of_id }

abbrev unauthorized_error_id : UnauthorizedError → ℕ
unauthorized_error_id UnauthorizedError.unknown = 0
unauthorized_error_id UnauthorizedError.invalid_credentials = 1
unauthorized_error_id UnauthorizedError.fleet_not_found = 2
unauthorized_error_id UnauthorizedError.device_not_found = 3
unauthorized_error_id UnauthorizedError.device_secret_incorrect = 4
unauthorized_error_id UnauthorizedError.device_disabled = 5
unauthorized_error_id UnauthorizedError.temporary_ban = 6

abbrev unauthorized_error_of_id : ℕ → Option UnauthorizedError
unauthorized_error_of_id n =
    if n == 0
    then some UnauthorizedError.unknown
    else if n == 1
    then some UnauthorizedError.invalid_credentials
    else if n == 2
    then some UnauthorizedError.fleet_not_found
    else if n == 3
    then some UnauthorizedError.device_not_found
    else if n == 4
    then some UnauthorizedError.device_secret_incorrect
    else if n == 5
    then some UnauthorizedError.device_disabled
    else if n == 6
    then some UnauthorizedError.temporary_ban
    else none

abbrev pub unauthorized_error : ByteEnum UnauthorizedError
unauthorized_error = record { id = unauthorized_error_id; of_id = unauthorized_error_of_id }

abbrev connect_failed_error_id : ConnectFailedError → ℕ
connect_failed_error_id ConnectFailedError.unknown = 0
connect_failed_error_id ConnectFailedError.service_restarting = 1
connect_failed_error_id ConnectFailedError.service_unavailable = 2
connect_failed_error_id ConnectFailedError.service_degraded = 3

abbrev connect_failed_error_of_id : ℕ → Option ConnectFailedError
connect_failed_error_of_id n =
    if n == 0
    then some ConnectFailedError.unknown
    else if n == 1
    then some ConnectFailedError.service_restarting
    else if n == 2
    then some ConnectFailedError.service_unavailable
    else if n == 3
    then some ConnectFailedError.service_degraded
    else none

abbrev pub connect_failed_error : ByteEnum ConnectFailedError
connect_failed_error = record { id = connect_failed_error_id; of_id = connect_failed_error_of_id }

abbrev pulse_error_reason_id : PulseErrorReason → ℕ
pulse_error_reason_id PulseErrorReason.unknown = 0
pulse_error_reason_id PulseErrorReason.deserialization_failed = 1
pulse_error_reason_id PulseErrorReason.packet_schema_not_found = 2
pulse_error_reason_id PulseErrorReason.packet_schema_type_mismatch = 3

abbrev pulse_error_reason_of_id : ℕ → Option PulseErrorReason
pulse_error_reason_of_id n =
    if n == 0
    then some PulseErrorReason.unknown
    else if n == 1
    then some PulseErrorReason.deserialization_failed
    else if n == 2
    then some PulseErrorReason.packet_schema_not_found
    else if n == 3
    then some PulseErrorReason.packet_schema_type_mismatch
    else none

abbrev pub pulse_error_reason : ByteEnum PulseErrorReason
pulse_error_reason = record { id = pulse_error_reason_id; of_id = pulse_error_reason_of_id }

abbrev mail_ack_type_id : MailAckType → ℕ
mail_ack_type_id MailAckType.ack = 1
mail_ack_type_id MailAckType.reject = 2
mail_ack_type_id MailAckType.requeue = 3

abbrev mail_ack_type_of_id : ℕ → Option MailAckType
mail_ack_type_of_id n =
    if n == 1
    then some MailAckType.ack
    else if n == 2
    then some MailAckType.reject
    else if n == 3
    then some MailAckType.requeue
    else none

abbrev pub mail_ack_type : ByteEnum MailAckType
mail_ack_type = record { id = mail_ack_type_id; of_id = mail_ack_type_of_id }

-- Bytes and words are natural numbers; `IsWellFormed` of the layout says which fit their fields.
pub data Packet : Type 0 where
  close_connection : (server : Bool) → Packet
  connect :
      (keep_alive : Bool) (protocol_version : ℕ) (format : SerializationFormat)
      (fleet_id device_id device_secret : Bytes)
      → Packet
  connected : (mail_available keep_alive : Bool) → Packet
  unauthorized : (reason : UnauthorizedError) → Packet
  connect_failed : (reason : ConnectFailedError) → Packet
  heartbeat : ℕ → Packet
  heartbeat_ack : (successful : Bool) → Packet
  pulse :
      (kind : PulseType) (txn_id name_len : ℕ) (name : Bytes) (payload_len : ℕ) (payload : Bytes)
      → Packet
  pulse_resp : (successful : Bool) (txn_id : ℕ) (error_reason : Option PulseErrorReason) → Packet
  new_mail_event : ℕ → Packet
  mailbox_next : (header_only : Bool) (txn_id : ℕ) → Packet
  mailbox_next_resp :
      (header_only successful : Bool) (txn_id mailbox_size : ℕ) (pulse_id name_len : Option ℕ)
      (name : Option Bytes) (payload_len : Option ℕ) (payload : Option Bytes)
      → Packet
  ack_mail : (pulse_id : ℕ) (kind : MailAckType) → Packet
  ack_mail_resp : (successful : Bool) (mailbox_size pulse_id : ℕ) (kind : MailAckType) → Packet
