-- ===== src/Http.antt =====
-- `route` of device-agent/src/http_server/router.rs: which operation a request asks for, or why it
-- is refused.
pub mod Routes
pub mod Status
pub mod Headers
pub mod Response
pub mod Lines
pub mod Exact
pub mod Parse
pub mod Request
pub mod Commands
pub mod Server
pub mod Listen
pub mod Events
use devicekit.Prelude.{
  ℕ, zero, suc, ◌≤◌, Bool, true, false, not, ◌&&◌, ◌||◌, Option, none, some, List, [], ◌∷◌, ◌==◌,
  leb, all, length, if◌then◌else◌,
}
use devicekit.Prelude.Text.{
  Str, chars, len, is_empty, starts_with, str_eq, is_ascii_alphanumeric, trim,
}
use devicekit.Prelude.Result.{Result, ok, err}
use devicekit.Protocol.{PulseType, MailAckType}
use devicekit.MailId.{InvalidPulseId, uuidv7_u128}

pub data Method : Type 0 where
  get head post put delete : Method

-- The handler that a request is given to, with what it is called with, or the refusal.
pub data Action : Type 0 where
  status ping stop_agent event_stream not_found : Action
  mailbox_next : (header_only : Bool) → Action
  mail_op : MailAckType → (mail_id : ℕ) → Action
  send_pulse : PulseType → (name : Str) → Action
  bad_request : (msg : Str) → Action

unfoldable pub strip_prefix : Str → Str → Option Str
strip_prefix [] s = some s
strip_prefix (p ∷ ps) [] = none
strip_prefix (p ∷ ps) (c ∷ s) = elim (p == c) [ true ↦ strip_prefix ps s | false ↦ none ]

-- `trim_start_matches` takes the prefix away as often as it stands there; each time shortens the
-- text, so its length is enough.
unfoldable pub trim_start_loop : ℕ → Str → Str → Str
trim_start_loop zero p s = s
trim_start_loop (suc fuel) p s = elim (strip_prefix p s) [
  | none ↦ s
  | some rest ↦ trim_start_loop fuel p rest
]

abbrev pub trim_start_matches : Str → Str → Str
trim_start_matches p s = trim_start_loop (length s) p s

abbrev in_front : ℕ → Option (Str × Str) → Option (Str × Str)
in_front c none = none
in_front c (some (a, b)) = some (c ∷ a, b)

-- `str::split_once` at a character.
unfoldable pub split_once : ℕ → Str → Option (Str × Str)
split_once at [] = none
split_once at (c ∷ s) = elim (c == at) [
  | true ↦ some ([], s)
  | false ↦ in_front c (split_once at s)
]

abbrev pub is_name_char : ℕ → Bool
is_name_char c = is_ascii_alphanumeric c || c == b'_' || c == b'-'

unfoldable pub is_valid_pulse_name : Str → Bool
is_valid_pulse_name name = not (is_empty name) && leb (len name) 255 && all is_name_char name

abbrev pub mail_op_of : MailAckType → Result ℕ InvalidPulseId → Action
mail_op_of ack_type (ok mail_id) = mail_op ack_type mail_id
mail_op_of ack_type (err e) =
    bad_request
      (chars "invalid_pulse_id: The provided Pulse ID is invalid. A Pulse ID is a UUIDv7 ID.")

abbrev pub with_mail_id : MailAckType → Option (Str × Str) → Action
with_mail_id ack_type none = bad_request (chars "Mail ID missing in path after /mailbox/<action>/")
with_mail_id ack_type (some (action, mail_id)) = mail_op_of ack_type (uuidv7_u128 mail_id)

unfoldable pub exec_mail_op : MailAckType → Str → Action
exec_mail_op ack_type path =
    with_mail_id ack_type (split_once b'/' (trim_start_matches (chars "/mailbox/") path))

abbrev pub with_pulse_name : PulseType → Option (Str × Str) → Action
with_pulse_name pulse_type none =
    bad_request (chars "Pulse name missing in path after /pulse/<type>/")
with_pulse_name pulse_type (some (kind, name)) =
    if is_valid_pulse_name (trim name)
    then send_pulse pulse_type name
    else bad_request (chars "Invalid Pulse Name")

unfoldable pub exec_send_pulse : PulseType → Str → Action
exec_send_pulse pulse_type path =
    with_pulse_name pulse_type (split_once b'/' (trim_start_matches (chars "/pulse/") path))

unfoldable pub route : Method → Str → Action
route get path =
    if str_eq path (chars "/")
    then status
    else if str_eq path (chars "/events")
    then event_stream
    else if str_eq path (chars "/mailbox/next")
    then mailbox_next false
    else not_found
route head path =
    if str_eq path (chars "/")
    then ping
    else if str_eq path (chars "/mailbox/next")
    then mailbox_next true
    else not_found
route delete path = if str_eq path (chars "/stop-agent") then stop_agent else not_found
route put path =
    if starts_with (chars "/mailbox/ack/") path
    then exec_mail_op MailAckType.ack path
    else if starts_with (chars "/mailbox/reject/") path
    then exec_mail_op MailAckType.reject path
    else if starts_with (chars "/mailbox/requeue/") path
    then exec_mail_op MailAckType.requeue path
    else not_found
route post path =
    if starts_with (chars "/pulse/datapoint/") path
    then exec_send_pulse PulseType.datapoint path
    else if starts_with (chars "/pulse/msg/") path
    then exec_send_pulse PulseType.msg path
    else if starts_with (chars "/pulse/system/") path
    then exec_send_pulse PulseType.system path
    else not_found
