-- ===== src/Session/State.antt =====
-- The fields of `MoonlightClient` and the methods that read or change them: `new`, `status`,
-- `backoff`, the end of a session in `start`, `stop` and `send_cmd`.
use devicekit.Prelude.{
  ℕ, Bool, true, false, Option, none, some, List, [], ◌∷◌, ◌++◌, ◌==◌, if◌then◌else◌,
}
use devicekit.Prelude.Text.{Str, chars}
use devicekit.Protocol.{ConnectFailedError}
use devicekit.Response.{DisconnectedReason}
use devicekit.Client.Txns.{Chan}
use devicekit.Client.State.{
  ReturnChanResult, failure, ClientCmd, send_pulse, mailbox_next, mail_op, ClientEvent,
  transport_close, cmd,
}
use devicekit.Session.Messages.{unauthorized_message, connect_failed_message, disconnected_message}

pub data ConnectMode : Type 0 where
  prod : ConnectMode
  local : ℕ → ConnectMode

-- The sending end of a session's mailbox: whether the session still receives, and what was sent.
pub record Mailbox (V : Type 0) : Type 0 where
  pub receives : Bool
  pub sent : List (ClientEvent V)

-- Durations are milliseconds. `poisoned` is the state of the mailbox's mutex: a thread has
-- panicked with it locked.
pub record MoonlightClient (V : Type 0) : Type 0 where
  pub fleet_id : Str
  pub device_id : Str
  pub device_secret : Str
  pub connect_mode : ConnectMode
  pub shutdown_flag : Bool
  pub authenticated : Bool
  pub disconnected_reason : Option DisconnectedReason
  pub reconnect_in : Option ℕ
  pub mailbox_chan : Option (Mailbox V)
  pub poisoned : Bool

unfoldable pub new : {V : Type 0} → Str → Str → Str → ConnectMode → MoonlightClient V
new fleet_id device_id device_secret connect_mode = record {
  fleet_id = fleet_id;
  device_id = device_id;
  device_secret = device_secret;
  connect_mode = connect_mode;
  shutdown_flag = false;
  authenticated = false;
  disconnected_reason = none;
  reconnect_in = none;
  mailbox_chan = none;
  poisoned = false;
}

-- The keys of the JSON object that `status` answers, with `none` for a key that is left out.
pub record Status : Type 0 where
  pub connected : Bool
  pub error : Option Str
  pub msg : Option Str
  pub reconnecting_in : Option ℕ

abbrev pub unwrap_or_zero : Option ℕ → ℕ
unwrap_or_zero none = 0
unwrap_or_zero (some n) = n

abbrev pub down : Option Str → Option Str → Option ℕ → Status
down error msg reconnecting_in = record {
  connected = false;
  error = error;
  msg = msg;
  reconnecting_in = reconnecting_in;
}

abbrev pub status_when_down : Option ℕ → Option DisconnectedReason → Status
status_when_down reconnect_in none = down none none none
status_when_down reconnect_in (some (DisconnectedReason.unauthorized reason)) =
    down (some (chars "unauthorized")) (some (unauthorized_message reason)) none
status_when_down reconnect_in (some (DisconnectedReason.connect_failed reason)) =
    down (some (chars "connect_failed")) (some (connect_failed_message reason))
      (some (unwrap_or_zero reconnect_in))
status_when_down reconnect_in (some _) =
    down (some (chars "connect_failed")) (some (connect_failed_message ConnectFailedError.unknown))
      none

unfoldable pub status : {V : Type 0} → MoonlightClient V → Status
status c =
    if c.authenticated
    then record { connected = true; error = none; msg = none; reconnecting_in = none }
    else status_when_down c.reconnect_in c.disconnected_reason

-- The ladder of `backoff`: the interval after this one.
unfoldable pub next_interval : ℕ → ℕ
next_interval n =
    if n == 0
    then 1_000
    else if n == 1_000
    then 2_500
    else if n == 2_500
    then 5_000
    else if n == 5_000
    then 10_000
    else if n == 10_000
    then 15_000
    else if n == 15_000
    then 30_000
    else 30_000

unfoldable pub backoff : {V : Type 0} → Bool → MoonlightClient V → MoonlightClient V × ℕ
backoff true c = (record c { reconnect_in = some 300_000 }, 300_000)
backoff false c =
    let reconnect_in = unwrap_or_zero c.reconnect_in in
    (record c { reconnect_in = some (next_interval reconnect_in) }, reconnect_in)

-- The notification that a session has ended.
pub record Disconnected : Type 0 where
  pub error : Str
  pub reconnecting_in_ms : ℕ

abbrev pub is_unauthorized : DisconnectedReason → Bool
is_unauthorized (DisconnectedReason.unauthorized reason) = true
is_unauthorized _ = false

-- What the loop of `start` does at the end of a session: the client, the notification, and the
-- time that it sleeps unless it is to shut down.
unfoldable pub end_session :
    {V : Type 0} → DisconnectedReason → MoonlightClient V → MoonlightClient V × Disconnected
end_session reason c =
    let (c', sleep_time) = backoff (is_unauthorized reason) (record c {
      disconnected_reason = some reason;
      mailbox_chan = none;
      authenticated = false;
    }) in
    (c', record { error = disconnected_message reason; reconnecting_in_ms = sleep_time })

-- `stop` sets the flag, and wakes the session by closing its transport. `none` is a panic:
-- the lock is poisoned, and the source has raised the flag in front of taking it.
abbrev pub close_mailbox : {V : Type 0} → Option (Mailbox V) → Option (Mailbox V)
close_mailbox none = none
close_mailbox (some m) =
    some (if m.receives then record m { sent = m.sent ++ (transport_close ∷ []) } else m)

unfoldable pub stop : {V : Type 0} → MoonlightClient V → Option (MoonlightClient V)
stop c =
    if c.poisoned
    then none
    else some (record c { shutdown_flag = true; mailbox_chan = close_mailbox c.mailbox_chan })

-- `send_cmd`: the client, and the reply that the caller is sent at once, if any.
abbrev pub chan_of : {V : Type 0} → ClientCmd V → Chan
chan_of (send_pulse pulse_type name payload return_chan) = return_chan
chan_of (mailbox_next header_only return_chan) = return_chan
chan_of (mail_op ack_type pulse_id return_chan) = return_chan

abbrev pub refused : {V : Type 0} → ClientCmd V → Option (Chan × ReturnChanResult V)
refused c = some (chan_of c, failure (chars "mailbox write failed"))

abbrev pub send_to :
    {V : Type 0}
    → Option (Mailbox V)
    → ClientCmd V
    → MoonlightClient V
    → MoonlightClient V × Option (Chan × ReturnChanResult V)
send_to none x c = (c, refused x)
send_to (some m) x c =
    if m.receives
    then (record c { mailbox_chan = some (record m { sent = m.sent ++ (cmd x ∷ []) }) }, none)
    else (c, refused x)

unfoldable pub send_cmd :
    {V : Type 0}
    → ClientCmd V
    → MoonlightClient V
    → MoonlightClient V × Option (Chan × ReturnChanResult V)
send_cmd x c = if c.poisoned then (c, refused x) else send_to c.mailbox_chan x c
