-- ===== src/Transport/Loop.antt =====
-- The thread of `connect` in device-agent/src/moonlight_socket.rs: `socket_read`,
-- `pull_bytes_from_socket`, and the loop over both directions.
pub mod Delivered
pub mod EndToEnd
use devicekit.Prelude.{ℕ, Bool, true, false, Option, none, some, List, [], ◌∷◌, ◌++◌, if◌then◌else◌}
use devicekit.Prelude.Result.{Result, ok, err}
use devicekit.Protocol.{Bytes}
use devicekit.Client.State.{ClientEvent, transport_recv, transport_close}
use devicekit.Transport.{Round, Writer, PushError, Pushed, push_bytes_to_socket}

-- What `read` answers: no bytes are the end of the stream, and behind an interruption stands what the
-- next call answers.
pub data ReadAnswer : Type 0 where
  read : Bytes → ReadAnswer
  blocked failed : ReadAnswer
  interrupted : ReadAnswer → ReadAnswer

pub data PullError : Type 0 where
  terminated io_failed channel_write_failed : PullError

unfoldable pub socket_read : ReadAnswer → Result (Option Bytes) PullError
socket_read (read []) = err terminated
socket_read (read (b ∷ bytes)) = ok (some (b ∷ bytes))
socket_read blocked = ok none
socket_read failed = err io_failed
socket_read (interrupted next) = socket_read next

-- The event that is sent, where the mailbox has a receiver.
abbrev pub deliver :
    {V : Type 0} → Bool → Result (Option Bytes) PullError → Result (List (ClientEvent V)) PullError
deliver receives (err e) = err e
deliver receives (ok none) = ok []
deliver receives (ok (some bytes)) =
    if receives then ok (transport_recv bytes ∷ []) else err channel_write_failed

unfoldable pub pull_bytes_from_socket :
    {V : Type 0} → Bool → ReadAnswer → Result (List (ClientEvent V)) PullError
pull_bytes_from_socket receives answer = deliver receives (socket_read answer)

-- What one round of the loop meets: the messages that came on the channel since the last one, the
-- flag, and what the calls of both directions meet.
pub record Tick : Type 0 where
  pub messages : List Bytes
  pub shutdown_flag : Bool
  pub rounds : ℕ → Round
  pub flush_fails : Bool
  pub fuel : ℕ
  pub answer : ReadAnswer
  pub receives : Bool

abbrev pub with_messages : List Bytes → Writer → Writer
with_messages messages w = record w { queue = w.queue ++ messages }

-- The writer, and the events that the mailbox is sent.
abbrev pub Run : Type 0 → Type 0
Run V = Writer × List (ClientEvent V)

abbrev pub closed : {V : Type 0} → Writer → Run V
closed w = (w, transport_close ∷ [])

abbrev pub behind : {V : Type 0} → List (ClientEvent V) → Run V → Run V
behind events (w, later) = (w, events ++ later)

-- A call that has not returned leaves the loop in it.
abbrev pub pulled :
    {V : Type 0} → Writer → (Writer → Run V) → Result (List (ClientEvent V)) PullError → Run V
pulled w next (err e) = closed w
pulled w next (ok events) = behind events (next w)

abbrev pub pushed : {V : Type 0} → Tick → (Writer → Run V) → Pushed → Run V
pushed tick next (w, none) = (w, [])
pushed tick next (w, some (err e)) = closed w
pushed tick next (w, some (ok u)) = pulled w next (pull_bytes_from_socket tick.receives tick.answer)

-- A list of rounds that ends is a loop that still runs.
unfoldable pub transport_loop : {V : Type 0} → List Tick → Writer → Run V
transport_loop [] w = (w, [])
transport_loop (tick ∷ ticks) w = elim (tick.shutdown_flag) [
  | true ↦ closed (with_messages tick.messages w)
  | false ↦
      pushed tick (λ w'. transport_loop ticks w')
        (push_bytes_to_socket tick.rounds tick.flush_fails tick.fuel
          (with_messages tick.messages w))
]
