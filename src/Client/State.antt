-- ===== src/Client/State.antt =====
-- The fields of `ClientLogic`, the messages on its channels, and the monad in which its methods
-- are written: they change the state, and end in a value, an error or a panic.
use devicekit.Prelude.{ℕ, ◌+◌, Bool, true, false, Option, List, [], ◌∷◌, ◌++◌}
use devicekit.Prelude.Text.{Str}
use devicekit.Prelude.Result.{Result, ok, err}
use devicekit.Protocol.{Bytes, PulseType, MailAckType}
use devicekit.Codec.{Codec}
use devicekit.Creds.{Creds}
use devicekit.Response.{Mail}
use devicekit.Client.Txns.{Chan, Txns}

pub data ReturnChanResult (V : Type 0) : Type 0 where
  success : ReturnChanResult V
  failure : Str → ReturnChanResult V
  timeout : ReturnChanResult V
  mail : Option (Mail V) → ReturnChanResult V
  mail_ack_successful : Bool → ReturnChanResult V

pub data ClientCmd (V : Type 0) : Type 0 where
  send_pulse : PulseType → (name : Str) (payload : Option V) → Chan → ClientCmd V
  mailbox_next : (header_only : Bool) → Chan → ClientCmd V
  mail_op : MailAckType → (pulse_id : ℕ) → Chan → ClientCmd V

pub data ClientEvent (V : Type 0) : Type 0 where
  refresh heartbeat_tick transport_close : ClientEvent V
  transport_recv : Bytes → ClientEvent V
  cmd : ClientCmd V → ClientEvent V

-- What is sent on a channel is kept as a list, oldest first. `transport_open` says that the
-- receiver of `transport_write_chan` is alive: only then does a send to it succeed. Sends on the
-- other channels are attempts whose result the source ignores.
pub record ClientLogic (V : Type 0) : Type 0 where
  pub codec : Codec
  pub next_txn_id : ℕ
  pub pending_txns : Txns
  pub creds : Creds
  pub connect_packet_bytes : Bytes
  pub authenticated : Bool
  pub transport_open : Bool
  pub written : List Bytes
  pub notified : List (Str × Str)
  pub pinged : ℕ
  pub replied : List (Chan × ReturnChanResult V)

pub data Fault : Type 0 where
  error panic : Fault

abbrev pub M : Type 0 → Type 0 → Type 0
M V A = ClientLogic V → ClientLogic V × Result A Fault

abbrev pub and_then :
    {V A B : Type 0} → ClientLogic V × Result A Fault → (A → M V B) → ClientLogic V × Result B Fault
and_then (s, ok a) f = f a s
and_then (s, err e) f = (s, err e)

infixl 5 ◌>>=◌ ◌>>◌
abbrev pub ◌>>=◌ : {V A B : Type 0} → M V A → (A → M V B) → M V B
◌>>=◌ m f s = and_then (m s) f

abbrev pub ◌>>◌ : {V B : Type 0} → M V (Unit {0}) → M V B → M V B
m >> k = m >>= λ _. k

abbrev pub pure : {V A : Type 0} → A → M V A
pure a s = (s, ok a)

abbrev pub fail : {V A : Type 0} → Fault → M V A
fail e s = (s, err e)

-- `let _ = chan.send(…)`
abbrev pub reply : {V : Type 0} → Chan → ReturnChanResult V → M V (Unit {0})
reply chan r s = (record s { replied = s.replied ++ ((chan, r) ∷ []) }, ok tt)

abbrev pub notify : {V : Type 0} → Str → Str → M V (Unit {0})
notify event payload s = (record s { notified = s.notified ++ ((event, payload) ∷ []) }, ok tt)

abbrev pub ping : {V : Type 0} → M V (Unit {0})
ping s = (record s { pinged = s.pinged + 1 }, ok tt)

abbrev pub write_if_open : {V : Type 0} → Bool → Bytes → M V (Unit {0})
write_if_open true bytes s = (record s { written = s.written ++ (bytes ∷ []) }, ok tt)
write_if_open false bytes s = (s, err error)

-- `transport_write_chan.send(bytes)`
unfoldable pub write_bytes : {V : Type 0} → Bytes → M V (Unit {0})
write_bytes bytes s = write_if_open s.transport_open bytes s
