-- ===== src/Session.antt =====
-- `MoonlightClient` of device-agent/src/moonlight_codec.rs: the object that keeps a session with
-- the server alive and starts it again. Here are a session from its beginning to its end, and the
-- loop over sessions.
pub mod Messages
pub mod State
pub mod Timer
pub mod Watchdog
pub mod Backoff
pub mod Shutdown
use devicekit.Prelude.{
  ℕ, zero, suc, Bool, true, false, not, Option, none, some, List, [], ◌∷◌, ◌++◌, map, ◌==◌,
  if◌then◌else◌,
}
use devicekit.Prelude.Text.{Str, chars}
use devicekit.Prelude.Result.{Result, ok, err}
use devicekit.Outside.{Outside}
use devicekit.Codec.{Deku}
use devicekit.Protocol.{UnauthorizedError, ConnectFailedError}
use devicekit.Response.{DisconnectedReason}
use devicekit.Client.Txns.{Chan}
use devicekit.Client.State.{
  ReturnChanResult, failure, ClientCmd, send_pulse, mailbox_next, mail_op, ClientEvent,
  transport_close, cmd, ClientLogic, Fault, write_bytes,
}
use devicekit.Client.Events.{wait_for_authentication, start_loop}
use devicekit.Client.Start
use devicekit.Session.Messages.{unauthorized_message, connect_failed_message, disconnected_message}
use State.{
  ConnectMode, Mailbox, MoonlightClient, new, Status, unwrap_or_zero, down, status_when_down,
  status, next_interval, backoff, Disconnected, is_unauthorized, end_session, close_mailbox, stop,
  chan_of, refused, send_to, send_cmd, prod, local,
}

-- What a session meets: whether the transport opens, the events of its mailbox with the time at
-- which each is handled, and whether the timer has set the session's shutdown flag by a time.
pub record Encounter (V : Type 0) : Type 0 where
  pub opens : Bool
  pub events : List (ℕ × ClientEvent V)
  pub closing : ℕ → Bool

pub data SessionFault : Type 0 where
  setup : Start.SetupError → SessionFault
  panicked : SessionFault

abbrev is_prod : ConnectMode → Bool
is_prod prod = true
is_prod (local port) = false

module _ (o : Outside) (deku : Deku) where
  abbrev Ended : Type 0
  Ended = MoonlightClient o.Value × Result DisconnectedReason SessionFault

  abbrev loop_result :
      MoonlightClient o.Value → ClientLogic o.Value × Result DisconnectedReason Fault → Ended
  loop_result c (logic, ok reason) = (c, ok reason)
  loop_result c (logic, err fault) = (c, err panicked)

  abbrev established : MoonlightClient o.Value → MoonlightClient o.Value
  established c = record c { authenticated = true; reconnect_in = none; disconnected_reason = none }

  abbrev with_flags :
      (ℕ → Bool) → List (ℕ × ClientEvent o.Value) → List (Bool × ℕ × ClientEvent o.Value)
  with_flags closing [] = []
  with_flags closing ((now, event) ∷ events) = (closing now, now, event) ∷ with_flags closing events

  abbrev wait_result :
      Encounter o.Value
      → MoonlightClient o.Value
      → ClientLogic o.Value
        × Result (Option DisconnectedReason × List (ℕ × ClientEvent o.Value)) Fault
      → Ended
  wait_result e c (logic, ok (some reason, events)) = (c, ok reason)
  wait_result e c (logic, ok (none, events)) =
      loop_result (established c) (start_loop o deku (with_flags e.closing events) logic)
  wait_result e c (logic, err fault) = (c, err panicked)

  abbrev run_session :
      Encounter o.Value
      → MoonlightClient o.Value
      → Result (ClientLogic o.Value) Start.SetupError
      → Ended
  run_session e c (err failed) = (c, err (setup failed))
  run_session e c (ok logic) =
      if e.opens
      then wait_result e (record c { mailbox_chan = some (record { receives = true; sent = [] }) })
          (wait_for_authentication o deku e.events logic)
      else (c, ok DisconnectedReason.force_close_socket)

  unfoldable pub session_lifecycle : Encounter o.Value → MoonlightClient o.Value → Ended
  session_lifecycle e c =
      run_session e c
        (Start.new o deku c.fleet_id c.device_id c.device_secret (is_prod c.connect_mode))

  -- Another thread may have called `stop` when a session has ended.
  abbrev stopped_by : Bool → MoonlightClient o.Value → MoonlightClient o.Value
  stopped_by true c = record c { shutdown_flag = true }
  stopped_by false c = c

  abbrev Run : Type 0
  Run = MoonlightClient o.Value × List Disconnected × Option SessionFault

  abbrev announced : Disconnected → Run → Run
  announced d (c, ds, f) = (c, d ∷ ds, f)

  abbrev after_session : Bool → Ended → (MoonlightClient o.Value → Run) → Run
  after_session stop (c, err fault) next = (c, [], some fault)
  after_session stop (c, ok reason) next =
      let (c', d) = end_session reason (stopped_by stop c) in announced d (next c')

  -- The loop of `start` over the sessions that it meets, each with whether the client is stopped
  -- before the session ends: the notifications, and the failure with which it returns.
  unfoldable pub start : List (Encounter o.Value × Bool) → MoonlightClient o.Value → Run
  start [] c = (c, [], none)
  start ((e, stop) ∷ encounters) c = elim c.shutdown_flag [
    | true ↦ (c, [], none)
    | false ↦ after_session stop (session_lifecycle e c) (start encounters)
  ]
