-- ===== src/Client/Events.antt =====
-- Events: `process_client_event`, `start_loop` and `wait_for_authentication`.
use devicekit.Prelude.{ℕ, Bool, true, false, Option, none, some, List, [], ◌∷◌, ◌++◌}
use devicekit.Prelude.Text.{chars}
use devicekit.Prelude.Result.{Result, ok, err}
use devicekit.Outside.{Outside}
use devicekit.Protocol.{Bytes, Packet}
use devicekit.Protocol.Build
use devicekit.Codec.{Deku, Codec, CodecError, encode, feed, process_packets}
use devicekit.Response.{DisconnectedReason, ServerResp, handle_packet}
use devicekit.Client.State.{
  ClientCmd, ClientEvent, refresh, heartbeat_tick, transport_close, transport_recv, cmd,
  ClientLogic, Fault, error, panic, M, ◌>>=◌, ◌>>◌, pure, fail, notify, write_bytes,
}
use devicekit.Client.Commands.{handle_cmd}
use devicekit.Client.Responses.{handle_server_resp}
use devicekit.Client.Responses

abbrev pub force_close : Option DisconnectedReason
force_close = some DisconnectedReason.force_close_socket

-- `is_err()` on a call that may also panic: `closed` is what an error gives.
abbrev pub or_close_in :
    {V A B : Type 0} → B → ClientLogic V × Result A Fault → M V B → ClientLogic V × Result B Fault
or_close_in closed (s, ok a) next = next s
or_close_in closed (s, err error) next = (s, ok closed)
or_close_in closed (s, err panic) next = (s, err panic)

abbrev pub or_close : {V A B : Type 0} → B → M V A → M V B → M V B
or_close closed m next s = or_close_in closed (m s) next

abbrev pub on_packets :
    {V B : Type 0} → B → (List Packet → M V B) → Codec × Result (List Packet) CodecError → M V B
on_packets closed next (codec, ok packets) s = next packets (record s { codec = codec })
on_packets closed next (codec, err e) s = (record s { codec = codec }, ok closed)

-- `unwrap()` on an encoded packet.
abbrev pub unwrap : {V A E : Type 0} → Result A E → M V A
unwrap (ok a) = pure a
unwrap (err e) = fail panic

module _ (o : Outside) (deku : Deku) where
  -- What follows one answer of `handle_server_resp` in the loop over packets.
  abbrev pub unless_closed :
      Option DisconnectedReason
      → M o.Value (Option DisconnectedReason)
      → M o.Value (Option DisconnectedReason)
  unless_closed (some reason) rest = pure (some reason)
  unless_closed none rest = rest

  -- `for packet in packets`
  unfoldable pub handle_packets : List Packet → M o.Value (Option DisconnectedReason)
  handle_packets [] = pure none
  handle_packets (packet ∷ packets) = do
    closed ← handle_server_resp (handle_packet o packet)
    unless_closed closed (handle_packets packets)

  -- `self.codec.feed(&bytes)`, then `process_packets`: `closed` is what a failure gives.
  unfoldable pub receive_bytes :
      {B : Type 0} → B → (List Packet → M o.Value B) → Bytes → M o.Value B
  receive_bytes closed next bytes s =
      on_packets closed next (process_packets deku (feed s.codec bytes)) s

  unfoldable pub process_client_event :
      ℕ → ClientEvent o.Value → M o.Value (Option DisconnectedReason)
  process_client_event now refresh = do Responses.refresh now; pure none
  process_client_event now heartbeat_tick = do
    bytes ← unwrap (encode deku Build.heartbeat)
    or_close force_close (write_bytes bytes) (pure none)
  process_client_event now (transport_recv bytes) = receive_bytes force_close handle_packets bytes
  process_client_event now transport_close = pure force_close
  process_client_event now (cmd c) = or_close force_close (handle_cmd o deku now c) (pure none)

  -- A round of `start_loop` reads the shutdown flag, then an event with the time at which it is
  -- handled. The list ends where every sender of the channel is gone.
  unfoldable pub start_loop : List (Bool × ℕ × ClientEvent o.Value) → M o.Value DisconnectedReason
  start_loop [] = pure DisconnectedReason.force_close_socket
  start_loop ((true, now, event) ∷ events) = pure DisconnectedReason.force_close_socket
  start_loop ((false, now, event) ∷ events) = do
    closed ← process_client_event now event
    elim closed [ none ↦ start_loop events | some reason ↦ pure reason ]

  unfoldable pub replay : ℕ → List (ClientCmd o.Value) → M o.Value (Option DisconnectedReason)
  replay now [] = pure none
  replay now (c ∷ cmds) = or_close force_close (handle_cmd o deku now c) (replay now cmds)

  abbrev authenticate : M o.Value (Unit {0})
  authenticate s = (record s { authenticated = true }, ok tt)

  abbrev announce : Bool → M o.Value (Unit {0})
  announce true = do notify (chars "connected") []; notify (chars "new_mail") []
  announce false = notify (chars "connected") []

  -- The first packet of the connection decides; `none` means that it is established.
  unfoldable pub handle_first :
      ℕ
      → List (ClientCmd o.Value)
      → ServerResp o.Value
      → List Packet
      → M o.Value (Option DisconnectedReason)
  handle_first now buffered (ServerResp.connected mail_available) packets = do
    authenticate
    announce mail_available
    closed ← handle_packets packets
    unless_closed closed (replay now buffered)
  handle_first now buffered (ServerResp.disconnected reason) packets = pure (some reason)
  handle_first now buffered _ packets = pure force_close

  -- How the wait ends, and the events that it has left in the mailbox.
  abbrev pub Waited : Type 0
  Waited = Option DisconnectedReason × List (ℕ × ClientEvent o.Value)

  -- The loop of `wait_for_authentication_with_timeout`, with the commands that it has buffered. The
  -- list ends where `recv_timeout` fails.
  unfoldable pub wait_loop :
      List (ClientCmd o.Value) → List (ℕ × ClientEvent o.Value) → M o.Value Waited
  wait_loop buffered [] = pure (force_close, [])
  wait_loop buffered ((now, transport_recv bytes) ∷ events) =
      receive_bytes (force_close, events)
        (λ packets. elim packets [
          | [] ↦ wait_loop buffered events
          | packet ∷ more ↦ do
            ended ← handle_first now buffered (handle_packet o packet) more
            pure (ended, events)
        ])
        bytes
  wait_loop buffered ((now, cmd c) ∷ events) = wait_loop (buffered ++ (c ∷ [])) events
  wait_loop buffered ((now, refresh) ∷ events) = wait_loop buffered events
  wait_loop buffered ((now, heartbeat_tick) ∷ events) = wait_loop buffered events
  wait_loop buffered ((now, transport_close) ∷ events) = pure (force_close, events)

  unfoldable pub wait_for_authentication : List (ℕ × ClientEvent o.Value) → M o.Value Waited
  wait_for_authentication events s =
      or_close (force_close, events) (write_bytes s.connect_packet_bytes) (wait_loop [] events) s
