-- ===== src/Client/Conservation.antt =====
-- The events of the client keep the account of `Owed`: only a command adds to what a channel is
-- owed, whatever the server sends.
use devicekit.Prelude.{ℕ, ◌+◌, ◌≡◌, refl, ◌∙◌, Option, none, some, List, [], ◌∷◌, ◌==◌, arith}
use devicekit.Prelude.Result.{Result, ok, err}
use devicekit.Outside.{Outside}
use devicekit.Protocol.{Bytes, Packet}
use devicekit.Protocol.Build
use devicekit.Codec.{Deku, Codec, CodecError, encode, feed, process_packets}
use devicekit.Response.{ServerResp, DisconnectedReason, handle_packet}
use devicekit.Client.Txns.{Chan, one_if}
use devicekit.Client.State.{
  ReturnChanResult, success, failure, mail, mail_ack_successful, timeout, pure, ClientEvent,
  refresh, heartbeat_tick, transport_close, transport_recv, cmd, ClientLogic, Fault, error, panic,
  M, write_bytes,
}
use devicekit.Client.Messages.{next_mail_failed_message}
use devicekit.Client.Commands.{handle_cmd}
use devicekit.Client.Responses.{
  going_on, pulse_value, ack_failure, resolve, handle_server_resp, expire, timed_out,
}
use devicekit.Client.Responses
use devicekit.Client.Events.{
  force_close, or_close_in, or_close, on_packets, unless_closed, handle_packets, receive_bytes,
  unwrap, process_client_event,
}
use devicekit.Client.Owed.{
  owed, Owes, and_then-owed, bind-Owes, resolve-Owes, write_bytes-Owes, chan_of, handle_cmd-owed,
}

module _ {V : Type 0} (c : Chan) where
  going_on-Owes : (m : M V (Unit {0})) → Owes c 0 m → Owes c 0 (going_on m)
  going_on-Owes m h s =
      and_then-owed c (owed c s) 0 (m s) _ (h s ∙ omega arith) (λ x _. omega arith) (λ x _. refl)

  settle-Owes : (key : ℕ) (value : ReturnChanResult V) → Owes c 0 (going_on (resolve key value))
  settle-Owes key value = going_on-Owes (resolve key value) (resolve-Owes c key value)

  handle_server_resp-Owes : (r : ServerResp V) → Owes c 0 (handle_server_resp r)
  unfolding handle_server_resp
  handle_server_resp-Owes ServerResp.force_close_socket s = omega arith
  handle_server_resp-Owes (ServerResp.disconnected reason) s = omega arith
  handle_server_resp-Owes (ServerResp.connected mail_available) s = omega arith
  handle_server_resp-Owes ServerResp.heartbeat_ack s = omega arith
  handle_server_resp-Owes ServerResp.new_mail s = omega arith
  handle_server_resp-Owes (ServerResp.pulse_resp (ok txn_id)) s = settle-Owes txn_id success s
  handle_server_resp-Owes (ServerResp.pulse_resp (err (txn_id, reason))) s =
      settle-Owes txn_id (pulse_value reason) s
  handle_server_resp-Owes (ServerResp.ack_mail_resp (ok (id, more))) s =
      settle-Owes id (mail_ack_successful more) s
  handle_server_resp-Owes (ServerResp.ack_mail_resp (err (id, kind))) s =
      settle-Owes id (ack_failure id kind) s
  handle_server_resp-Owes (ServerResp.mailbox_next (ok (txn_id, found))) s =
      settle-Owes txn_id (mail found) s
  handle_server_resp-Owes (ServerResp.mailbox_next (err txn_id)) s =
      settle-Owes txn_id (failure next_mail_failed_message) s

  expire-Owes : (ids : List ℕ) → Owes {V = V} c 0 (expire ids)
  unfolding expire
  expire-Owes [] s = omega arith
  expire-Owes (id ∷ ids) s =
      bind-Owes c 0 0 0 (resolve id timeout) (λ _. expire ids) (omega arith)
        (resolve-Owes c id timeout) (λ _. expire-Owes ids) (λ t x e. refl) s

  refresh-Owes : (now : ℕ) → Owes {V = V} c 0 (Responses.refresh now)
  unfolding Responses.refresh
  refresh-Owes now s = expire-Owes (timed_out now s.pending_txns) s

  -- How much an event adds to what the channel is owed.
  abbrev pub asked : ClientEvent V → ℕ
  asked (cmd x) = one_if (chan_of x == c)
  asked _ = 0

  or_close_in-owed :
      {A B : Type 0} (n : ℕ) (closed : B) (r : ClientLogic V × Result A Fault) (next : M V B)
      → owed c r.0 ≡ n
      → Owes c 0 next
      → owed c (or_close_in closed r next).0 ≡ n
  or_close_in-owed n closed (s, ok a) next h k = k s ∙ omega arith
  or_close_in-owed n closed (s, err error) next h k = h
  or_close_in-owed n closed (s, err panic) next h k = h

  unwrap-Owes : {A E : Type 0} (r : Result A E) → Owes {V = V} c 0 (unwrap r)
  unwrap-Owes (ok a) s = omega arith
  unwrap-Owes (err e) s = omega arith

module _ (o : Outside) (deku : Deku) where
  unless_closed-Owes :
      (c : Chan) (closed : Option DisconnectedReason) (rest : M o.Value (Option DisconnectedReason))
      → Owes c 0 rest
      → Owes c 0 (unless_closed o deku closed rest)
  unless_closed-Owes c (some reason) rest h s = omega arith
  unless_closed-Owes c none rest h s = h s

  handle_packets-Owes : (c : Chan) (ps : List Packet) → Owes c 0 (handle_packets o deku ps)
  unfolding handle_packets
  handle_packets-Owes c [] s = omega arith
  handle_packets-Owes c (p ∷ ps) s =
      bind-Owes c 0 0 0 (handle_server_resp (handle_packet o p))
        (λ closed. unless_closed o deku closed (handle_packets o deku ps)) (omega arith)
        (handle_server_resp-Owes c (handle_packet o p))
        (λ closed.
          unless_closed-Owes c closed (handle_packets o deku ps) (handle_packets-Owes c ps))
        (λ t x e. refl) s

  on_packets-Owes :
      {B : Type 0} (c n : ℕ) (closed : B) (next : List Packet → M o.Value B)
      (r : Codec × Result (List Packet) CodecError) (s : ClientLogic o.Value)
      → ((ps : List Packet) → Owes c 0 (next ps))
      → owed c (on_packets closed next r s).0 ≡ owed c s
  on_packets-Owes c n closed next (codec, ok ps) s h =
      h ps (record s { codec = codec }) ∙ omega arith
  on_packets-Owes c n closed next (codec, err e) s h = refl

  receive_bytes-Owes :
      {B : Type 0} (c : Chan) (closed : B) (next : List Packet → M o.Value B) (bytes : Bytes)
      → ((ps : List Packet) → Owes c 0 (next ps))
      → Owes c 0 (receive_bytes o deku closed next bytes)
  unfolding receive_bytes
  receive_bytes-Owes c closed next bytes h s =
      on_packets-Owes c 0 closed next (process_packets deku (feed s.codec bytes)) s h ∙ omega arith

  -- How often a channel waits for an answer and how often it has had one, taken together, are changed
  -- by an event only if it is a command of that channel, which adds one: whatever the server sends
  -- and whenever the connection breaks, nobody is answered more often than they asked, and who has
  -- not been answered is still waiting.
  pub process_client_event-owed :
      (now : ℕ) (event : ClientEvent o.Value) (s : ClientLogic o.Value) (c : Chan)
      → owed c (process_client_event o deku now event s).0 ≡ asked c event + owed c s
  unfolding process_client_event
  process_client_event-owed now refresh s c =
      bind-Owes c 0 0 0 (Responses.refresh now) (λ _. pure none) (omega arith) (refresh-Owes c now)
        (λ x t. omega arith) (λ t x e. refl) s
  process_client_event-owed now heartbeat_tick s c =
      bind-Owes c 0 0 0 (unwrap (encode deku Build.heartbeat))
        (λ bytes. or_close force_close (write_bytes bytes) (pure none)) (omega arith)
        (unwrap-Owes c (encode deku Build.heartbeat))
        (λ bytes t.
          or_close_in-owed c (owed c t) force_close (write_bytes bytes t) (pure none)
            (write_bytes-Owes c bytes t ∙ omega arith) (λ u. omega arith)
          ∙ omega arith)
        (λ t x e. refl) s
  process_client_event-owed now (transport_recv bytes) s c =
      receive_bytes-Owes c force_close (handle_packets o deku) bytes (handle_packets-Owes c) s
  process_client_event-owed now transport_close s c = omega arith
  process_client_event-owed now (cmd x) s c =
      or_close_in-owed c (one_if (chan_of x == c) + owed c s) force_close
        (handle_cmd o deku now x s) (pure none) (handle_cmd-owed o deku now x s c)
        (λ t. omega arith)
