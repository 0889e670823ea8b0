-- ===== src/Client/Keys.antt =====
-- Every event leaves the pending transactions with distinct keys.
use devicekit.Prelude.{ℕ, subst, sym, Option, none, some, List, [], ◌∷◌}
use devicekit.Prelude.Result.{Result, ok, err}
use devicekit.Outside.{Outside}
use devicekit.Protocol.{Packet}
use devicekit.Protocol.Build
use devicekit.Codec.{Deku, Codec, CodecError, encode, feed, process_packets}
use devicekit.Response.{ServerResp, DisconnectedReason, handle_packet}
use devicekit.Client.Txns.{HasDistinctKeys, insert-HasDistinctKeys, remove-HasDistinctKeys}
use devicekit.Client.State.{
  ReturnChanResult, timeout, pure, ClientEvent, refresh, heartbeat_tick, transport_close,
  transport_recv, cmd, ClientLogic, M, write_bytes,
}
use devicekit.Client.Commands.{handle_cmd}
use devicekit.Client.Responses.{going_on, resolve, handle_server_resp, expire, timed_out}
use devicekit.Client.Responses
use devicekit.Client.Keeps as Kept
use devicekit.Client.Keeps.{
  Admits, bind-Keeps, or_close_in-Keeps, write_bytes-Keeps, handle_cmd-Keeps,
}
use devicekit.Client.Pending.{resolve-remove}
use devicekit.Client.Events.{
  force_close, or_close, on_packets, unless_closed, handle_packets, receive_bytes, unwrap,
  process_client_event,
}

abbrev pub HasKeys : {V : Type 0} → ClientLogic V → Type 0
HasKeys s = HasDistinctKeys s.pending_txns

-- Any transaction that is entered leaves them distinct, under a free id or not.
abbrev Keeps : {V A : Type 0} → M V A → Type 0
Keeps m = Kept.Keeps HasDistinctKeys m

any-Admits : Admits HasDistinctKeys
any-Admits k e m free h = insert-HasDistinctKeys k e m h

module _ {V : Type 0} where
  resolve-Keeps : (id : ℕ) (value : ReturnChanResult V) → Keeps (resolve id value)
  resolve-Keeps id value s h =
      subst HasDistinctKeys (sym (resolve-remove id value s).0)
        (remove-HasDistinctKeys id s.pending_txns h)

  unwrap-Keeps : {A E : Type 0} (r : Result A E) → Keeps {V = V} (unwrap r)
  unwrap-Keeps (ok x) s h = h
  unwrap-Keeps (err x) s h = h

  settle-Keeps : (id : ℕ) (value : ReturnChanResult V) → Keeps (going_on (resolve id value))
  settle-Keeps id value =
      bind-Keeps HasDistinctKeys (resolve id value) (λ _. pure none) (resolve-Keeps id value)
        (λ _ s h. h)

  expire-Keeps : (ids : List ℕ) → Keeps {V = V} (expire ids)
  unfolding expire
  expire-Keeps [] s h = h
  expire-Keeps (id ∷ ids) s h =
      bind-Keeps HasDistinctKeys (resolve id timeout) (λ _. expire ids) (resolve-Keeps id timeout)
        (λ _. expire-Keeps ids) s h

  refresh-Keeps : (now : ℕ) → Keeps {V = V} (Responses.refresh now)
  unfolding Responses.refresh
  refresh-Keeps now s = expire-Keeps (timed_out now s.pending_txns) s

  handle_server_resp-Keeps : (r : ServerResp V) → Keeps (handle_server_resp r)
  unfolding handle_server_resp
  handle_server_resp-Keeps ServerResp.force_close_socket s h = h
  handle_server_resp-Keeps (ServerResp.disconnected reason) s h = h
  handle_server_resp-Keeps (ServerResp.connected mail_available) s h = h
  handle_server_resp-Keeps ServerResp.heartbeat_ack s h = h
  handle_server_resp-Keeps ServerResp.new_mail s h = h
  handle_server_resp-Keeps (ServerResp.pulse_resp (ok id)) s h = settle-Keeps id _ s h
  handle_server_resp-Keeps (ServerResp.pulse_resp (err (id, reason))) s h = settle-Keeps id _ s h
  handle_server_resp-Keeps (ServerResp.ack_mail_resp (ok (id, more))) s h = settle-Keeps id _ s h
  handle_server_resp-Keeps (ServerResp.ack_mail_resp (err (id, kind))) s h = settle-Keeps id _ s h
  handle_server_resp-Keeps (ServerResp.mailbox_next (ok (id, found))) s h = settle-Keeps id _ s h
  handle_server_resp-Keeps (ServerResp.mailbox_next (err id)) s h = settle-Keeps id _ s h

module _ (o : Outside) (deku : Deku) where
  unless_closed-Keeps :
      (closed : Option DisconnectedReason) (rest : M o.Value (Option DisconnectedReason))
      → Keeps rest
      → Keeps (unless_closed o deku closed rest)
  unless_closed-Keeps (some reason) rest k s h = h
  unless_closed-Keeps none rest k s h = k s h

  handle_packets-Keeps : (ps : List Packet) → Keeps (handle_packets o deku ps)
  unfolding handle_packets
  handle_packets-Keeps [] s h = h
  handle_packets-Keeps (p ∷ ps) s h =
      bind-Keeps HasDistinctKeys (handle_server_resp (handle_packet o p))
        (λ closed. unless_closed o deku closed (handle_packets o deku ps))
        (handle_server_resp-Keeps (handle_packet o p))
        (λ closed. unless_closed-Keeps closed (handle_packets o deku ps) (handle_packets-Keeps ps))
        s h

  on_packets-Keeps :
      (closed : Option DisconnectedReason) (r : Codec × Result (List Packet) CodecError)
      → Keeps (on_packets closed (handle_packets o deku) r)
  on_packets-Keeps closed (codec, ok ps) s h =
      handle_packets-Keeps ps (record s { codec = codec }) h
  on_packets-Keeps closed (codec, err e) s h = h

  -- Whatever event is handled, the pending transactions keep distinct keys.
  pub process_client_event-HasKeys :
      (now : ℕ) (event : ClientEvent o.Value) (s : ClientLogic o.Value)
      → HasKeys s
      → HasKeys (process_client_event o deku now event s).0
  unfolding process_client_event receive_bytes
  process_client_event-HasKeys now refresh s h =
      bind-Keeps HasDistinctKeys (Responses.refresh now) (λ _. pure none) (refresh-Keeps now)
        (λ _ t w. w) s h
  process_client_event-HasKeys now heartbeat_tick s h =
      bind-Keeps HasDistinctKeys (unwrap (encode deku Build.heartbeat))
        (λ bytes. or_close force_close (write_bytes bytes) (pure none))
        (unwrap-Keeps (encode deku Build.heartbeat))
        (λ bytes t w.
          or_close_in-Keeps HasDistinctKeys force_close (write_bytes bytes t) (pure none)
            (write_bytes-Keeps HasDistinctKeys bytes t w) (λ u v. v))
        s h
  process_client_event-HasKeys now (transport_recv bytes) s h =
      on_packets-Keeps force_close (process_packets deku (feed s.codec bytes)) s h
  process_client_event-HasKeys now transport_close s h = h
  process_client_event-HasKeys now (cmd x) s h =
      or_close_in-Keeps HasDistinctKeys force_close (handle_cmd o deku now x s) (pure none)
        (handle_cmd-Keeps HasDistinctKeys any-Admits o deku now x s h) (λ t w. w)
