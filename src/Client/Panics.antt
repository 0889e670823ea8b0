-- ===== src/Client/Panics.antt =====
-- Which packets of the server reach the `unreachable!()` of `handle_server_resp`.
use devicekit.Prelude.{
  ℕ, zero, suc, ◌≡◌, refl, ap, ◌∙◌, ◌↔◌, inl, inr, Bool, true, false, none, List, ◌∷◌, Option-cases,
  arith,
}
use devicekit.Prelude.Result.{ok, err}
use devicekit.Outside.{Outside}
use devicekit.Protocol.{Bytes, Packet}
use devicekit.Codec.{Deku, Codec, feed, process_packets}
use devicekit.Response.{ServerResp, handle_packet, handle_mail}
use devicekit.Client.Txns.{get}
use devicekit.Client.State.{
  ReturnChanResult, success, failure, mail, mail_ack_successful, transport_recv, ClientLogic, panic,
}
use devicekit.Client.Messages.{next_mail_failed_message}
use devicekit.Client.Responses.{
  answer, pulse_value, ack_failure, resolve, going_on, handle_server_resp,
}
use devicekit.Client.Events.{
  force_close, on_packets, handle_packets, receive_bytes, process_client_event,
}

module _ (o : Outside) (s : ClientLogic o.Value) where
  settle-going_on :
      (id : ℕ) (value : ReturnChanResult o.Value) → (going_on (resolve id value) s).1 ≡ ok none
  unfolding resolve
  settle-going_on id value = elim (Option-cases (get id s.pending_txns)) [
    | inl e ↦ rw (e, answer) refl
    | inr (e, x) ↦ rw (x, answer) refl
  ]

  -- Only an answer to `connect` makes the handler of answers panic.
  handle_server_resp-panic :
      (r : ServerResp o.Value)
      → (handle_server_resp r s).1 ≡ err panic
      → (m : Bool) × (r ≡ ServerResp.connected m)
  unfolding handle_server_resp
  handle_server_resp-panic ServerResp.force_close_socket e = cc
  handle_server_resp-panic (ServerResp.disconnected reason) e = cc
  handle_server_resp-panic (ServerResp.connected m) e = (m, refl)
  handle_server_resp-panic ServerResp.heartbeat_ack e = cc
  handle_server_resp-panic ServerResp.new_mail e = cc
  handle_server_resp-panic (ServerResp.pulse_resp (ok id)) e = cc (settle-going_on id success)
  handle_server_resp-panic (ServerResp.pulse_resp (err (id, reason))) e =
      cc (settle-going_on id (pulse_value reason))
  handle_server_resp-panic (ServerResp.ack_mail_resp (ok (id, more))) e =
      cc (settle-going_on id (mail_ack_successful more))
  handle_server_resp-panic (ServerResp.ack_mail_resp (err (id, kind))) e =
      cc (settle-going_on id (ack_failure id kind))
  handle_server_resp-panic (ServerResp.mailbox_next (ok (id, found))) e =
      cc (settle-going_on id (mail found))
  handle_server_resp-panic (ServerResp.mailbox_next (err id)) e =
      cc (settle-going_on id (failure next_mail_failed_message))

  handle_packet-connected :
      (p : Packet) (m : Bool)
      → handle_packet o p ≡ ServerResp.connected m
      → (k : Bool) × (p ≡ Packet.connected m k)
  unfolding handle_packet handle_mail
  handle_packet-connected (Packet.close_connection true) m e = cc
  handle_packet-connected (Packet.close_connection false) m e = cc
  handle_packet-connected (Packet.connect a b c d f g) m e = cc
  handle_packet-connected (Packet.connected n k) m e = (k, cc)
  handle_packet-connected (Packet.unauthorized r) m e = cc
  handle_packet-connected (Packet.connect_failed r) m e = cc
  handle_packet-connected (Packet.heartbeat f) m e = cc
  handle_packet-connected (Packet.heartbeat_ack a) m e = cc
  handle_packet-connected (Packet.pulse a b c d f g) m e = cc
  handle_packet-connected (Packet.pulse_resp a b c) m e = cc
  handle_packet-connected (Packet.new_mail_event zero) m e = cc
  handle_packet-connected (Packet.new_mail_event (suc n)) m e = cc
  handle_packet-connected (Packet.mailbox_next a b) m e = cc
  handle_packet-connected (Packet.mailbox_next_resp h a t n i l x y z) m e = ground arith
  handle_packet-connected (Packet.ack_mail a b) m e = cc
  handle_packet-connected (Packet.ack_mail_resp a b c d) m e = cc

  panics :
      (m k : Bool) → (handle_server_resp (handle_packet o (Packet.connected m k)) s).1 ≡ err panic
  unfolding handle_server_resp handle_packet
  panics m k = refl

  -- Once the session is established, a packet of the server makes the client panic exactly if it is
  -- another `Connected`.
  pub connected_panics :
      (p : Packet)
      → ((handle_server_resp (handle_packet o p) s).1 ≡ err panic)
        ↔ ((m : Bool) × (k : Bool) × (p ≡ Packet.connected m k))
  connected_panics p = (forth, back)
    where
      forth :
          (handle_server_resp (handle_packet o p) s).1 ≡ err panic
          → (m : Bool) × (k : Bool) × (p ≡ Packet.connected m k)
      forth e =
          let (m, r) = handle_server_resp-panic (handle_packet o p) e in
          let (k, q) = handle_packet-connected p m r in (m, k, q)

      back :
          ((m : Bool) × (k : Bool) × (p ≡ Packet.connected m k))
          → (handle_server_resp (handle_packet o p) s).1 ≡ err panic
      back (m, k, e) = ap (λ q. (handle_server_resp (handle_packet o q) s).1) e ∙ panics m k

module _ (o : Outside) (deku : Deku) where
  -- Bytes that carry another `Connected` as their first whole packet make the event handler panic,
  -- whatever follows it.
  pub connected_again :
      (now : ℕ) (bytes : Bytes) (s : ClientLogic o.Value) (c : Codec) (m k : Bool)
      (ps : List Packet)
      → process_packets deku (feed s.codec bytes) ≡ (c, ok (Packet.connected m k ∷ ps))
      → (process_client_event o deku now (transport_recv bytes) s).1 ≡ err panic
  unfolding process_client_event receive_bytes handle_packets handle_server_resp handle_packet
  connected_again now bytes s c m k ps e =
      ap (λ r. (on_packets force_close (handle_packets o deku) r s).1) e
