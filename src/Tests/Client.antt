-- ===== src/Tests/Client.antt =====
-- The client's handlers at concrete states.
use devicekit.Prelude.{ℕ, ◌+◌, ◌≡◌, refl, ◌⊎◌, ◌↔◌, Bool, true, false, some, List, [], ◌∷◌, arith}
use devicekit.Prelude.Result.{err}
use devicekit.Protocol.{Packet, MailAckType}
use devicekit.Codec
use devicekit.Codec.{layout}
use devicekit.Response.{handle_packet}
use devicekit.Client.Txns.{get}
use devicekit.Client.State.{
  ClientCmd, mailbox_next, ClientEvent, heartbeat_tick, transport_recv, cmd, ClientLogic, panic,
}
use devicekit.Client.Responses.{handle_server_resp}
use devicekit.Client.Events.{process_client_event}
use devicekit.Client.Owed.{owed}
use devicekit.Client.Conservation.{asked, process_client_event-owed}
use devicekit.Client.Pending.{Registered, Exhausted, push_txn_outcome}
use devicekit.Client.Waiting.{process_client_event-waiting}
use devicekit.Client.Panics.{connected_panics}
use devicekit.Tests.Sample.{sample, sample_creds}

-- A session that has asked for transaction 6 on channel 4.
abbrev session : ClientLogic sample.Value
session = record {
  codec = record { buffer = [] };
  next_txn_id = 7;
  pending_txns = (6, (1_000, 4)) ∷ [];
  creds = sample_creds;
  connect_packet_bytes = [];
  authenticated = true;
  transport_open = true;
  written = [];
  notified = [];
  pinged = 0;
  replied = [];
}

abbrev next_cmd : ClientCmd sample.Value
next_cmd = mailbox_next false 4

-- The answer of the server, that the pulse of transaction 6 has arrived.
abbrev answer : ClientEvent sample.Value
answer = transport_recv (11 ∷ 1 ∷ 0 ∷ 0 ∷ 0 ∷ 0 ∷ 0 ∷ 0 ∷ 0 ∷ 6 ∷ [])

process_client_event-owed_example :
    owed 4 (process_client_event sample layout 2_000 answer session).0
    ≡ asked 4 answer + owed 4 session
process_client_event-owed_example = process_client_event-owed sample layout 2_000 answer session 4

push_txn_outcome_example : Registered 2_000 4 session ⊎ Exhausted 2_000 4 session
push_txn_outcome_example = push_txn_outcome 2_000 4 session (omega arith)

-- Transaction 6 waits since 1000, and the same id is asked for as a mail's.
first_waits : get 6 session.pending_txns ≡ some (1_000, 4)
unfolding get
first_waits = refl

process_client_event-waiting_example :
    get 6
      (process_client_event sample layout 2_000
        (ClientEvent.cmd (ClientCmd.mail_op MailAckType.ack 6 9))
        session).0.pending_txns
    ≡ some (1_000, 4)
process_client_event-waiting_example =
    process_client_event-waiting sample layout 2_000 6 (1_000, 4)
      (ClientCmd.mail_op MailAckType.ack 6 9) session first_waits

abbrev connected : Packet
connected = Packet.connected true false

connected_panics_example :
    ((handle_server_resp (handle_packet sample connected) session).1 ≡ err panic)
    ↔ ((m : Bool) × (k : Bool) × (connected ≡ Packet.connected m k))
connected_panics_example = connected_panics sample session connected

abbrev early : List (ℕ × ClientEvent sample.Value)
early = (10, cmd next_cmd) ∷ (20, heartbeat_tick) ∷ []
