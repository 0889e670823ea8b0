-- ===== src/Tests/Events.antt =====
-- A stream of events, and the transport's loop, at concrete inputs.
use mathlib.Core.List.{flatten}
use devicekit.Prelude.{ℕ, ◌≡◌, refl, true, false, some, List, [], ◌∷◌, ◌++◌, arith}
use devicekit.Prelude.Text.{chars}
use devicekit.Prelude.Result.{ok}
use devicekit.Protocol.{Packet}
use devicekit.Protocol.Layout.{word, to_bytes}
use devicekit.Codec.{layout, new, encode}
use devicekit.Codec.Chunks.{receive, encode_all}
use devicekit.NotifyCast.{Event, subscribes, notifies, find, run, subscribe}
use devicekit.NotifyCast as NotifyCast
use devicekit.Http.Events.{Stream, split_lines, handle_event_stream}
use devicekit.Http.Events.Text.{not_blank}
use devicekit.Http.Events.Listener.{Gone, handle_event_stream-unsubscribes}
use devicekit.Transport.{fetch, fetch_from, advance, push_loop, push_bytes_to_socket}
use devicekit.Transport.Loop.{Tick, read, transport_loop}
use devicekit.Transport.Loop.EndToEnd.{AllHonest, messages_of, idle, transport_loop-receive}
use devicekit.Tests.Transport.{rounds, rounds-IsHonest}

-- Its data are two lines.
two_lines : not_blank (split_lines (chars "a\n\nb")) ≡ chars "a" ∷ chars "b" ∷ []
unfolding split_lines
two_lines = refl

abbrev stream : Stream
stream = record {
  timeout_set = true;
  connected = true;
  still_connected = false;
  first_goes_out = true;
  second_goes_out = true;
  start = 0;
  rounds =
      record {
        shutdown_flag = false;
        received = some (chars "mail", []);
        now = 400;
        unix_ms = 0;
        goes_out = false;
      }
      ∷ [];
}

abbrev earlier : List Event
earlier = subscribes ∷ []

abbrev meanwhile : List Event
meanwhile = subscribes ∷ notifies (chars "mail", []) ∷ []

handle_event_stream-unsubscribes_example :
    Gone
      (subscribe (run earlier NotifyCast.new)).1
      (handle_event_stream stream (run meanwhile) (run earlier NotifyCast.new)).1
handle_event_stream-unsubscribes_example =
    handle_event_stream-unsubscribes stream earlier meanwhile refl

-- Two packets are given to the transport, and the session stops behind the first.
abbrev ticks : List Tick
ticks =
    record {
      messages = (9 ∷ 1 ∷ []) ∷ (21 ∷ 0 ∷ 0 ∷ 0 ∷ 0 ∷ 0 ∷ 0 ∷ 0 ∷ 0 ∷ 5 ∷ []) ∷ [];
      shutdown_flag = false;
      rounds = rounds;
      flush_fails = false;
      fuel = 2;
      answer = read (9 ∷ []);
      receives = true;
    }
    ∷ []

abbrev packets : List Packet
packets = Packet.heartbeat_ack true ∷ Packet.mailbox_next false 5 ∷ []

ticks-AllHonest : AllHonest ticks
ticks-AllHonest = (rounds-IsHonest, tt)

packets_encoded : encode_all layout packets ≡ ok (messages_of ticks)
unfolding encode_all encode to_bytes word flatten
packets_encoded = refl

sent_bytes : flatten ((9 ∷ 1 ∷ 21 ∷ 0 ∷ 0 ∷ []) ∷ []) ≡ (transport_loop {V = ℕ} ticks idle).0.sent
unfolding flatten transport_loop push_bytes_to_socket push_loop fetch fetch_from advance
sent_bytes = refl

transport_loop-receive_example :
    (qs later : List Packet) × (packets ≡ qs ++ later)
    × ((receive layout new ((9 ∷ 1 ∷ 21 ∷ 0 ∷ 0 ∷ []) ∷ [])).1 ≡ ok qs)
transport_loop-receive_example =
    transport_loop-receive layout ℕ ticks packets ((9 ∷ 1 ∷ 21 ∷ 0 ∷ 0 ∷ []) ∷ []) ticks-AllHonest
      (tt, (omega arith, tt)) packets_encoded sent_bytes
