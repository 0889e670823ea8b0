-- ===== src/Transport/Loop/Delivered.antt =====
-- What the session hears of its transport.
use devicekit.Prelude.{ℕ, Bool, true, false, none, some, List, [], ◌∷◌}
use devicekit.Prelude.Result.{ok, err}
use devicekit.Protocol.{Bytes}
use devicekit.Client.State.{ClientEvent, transport_recv, transport_close}
use devicekit.Transport.{Writer, Pushed, push_bytes_to_socket}
use devicekit.Transport.Loop.{
  ReadAnswer, read, blocked, failed, interrupted, socket_read, pull_bytes_from_socket, Tick,
  with_messages, Run, closed, pulled, pushed, transport_loop,
}

-- Bytes that are not empty, one piece after the other, and then perhaps the end of the transport.
pub data Delivers {V : Type 0} : List (ClientEvent V) → Type 0 where
  running : Delivers []
  ended : Delivers (transport_close ∷ [])
  piece :
      {events : List (ClientEvent V)} (b : ℕ) (bytes : Bytes)
      → Delivers events
      → Delivers (transport_recv (b ∷ bytes) ∷ events)

pulled-Delivers :
    {V : Type 0} (receives : Bool) (answer : ReadAnswer) (w : Writer) (next : Writer → Run V)
    → Delivers (next w).1
    → Delivers (pulled w next (pull_bytes_from_socket receives answer)).1
unfolding pull_bytes_from_socket socket_read
pulled-Delivers receives (read []) w next h = ended
pulled-Delivers true (read (b ∷ bytes)) w next h = piece b bytes h
pulled-Delivers false (read (b ∷ bytes)) w next h = ended
pulled-Delivers receives blocked w next h = h
pulled-Delivers receives failed w next h = ended
pulled-Delivers receives (interrupted answer) w next h = pulled-Delivers receives answer w next h

pushed-Delivers :
    {V : Type 0} (tick : Tick) (next : Writer → Run V) (p : Pushed)
    → ((w : Writer) → Delivers (next w).1)
    → Delivers (pushed tick next p).1
pushed-Delivers tick next (w, none) h = running
pushed-Delivers tick next (w, some (err e)) h = ended
pushed-Delivers tick next (w, some (ok u)) h =
    pulled-Delivers tick.receives tick.answer w next (h w)

flagged-Delivers :
    {V : Type 0} (flag : Bool) (w : Writer) (r : Run V)
    → Delivers r.1
    → Delivers (elim flag as (λ _. Run V) [ true ↦ closed w | false ↦ r ]).1
flagged-Delivers true w r h = ended
flagged-Delivers false w r h = h

-- The session is sent the bytes in pieces that are not empty, and the end of its transport at most
-- once and behind all of them, whatever the socket does.
pub transport_loop-Delivers :
    {V : Type 0} (ticks : List Tick) (w : Writer) → Delivers (transport_loop {V = V} ticks w).1
unfolding transport_loop
transport_loop-Delivers [] w = running
transport_loop-Delivers (tick ∷ ticks) w =
    flagged-Delivers tick.shutdown_flag (with_messages tick.messages w)
      (pushed tick (λ w'. transport_loop ticks w')
        (push_bytes_to_socket tick.rounds tick.flush_fails tick.fuel
          (with_messages tick.messages w)))
      (pushed-Delivers tick (λ w'. transport_loop ticks w') _
        (λ w'. transport_loop-Delivers ticks w'))
