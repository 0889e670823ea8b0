-- ===== src/Http/Listen.antt =====
-- device-agent/src/http_server/server.rs and `Socket::handle_request` of socket.rs: the loop that
-- accepts connections on the agent's socket, and the threads that serve them.
pub mod Stopped
pub mod File
use devicekit.Prelude.{
  ℕ, zero, suc, Bool, true, false, not, ◌&&◌, Option, none, some, List, [], ◌∷◌, ◌++◌,
  if◌then◌else◌,
}
use devicekit.Prelude.Text.{Str}
use devicekit.Outside.{Outside}
use devicekit.Http.Response.{Web}
use devicekit.Http.Lines.{Source}
use devicekit.Http.Commands.{Exchange}
use devicekit.Http.Server.{SocketContext, handle_request}

-- A connection: whether its timeouts can be set, what is read from it, and what happens around the
-- request.
pub record Connection (V : Type 0) : Type 0 where
  pub timeouts_set : Bool
  pub source : Source
  pub exchange : Exchange V

pub data Accepted (V : Type 0) : Type 0 where
  connection : Connection V → Accepted V
  would_block failed : Accepted V

-- The loop with what its threads share: the connections whose threads run, what was sent on those
-- that are served, whether the file of the socket is there, and how the loop has ended, `true` for
-- `Ok`.
pub record Listening (V : Type 0) : Type 0 where
  pub ctx : SocketContext V
  pub running : List (Connection V)
  pub sent : List Str
  pub sock : Bool
  pub ended : Option Bool

-- The start of `unix_server`, which removes the file that is there: whether the socket can be bound,
-- the permissions of the file set, and the listener made non-blocking.
unfoldable pub unix_server :
    {V : Type 0} → (bound permitted nonblocking : Bool) → SocketContext V → Listening V
unix_server bound permitted nonblocking ctx = record {
  ctx = ctx;
  running = [];
  sent = [];
  sock = bound;
  ended = if bound && permitted && nonblocking then none else some false;
}

-- `Socket::handle_request`: a thread for the connection, unless a timeout cannot be set.
unfoldable pub spawn : {V : Type 0} → Connection V → Listening V → Listening V
spawn c s = if c.timeouts_set then record s { running = s.running ++ (c ∷ []) } else s

abbrev pub on_accept : {V : Type 0} → Accepted V → Listening V → Listening V
on_accept (connection c) s = spawn c s
on_accept would_block s = s
on_accept failed s = record s { ended = some false }

abbrev pub round_of : {V : Type 0} → Option Bool → Accepted V → Listening V → Listening V
round_of (some how) a s = s
round_of none a s =
    if s.ctx.shutdown_flag then record s { sock = false; ended = some true } else on_accept a s

-- A round of the loop, with what `accept` returns if it is called.
unfoldable pub round : {V : Type 0} → Accepted V → Listening V → Listening V
round a s = round_of s.ended a s

-- The connection at a position, and the others.
unfoldable pub picked :
    {V : Type 0} → ℕ → List (Connection V) → Option (Connection V × List (Connection V))
picked n [] = none
picked zero (c ∷ cs) = some (c, cs)
picked (suc n) (c ∷ cs) = elim (picked n cs) [ none ↦ none | some (d, ds) ↦ some (d, c ∷ ds) ]

module _ (o : Outside) (web : Web) where
  -- The one handler that panics is `exec_stop_agent`, behind raising the server's flag and, which is
  -- not modelled, the client's.
  abbrev pub handled :
      Option (SocketContext o.Value × Str × Bool) → Listening o.Value → Listening o.Value
  handled none s = record s { ctx = record s.ctx { shutdown_flag = true } }
  handled (some (ctx, text, is_event_stream)) s = record s {
    ctx = ctx;
    sent = s.sent ++ (text ∷ []);
  }

  abbrev pub serve :
      Option (Connection o.Value × List (Connection o.Value))
      → Listening o.Value
      → Listening o.Value
  serve none s = s
  serve (some (c, others)) s =
      handled (handle_request o web c.exchange c.source s.ctx) (record s { running = others })

  -- The loop and its threads: a round, or one of the threads handles its request.
  pub data Event : Type 0 where
    accepts : Accepted o.Value → Event
    handles : ℕ → Event

  unfoldable pub step : Event → Listening o.Value → Listening o.Value
  step (accepts a) s = round a s
  step (handles n) s = serve (picked n s.running) s

  unfoldable pub run : List Event → Listening o.Value → Listening o.Value
  run [] s = s
  run (e ∷ es) s = run es (step e s)
