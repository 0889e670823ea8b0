-- ===== src/Http/Listen/File.antt =====
-- When the file of the agent's socket is there.
use devicekit.Prelude.{
  ◌≡◌, refl, ap, ◌∙◌, Bool, true, false, Option, none, some, List, [], ◌∷◌, ◌++◌, if◌then◌else◌,
}
use devicekit.Prelude.Text.{Str}
use devicekit.Outside.{Outside}
use devicekit.Http.Response.{Web}
use devicekit.Http.Server.{SocketContext, handle_request}
use devicekit.Http.Listen.{
  Connection, Accepted, connection, would_block, failed, Listening, unix_server, on_accept, spawn,
  round, round_of, picked, handled, serve, Event, accepts, handles, step, run,
}

-- The file is left unless the loop has ended well.
abbrev pub leaves : Option Bool → Bool
leaves none = true
leaves (some true) = false
leaves (some false) = true

abbrev pub IsKept : {V : Type 0} → Listening V → Type 0
IsKept s = s.sock ≡ leaves s.ended

module _ {V : Type 0} where
  either-IsKept : (b : Bool) (s t : Listening V) → IsKept s → IsKept t → IsKept (if b then s else t)
  either-IsKept true s t h k = h
  either-IsKept false s t h k = k

  spawn-IsKept : (c : Connection V) (s : Listening V) → IsKept s → IsKept (spawn c s)
  unfolding spawn
  spawn-IsKept c s h =
      either-IsKept c.timeouts_set (record s { running = s.running ++ (c ∷ []) }) s h h

  on_accept-IsKept :
      (a : Accepted V) (s : Listening V) → s.ended ≡ none → IsKept s → IsKept (on_accept a s)
  on_accept-IsKept (connection c) s runs h = spawn-IsKept c s h
  on_accept-IsKept would_block s runs h = h
  on_accept-IsKept failed s runs h = h ∙ ap leaves runs

  round_of-IsKept :
      (ended : Option Bool) (a : Accepted V) (s : Listening V)
      → s.ended ≡ ended
      → IsKept s
      → IsKept (round_of ended a s)
  round_of-IsKept (some how) a s e h = h
  round_of-IsKept none a s e h =
      either-IsKept s.ctx.shutdown_flag (record s { sock = false; ended = some true })
        (on_accept a s) refl (on_accept-IsKept a s e h)

  unix_server-IsKept :
      (permitted nonblocking : Bool) (ctx : SocketContext V)
      → IsKept (unix_server true permitted nonblocking ctx)
  unfolding unix_server
  unix_server-IsKept true true ctx = refl
  unix_server-IsKept true false ctx = refl
  unix_server-IsKept false nonblocking ctx = refl

module _ (o : Outside) (web : Web) where
  handled-IsKept :
      (r : Option (SocketContext o.Value × Str × Bool)) (s : Listening o.Value)
      → IsKept s
      → IsKept (handled o web r s)
  handled-IsKept none s h = h
  handled-IsKept (some (ctx, text, is_event_stream)) s h = h

  serve-IsKept :
      (p : Option (Connection o.Value × List (Connection o.Value))) (s : Listening o.Value)
      → IsKept s
      → IsKept (serve o web p s)
  serve-IsKept none s h = h
  serve-IsKept (some (c, others)) s h =
      handled-IsKept (handle_request o web c.exchange c.source s.ctx)
        (record s { running = others }) h

  run-IsKept :
      (es : List (Event o web)) (s : Listening o.Value) → IsKept s → IsKept (run o web es s)
  unfolding run step round
  run-IsKept [] s h = h
  run-IsKept (accepts a ∷ es) s h = run-IsKept es (round a s) (round_of-IsKept s.ended a s refl h)
  run-IsKept (handles n ∷ es) s h = run-IsKept es _ (serve-IsKept (picked n s.running) s h)

  -- Where the socket could be bound, its file is there at any time, whatever has happened, unless
  -- the server has ended well: a failure, behind binding or while accepting, leaves it.
  pub unix_server-file :
      (permitted nonblocking : Bool) (ctx : SocketContext o.Value) (es : List (Event o web))
      → IsKept (run o web es (unix_server true permitted nonblocking ctx))
  unix_server-file permitted nonblocking ctx es =
      run-IsKept es (unix_server true permitted nonblocking ctx)
        (unix_server-IsKept permitted nonblocking ctx)
