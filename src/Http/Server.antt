-- ===== src/Http/Server.antt =====
-- `handle_request`, `route` and `exec_stop_agent` of device-agent/src/http_server/router.rs: from the
-- bytes of a request to the text of its response.
pub mod Safety
pub mod Readable
pub mod Served
use devicekit.Prelude.{Bool, true, false, Option, none, some, [], ◌∷◌}
use devicekit.Prelude.Text.{Str, chars}
use devicekit.Prelude.Result.{Result, ok, err}
use devicekit.Outside.{Outside}
use devicekit.Session.State.{MoonlightClient, stop}
use devicekit.Session.State
use devicekit.Http.{Action, route}
use devicekit.Http.Response.{
  FailureResp, not_found, bad_request, Resp, Web, ok_resp, event_stream, make, compile,
}
use devicekit.Http.Lines.{Source}
use devicekit.Http.Parse.{Parsed}
use devicekit.Http.Request.{Req, parse_request}
use devicekit.Http.Commands.{Exchange, mail_op, mailbox_next, send_pulse}

pub record SocketContext (V : Type 0) : Type 0 where
  pub client : MoonlightClient V
  pub shutdown_flag : Bool

module _ (o : Outside) (web : Web) where
  abbrev Answer : Type 0
  Answer = Option (SocketContext o.Value × Resp)

  abbrev answer : SocketContext o.Value → Resp → Answer
  answer ctx resp = some (ctx, resp)

  abbrev by_client : SocketContext o.Value → MoonlightClient o.Value × Resp → Answer
  by_client ctx (client, resp) = some (record ctx { client = client }, resp)

  -- `none` is a panic.
  abbrev pub stopped : SocketContext o.Value → Option (MoonlightClient o.Value) → Answer
  stopped ctx none = none
  stopped ctx (some client) =
      some (record { client = client; shutdown_flag = true }, ok_resp o web web.ok_json)

  abbrev pub exec_stop_agent : SocketContext o.Value → Answer
  exec_stop_agent ctx = stopped ctx (stop ctx.client)

  -- The handlers that `route` calls.
  unfoldable pub perform :
      Exchange o.Value → Option o.Value → Action → SocketContext o.Value → Answer
  perform x body Action.status ctx =
      answer ctx (ok_resp o web (web.status_json (State.status ctx.client)))
  perform x body Action.ping ctx = answer ctx (ok_resp o web [])
  perform x body Action.stop_agent ctx = exec_stop_agent ctx
  perform x body Action.event_stream ctx = answer ctx (event_stream o web)
  perform x body Action.not_found ctx = answer ctx (make o web (not_found (chars "Not Found")))
  perform x body (Action.mailbox_next header_only) ctx =
      by_client ctx (mailbox_next o web x header_only ctx.client)
  perform x body (Action.mail_op ack_type mail_id) ctx =
      by_client ctx (mail_op o web x ack_type mail_id ctx.client)
  perform x body (Action.send_pulse pulse_type name) ctx =
      by_client ctx (send_pulse o web x pulse_type name body ctx.client)
  perform x body (Action.bad_request msg) ctx = answer ctx (make o web (bad_request msg))

  abbrev pub handle :
      Exchange o.Value → Result (Req o.Value) FailureResp → SocketContext o.Value → Answer
  handle x (ok req) ctx = perform x req.body (route req.method req.path) ctx
  handle x (err f) ctx = answer ctx (make o web f)

  -- The text that is sent, and whether a stream of events follows it.
  abbrev pub compiled : Answer → Option (SocketContext o.Value × Str × Bool)
  compiled none = none
  compiled (some (ctx, resp)) = some (ctx, compile o web ctx.client resp, resp.is_event_stream)

  unfoldable pub handle_request :
      Exchange o.Value
      → Source
      → SocketContext o.Value
      → Option (SocketContext o.Value × Str × Bool)
  handle_request x s ctx = compiled (handle x (parse_request o ctx.client s).1 ctx)
