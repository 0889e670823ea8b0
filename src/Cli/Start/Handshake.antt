-- ===== src/Cli/Start/Handshake.antt =====
-- The requests by which the command line talks to a running agent, and what the agent answers.
use devicekit.Prelude.{◌≡◌, refl, ap, ◌∙◌, true, false, none, some, List, []}
use devicekit.Prelude.Text.{Str, chars, as_bytes, contains, fields, split_whitespace}
use devicekit.Prelude.Text.Utf8.{from_utf8}
use devicekit.Prelude.Result.{ok}
use devicekit.Outside.{Outside}
use devicekit.Session.State
use devicekit.Session.State.{MoonlightClient, stop, close_mailbox}
use devicekit.Http.{Method, route}
use devicekit.Http.Status.{to_http}
use devicekit.Http.Response.{Web, new, compile, ok_resp}
use devicekit.Http.Lines.{Fill, source, cut, strip_cr, line_of, read_fills, read_line}
use devicekit.Http.Request.{
  header_loop, parse_request_headers, method_of, request_line, parse_request_line, parse_request,
  req,
}
use devicekit.Http.Commands.{Exchange}
use devicekit.Http.Server.{SocketContext, perform, handle, stopped, compiled, handle_request}
use devicekit.Cli.Files.{stop_request, status_request, is_ok}

module _ (o : Outside) (web : Web) where
  -- Texts in capitals stay so.
  abbrev pub KeepsCapitals : Type 0
  KeepsCapitals =
      (o.to_uppercase (chars "HTTP/1.1") ≡ chars "HTTP/1.1")
      × (o.to_uppercase (chars "DELETE") ≡ chars "DELETE")
      × (o.to_uppercase (chars "GET") ≡ chars "GET")

  parse_stop_request :
      (client : MoonlightClient o.Value) (fills : List Fill)
      → KeepsCapitals
      → parse_request o client (source (as_bytes stop_request) fills)
        ≡ (source [] fills, ok (req o Method.delete (chars "/stop-agent") [] none))
  unfolding parse_request parse_request_line parse_request_headers header_loop read_line read_fills
      cut strip_cr line_of from_utf8 as_bytes split_whitespace fields request_line method_of
  parse_stop_request client fills (http, delete, get) = rw (http, delete) refl

  parse_status_request :
      (client : MoonlightClient o.Value) (fills : List Fill)
      → KeepsCapitals
      → parse_request o client (source (as_bytes status_request) fills)
        ≡ (source [] fills, ok (req o Method.get (chars "/") [] none))
  unfolding parse_request parse_request_line parse_request_headers header_loop read_line read_fills
      cut strip_cr line_of from_utf8 as_bytes split_whitespace fields request_line method_of
  parse_status_request client fills (http, delete, get) = rw (http, get) refl

  abbrev pub stopping : SocketContext o.Value → SocketContext o.Value
  stopping ctx = record {
    client = record ctx.client {
      shutdown_flag = true;
      mailbox_chan = close_mailbox ctx.client.mailbox_chan;
    };
    shutdown_flag = true;
  }

  stop_alive :
      (client : MoonlightClient o.Value)
      → client.poisoned ≡ false
      → stop client
        ≡ some (record client {
          shutdown_flag = true;
          mailbox_chan = close_mailbox client.mailbox_chan;
        })
  unfolding stop
  stop_alive client alive = rw alive refl

  ok_text :
      (client : MoonlightClient o.Value) (body : Str)
      → is_ok (compile o web client (ok_resp o web body)) ≡ true
  unfolding compile to_http contains new
  ok_text client body = refl

  pub stop_request-stops :
      (x : Exchange o.Value) (fills : List Fill) (ctx : SocketContext o.Value)
      → KeepsCapitals
      → ctx.client.poisoned ≡ false
      → (text : Str) × (handle_request o web x (source (as_bytes stop_request) fills) ctx
          ≡ some (stopping ctx, text, false))
        × (is_ok text ≡ true)
  unfolding handle_request route perform new
  stop_request-stops x fills ctx capitals alive =
      let text : Str = compile o web (stopping ctx).client (ok_resp o web web.ok_json) in
      (
        text,
        ap (λ p. compiled o web (handle o web x p.1 ctx))
              (parse_stop_request ctx.client fills capitals)
            ∙ ap (λ c. compiled o web (stopped o web ctx c)) (stop_alive ctx.client alive),
        ok_text (stopping ctx).client web.ok_json,
      )

  -- The request by which the readiness check and the status command ask changes nothing, and its answer
  -- passes the check.
  pub status_request-answered :
      (x : Exchange o.Value) (fills : List Fill) (ctx : SocketContext o.Value)
      → KeepsCapitals
      → (text : Str) × (handle_request o web x (source (as_bytes status_request) fills) ctx
          ≡ some (ctx, text, false))
        × (is_ok text ≡ true)
  unfolding handle_request route perform new
  status_request-answered x fills ctx capitals =
      let body : Str = web.status_json (State.status ctx.client) in
      (
        compile o web ctx.client (ok_resp o web body),
        ap (λ p. compiled o web (handle o web x p.1 ctx))
            (parse_status_request ctx.client fills capitals),
        ok_text ctx.client body,
      )
