-- ===== src/Http/Server/Readable.antt =====
-- Every response that is sent is read as what the handlers have answered.
use devicekit.Prelude.{◌≡◌, refl, Bool, true, false, Option, none, some, List, [], ◌∷◌, ◌++◌}
use devicekit.Prelude.Text.{Str, chars}
use devicekit.Prelude.Result.{Result, ok, err}
use devicekit.Outside.{Outside}
use devicekit.Response.{Mail}
use devicekit.Client.State.{ReturnChanResult}
use devicekit.Session.State.{MoonlightClient, stop}
use devicekit.Http.{Action, route}
use devicekit.Http.Status.{success, to_http}
use devicekit.Http.Headers.{Headers}
use devicekit.Http.Headers.Laws.{Named, insert-Named}
use devicekit.Http.Response.{FailureResp, Resp, Web, ok_resp, make, final_headers, compile}
use devicekit.Http.Response.Compiled.{
  IsLine, read_head, AllSay, lines_of, lines_of-AllSay, new-Named, event_stream-Named,
  compile-read_head,
}
use devicekit.Http.Lines.{Source}
use devicekit.Http.Request.{Req, parse_request}
use devicekit.Http.Commands.{
  Exchange, with_payload, mail_op_resp, mail_resp, mailbox_next_resp, send_pulse_resp, mail_op,
  mailbox_next, send_pulse,
}
use devicekit.Http.Server.{SocketContext, stopped, perform, handle, compiled, handle_request}

module _ (o : Outside) (web : Web) where
  -- The names of the headers hold no line breaks.
  abbrev IsClean : Resp → Type 0
  IsClean r = Named IsLine r.headers

  make-IsClean : (f : FailureResp) → IsClean (make o web f)
  unfolding make
  make-IsClean f = new-Named o web f.status_code _

  ok_resp-IsClean : (body : Str) → IsClean (ok_resp o web body)
  ok_resp-IsClean body = new-Named o web success body

  with_payload-IsClean :
      (header_only : Bool) (payload : Option o.Value) (r : Resp)
      → IsClean r
      → IsClean (with_payload o web header_only payload r)
  with_payload-IsClean header_only none r h = h
  with_payload-IsClean true (some v) r h = h
  with_payload-IsClean false (some v) r h = h

  mail_op_resp-IsClean :
      (r : Result (ReturnChanResult o.Value) FailureResp) → IsClean (mail_op_resp o web r)
  unfolding mail_op_resp
  mail_op_resp-IsClean (err f) = make-IsClean f
  mail_op_resp-IsClean (ok (ReturnChanResult.mail_ack_successful more)) =
      insert-Named IsLine _ _ _ refl (ok_resp-IsClean _)
  mail_op_resp-IsClean (ok ReturnChanResult.success) = make-IsClean _
  mail_op_resp-IsClean (ok (ReturnChanResult.failure msg)) = make-IsClean _
  mail_op_resp-IsClean (ok ReturnChanResult.timeout) = make-IsClean _
  mail_op_resp-IsClean (ok (ReturnChanResult.mail found)) = make-IsClean _

  mail_resp-IsClean :
      (header_only : Bool) (mail : Mail o.Value) → IsClean (mail_resp o web header_only mail)
  unfolding mail_resp
  mail_resp-IsClean header_only mail = with_payload-IsClean header_only mail.payload _ (
      insert-Named IsLine _ _ _ refl (
        insert-Named IsLine _ _ _ refl (
          insert-Named IsLine _ _ _ refl (
            insert-Named IsLine _ _ _ refl (insert-Named IsLine _ _ _ refl (ok_resp-IsClean []))))))

  mailbox_next_resp-IsClean :
      (header_only : Bool) (r : Result (ReturnChanResult o.Value) FailureResp)
      → IsClean (mailbox_next_resp o web header_only r)
  unfolding mailbox_next_resp
  mailbox_next_resp-IsClean header_only (err f) = make-IsClean f
  mailbox_next_resp-IsClean header_only (ok (ReturnChanResult.mail none)) =
      insert-Named IsLine _ _ _ refl (insert-Named IsLine _ _ _ refl (ok_resp-IsClean []))
  mailbox_next_resp-IsClean header_only (ok (ReturnChanResult.mail (some mail))) =
      mail_resp-IsClean header_only mail
  mailbox_next_resp-IsClean header_only (ok ReturnChanResult.success) = make-IsClean _
  mailbox_next_resp-IsClean header_only (ok (ReturnChanResult.failure msg)) = make-IsClean _
  mailbox_next_resp-IsClean header_only (ok ReturnChanResult.timeout) = make-IsClean _
  mailbox_next_resp-IsClean header_only (ok (ReturnChanResult.mail_ack_successful more)) =
      make-IsClean _

  send_pulse_resp-IsClean :
      (r : Result (ReturnChanResult o.Value) FailureResp) → IsClean (send_pulse_resp o web r)
  unfolding send_pulse_resp
  send_pulse_resp-IsClean (err f) = make-IsClean f
  send_pulse_resp-IsClean (ok ReturnChanResult.success) = ok_resp-IsClean _
  send_pulse_resp-IsClean (ok (ReturnChanResult.failure msg)) = make-IsClean _
  send_pulse_resp-IsClean (ok ReturnChanResult.timeout) = make-IsClean _
  send_pulse_resp-IsClean (ok (ReturnChanResult.mail found)) = make-IsClean _
  send_pulse_resp-IsClean (ok (ReturnChanResult.mail_ack_successful more)) = make-IsClean _

  abbrev Answers : Option (SocketContext o.Value × Resp) → Type 0
  Answers none = Unit {0}
  Answers (some (ctx, r)) = IsClean r

  stopped-Answers :
      (ctx : SocketContext o.Value) (client : Option (MoonlightClient o.Value))
      → Answers (stopped o web ctx client)
  stopped-Answers ctx none = tt
  stopped-Answers ctx (some client) = ok_resp-IsClean _

  perform-Answers :
      (x : Exchange o.Value) (body : Option o.Value) (a : Action) (ctx : SocketContext o.Value)
      → Answers (perform o web x body a ctx)
  unfolding perform mail_op mailbox_next send_pulse
  perform-Answers x body Action.status ctx = ok_resp-IsClean _
  perform-Answers x body Action.ping ctx = ok_resp-IsClean _
  perform-Answers x body Action.stop_agent ctx = stopped-Answers ctx (stop ctx.client)
  perform-Answers x body Action.event_stream ctx = event_stream-Named o web
  perform-Answers x body Action.not_found ctx = make-IsClean _
  perform-Answers x body (Action.mailbox_next header_only) ctx =
      mailbox_next_resp-IsClean header_only _
  perform-Answers x body (Action.mail_op k id) ctx = mail_op_resp-IsClean _
  perform-Answers x body (Action.send_pulse t name) ctx = send_pulse_resp-IsClean _
  perform-Answers x body (Action.bad_request msg) ctx = make-IsClean _

  handle-Answers :
      (x : Exchange o.Value) (r : Result (Req o.Value) FailureResp) (ctx : SocketContext o.Value)
      → Answers (handle o web x r ctx)
  handle-Answers x (ok r) ctx = perform-Answers x r.body (route r.method r.path) ctx
  handle-Answers x (err f) ctx = make-IsClean f

  -- The text of a response: its status line, one line for each of its headers, and its body.
  abbrev pub IsTextOf : MoonlightClient o.Value → Resp → Str → Type 0
  IsTextOf client r text =
      (lines : List Str) × (read_head [] text
        ≡ some ((chars "HTTP/1.1 " ++ to_http r.status_code) ∷ lines, r.body))
      × AllSay (web.arrange (final_headers o web client r)) lines

  -- What is sent is the text of what the handlers have answered; nothing is sent behind a panic.
  abbrev pub Reads :
      Option (SocketContext o.Value × Resp) → Option (SocketContext o.Value × Str × Bool) → Type 0
  Reads none sent = sent ≡ none
  Reads (some (ctx, r)) sent =
      (text : Str) × (sent ≡ some (ctx, text, r.is_event_stream)) × IsTextOf ctx.client r text

  compiled-Reads :
      ((P : Str → Type 0) (hs : Headers) → Named P hs → Named P (web.arrange hs))
      → (a : Option (SocketContext o.Value × Resp)) → Answers a
      → Reads a (compiled o web a)
  compiled-Reads arranged none h = refl
  compiled-Reads arranged (some (ctx, r)) h =
      let headers : Headers = web.arrange (final_headers o web ctx.client r) in
      (
        compile o web ctx.client r,
        refl,
        (
          lines_of headers,
          compile-read_head o web ctx.client r arranged h,
          lines_of-AllSay headers,
        ),
      )

  -- Whatever a request holds, a reader that takes even a lone carriage return or newline for the end
  -- of a line reads the text that answers it as the status line of the handlers' response, exactly
  -- one line for each of its headers, in the order in which the map is walked, and its body. The line
  -- of a header is its name and its value with a space for each character of a line break, so that no
  -- value adds a line. Walking the map is taken to give no names that are not in it.
  pub handle_request-Reads :
      ((P : Str → Type 0) (hs : Headers) → Named P hs → Named P (web.arrange hs))
      → (x : Exchange o.Value) (s : Source) (ctx : SocketContext o.Value)
      → Reads (handle o web x (parse_request o ctx.client s).1 ctx) (handle_request o web x s ctx)
  unfolding handle_request
  handle_request-Reads arranged x s ctx =
      compiled-Reads arranged _ (handle-Answers x (parse_request o ctx.client s).1 ctx)
