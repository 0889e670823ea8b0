-- ===== src/Http/Listen/Stopped.antt =====
-- What ends the loop that accepts connections.
use devicekit.Prelude.{
  ℕ, ◌≡◌, refl, subst, sym, ◌⊎◌, inl, inr, Bool, true, false, Option, none, some, List, [], ◌∷◌,
  if◌then◌else◌,
}
use devicekit.Prelude.Text.{Str, as_bytes}
use devicekit.Prelude.Result.{Result, ok, err}
use devicekit.Outside.{Outside}
use devicekit.Cli.Files.{stop_request}
use devicekit.Http.{Action}
use devicekit.Http.Response.{FailureResp, Web}
use devicekit.Http.Lines.{Fill, Source, source}
use devicekit.Http.Request.{Req, parse_request}
use devicekit.Http.Commands.{Exchange}
use devicekit.Http.Server.{SocketContext, stopped, perform, handle, compiled, handle_request}
use devicekit.Http.Listen.{
  Connection, Accepted, Listening, on_accept, round, round_of, picked, handled, serve, Event,
  accepts, handles, step, run,
}
use devicekit.Cli.Start.Handshake.{KeepsCapitals, stop_request-stops}
use devicekit.Session.State.{stop, MoonlightClient}

module _ (o : Outside) (web : Web) where
  -- The flag stays raised.
  abbrev Raised : Option (SocketContext o.Value × Str × Bool) → Type 0
  Raised none = Unit {0}
  Raised (some (ctx, text, is_event_stream)) = ctx.shutdown_flag ≡ true

  stopped-Raised :
      (ctx : SocketContext o.Value) (c : Option (MoonlightClient o.Value))
      → Raised (compiled o web (stopped o web ctx c))
  stopped-Raised ctx none = tt
  stopped-Raised ctx (some client) = refl

  perform-Raised :
      (x : Exchange o.Value) (body : Option o.Value) (a : Action) (ctx : SocketContext o.Value)
      → ctx.shutdown_flag ≡ true
      → Raised (compiled o web (perform o web x body a ctx))
  unfolding perform
  perform-Raised x body Action.status ctx h = h
  perform-Raised x body Action.ping ctx h = h
  perform-Raised x body Action.stop_agent ctx h = stopped-Raised ctx (stop ctx.client)
  perform-Raised x body Action.event_stream ctx h = h
  perform-Raised x body Action.not_found ctx h = h
  perform-Raised x body (Action.mailbox_next header_only) ctx h = h
  perform-Raised x body (Action.mail_op ack_type mail_id) ctx h = h
  perform-Raised x body (Action.send_pulse pulse_type name) ctx h = h
  perform-Raised x body (Action.bad_request msg) ctx h = h

  handle-Raised :
      (x : Exchange o.Value) (r : Result (Req o.Value) FailureResp) (ctx : SocketContext o.Value)
      → ctx.shutdown_flag ≡ true
      → Raised (compiled o web (handle o web x r ctx))
  handle-Raised x (ok r) ctx h = perform-Raised x r.body _ ctx h
  handle-Raised x (err f) ctx h = h

  handle_request-Raised :
      (x : Exchange o.Value) (s : Source) (ctx : SocketContext o.Value)
      → ctx.shutdown_flag ≡ true
      → Raised (handle_request o web x s ctx)
  unfolding handle_request
  handle_request-Raised x s ctx h = handle-Raised x (parse_request o ctx.client s).1 ctx h

  -- The flag is raised, and the loop runs or has ended as it should.
  abbrev pub Stops : Listening o.Value → Type 0
  Stops s =
      (s.ctx.shutdown_flag ≡ true) × ((s.ended ≡ none) ⊎ ((s.ended ≡ some true) × (s.sock ≡ false)))

  handled-Stops :
      (r : Option (SocketContext o.Value × Str × Bool)) (s : Listening o.Value)
      → Raised r
      → Stops s
      → Stops (handled o web r s)
  handled-Stops none s r (h, k) = (refl, k)
  handled-Stops (some (ctx, text, is_event_stream)) s r (h, k) = (r, k)

  serve-Stops :
      (p : Option (Connection o.Value × List (Connection o.Value))) (s : Listening o.Value)
      → Stops s
      → Stops (serve o web p s)
  serve-Stops none s h = h
  serve-Stops (some (c, others)) s (raised, k) =
      handled-Stops (handle_request o web c.exchange c.source s.ctx) (record s { running = others })
        (handle_request-Raised c.exchange c.source s.ctx raised) (raised, k)

  abbrev Over : Listening o.Value → Type 0
  Over s = (s.ctx.shutdown_flag ≡ true) × (s.ended ≡ some true) × (s.sock ≡ false)

  raised-Over :
      (flag : Bool) (s later : Listening o.Value)
      → flag ≡ true
      → s.ctx.shutdown_flag ≡ true
      → Over (if flag then record s { sock = false; ended = some true } else later)
  raised-Over true s later h raised = (raised, refl, refl)
  raised-Over false s later h raised = cc

  round-Over : (a : Accepted o.Value) (s : Listening o.Value) → Stops s → Over (round a s)
  unfolding round
  round-Over a s (raised, inl runs) =
      subst (λ e. Over (round_of e a s)) (sym runs)
        (raised-Over s.ctx.shutdown_flag s (on_accept a s) raised raised)
  round-Over a s (raised, inr (ended, gone)) =
      subst (λ e. Over (round_of e a s)) (sym ended) (raised, ended, gone)

  step-Stops : (e : Event o web) (s : Listening o.Value) → Stops s → Stops (step o web e s)
  unfolding step
  step-Stops (accepts a) s h =
      let (raised, ended, gone) = round-Over a s h in (raised, inr (ended, gone))
  step-Stops (handles n) s h = serve-Stops (picked n s.running) s h

  run-Stops : (es : List (Event o web)) (s : Listening o.Value) → Stops s → Stops (run o web es s)
  unfolding run
  run-Stops [] s h = h
  run-Stops (e ∷ es) s h = run-Stops es (step o web e s) (step-Stops e s h)

  -- Nothing is accepted any more.
  abbrev pub Ended : Listening o.Value → Type 0
  Ended s = (s.ended ≡ some true) × (s.sock ≡ false)

  -- Once a thread has handled a request to stop the agent, whose client is not poisoned, the loop
  -- ends well at its next round and removes the file of its socket, whatever happens in between.
  pub run_stop-Ended :
      (n : ℕ) (c : Connection o.Value) (others : List (Connection o.Value)) (fills : List Fill)
      (es : List (Event o web)) (a : Accepted o.Value) (s : Listening o.Value)
      → KeepsCapitals o web
      → picked n s.running ≡ some (c, others)
      → c.source ≡ source (as_bytes stop_request) fills
      → s.ctx.client.poisoned ≡ false
      → s.ended ≡ none
      → Ended (round a (run o web es (step o web (handles n) s)))
  unfolding step
  run_stop-Ended n c others fills es a s capitals there asks alive runs =
      let (text, handled_, _) = stop_request-stops o web c.exchange fills s.ctx capitals alive in
      let answered : Stops (serve o web (some (c, others)) s) =
        subst
          (λ from. Stops (
            handled o web (handle_request o web c.exchange from s.ctx)
              (record s { running = others })))
          (sym asks)
          (subst (λ r. Stops (handled o web r (record s { running = others }))) (sym handled_)
            (refl, inl runs)) in
      let stops : Stops (serve o web (picked n s.running) s) =
        subst (λ p. Stops (serve o web p s)) (sym there) answered in
      let after : Listening o.Value = run o web es (serve o web (picked n s.running) s) in
      let (raised, ended, gone) = round-Over a after (run-Stops es _ stops) in (ended, gone)
