-- ===== src/Http/Server/Safety.antt =====
-- What a request may change.
use devicekit.Prelude.{◌≡◌, refl, ap, subst, sym, ◌⊎◌, inl, inr, Bool, Option, none, some}
use devicekit.Prelude.Text.{Str}
use devicekit.Prelude.Result.{ok, Result-cases}
use devicekit.Outside.{Outside}
use devicekit.Http.{route, stop_agent}
use devicekit.Http.Response.{Web}
use devicekit.Http.Lines.{Source}
use devicekit.Http.Request.{Req, parse_request}
use devicekit.Http.Request.Authorized.{CarriesIds, parse_request-authorized}
use devicekit.Http.Commands.{Exchange}
use devicekit.Http.Server.{SocketContext, perform, handle, compiled, handle_request}

module _ (o : Outside) (web : Web) where
  abbrev pub Unchanged :
      SocketContext o.Value → Option (SocketContext o.Value × Str × Bool) → Type 0
  Unchanged ctx none = ⊥
  Unchanged ctx (some (ctx', text, is_event_stream)) = ctx' ≡ ctx

  -- A request that changes anything, or makes the agent panic, is one to stop the agent or carries
  -- the ids of its fleet and device.
  pub handle_request-safe :
      (x : Exchange o.Value) (s : Source) (ctx : SocketContext o.Value)
      → Unchanged ctx (handle_request o web x s ctx)
        ⊎ ((r : Req o.Value) × ((parse_request o ctx.client s).1 ≡ ok r)
            × ((route r.method r.path ≡ stop_agent) ⊎ CarriesIds o ctx.client r.headers))
  unfolding handle_request perform
  handle_request-safe x s ctx = elim (Result-cases (parse_request o ctx.client s).1) [
    | inl (r, e) ↦
        elim (parse_request-authorized o ctx.client s (parse_request o ctx.client s).0 r
          (ap (λ t. ((parse_request o ctx.client s).0, t)) e)) [
            | inl asks_status ↦ inl (
                subst (λ p. Unchanged ctx (compiled o web (handle o web x p ctx))) (sym e)
                  (subst (λ a. Unchanged ctx (compiled o web (perform o web x r.body a ctx)))
                    (sym asks_status) refl))
            | inr allowed ↦ inr (r, e, allowed)
          ]
    | inr (f, e) ↦
        inl (subst (λ p. Unchanged ctx (compiled o web (handle o web x p ctx))) (sym e) refl)
  ]
