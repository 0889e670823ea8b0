-- ===== src/Http/Request/Authorized.antt =====
-- Whose requests are accepted.
use devicekit.Prelude.{
  ◌≡◌, refl, ap, subst, ◌⊎◌, inl, inr, Bool, true, false, Option, none, some, Bool-cases, arith,
}
use devicekit.Prelude.Text.{Str, chars, is_empty, str_eq}
use devicekit.Prelude.Result.{ok, >>=-succeeds}
use devicekit.Outside.{Outside}
use devicekit.Session.State.{MoonlightClient}
use devicekit.Http.{Method, route, status, stop_agent}
use devicekit.Http.Headers.{Headers, get}
use devicekit.Http.Headers.Laws.{str_eq_refl, str_eq→≡}
use devicekit.Http.Lines.{Source}
use devicekit.Http.Parse.{and_then-succeeds, lift}
use devicekit.Http.Request.{
  Req, is_open, authenticate, validate_id, validate_headers, parse_request, parse_request_body,
  parse_request_line, parse_request_headers, behind_line, req,
}

module _ (o : Outside) where
  validate_id-succeeds :
      (missing empty mismatch id : Str) (header : Option Str)
      → validate_id o missing empty mismatch id header ≡ ok tt
      → header ≡ some id
  validate_id-succeeds missing empty mismatch id none e = cc
  validate_id-succeeds missing empty mismatch id (some value) e =
      elim (Bool-cases (is_empty value)) [
        | inl h ↦ absurd (ground arith)
        | inr h ↦ elim (Bool-cases (str_eq value id)) [
          | inl k ↦ ap some (str_eq→≡ value id k)
          | inr k ↦ absurd (ground arith)
        ]
      ]

  -- The headers carry the ids of the client.
  abbrev pub CarriesIds : MoonlightClient o.Value → Headers → Type 0
  CarriesIds client headers =
      (get (chars "x-fleet-id") headers ≡ some client.fleet_id)
      × (get (chars "x-device-id") headers ≡ some client.device_id)

  validate_headers-succeeds :
      (headers : Headers) (client : MoonlightClient o.Value)
      → validate_headers o headers client ≡ ok tt
      → CarriesIds client headers
  unfolding validate_headers
  validate_headers-succeeds headers client e =
      let (_, device, fleet) = >>=-succeeds _ _ e in
      (
        validate_id-succeeds _ _ _ client.fleet_id (get (chars "x-fleet-id") headers) fleet,
        validate_id-succeeds _ _ _ client.device_id (get (chars "x-device-id") headers) device,
      )

  authenticate-succeeds :
      (client : MoonlightClient o.Value) (m : Method) (path : Str) (headers : Headers)
      (open_ : Bool) (s s' : Source) (r : Req o.Value)
      → is_open o m path ≡ open_
      → authenticate o client m path headers open_ s ≡ (s', ok r)
      → (is_open o r.method r.path ≡ true) ⊎ CarriesIds client r.headers
  authenticate-succeeds client m path headers true s s' r h e =
      let same : req o m path headers none ≡ r = cc in
      inl (subst (λ r'. is_open o r'.method r'.path ≡ true) same h)
  authenticate-succeeds client m path headers false s s' r h e =
      let (s₁, _, e₁, valid) = and_then-succeeds _ (lift (validate_headers o headers client) s) e in
      let (s₂, body, e₂, _) = and_then-succeeds _ (parse_request_body o headers s₁) e₁ in
      let same : req o m path headers body ≡ r = cc in
      inr (
        subst (λ r'. CarriesIds client r'.headers) same
          (validate_headers-succeeds headers client (ap (λ p. p.1) valid)))

  parse_request-succeeds :
      (client : MoonlightClient o.Value) (s s' : Source) (r : Req o.Value)
      → parse_request o client s ≡ (s', ok r)
      → (is_open o r.method r.path ≡ true) ⊎ CarriesIds client r.headers
  unfolding parse_request
  parse_request-succeeds client s s' r e =
      let (s₁, (m, path), e₁, _) =
        and_then-succeeds (behind_line o client) (parse_request_line o s) e in
      let (s₂, headers, e₂, _) =
        and_then-succeeds (λ headers. authenticate o client m path headers (is_open o m path))
          (parse_request_headers s₁) e₁ in
      authenticate-succeeds client m path headers _ s₂ s' r refl e₂

  is_open-route :
      (m : Method) (path : Str)
      → is_open o m path ≡ true
      → (route m path ≡ status) ⊎ (route m path ≡ stop_agent)
  unfolding route
  is_open-route Method.get path h = inl (rw h refl)
  is_open-route Method.delete path h = inr (rw h refl)
  is_open-route Method.head path h = cc
  is_open-route Method.post path h = cc
  is_open-route Method.put path h = cc

  -- A request that is accepted asks for the status or to stop the agent, or it carries the ids of
  -- the agent's fleet and device.
  pub parse_request-authorized :
      (client : MoonlightClient o.Value) (s s' : Source) (r : Req o.Value)
      → parse_request o client s ≡ (s', ok r)
      → (route r.method r.path ≡ status)
        ⊎ (route r.method r.path ≡ stop_agent)
        ⊎ CarriesIds client r.headers
  parse_request-authorized client s s' r e = elim (parse_request-succeeds client s s' r e) [
    | inl open_ ↦ elim (is_open-route r.method r.path open_) [
      | inl asks_status ↦ inl asks_status
      | inr asks_stop ↦ inr (inl asks_stop)
    ]
    | inr ids ↦ inr (inr ids)
  ]

  validate_id-ok :
      (missing empty mismatch id : Str) (header : Option Str)
      → header ≡ some id
      → is_empty id ≡ false
      → validate_id o missing empty mismatch id header ≡ ok tt
  validate_id-ok missing empty mismatch id header e full = rw (e, full, str_eq_refl id) refl

  -- Ids that an agent can have.
  abbrev pub HasIds : MoonlightClient o.Value → Type 0
  HasIds client = (is_empty client.fleet_id ≡ false) × (is_empty client.device_id ≡ false)

  pub validate_headers-CarriesIds :
      (hs : Headers) (client : MoonlightClient o.Value)
      → HasIds client
      → CarriesIds client hs
      → validate_headers o hs client ≡ ok tt
  unfolding validate_headers
  validate_headers-CarriesIds hs client (fleet, device) (has_fleet, has_device) =
      rw
        (
          validate_id-ok _ _ _ client.fleet_id _ has_fleet fleet,
          validate_id-ok _ _ _ client.device_id _ has_device device,
        )
        refl
