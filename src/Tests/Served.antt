-- ===== src/Tests/Served.antt =====
-- A request for a pulse at concrete bytes.
use devicekit.Prelude.{◌≡◌, refl, true, some, [], ◌∷◌, ◌++◌, All, arith}
use devicekit.Prelude.Text.{
  chars, as_bytes, trim, trim_start, trim_end, contains, parse_digits, parse_u64,
}
use devicekit.Protocol.{Bytes, PulseType}
use devicekit.Client.State.{ClientCmd}
use devicekit.Http.{post, is_valid_pulse_name}
use devicekit.Http.Headers.{Headers, get, insert}
use devicekit.Http.Lines.{source}
use devicekit.Http.Request.Written.{IsHeader, request_bytes, stored}
use devicekit.Http.Commands.{wait_for_connected, send_pulse_resp, result_of}
use devicekit.Http.Server.{compiled, handle_request}
use devicekit.Http.Server.Served.{CarriesJson, Reaches, IsPost, with_sent, handle_request-pulse}
use devicekit.Tests.Requests.{sample-Keeps}
use devicekit.Tests.Sample.{
  sample, fleet, device, web, mailbox, connected_client, context, exchange,
}

abbrev pulse_headers : Headers
pulse_headers =
    (chars "x-fleet-id", fleet)
    ∷ (chars "x-device-id", device)
    ∷ (chars "content-type", chars "application/json")
    ∷ (chars "content-length", chars "2")
    ∷ []

abbrev json : Bytes
json = b'4' ∷ b'2' ∷ []

headers_written : All IsHeader pulse_headers
unfolding trim trim_start trim_end as_bytes
headers_written = (
  (refl, refl, refl, refl, (refl, omega arith, omega arith)),
  (
    (refl, refl, refl, refl, (refl, omega arith, omega arith)),
    (
      (refl, refl, refl, refl, (refl, omega arith, omega arith)),
      ((refl, refl, refl, refl, (refl, omega arith, omega arith)), tt),
    ),
  ),
)

pulse-IsPost : IsPost (chars "pulse/msg/hi") pulse_headers
unfolding as_bytes
pulse-IsPost = (ground arith, (refl, omega arith, omega arith), headers_written, omega arith)

pulse-CarriesJson : CarriesJson sample connected_client (stored [] pulse_headers) json json
unfolding get insert contains parse_u64 parse_digits
pulse-CarriesJson = (
  (refl, refl),
  (refl, (chars "application/json", refl, refl), (chars "2", refl, refl)),
  omega arith,
  refl,
)

pulse-Reaches : Reaches sample exchange connected_client mailbox
unfolding wait_for_connected
pulse-Reaches = (refl, refl, refl, refl)

hi_valid : is_valid_pulse_name (chars "hi") ≡ true
unfolding is_valid_pulse_name as_bytes
hi_valid = refl

handle_request-pulse_example :
    handle_request sample web exchange
      (source (request_bytes post (chars "/pulse/msg/hi") pulse_headers (json ++ [])) [])
      context
    ≡ compiled sample web (
        some (
          with_sent context mailbox (ClientCmd.send_pulse PulseType.msg (chars "hi") (some json) 4),
          send_pulse_resp sample web (result_of exchange.answer),
        ))
handle_request-pulse_example =
    handle_request-pulse sample web exchange context mailbox PulseType.msg (chars "hi")
      (chars "pulse/msg/hi") pulse_headers b'4' (b'2' ∷ []) [] [] json sample-Keeps refl (λ e. cc)
      hi_valid pulse-IsPost (refl, refl) pulse-CarriesJson pulse-Reaches
