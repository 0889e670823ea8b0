-- ===== src/Tests/Requests.antt =====
-- Requests and responses at concrete bytes.
use devicekit.Prelude.{
  ◌≤◌, ◌<◌, ◌*◌, ◌≡◌, ◌⊎◌, refl, true, none, some, List, [], ◌∷◌, ◌++◌, length, arith, All,
}
use devicekit.Prelude.Text.{
  Str, chars, as_bytes, trim, trim_start, trim_end, parse_digits, parse_u64,
}
use devicekit.Prelude.Result.{ok}
use devicekit.Protocol.{Bytes, MailAckType}
use devicekit.Response.{Mail}
use devicekit.Http.{Method, route, mail_op, stop_agent}
use devicekit.Http.Routes.{mail_path}
use devicekit.Http.Headers.{Headers, get}
use devicekit.Http.Lines.{Fill, filled, interrupted, source, read_line, strip_cr}
use devicekit.Http.Lines.Chunks.{
  InLine, Brings, nothing, interruption, piece, answer_of, read_line-Brings,
}
use devicekit.Http.Lines.Written.{IsWritten}
use devicekit.Http.Parse.{and_then}
use devicekit.Http.Exact.{read_exact}
use devicekit.Http.Request.{
  Req, on_line, refuse, body_length, parse_request, parse_request_body, authenticate, is_open,
}
use devicekit.Http.Request.Authorized.{CarriesIds}
use devicekit.Http.Request.Body.{Announces, parse_request_body-json}
use devicekit.Http.Request.Loop.{loop, header_loop-unrolled}
use devicekit.Http.Request.Words.{IsWord, Keeps, line_text}
use devicekit.Http.Request.Written.{IsHeader, request_bytes, stored, parse_request-written}
use devicekit.Http.Request.Split.{loop-split_blank_line}
use devicekit.Http.Commands.{mail_resp}
use devicekit.Http.Commands.Answers.{mail_resp-route}
use devicekit.Http.Server.{handle, handle_request}
use devicekit.Http.Server.Safety.{Unchanged, handle_request-safe}
use devicekit.Http.Server.Readable.{Reads, handle_request-Reads}
use devicekit.Tests.MailId.{text, number, text_read}
use devicekit.Tests.Sample.{sample, fleet, device, web, connected_client, context, exchange}

-- "GET / " in one piece, a signal, and the rest of the line.
abbrev first : List Fill
first = filled (as_bytes (chars "GET / ")) ∷ interrupted ∷ []

first-InLine : InLine (as_bytes (chars "GET / "))
unfolding as_bytes
first-InLine = (
  λ e. absurd (omega arith),
  (
    λ e. absurd (omega arith),
    (
      λ e. absurd (omega arith),
      (λ e. absurd (omega arith), (λ e. absurd (omega arith), (λ e. absurd (omega arith), tt))),
    ),
  ),
)

first-Brings : Brings first (as_bytes (chars "GET / ") ++ [])
unfolding as_bytes
first-Brings = piece b'G' (as_bytes (chars "ET / ")) first-InLine (interruption nothing)

read_line-Brings_example :
    (read_line (source [] (first ++ filled (b'H' ∷ b'\r' ∷ b'\n' ∷ []) ∷ []))).1
    ≡ answer_of ((as_bytes (chars "GET / ") ++ []) ++ strip_cr (b'H' ∷ b'\r' ∷ []))
read_line-Brings_example =
    read_line-Brings first _ (b'H' ∷ b'\r' ∷ []) [] [] first-Brings
      (λ e. absurd (omega arith), (λ e. absurd (omega arith), tt))

loop-split_blank_line_example :
    ((loop [] (source [] (filled (b'\r' ∷ b'\n' ∷ []) ∷ []))).1 ≡ ok [])
    × ((loop [] (source [] (filled (b'\r' ∷ []) ∷ filled (b'\n' ∷ []) ∷ []))).1
        ≡ refuse (chars "Malformed header line"))
loop-split_blank_line_example = loop-split_blank_line [] [] []

abbrev header_bytes : Bytes
header_bytes = as_bytes (chars "Host: a\r\n\r\n")

header_loop-unrolled_example :
    loop [] (source header_bytes [])
    ≡ and_then (read_line (source header_bytes [])) (λ line. on_line loop [] line)
header_loop-unrolled_example = header_loop-unrolled [] (source header_bytes [])

abbrev body_headers : Headers
body_headers =
    (chars "content-length", chars "2") ∷ (chars "content-type", chars "application/json") ∷ []

body_parsed :
    parse_request_body sample body_headers (source (b'4' ∷ b'2' ∷ []) [])
    ≡ (source [] [], ok (some (b'4' ∷ b'2' ∷ [])))
unfolding parse_request_body body_length get parse_u64 parse_digits read_exact
body_parsed = refl

parse_request_body-json_example :
    (bytes : Bytes) × Announces sample body_headers (length bytes)
    × (0 < length bytes)
    × (length bytes ≤ 64 * 1024)
    × (sample.from_slice bytes ≡ some (b'4' ∷ b'2' ∷ []))
parse_request_body-json_example =
    parse_request_body-json sample body_headers (source (b'4' ∷ b'2' ∷ []) []) (source [] [])
      (b'4' ∷ b'2' ∷ []) body_parsed

abbrev found : Mail Str
found = record { pulse_id = number; name = chars "hi"; payload = none; mailbox_size = 3 }

mail_resp-route_example :
    (id : Str) × (get (chars "X-Mail-ID") (mail_resp sample web true found).headers ≡ some id)
    × (route Method.put (mail_path MailAckType.ack ++ id) ≡ mail_op MailAckType.ack number)
mail_resp-route_example = mail_resp-route sample web true found text MailAckType.ack text_read

-- A request without ids.
abbrev bytes : Bytes
bytes = as_bytes (chars "GET /mailbox/next HTTP/1.1\r\n\r\n")

handle_request-safe_example :
    Unchanged sample web context (handle_request sample web exchange (source bytes []) context)
    ⊎ ((r : Req Str) × ((parse_request sample context.client (source bytes [])).1 ≡ ok r)
        × ((route r.method r.path ≡ stop_agent) ⊎ CarriesIds sample context.client r.headers))
handle_request-safe_example = handle_request-safe sample web exchange (source bytes []) context

handle_request-Reads_example :
    Reads sample web
      (handle sample web exchange (parse_request sample context.client (source bytes [])).1 context)
      (handle_request sample web exchange (source bytes []) context)
handle_request-Reads_example =
    handle_request-Reads sample web (λ P hs h. h) exchange (source bytes []) context

abbrev id_headers : Headers
id_headers = (chars "x-fleet-id", fleet) ∷ (chars "x-device-id", device) ∷ []

pub sample-Keeps : Keeps sample.to_uppercase
sample-Keeps [] h = refl
sample-Keeps (c ∷ s) (small, h) = grind (arith, sample-Keeps s h)

id_headers-IsHeader : All IsHeader id_headers
unfolding trim trim_start trim_end as_bytes
id_headers-IsHeader = (
  (refl, refl, refl, refl, (refl, omega arith, omega arith)),
  ((refl, refl, refl, refl, (refl, omega arith, omega arith)), tt),
)

next_path-IsWord : IsWord (chars "/mailbox/next")
next_path-IsWord = ground arith

next_line-IsWritten : IsWritten (line_text Method.get (chars "/mailbox/next"))
unfolding as_bytes
next_line-IsWritten = (refl, omega arith, omega arith)

abbrev written_bytes : Bytes
written_bytes = request_bytes Method.get (chars "/mailbox/next") id_headers (b'x' ∷ [])

written_short : length written_bytes ≤ 8_192
unfolding as_bytes
written_short = omega arith

parse_request-written_example :
    parse_request sample connected_client (source [] (filled written_bytes ∷ []))
    ≡ authenticate sample connected_client Method.get
        (chars "/mailbox/next")
        (stored [] id_headers)
        (is_open sample Method.get (chars "/mailbox/next"))
        (source (b'x' ∷ []) [])
parse_request-written_example =
    parse_request-written sample connected_client Method.get (chars "mailbox/next") id_headers
      (b'x' ∷ []) [] sample-Keeps next_path-IsWord next_line-IsWritten id_headers-IsHeader
      (omega arith) written_short
