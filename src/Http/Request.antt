-- ===== src/Http/Request.antt =====
-- device-agent/src/http_server/request.rs: a request from a buffered reader, or why it is refused.
pub mod Authorized
pub mod Loop
pub mod Limits
pub mod Body
pub mod Split
pub mod Words
pub mod Written
use devicekit.Prelude.{
  ℕ, zero, suc, ◌+◌, ◌-◌, ◌*◌, Bool, true, false, not, ◌&&◌, ◌||◌, Option, none, some, List, [],
  ◌∷◌, ◌++◌, ◌==◌, ltb, leb, length, take, drop, if◌then◌else◌,
}
use devicekit.Prelude.Text.{
  Str, chars, is_empty, starts_with, str_eq, trim, to_ascii_lowercase, split_whitespace, contains,
  parse_u64,
}
use devicekit.Prelude.Result as Result
use devicekit.Prelude.Result.{Result, ok, err}
use devicekit.Outside.{Outside}
use devicekit.Protocol.{Bytes}
use devicekit.Session.State.{MoonlightClient}
use devicekit.Http.{Method, split_once}
use devicekit.Http.Headers.{Headers, get, insert}
use devicekit.Http.Response.{FailureResp, bad_request, unauthorized, version_not_supported}
use devicekit.Http.Lines.{Fill, filled, interrupted, timed_out, failed, Source, source, read_line}
use devicekit.Http.Exact.{read_exact}
use devicekit.Http.Parse.{Parsed, Parse, and_then, ◌>>=◌, ◌>>◌, pure, lift}

pub record Req (V : Type 0) : Type 0 where
  pub method : Method
  pub path : Str
  pub headers : Headers
  pub body : Option V

abbrev pub refuse {ℓ} : {A : Type ℓ} → Str → Result A FailureResp
refuse msg = err (bad_request msg)

-- `ok_or_else(|| FR::bad_request(…))`
abbrev pub or_refuse {ℓ} : {A : Type ℓ} → Str → Option A → Result A FailureResp
or_refuse msg none = refuse msg
or_refuse msg (some a) = ok a

-- A word of the request line, and the words behind it.
abbrev next_word : List Str → Str × List Str
next_word [] = ([], [])
next_word (word ∷ words) = (word, words)

unfoldable pub method_of : Str → Result Method FailureResp
method_of http_method =
    if str_eq http_method (chars "GET")
    then ok Method.get
    else if str_eq http_method (chars "HEAD")
    then ok Method.head
    else if str_eq http_method (chars "POST")
    then ok Method.post
    else if str_eq http_method (chars "PUT")
    then ok Method.put
    else if str_eq http_method (chars "DELETE")
    then ok Method.delete
    else refuse (chars "Unsupported HTTP Method")

-- A header line's name and value among the headers.
abbrev pub header_of : Headers → Str × Str → Result Headers FailureResp
header_of headers (name, value) =
    if is_empty (to_ascii_lowercase (trim name))
    then refuse (chars "Empty header name")
    else if leb 64 (length headers)
    then refuse (chars "Too many headers")
    else ok (insert (to_ascii_lowercase (trim name)) (trim value) headers)

unfoldable pub parse_header : Headers → Str → Result Headers FailureResp
parse_header headers line =
    Result.◌>>=◌ (or_refuse (chars "Malformed header line") (split_once b':' line))
      (λ parts. header_of headers parts)

-- The loop of `parse_request_headers` over at most so many lines.
abbrev pub on_line : (Headers → Parse Headers) → Headers → Option Str → Parse Headers
on_line next headers none = pure headers
on_line next headers (some line) = lift (parse_header headers line) >>= next

unfoldable pub header_loop : ℕ → Headers → Parse Headers
header_loop zero headers s = (s, refuse [])
header_loop (suc fuel) headers s =
    and_then (read_line s) (λ line. on_line (λ headers'. header_loop fuel headers') headers line)

-- The bytes that a source will still give.
abbrev pub fills_size : List Fill → ℕ
fills_size [] = 0
fills_size (filled bytes ∷ fills) = length bytes + fills_size fills
fills_size (interrupted ∷ fills) = fills_size fills
fills_size (timed_out ∷ fills) = fills_size fills
fills_size (failed ∷ fills) = fills_size fills

abbrev pub size : Source → ℕ
size s = length s.buffered + fills_size s.fills

-- Each line takes a byte at least.
unfoldable pub parse_request_headers : Parse Headers
parse_request_headers s = header_loop (suc (size s)) [] s

abbrev pub read_body : ℕ → Parse Bytes
read_body n s =
    let (s', bytes) = read_exact n s in (s', or_refuse (chars "Failed to read request body") bytes)

abbrev pub is_chunked : Option Str → Bool
is_chunked none = false
is_chunked (some te) = contains (chars "chunked") (to_ascii_lowercase te)

module _ (o : Outside) where
  abbrev pub typed_length : ℕ → Option Str → Result ℕ FailureResp
  typed_length n none = refuse (chars "Missing Content-Type Header")
  typed_length n (some content_type) =
      if starts_with (chars "application/json") (o.to_lowercase content_type)
      then ok n
      else refuse (chars "Content-Type Must Be application/json")

  abbrev pub parsed_length : Option Str → Option ℕ → Result ℕ FailureResp
  parsed_length content_type none = refuse (chars "Invalid Content-Length Header")
  parsed_length content_type (some zero) = ok 0
  parsed_length content_type (some (suc n)) =
      if ltb (64 * 1024) (suc n)
      then refuse (chars "Request Body Too Large")
      else typed_length (suc n) content_type

  abbrev pub length_of : Option Str → Option Str → Result ℕ FailureResp
  length_of content_type none = ok 0
  length_of content_type (some n) = parsed_length content_type (parse_u64 n)

  -- The checks of `parse_request_body` in front of reading: the length of the body, 0 for none.
  unfoldable pub body_length : Headers → Result ℕ FailureResp
  body_length headers =
      if is_chunked (get (chars "transfer-encoding") headers)
      then refuse (chars "Transfer-Encoding: chunked not supported")
      else length_of (get (chars "content-type") headers) (get (chars "content-length") headers)

  abbrev pub parsed_json : Option o.Value → Result (Option o.Value) FailureResp
  parsed_json none = refuse (chars "Failed to parse JSON body")
  parsed_json (some v) = ok (some v)

  abbrev pub json_of : Bytes → Result (Option o.Value) FailureResp
  json_of bytes = parsed_json (o.from_slice bytes)

  abbrev pub read_json : ℕ → Parse (Option o.Value)
  read_json zero = pure none
  read_json (suc n) = read_body (suc n) >>= λ bytes. lift (json_of bytes)

  unfoldable pub parse_request_body : Headers → Parse (Option o.Value)
  parse_request_body headers = lift (body_length headers) >>= read_json

  -- A header with an id, which is the client's.
  abbrev validate_id : Str → Str → Str → Str → Option Str → Result (Unit {0}) FailureResp
  validate_id missing empty mismatch id none = refuse missing
  validate_id missing empty mismatch id (some value) =
      if is_empty value
      then refuse empty
      else if str_eq value id
      then ok tt
      else err (unauthorized mismatch)

  unfoldable pub validate_headers :
      Headers → MoonlightClient o.Value → Result (Unit {0}) FailureResp
  validate_headers headers client =
      Result.◌>>◌
        (validate_id (chars "Header X-Fleet-ID is missing") (chars "Header X-Fleet-ID is empty")
          (chars "Fleet ID mismatch") client.fleet_id (get (chars "x-fleet-id") headers))
        (validate_id (chars "Header X-Device-ID is missing") (chars "Header X-Device-ID is empty")
          (chars "Device ID mismatch") client.device_id (get (chars "x-device-id") headers))

  abbrev words_of : Option Str → Result (List Str) FailureResp
  words_of none = refuse (chars "Empty Request")
  words_of (some line) = ok (split_whitespace line)

  -- The words of the request line.
  unfoldable pub request_line : List Str → Result (Method × Str) FailureResp
  request_line words =
      let (http_method, behind_method) = next_word words in
      let (http_path, behind_path) = next_word behind_method in
      let (http_version, behind_version) = next_word behind_path in
      if not (str_eq (o.to_uppercase http_version) (chars "HTTP/1.1"))
      then err version_not_supported
      else if is_empty http_path || not (starts_with (chars "/") http_path)
      then refuse (chars "Invalid HTTP Path")
      else Result.◌>>=◌ (method_of (o.to_uppercase http_method)) (λ method. ok (method, http_path))

  unfoldable pub parse_request_line : Parse (Method × Str)
  parse_request_line = do line ← read_line; words ← lift (words_of line); lift (request_line words)

  -- Root and /stop-agent.
  abbrev pub is_open : Method → Str → Bool
  is_open Method.get path = str_eq path (chars "/")
  is_open Method.delete path = str_eq path (chars "/stop-agent")
  is_open Method.head path = false
  is_open Method.post path = false
  is_open Method.put path = false

  abbrev pub req : Method → Str → Headers → Option o.Value → Req o.Value
  req method path headers body = record {
    method = method;
    path = path;
    headers = headers;
    body = body;
  }

  abbrev pub authenticate :
      MoonlightClient o.Value → Method → Str → Headers → Bool → Parse (Req o.Value)
  authenticate client method path headers true = pure (req method path headers none)
  authenticate client method path headers false = do
    lift (validate_headers headers client)
    body ← parse_request_body headers
    pure (req method path headers body)

  abbrev pub behind_line : MoonlightClient o.Value → Method × Str → Parse (Req o.Value)
  behind_line client (method, path) = do
    headers ← parse_request_headers
    authenticate client method path headers (is_open method path)

  unfoldable pub parse_request : MoonlightClient o.Value → Parse (Req o.Value)
  parse_request client = parse_request_line >>= behind_line client
