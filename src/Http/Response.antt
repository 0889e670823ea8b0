-- ===== src/Http/Response.antt =====
-- `Resp` and `FailureResp` of device-agent/src/http_server/response.rs.
pub mod Compiled
use devicekit.Prelude.{ℕ, Bool, true, false, ◌||◌, List, [], ◌∷◌, ◌++◌, ◌==◌, map, if◌then◌else◌}
use devicekit.Prelude.Text.{Str, chars, len, str_eq}
use devicekit.Outside.{Outside}
use devicekit.Http.Headers.{Headers, insert, remove}
use devicekit.Http.Status.{StatusCode, to_http}
use devicekit.Client.Messages.{decimal}
use devicekit.Session.State.{MoonlightClient, Status}

-- What `FailureResp::make` is called with.
pub record FailureResp : Type 0 where
  pub status_code : StatusCode
  pub error_msg : Str

abbrev failure : StatusCode → Str → FailureResp
failure status_code error_msg = record { status_code = status_code; error_msg = error_msg }

abbrev pub bad_request : Str → FailureResp
bad_request error_msg = failure StatusCode.bad_request error_msg

abbrev pub unauthorized : Str → FailureResp
unauthorized error_msg = failure StatusCode.unauthorized error_msg

abbrev pub forbidden : Str → FailureResp
forbidden error_msg = failure StatusCode.forbidden error_msg

abbrev pub not_found : Str → FailureResp
not_found error_msg = failure StatusCode.not_found error_msg

abbrev pub timeout : FailureResp
timeout = failure StatusCode.timeout (chars "Operation timed out")

abbrev pub internal_server_error : Str → FailureResp
internal_server_error error_msg = failure StatusCode.internal_server_error error_msg

abbrev pub version_not_supported : FailureResp
version_not_supported =
    failure StatusCode.version_not_supported (chars "HTTP Version Not Supported")

pub record Resp : Type 0 where
  pub status_code : StatusCode
  pub headers : Headers
  pub body : Str
  pub is_event_stream : Bool

abbrev pub add_header : Str → Str → Resp → Resp
add_header key value r = record r { headers = insert key value r.headers }

abbrev pub set_body : Str → Resp → Resp
set_body body r = record r { body = body }

-- `replace(['\r', '\n'], " ")`
abbrev pub clean : Str → Str
clean [] = []
clean (c ∷ s) = (if c == b'\r' || c == b'\n' then b' ' else c) ∷ clean s

abbrev pub crlf : Str
crlf = b'\r' ∷ b'\n' ∷ []

abbrev header_line : Str → Str → Str
header_line key value = key ++ (chars ": " ++ clean value)

unfoldable pub header_lines : Headers → Str
header_lines [] = []
header_lines ((key, value) ∷ headers) = header_line key value ++ (crlf ++ header_lines headers)

abbrev pub bool_text : Bool → Str
bool_text true = chars "true"
bool_text false = chars "false"

-- What responses take from libraries: the date, JSON texts, and the order in which a hash map is
-- walked.
pub record Web : Type 0 where
  pub http_date : Str
  -- `{"error": …}`, `{"ok": true}`, `{"ok": true, "mail_available": …}` and a client's status.
  pub error_json : Str → Str
  pub ok_json : Str
  pub mail_available_json : Bool → Str
  pub status_json : Status → Str
  pub arrange : Headers → Headers

module _ (o : Outside) (web : Web) where
  abbrev push_default_headers : Resp → Resp
  push_default_headers r = add_header (chars "X-Agent-Version") o.version (
      add_header (chars "Server") (chars "Fostrom-Device-Agent/v" ++ o.version) (
        add_header (chars "X-Protocol-Version") (chars "1") (
          add_header (chars "X-Protocol") (chars "Moonlight") (
            add_header (chars "X-API-Version") (chars "1") (
              add_header (chars "X-Powered-By") (chars "Fostrom") (
                add_header (chars "Content-Type") (chars "application/json; charset=utf-8") (
                  add_header (chars "Connection") (chars "close")
                    (add_header (chars "Cache-Control") (chars "no-cache") r))))))))

  unfoldable pub new : StatusCode → Str → Resp
  new status_code body =
      push_default_headers
        (record { status_code = status_code; headers = []; body = body; is_event_stream = false })

  abbrev pub ok_resp : Str → Resp
  ok_resp body = new StatusCode.success body

  unfoldable pub event_stream : Resp
  event_stream =
      let r = add_header (chars "X-Accel-Buffering") (chars "no") (
        add_header (chars "Connection") (chars "keep-alive") (
          add_header (chars "Content-Type") (chars "text/event-stream; charset=utf-8")
            (ok_resp []))) in
      record r { is_event_stream = true }

  unfoldable pub make : FailureResp → Resp
  make f = new f.status_code (web.error_json f.error_msg)

  -- The headers that `compile` sends.
  unfoldable pub final_headers : MoonlightClient o.Value → Resp → Headers
  final_headers client r =
      let headers = insert (chars "Date") web.http_date (
        insert (chars "Content-Length") (decimal (len r.body)) (
          insert (chars "X-Fleet-ID") client.fleet_id (
            insert (chars "X-Device-ID") client.device_id
              (insert (chars "X-Connected") (bool_text client.authenticated) r.headers)))) in
      if r.is_event_stream then remove (chars "Content-Length") headers else headers

  unfoldable pub compile : MoonlightClient o.Value → Resp → Str
  compile client r =
      chars "HTTP/1.1 "
      ++ (to_http r.status_code
          ++ (crlf ++ (header_lines (web.arrange (final_headers client r)) ++ (crlf ++ r.body))))
