-- ===== src/Http/Status.antt =====
-- `StatusCode` of device-agent/src/http_server/response.rs.
use devicekit.Prelude.Text.{Str, chars}

pub data StatusCode : Type 0 where
  success bad_request unauthorized forbidden not_found timeout : StatusCode
  version_not_supported internal_server_error : StatusCode

unfoldable pub to_http : StatusCode → Str
to_http success = chars "200 OK"
to_http bad_request = chars "400 Bad Request"
to_http unauthorized = chars "401 Unauthorized"
to_http forbidden = chars "403 Forbidden"
to_http not_found = chars "404 Not Found"
to_http timeout = chars "408 Request Timeout"
to_http version_not_supported = chars "505 HTTP Version Not Supported"
to_http internal_server_error = chars "500 Internal Server Error"
