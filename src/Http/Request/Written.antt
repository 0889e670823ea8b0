-- ===== src/Http/Request/Written.antt =====
-- A request that is written to the server is parsed into its parts.
use devicekit.Prelude.{
  ◌+◌, ◌≤◌, ◌<◌, ◌≡◌, ◌≢◌, refl, ap, ◌∙◌, true, false, not, some, List, [], ◌∷◌, ◌++◌, ◌==◌, leb,
  length, length-append, all, All, if◌then◌else◌, arith,
}
use devicekit.Prelude.Text.{Str, as_bytes, is_empty, trim, trim_start, to_ascii_lowercase}
use devicekit.Prelude.Result.{ok, err}
use devicekit.Outside.{Outside}
use devicekit.Protocol.{Bytes}
use devicekit.Session.State.{MoonlightClient}
use devicekit.Http.{Method, in_front, split_once}
use devicekit.Http.Headers.{Headers, insert}
use devicekit.Http.Response.{FailureResp, crlf}
use devicekit.Http.Lines.{filled, read_fills, read_line, Fill, Source, source}
use devicekit.Http.Lines.Written.{IsWritten, read_line-as_bytes, read_line-blank}
use devicekit.Http.Parse.{and_then}
use devicekit.Http.Request.{
  parse_request_line, parse_header, on_line, parse_request_headers, is_open, authenticate,
  behind_line, parse_request,
}
use devicekit.Http.Request.Words.{IsWord, Keeps, line_text, parse_request_line-text}
use devicekit.Http.Request.Limits.{insert-length}
use devicekit.Http.Request.Loop.{loop, header_loop-unrolled}

abbrev pub header_text : Str × Str → Str
header_text (name, value) = name ++ (b':' ∷ b' ' ∷ value)

-- A header as it is stored: a name in lower case and a value, both without white space around them.
abbrev pub IsHeader : Str × Str → Type 0
IsHeader (name, value) =
    (is_empty name ≡ false)
    × (all (λ c. not (c == b':')) name ≡ true)
    × (to_ascii_lowercase (trim name) ≡ name)
    × (trim value ≡ value)
    × IsWritten (header_text (name, value))

split_once-colon :
    (name value : Str)
    → all (λ c. not (c == b':')) name ≡ true
    → split_once b':' (name ++ (b':' ∷ value)) ≡ some (name, value)
unfolding split_once
split_once-colon [] value h = refl
split_once-colon (c ∷ name) value h =
    ground (arith, ap (in_front c) (split_once-colon name value (ground arith)))

trim-space : (value : Str) → trim (b' ' ∷ value) ≡ trim value
unfolding trim trim_start
trim-space value = refl

stored_if :
    (name value : Str) (acc : Headers)
    → is_empty name ≡ false
    → length acc < 64
    → (e e' : FailureResp)
    → (if is_empty name
        then err e
        else if leb 64 (length acc)
        then err e'
        else ok (insert name value acc))
      ≡ ok (insert name value acc)
stored_if name value acc h short e e' = ground arith

parse_header-text :
    (name value : Str) (acc : Headers)
    → IsHeader (name, value)
    → length acc < 64
    → parse_header acc (header_text (name, value)) ≡ ok (insert name value acc)
unfolding parse_header
parse_header-text name value acc (full, colon, lower, trimmed, written) short =
    rw (split_once-colon name (b' ' ∷ value) colon, lower, trim-space value ∙ trimmed)
      (stored_if name value acc full short _ _)

-- The bytes of headers, of the blank line, and of what is behind.
abbrev pub head_bytes : Headers → Bytes → Bytes
head_bytes [] rest = crlf ++ rest
head_bytes (h ∷ hs) rest = as_bytes (header_text h) ++ (crlf ++ head_bytes hs rest)

abbrev pub stored : Headers → Headers → Headers
stored acc [] = acc
stored acc ((name, value) ∷ hs) = stored (insert name value acc) hs

loop-head_bytes :
    (hs acc : Headers) (rest : Bytes) (fills : List Fill)
    → All IsHeader hs
    → length acc + length hs ≤ 64
    → loop acc (source (head_bytes hs rest) fills) ≡ (source rest fills, ok (stored acc hs))
loop-head_bytes [] acc rest fills h short =
    header_loop-unrolled acc (source (crlf ++ rest) fills)
    ∙ ap (λ l. and_then l (λ line. on_line loop acc line)) (read_line-blank rest fills)
loop-head_bytes (([], value) ∷ hs) acc rest fills ((full, colon, lower, trimmed, written), h)
      short =
    absurd (ground arith)
loop-head_bytes ((c ∷ name, value) ∷ hs) acc rest fills ((full, colon, lower, trimmed, written), h)
      short =
    let behind : Source = source (head_bytes hs rest) fills in
    let room : length acc < 64 = omega arith in
    header_loop-unrolled acc (source (head_bytes ((c ∷ name, value) ∷ hs) rest) fills)
    ∙ ap (λ l. and_then l (λ line. on_line loop acc line))
        (read_line-as_bytes c (name ++ (b':' ∷ b' ' ∷ value)) (head_bytes hs rest) fills written)
    ∙ ap (λ r. and_then (behind, r) loop)
        (parse_header-text (c ∷ name) value acc (full, colon, lower, trimmed, written) room)
    ∙ loop-head_bytes hs (insert (c ∷ name) value acc) rest fills h
        (omega (arith, insert-length (c ∷ name) value acc))

parse_request_headers-head_bytes :
    (hs : Headers) (rest : Bytes) (fills : List Fill)
    → All IsHeader hs
    → length hs ≤ 64
    → parse_request_headers (source (head_bytes hs rest) fills)
      ≡ (source rest fills, ok (stored [] hs))
unfolding parse_request_headers
parse_request_headers-head_bytes hs rest fills h short =
    loop-head_bytes hs [] rest fills h (omega arith)

abbrev pub request_bytes : Method → Str → Headers → Bytes → Bytes
request_bytes method path hs rest = as_bytes (line_text method path) ++ (crlf ++ head_bytes hs rest)

module _ (o : Outside) where
  -- The same of a request whose bytes are in the reader's buffer.
  pub parse_request-buffered :
      (client : MoonlightClient o.Value) (method : Method) (path : Str) (hs : Headers)
      (rest : Bytes) (fills : List Fill)
      → Keeps o.to_uppercase
      → IsWord (b'/' ∷ path)
      → IsWritten (line_text method (b'/' ∷ path))
      → All IsHeader hs
      → length hs ≤ 64
      → parse_request o client (source (request_bytes method (b'/' ∷ path) hs rest) fills)
        ≡ authenticate o client method
            (b'/' ∷ path)
            (stored [] hs)
            (is_open o method (b'/' ∷ path))
            (source rest fills)
  unfolding parse_request
  parse_request-buffered client method path hs rest fills keeps word written headers short =
      ap (λ p. and_then p (behind_line o client))
        (parse_request_line-text o method path (head_bytes hs rest) fills keeps word written)
      ∙ ap
          (λ p. and_then p (λ headers.
            authenticate o client method (b'/' ∷ path) headers (is_open o method (b'/' ∷ path))))
          (parse_request_headers-head_bytes hs rest fills headers short)

  parse_request-filled :
      (client : MoonlightClient o.Value) (bytes : Bytes) (fills : List Fill)
      → bytes ≢ []
      → parse_request o client (source [] (filled bytes ∷ fills))
        ≡ parse_request o client (source bytes fills)
  unfolding parse_request parse_request_line read_line read_fills
  parse_request-filled client [] fills full = absurd (full refl)
  parse_request-filled client (b ∷ bytes) fills full = refl

  request_bytes-full :
      (method : Method) (path : Str) (hs : Headers) (rest : Bytes)
      → request_bytes method path hs rest ≢ []
  request_bytes-full method path hs rest e = omega (
    arith,
    ap length e,
    length-append (as_bytes (line_text method path)) (crlf ++ head_bytes hs rest),
  )

  -- A request that comes in one fill of the reader's buffer, of at most the 8 KiB that it holds, is
  -- parsed into just what it was written from: a method, a path that starts with a slash and has no
  -- white space, and at most 64 headers in the form they are stored in, each line without line
  -- breaks, a later header in the place of an earlier one of its name. The ids are checked and the
  -- body is read with these headers, and from the byte behind the blank line on, when the route is
  -- not an open one. What is assumed of `to_uppercase` is that it keeps ASCII that has no lower case
  -- letter.
  pub parse_request-written :
      (client : MoonlightClient o.Value) (method : Method) (path : Str) (hs : Headers)
      (rest : Bytes) (fills : List Fill)
      → Keeps o.to_uppercase
      → IsWord (b'/' ∷ path)
      → IsWritten (line_text method (b'/' ∷ path))
      → All IsHeader hs
      → length hs ≤ 64
      → length (request_bytes method (b'/' ∷ path) hs rest) ≤ 8_192
      → parse_request o client
          (source [] (filled (request_bytes method (b'/' ∷ path) hs rest) ∷ fills))
        ≡ authenticate o client method
            (b'/' ∷ path)
            (stored [] hs)
            (is_open o method (b'/' ∷ path))
            (source rest fills)
  parse_request-written client method path hs rest fills keeps word written headers few short =
      parse_request-filled client (request_bytes method (b'/' ∷ path) hs rest) fills
        (request_bytes-full method (b'/' ∷ path) hs rest)
      ∙ parse_request-buffered client method path hs rest fills keeps word written headers few
