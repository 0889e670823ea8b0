-- ===== src/Http/Response/Compiled.antt =====
-- What a client reads from the text of a response.
use devicekit.Prelude.{
  ℕ, ◌≡◌, ◌≢◌, ◌⊎◌, Bool-cases, refl, ap, sym, ◌∙◌, inl, inr, Bool, true, false, not, all, ◌||◌,
  Option, none, some, List, [], ◌∷◌, ◌++◌, append-nil, append_assoc, map, ◌==◌, if◌then◌else◌,
  arith,
}
use devicekit.Prelude.Text.{Str, chars, len}
use devicekit.Client.Messages.{decimal}
use devicekit.Outside.{Outside}
use devicekit.Session.State.{MoonlightClient}
use devicekit.Http.Status.{
  StatusCode, success, bad_request, unauthorized, forbidden, not_found, timeout,
  version_not_supported, internal_server_error, to_http,
}
use devicekit.Http.Headers.{Headers, get, insert}
use devicekit.Http.Headers.Laws.{
  Named, insert-Named, remove-Named, get-insert, get-insert_other, get-remove,
}
use devicekit.Http.Response.{
  Resp, Web, clean, crlf, header_line, header_lines, final_headers, compile, new, event_stream,
  bool_text,
}

abbrev pub is_break : ℕ → Bool
is_break c = c == b'\r' || c == b'\n'

-- A text without line breaks.
abbrev pub IsLine : Str → Type 0
IsLine s = all (λ c. not (is_break c)) s ≡ true

abbrev in_front : Str → Option (List Str × Str) → Option (List Str × Str)
in_front line none = none
in_front line (some (lines, body)) = some (line ∷ lines, body)

abbrev at_break : Str → Str → Option (List Str × Str) → Option (List Str × Str)
at_break [] behind rest = some ([], behind)
at_break (c ∷ line) behind rest = in_front (c ∷ line) rest

-- How a tolerant reader of HTTP reads a response: lines up to an empty one, and what stands behind
-- that. A line ends at a carriage return with a newline, and also at one of them alone. `line` holds
-- the characters of the line so far.
unfoldable pub read_head : Str → Str → Option (List Str × Str)
read_head line [] = none
read_head line (c ∷ []) = elim (c == b'\r' || c == b'\n') [
  | true ↦ at_break line [] none
  | false ↦ none
]
read_head line (c ∷ d ∷ s) = elim (c == b'\n') [
  | true ↦ at_break line (d ∷ s) (read_head [] (d ∷ s))
  | false ↦ elim (c == b'\r') [
    | true ↦ elim (d == b'\n') [
      | true ↦ at_break line s (read_head [] s)
      | false ↦ at_break line (d ∷ s) (read_head [] (d ∷ s))
    ]
    | false ↦ read_head (line ++ c ∷ []) (d ∷ s)
  ]
]

extend : (before : Str) (c : ℕ) (line : Str) → (before ++ c ∷ []) ++ line ≡ before ++ c ∷ line
extend before c line = append_assoc before (c ∷ []) line

skip :
    (before : Str) (c d : ℕ) (s : Str)
    → is_break c ≡ false
    → read_head before (c ∷ d ∷ s) ≡ read_head (before ++ c ∷ []) (d ∷ s)
unfolding read_head
skip before c d s n = ground arith

read_head-line :
    (before line s : Str)
    → IsLine line
    → read_head before (line ++ (crlf ++ s)) ≡ at_break (before ++ line) s (read_head [] s)
unfolding read_head
read_head-line before [] s h =
    ap (λ line. at_break line s (read_head [] s)) (sym (append-nil before))
read_head-line before (c ∷ []) s h =
    skip before c b'\r' (b'\n' ∷ s) (ground arith)
    ∙ read_head-line (before ++ c ∷ []) [] s refl
    ∙ ap (λ line. at_break line s (read_head [] s)) (append-nil (before ++ c ∷ []))
read_head-line before (c ∷ d ∷ line) s h =
    skip before c d (line ++ (crlf ++ s)) (ground arith)
    ∙ read_head-line (before ++ c ∷ []) (d ∷ line) s (ground arith)
    ∙ ap (λ line. at_break line s (read_head [] s)) (extend before c (d ∷ line))

clean-IsLine : (s : Str) → IsLine (clean s)
clean-IsLine [] = refl
clean-IsLine (c ∷ s) = ground (arith, clean-IsLine s)

append-IsLine : (s t : Str) → IsLine s → IsLine t → IsLine (s ++ t)
append-IsLine [] t h k = k
append-IsLine (c ∷ s) t h k = ground (arith, append-IsLine s t)

to_http-IsLine : (code : StatusCode) → IsLine (chars "HTTP/1.1 " ++ to_http code)
unfolding to_http
to_http-IsLine success = refl
to_http-IsLine bad_request = refl
to_http-IsLine unauthorized = refl
to_http-IsLine forbidden = refl
to_http-IsLine not_found = refl
to_http-IsLine timeout = refl
to_http-IsLine version_not_supported = refl
to_http-IsLine internal_server_error = refl

header_line-IsLine : (key value : Str) → IsLine key → IsLine (header_line key value)
header_line-IsLine key value h =
    append-IsLine key (chars ": " ++ clean value) h (clean-IsLine value)

at_break-header_line :
    (key value s : Str) (rest : Option (List Str × Str))
    → at_break (header_line key value) s rest ≡ in_front (header_line key value) rest
at_break-header_line [] value s rest = refl
at_break-header_line (c ∷ key) value s rest = refl

abbrev pub lines_of : Headers → List Str
lines_of hs = map (λ header. header_line header.0 header.1) hs

-- What a header's line must be: the name, a colon and a space, and the value, in which a space stands
-- for each character of a line break and all else is as it was.
abbrev pub Kept : ℕ → ℕ → Type 0
Kept c d = (((c ≡ b'\r') ⊎ (c ≡ b'\n')) × (d ≡ b' ')) ⊎ ((c ≢ b'\r') × (c ≢ b'\n') × (d ≡ c))

abbrev pub Cleaned : Str → Str → Type 0
Cleaned [] [] = Unit {0}
Cleaned [] (d ∷ t) = ⊥
Cleaned (c ∷ s) [] = ⊥
Cleaned (c ∷ s) (d ∷ t) = Kept c d × Cleaned s t

abbrev pub Says : Str × Str → Str → Type 0
Says (key, value) line = (text : Str) × (line ≡ key ++ (chars ": " ++ text)) × Cleaned value text

-- One line for each header, in order.
abbrev pub AllSay : Headers → List Str → Type 0
AllSay [] [] = Unit {0}
AllSay [] (line ∷ lines) = ⊥
AllSay (header ∷ headers) [] = ⊥
AllSay (header ∷ headers) (line ∷ lines) = Says header line × AllSay headers lines

clean-Cleaned : (s : Str) → Cleaned s (clean s)
clean-Cleaned [] = tt
clean-Cleaned (c ∷ s) = (ground arith, clean-Cleaned s)

pub lines_of-AllSay : (hs : Headers) → AllSay hs (lines_of hs)
lines_of-AllSay [] = tt
lines_of-AllSay ((key, value) ∷ hs) = ((clean value, refl, clean-Cleaned value), lines_of-AllSay hs)

header_lines-cons :
    (line more body : Str) → (line ++ (crlf ++ more)) ++ body ≡ line ++ (crlf ++ (more ++ body))
header_lines-cons line more body = append_assoc line (crlf ++ more) body

read_head-header_lines :
    (hs : Headers) (body : Str)
    → Named IsLine hs
    → read_head [] (header_lines hs ++ (crlf ++ body)) ≡ some (lines_of hs, body)
unfolding header_lines
read_head-header_lines [] body h = read_head-line [] [] body refl
read_head-header_lines ((key, value) ∷ hs) body (n, h) =
    let line : Str = header_line key value in
    ap (read_head []) (header_lines-cons line (header_lines hs) (crlf ++ body))
    ∙ read_head-line [] line (header_lines hs ++ (crlf ++ body)) (header_line-IsLine key value n)
    ∙ at_break-header_line key value _ _
    ∙ ap (in_front line) (read_head-header_lines hs body h)

module _ (o : Outside) (web : Web) where
  abbrev sent_headers : MoonlightClient o.Value → Resp → Headers
  sent_headers client r = insert (chars "Date") web.http_date (
      insert (chars "Content-Length") (decimal (len r.body)) (
        insert (chars "X-Fleet-ID") client.fleet_id (
          insert (chars "X-Device-ID") client.device_id
            (insert (chars "X-Connected") (bool_text client.authenticated) r.headers))))

  sent_headers-Named :
      (client : MoonlightClient o.Value) (r : Resp)
      → Named IsLine r.headers
      → Named IsLine (sent_headers client r)
  sent_headers-Named client r h = insert-Named IsLine _ _ _ refl (
      insert-Named IsLine _ _ _ refl (
        insert-Named IsLine _ _ _ refl
          (insert-Named IsLine _ _ _ refl (insert-Named IsLine _ _ _ refl h))))

  final_headers-Named :
      (client : MoonlightClient o.Value) (r : Resp)
      → Named IsLine r.headers
      → Named IsLine (final_headers o web client r)
  unfolding final_headers
  final_headers-Named client r h =
      let headers : Named IsLine (sent_headers client r) = sent_headers-Named client r h in
      elim (Bool-cases r.is_event_stream) [
        | inl e ↦ rw e (remove-Named IsLine (chars "Content-Length") _ headers)
        | inr e ↦ rw e headers
      ]

  -- Whatever the values of the headers hold, a client reads the status line, one line for each
  -- header, and the body from the text of a response, where the headers' names hold no line breaks
  -- and the map is walked in some order.
  pub compile-read_head :
      (client : MoonlightClient o.Value) (r : Resp)
      → ((P : Str → Type 0) (hs : Headers) → Named P hs → Named P (web.arrange hs))
      → Named IsLine r.headers
      → read_head [] (compile o web client r)
        ≡ some (
          (chars "HTTP/1.1 " ++ to_http r.status_code)
              ∷ lines_of (web.arrange (final_headers o web client r)),
          r.body,
        )
  unfolding compile
  compile-read_head client r arranged h =
      let headers : Headers = web.arrange (final_headers o web client r) in
      read_head-line [] (chars "HTTP/1.1 " ++ to_http r.status_code)
        (header_lines headers ++ (crlf ++ r.body)) (to_http-IsLine r.status_code)
      ∙ ap (in_front (chars "HTTP/1.1 " ++ to_http r.status_code)) (
          read_head-header_lines headers r.body
            (arranged IsLine _ (final_headers-Named client r h)))

  -- The names of a response's headers hold no line breaks from its making on.
  pub new-Named : (code : StatusCode) (body : Str) → Named IsLine (new o web code body).headers
  unfolding new
  new-Named code body = insert-Named IsLine _ _ _ refl (
      insert-Named IsLine _ _ _ refl (
        insert-Named IsLine _ _ _ refl (
          insert-Named IsLine _ _ _ refl (
            insert-Named IsLine _ _ _ refl (
              insert-Named IsLine _ _ _ refl (
                insert-Named IsLine _ _ _ refl
                  (insert-Named IsLine _ _ _ refl (insert-Named IsLine _ _ _ refl tt))))))))

  pub event_stream-Named : Named IsLine (event_stream o web).headers
  unfolding event_stream
  event_stream-Named =
      insert-Named IsLine _ _ _ refl
        (insert-Named IsLine _ _ _ refl (insert-Named IsLine _ _ _ refl (new-Named success [])))

  sent_length :
      (client : MoonlightClient o.Value) (r : Resp)
      → get (chars "Content-Length") (sent_headers client r) ≡ some (decimal (len r.body))
  sent_length client r =
      get-insert_other (chars "Content-Length") (chars "Date") web.http_date _ refl
      ∙ get-insert (chars "Content-Length") (decimal (len r.body)) _

  -- A response announces the bytes of its body, an event stream none.
  pub final_headers-content_length :
      (client : MoonlightClient o.Value) (r : Resp)
      → get (chars "Content-Length") (final_headers o web client r)
        ≡ (if r.is_event_stream then none else some (decimal (len r.body)))
  unfolding final_headers
  final_headers-content_length client r = elim (Bool-cases r.is_event_stream) [
    | inl e ↦ rw e (get-remove (chars "Content-Length") (sent_headers client r))
    | inr e ↦ rw e (sent_length client r)
  ]
