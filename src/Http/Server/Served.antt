-- ===== src/Http/Server/Served.antt =====
-- A request with the ids of the agent and a JSON body is handled by its route.
use devicekit.Prelude.{
  ℕ, suc, ◌*◌, ◌≤◌, ◌≡◌, ◌≢◌, refl, ap, sym, ◌∙◌, true, false, Option, some, List, [], ◌∷◌, ◌++◌,
  leb, ltb, length, length-append, take, drop-length-append, All, arith,
}
use devicekit.Prelude.Text.{Str, chars, starts_with, parse_u64}
use devicekit.Prelude.Result.{ok}
use devicekit.Outside.{Outside}
use devicekit.Protocol.{Bytes, PulseType}
use devicekit.Session.State.{MoonlightClient, Mailbox}
use devicekit.Client.State.{ClientCmd, cmd}
use devicekit.Http.{Method, post, Action, route, is_valid_pulse_name}
use devicekit.Http.Routes.{pulse_path, route-pulse_path}
use devicekit.Http.Headers.{Headers, get}
use devicekit.Http.Response.{Web}
use devicekit.Http.Lines.{Fill, Source, source}
use devicekit.Http.Lines.Written.{IsWritten}
use devicekit.Http.Commands.{Exchange, wait_for_connected, send_pulse, send_pulse_resp, result_of}
use devicekit.Http.Commands.Answers.{make_request-sent}
use devicekit.Http.Exact.{read_exact}
use devicekit.Http.Request.{
  req, is_chunked, body_length, authenticate, parse_request, parse_request_body,
}
use devicekit.Http.Request.Authorized.{CarriesIds, HasIds, validate_headers-CarriesIds}
use devicekit.Http.Request.Words.{IsWord, Keeps, line_text}
use devicekit.Http.Request.Written.{IsHeader, request_bytes, stored, parse_request-buffered}
use devicekit.Http.Server.{SocketContext, perform, handle, compiled, handle_request}

take-length-append : (xs ys : Bytes) → take (length xs) (xs ++ ys) ≡ xs
take-length-append [] ys = refl
take-length-append (x ∷ xs) ys = ap (λ r. x ∷ r) (take-length-append xs ys)

-- Bytes that are buffered are read as they are.
read_exact-buffered :
    (bytes behind : Bytes) (fills : List Fill)
    → read_exact (length bytes) (source (bytes ++ behind) fills) ≡ (source behind fills, some bytes)
unfolding read_exact
read_exact-buffered bytes behind fills =
    let here : leb (length bytes) (length (bytes ++ behind)) ≡ true =
      ground (arith, length-append bytes behind) in
    rw (here, drop-length-append bytes behind, take-length-append bytes behind) refl

-- The text of a POST.
abbrev pub IsPost : Str → Headers → Type 0
IsPost path hs =
    IsWord (b'/' ∷ path)
    × IsWritten (line_text post (b'/' ∷ path))
    × All IsHeader hs
    × (length hs ≤ 64)

-- The agent, with the pulse on its way.
abbrev pub with_sent : {V : Type 0} → SocketContext V → Mailbox V → ClientCmd V → SocketContext V
with_sent ctx m command = record ctx {
  client = record ctx.client {
    mailbox_chan = some (record m { sent = m.sent ++ (cmd command ∷ []) });
  };
}

module _ (o : Outside) where
  -- Headers that announce a JSON body of so many bytes.
  abbrev pub AnnouncesJson : Headers → ℕ → Type 0
  AnnouncesJson hs n =
      (is_chunked (get (chars "transfer-encoding") hs) ≡ false)
      × ((type_ : Str) × (get (chars "content-type") hs ≡ some type_)
          × (starts_with (chars "application/json") (o.to_lowercase type_) ≡ true))
      × ((text : Str) × (get (chars "content-length") hs ≡ some text) × (parse_u64 text ≡ some n))

  body_length-AnnouncesJson :
      (hs : Headers) (n : ℕ)
      → AnnouncesJson hs (suc n)
      → suc n ≤ 64 * 1024
      → body_length o hs ≡ ok (suc n)
  unfolding body_length
  body_length-AnnouncesJson hs n (whole, (type_, typed, json), (text, there, parsed)) short =
      let fits : ltb (64 * 1024) (suc n) ≡ false = ground arith in
      rw (whole, typed, there, parsed, fits, json) refl

  parse_request_body-AnnouncesJson :
      (hs : Headers) (b : ℕ) (body behind : Bytes) (fills : List Fill) (v : o.Value)
      → AnnouncesJson hs (length (b ∷ body))
      → length (b ∷ body) ≤ 64 * 1024
      → o.from_slice (b ∷ body) ≡ some v
      → parse_request_body o hs (source ((b ∷ body) ++ behind) fills)
        ≡ (source behind fills, ok (some v))
  unfolding parse_request_body
  parse_request_body-AnnouncesJson hs b body behind fills v announced short parsed =
      rw
        (
          body_length-AnnouncesJson hs (length body) announced short,
          read_exact-buffered (b ∷ body) behind fills,
          parsed,
        )
        refl

  authenticate-CarriesIds :
      (client : MoonlightClient o.Value) (method : Method) (path : Str) (hs : Headers)
      (s s' : Source) (v : Option o.Value)
      → HasIds o client
      → CarriesIds o client hs
      → parse_request_body o hs s ≡ (s', ok v)
      → authenticate o client method path hs false s ≡ (s', ok (req o method path hs v))
  authenticate-CarriesIds client method path hs s s' v has ids body =
      rw (validate_headers-CarriesIds o hs client has ids, body) refl

  -- A request's body, with the headers that go with it: the client's ids, and a JSON text of 1 byte
  -- to 64 KiB that stands for a value.
  abbrev pub CarriesJson : MoonlightClient o.Value → Headers → Bytes → o.Value → Type 0
  CarriesJson client hs body v =
      CarriesIds o client hs
      × AnnouncesJson hs (length body)
      × (length body ≤ 64 * 1024)
      × (o.from_slice body ≡ some v)

  -- The client is seen connected, and commands reach its session.
  abbrev pub Reaches : Exchange o.Value → MoonlightClient o.Value → Mailbox o.Value → Type 0
  Reaches x client m =
      (wait_for_connected x.polls x.at_end ≡ true)
      × (client.poisoned ≡ false)
      × (client.mailbox_chan ≡ some m)
      × (m.receives ≡ true)

  parse_request-post :
      (client : MoonlightClient o.Value) (path : Str) (hs : Headers) (b : ℕ) (body behind : Bytes)
      (fills : List Fill) (v : o.Value)
      → Keeps o.to_uppercase
      → IsPost path hs
      → HasIds o client
      → CarriesJson client (stored [] hs) (b ∷ body) v
      → parse_request o client
          (source (request_bytes post (b'/' ∷ path) hs ((b ∷ body) ++ behind)) fills)
        ≡ (source behind fills, ok (req o post (b'/' ∷ path) (stored [] hs) (some v)))
  parse_request-post client path hs b body behind fills v keeps (word, written, headers, few) has
        (ids, announced, short, parsed) =
      parse_request-buffered o client post path hs ((b ∷ body) ++ behind) fills keeps word written
        headers few
      ∙ authenticate-CarriesIds client post (b'/' ∷ path) (stored [] hs) _ (source behind fills)
          (some v) has ids
          (parse_request_body-AnnouncesJson (stored [] hs) b body behind fills v announced short
            parsed)

  module _ (web : Web) where
    perform-send_pulse :
        (x : Exchange o.Value) (ctx : SocketContext o.Value) (m : Mailbox o.Value) (t : PulseType)
        (name : Str) (body : Option o.Value)
        → Reaches x ctx.client m
        → perform o web x body (Action.send_pulse t name) ctx
          ≡ some (
            with_sent ctx m (ClientCmd.send_pulse t name body x.chan),
            send_pulse_resp o web (result_of x.answer),
          )
    unfolding perform send_pulse
    perform-send_pulse x ctx m t name body (connected, alive, open_, receives) =
        rw
          (
            make_request-sent x (ClientCmd.send_pulse t name body x.chan) ctx.client m alive open_
                receives,
            connected,
          )
          refl

    -- A POST to a pulse's path with a valid name behind it, with the ids of the agent and a JSON body
    -- of 1 byte to 64 KiB, puts just that pulse, with the body's value as its payload, behind what
    -- the session has been sent, where the client is seen connected; nothing else changes, and the
    -- answer is the one for the result that comes on the request's channel. The request's lines are
    -- as `parse_request-buffered` has them, and the body is buffered with them.
    pub handle_request-pulse :
        (x : Exchange o.Value) (ctx : SocketContext o.Value) (m : Mailbox o.Value) (t : PulseType)
        (name path : Str) (hs : Headers) (b : ℕ) (body behind : Bytes) (fills : List Fill)
        (v : o.Value)
        → Keeps o.to_uppercase
        → pulse_path t ++ name ≡ b'/' ∷ path
        → t ≢ PulseType.unknown
        → is_valid_pulse_name name ≡ true
        → IsPost path hs
        → HasIds o ctx.client
        → CarriesJson ctx.client (stored [] hs) (b ∷ body) v
        → Reaches x ctx.client m
        → handle_request o web x
            (source (request_bytes post (b'/' ∷ path) hs ((b ∷ body) ++ behind)) fills)
            ctx
          ≡ compiled o web (
              some (
                with_sent ctx m (ClientCmd.send_pulse t name (some v) x.chan),
                send_pulse_resp o web (result_of x.answer),
              ))
    unfolding handle_request
    handle_request-pulse x ctx m t name path hs b body behind fills v keeps path_of known valid
          is_post has carries reaches =
        ap (λ r. compiled o web (handle o web x r.1 ctx))
          (parse_request-post ctx.client path hs b body behind fills v keeps is_post has carries)
        ∙ ap (λ action. compiled o web (perform o web x (some v) action ctx))
            (ap (route post) (sym path_of) ∙ route-pulse_path t name known valid)
        ∙ ap (compiled o web) (perform-send_pulse x ctx m t name (some v) reaches)
