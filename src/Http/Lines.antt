-- ===== src/Http/Lines.antt =====
-- `read_line` of device-agent/src/http_server/request.rs: a line of a request from a buffered
-- reader.
pub mod Chunks
pub mod Written
use devicekit.Prelude.{
  ℕ, zero, suc, ◌+◌, Bool, true, false, Option, none, some, List, [], ◌∷◌, ◌++◌, ◌==◌, ltb, length,
  if◌then◌else◌,
}
use devicekit.Prelude.Text.{Str, chars}
use devicekit.Prelude.Text.Utf8.{from_utf8}
use devicekit.Prelude.Result.{Result, ok, err}
use devicekit.Protocol.{Bytes}
use devicekit.Http.Response.{FailureResp, bad_request}

-- What filling the reader's buffer answers. No bytes are the end of the input; `WouldBlock` and
-- `TimedOut` are `timed_out`.
pub data Fill : Type 0 where
  filled : Bytes → Fill
  interrupted timed_out failed : Fill

-- What is buffered, and how the buffer will be filled; behind the list the input has ended. A new
-- reader's buffer is empty, and in the source it holds 8 KiB, so that no fill is longer than that.
pub record Source : Type 0 where
  pub buffered : Bytes
  pub fills : List Fill

abbrev pub source : Bytes → List Fill → Source
source buffered fills = record { buffered = buffered; fills = fills }

abbrev pub in_front : ℕ → Option (Bytes × Bytes) → Option (Bytes × Bytes)
in_front b none = none
in_front b (some (before, after)) = some (b ∷ before, after)

-- What stands in front of the first newline, and what behind it.
unfoldable pub cut : Bytes → Option (Bytes × Bytes)
cut [] = none
cut (b ∷ bytes) = elim (b == b'\n') [ true ↦ some ([], bytes) | false ↦ in_front b (cut bytes) ]

-- Without the carriage returns at the end.
unfoldable pub strip_cr : Bytes → Bytes
strip_cr [] = []
strip_cr (b ∷ bytes) = elim (strip_cr bytes) [
  | [] ↦ if b == b'\r' then [] else b ∷ []
  | c ∷ rest ↦ b ∷ c ∷ rest
]

-- The line's text, `none` for an empty line.
abbrev pub decoded : Option Str → Result (Option Str) FailureResp
decoded none = err (bad_request (chars "Invalid Encoding"))
decoded (some text) = ok (some text)

unfoldable pub line_of : Bytes → Result (Option Str) FailureResp
line_of [] = ok none
line_of (b ∷ out) = decoded (from_utf8 (b ∷ out))

abbrev pub Line : Type 0
Line = Source × Result (Option Str) FailureResp

abbrev pub too_long : Result (Option Str) FailureResp
too_long = err (bad_request (chars "Line too long"))

abbrev pub at_eof : Bytes → Result (Option Str) FailureResp
at_eof [] = err (bad_request (chars "Unexpected EOF while reading line"))
at_eof (b ∷ out) = err (bad_request (chars "Unexpected EOF in line"))

-- What the loop does with a chunk, where `next` goes on with the bytes so far.
abbrev pub on_chunk : Bytes → Bytes → List Fill → (Bytes → Line) → Option (Bytes × Bytes) → Line
on_chunk out chunk fills next (some (before, after)) =
    if ltb 8_192 (length out + length (strip_cr before))
    then (source chunk fills, too_long)
    else (source after fills, line_of (out ++ strip_cr before))
on_chunk out chunk fills next none = elim (ltb 8_192 (length out + length chunk)) [
  | true ↦ (source chunk fills, too_long)
  | false ↦ next (out ++ chunk)
]

unfoldable pub read_fills : Bytes → List Fill → Line
read_fills out [] = (source [] [], at_eof out)
read_fills out (interrupted ∷ fills) = read_fills out fills
read_fills out (timed_out ∷ fills) =
    (source [] fills, err (bad_request (chars "Timed out reading line")))
read_fills out (failed ∷ fills) = (source [] fills, err (bad_request (chars "Failed reading line")))
read_fills out (filled [] ∷ fills) = (source [] fills, at_eof out)
read_fills out (filled (b ∷ chunk) ∷ fills) =
    on_chunk out (b ∷ chunk) fills (λ out'. read_fills out' fills) (cut (b ∷ chunk))

abbrev pub read_buffered : Bytes → List Fill → Line
read_buffered [] fills = read_fills [] fills
read_buffered (b ∷ chunk) fills =
    on_chunk [] (b ∷ chunk) fills (λ out. read_fills out fills) (cut (b ∷ chunk))

unfoldable pub read_line : Source → Line
read_line s = read_buffered s.buffered s.fills
