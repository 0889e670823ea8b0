-- ===== src/Http/Request/Split.antt =====
-- A request whose blank line comes in two pieces.
use devicekit.Prelude.{◌≡◌, refl, List, [], ◌∷◌}
use devicekit.Prelude.Text.{chars}
use devicekit.Prelude.Text.Utf8.{from_utf8}
use devicekit.Prelude.Result.{ok}
use devicekit.Protocol.{Bytes}
use devicekit.Http.{split_once}
use devicekit.Http.Headers.{Headers}
use devicekit.Http.Lines.{Fill, filled, source, cut, strip_cr, line_of, read_fills, read_line}
use devicekit.Http.Request.{refuse, parse_header, header_loop}
use devicekit.Http.Request.Loop.{loop}

-- The blank line behind the headers ends them where its carriage return and newline come together;
-- where the newline comes with the next piece, the request is refused for a malformed header line.
pub loop-split_blank_line :
    (headers : Headers) (rest : Bytes) (fills : List Fill)
    → ((loop headers (source [] (filled (b'\r' ∷ b'\n' ∷ rest) ∷ fills))).1 ≡ ok headers)
      × ((loop headers (source [] (filled (b'\r' ∷ []) ∷ filled (b'\n' ∷ rest) ∷ fills))).1
          ≡ refuse (chars "Malformed header line"))
unfolding read_line read_fills cut strip_cr line_of from_utf8 parse_header split_once header_loop
loop-split_blank_line headers rest fills = (refl, refl)
