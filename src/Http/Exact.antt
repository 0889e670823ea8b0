-- ===== src/Http/Exact.antt =====
-- `read_exact` of a buffered reader, by which device-agent/src/http_server/request.rs reads a body.
use devicekit.Prelude.{
  ℕ, ◌-◌, true, false, Option, none, some, List, [], ◌∷◌, ◌++◌, leb, length, take, drop,
  if◌then◌else◌,
}
use devicekit.Protocol.{Bytes}
use devicekit.Http.Lines.{Fill, filled, interrupted, timed_out, failed, Source, source}

-- `read_exact`, `none` for an error.
unfoldable pub read_exact_fills : ℕ → Bytes → List Fill → Source × Option Bytes
read_exact_fills n out [] = (source [] [], none)
read_exact_fills n out (interrupted ∷ fills) = read_exact_fills n out fills
read_exact_fills n out (timed_out ∷ fills) = (source [] fills, none)
read_exact_fills n out (failed ∷ fills) = (source [] fills, none)
read_exact_fills n out (filled [] ∷ fills) = (source [] fills, none)
read_exact_fills n out (filled (b ∷ chunk) ∷ fills) = elim (leb n (length (b ∷ chunk))) [
  | true ↦ (source (drop n (b ∷ chunk)) fills, some (out ++ take n (b ∷ chunk)))
  | false ↦ read_exact_fills (n - length (b ∷ chunk)) (out ++ b ∷ chunk) fills
]

unfoldable pub read_exact : ℕ → Source → Source × Option Bytes
read_exact n s =
    if leb n (length s.buffered)
    then (source (drop n s.buffered) s.fills, some (take n s.buffered))
    else read_exact_fills (n - length s.buffered) s.buffered s.fills
