-- ===== src/Http/Lines/Chunks.antt =====
-- A line of a request, however its bytes come in.
use devicekit.Prelude.{
  ℕ, ◌+◌, ◌≤◌, ◌≡◌, ◌≢◌, refl, ap, sym, ◌∙◌, Bool, true, false, Option, none, some, List, [], ◌∷◌,
  ◌++◌, append-nil, append_assoc, ltb, length, length-append, All, if◌then◌else◌, arith,
}
use devicekit.Prelude.Text.{Str}
use devicekit.Prelude.Result.{Result}
use devicekit.Protocol.{Bytes}
use devicekit.Http.Response.{FailureResp}
use devicekit.Http.Lines.{
  Fill, Source, filled, interrupted, Line, source, in_front, on_chunk, cut, strip_cr, line_of,
  too_long, read_fills, read_line,
}

-- The bytes hold no newline.
abbrev pub InLine : Bytes → Type 0
InLine bytes = All (λ b. b ≢ b'\n') bytes

-- The fills bring these bytes, which are in one line.
pub data Brings : List Fill → Bytes → Type 0 where
  nothing : Brings [] []
  interruption :
      {fills : List Fill} {bytes : Bytes} → Brings fills bytes → Brings (interrupted ∷ fills) bytes
  piece :
      {fills : List Fill} {bytes : Bytes} (b : ℕ) (chunk : Bytes)
      → InLine (b ∷ chunk)
      → Brings fills bytes
      → Brings (filled (b ∷ chunk) ∷ fills) ((b ∷ chunk) ++ bytes)

pub cut-line : (line rest : Bytes) → InLine line → cut (line ++ b'\n' ∷ rest) ≡ some (line, rest)
unfolding cut
cut-line [] rest h = refl
cut-line (b ∷ line) rest (n, h) = ground (arith, ap (in_front b) (cut-line line rest h))

cut-none : (bytes : Bytes) → InLine bytes → cut bytes ≡ none
unfolding cut
cut-none [] h = refl
cut-none (b ∷ bytes) (n, h) = ground (arith, ap (in_front b) (cut-none bytes h))

strip_cr-length : (bytes : Bytes) → length (strip_cr bytes) ≤ length bytes
unfolding strip_cr
strip_cr-length [] = omega arith
strip_cr-length (b ∷ bytes) = ground (arith, strip_cr-length bytes)

-- What is answered for a line, by the length of what was read.
abbrev pub answer_of : Bytes → Result (Option Str) FailureResp
answer_of out = if ltb 8_192 (length out) then too_long else line_of out

kept_to_length :
    (n m : ℕ) (a b : Source) (out : Bytes)
    → n ≡ m
    → (if◌then◌else◌ {A = Line} (ltb 8_192 n) (a, too_long) (b, line_of out)).1
      ≡ (if ltb 8_192 m then too_long else line_of out)
kept_to_length n m a b out e = ground arith

last_piece :
    (out line rest : Bytes) (fills : List Fill) (next : Bytes → Line)
    → InLine line
    → (on_chunk out (line ++ b'\n' ∷ rest) fills next (cut (line ++ b'\n' ∷ rest))).1
      ≡ answer_of (out ++ strip_cr line)
last_piece out line rest fills next h =
    ap (λ c. (on_chunk out (line ++ b'\n' ∷ rest) fills next c).1) (cut-line line rest h)
    ∙ kept_to_length (length out + length (strip_cr line)) (length (out ++ strip_cr line)) _ _ _
        (sym (length-append out (strip_cr line)))

read_fills-last :
    (out line rest : Bytes) (fills : List Fill)
    → InLine line
    → (read_fills out (filled (line ++ b'\n' ∷ rest) ∷ fills)).1 ≡ answer_of (out ++ strip_cr line)
unfolding read_fills
read_fills-last out [] rest fills h = last_piece out [] rest fills (λ o. read_fills o fills) h
read_fills-last out (b ∷ line) rest fills h =
    last_piece out (b ∷ line) rest fills (λ o. read_fills o fills) h

regroup :
    (out chunk bytes line : Bytes)
    → (out ++ chunk) ++ (bytes ++ line) ≡ out ++ ((chunk ++ bytes) ++ line)
regroup out chunk bytes line = grind (arith, append_assoc)

longer :
    (out chunk more : Bytes)
    → ltb 8_192 (length out + length chunk) ≡ true
    → ltb 8_192 (length ((out ++ chunk) ++ more)) ≡ true
longer out chunk more h = ground (arith, length-append (out ++ chunk) more, length-append out chunk)

continued_if :
    (too_far : Bool) (out chunk more : Bytes) (a : Source) (r : Line)
    → ltb 8_192 (length out + length chunk) ≡ too_far
    → r.1 ≡ answer_of ((out ++ chunk) ++ more)
    → (elim too_far as (λ _. Line) [ true ↦ (a, too_long) | false ↦ r ]).1
      ≡ answer_of ((out ++ chunk) ++ more)
continued_if true out chunk more a r h e =
    sym
      (ap (λ t. if t then too_long else line_of ((out ++ chunk) ++ more)) (longer out chunk more h))
continued_if false out chunk more a r h e = e

continued :
    (out chunk bytes line : Bytes) (a : Source) (r : Line)
    → r.1 ≡ answer_of ((out ++ chunk) ++ (bytes ++ line))
    → (elim (ltb 8_192 (length out + length chunk)) as (λ _. Line) [
      | true ↦ (a, too_long)
      | false ↦ r
    ]).1
      ≡ answer_of (out ++ ((chunk ++ bytes) ++ line))
continued out chunk bytes line a r e =
    continued_if (ltb 8_192 (length out + length chunk)) out chunk (bytes ++ line) a r refl e
    ∙ ap answer_of (regroup out chunk bytes line)

pub read_fills-Brings :
    (first : List Fill) (bytes : Bytes) (out line rest : Bytes) (fills : List Fill)
    → Brings first bytes
    → InLine line
    → (read_fills out (first ++ filled (line ++ b'\n' ∷ rest) ∷ fills)).1
      ≡ answer_of (out ++ (bytes ++ strip_cr line))
unfolding read_fills
read_fills-Brings _ _ out line rest fills nothing h = read_fills-last out line rest fills h
read_fills-Brings _ _ out line rest fills (interruption b) h =
    read_fills-Brings _ _ out line rest fills b h
read_fills-Brings _ _ out line rest fills (piece {fills = more} {bytes = bytes} c chunk n b) h =
    let behind : List Fill = more ++ filled (line ++ b'\n' ∷ rest) ∷ fills in
    ap (λ p. (on_chunk out (c ∷ chunk) behind (λ o. read_fills o behind) p).1)
      (cut-none (c ∷ chunk) n)
    ∙ continued out (c ∷ chunk) bytes (strip_cr line) (source (c ∷ chunk) behind)
        (read_fills (out ++ c ∷ chunk) behind)
        (read_fills-Brings _ _ (out ++ c ∷ chunk) line rest fills b h)

-- However a line's bytes come in, in pieces that hold no newline and a last piece `line` up to the
-- newline, the line is what the pieces hold one behind the other, the last one without its carriage
-- returns; where that is longer than 8 KiB, it is refused.
pub read_line-Brings :
    (first : List Fill) (bytes line rest : Bytes) (fills : List Fill)
    → Brings first bytes
    → InLine line
    → (read_line (source [] (first ++ filled (line ++ b'\n' ∷ rest) ∷ fills))).1
      ≡ answer_of (bytes ++ strip_cr line)
unfolding read_line
read_line-Brings first bytes line rest fills b h =
    read_fills-Brings first bytes [] line rest fills b h

pub strip_cr-cr : (line : Bytes) → strip_cr (line ++ b'\r' ∷ []) ≡ strip_cr line
unfolding strip_cr
strip_cr-cr [] = refl
strip_cr-cr (b ∷ line) = rw (strip_cr-cr line) refl

pub InLine-cr : (line : Bytes) → InLine line → InLine (line ++ b'\r' ∷ [])
InLine-cr [] h = (λ e. absurd (omega arith), h)
InLine-cr (b ∷ line) (n, h) = (n, InLine-cr line h)

split_off :
    (b : ℕ) (piece_bytes rest : Bytes) (fills : List Fill)
    → InLine (b ∷ piece_bytes)
    → (read_line (source [] (filled (b ∷ piece_bytes) ∷ filled (b'\n' ∷ rest) ∷ fills))).1
      ≡ answer_of (b ∷ piece_bytes)
unfolding strip_cr
split_off b bytes rest fills h =
    read_line-Brings (filled (b ∷ bytes) ∷ []) ((b ∷ bytes) ++ []) [] rest fills
      (piece b bytes h nothing) tt
    ∙ ap answer_of (append-nil ((b ∷ bytes) ++ []) ∙ append-nil (b ∷ bytes))

split_cr :
    (line rest : Bytes) (fills : List Fill)
    → InLine line
    → (read_line (source [] (filled (line ++ b'\r' ∷ []) ∷ filled (b'\n' ∷ rest) ∷ fills))).1
      ≡ answer_of (line ++ b'\r' ∷ [])
split_cr [] rest fills h = split_off b'\r' [] rest fills (InLine-cr [] h)
split_cr (b ∷ line) rest fills h =
    split_off b (line ++ b'\r' ∷ []) rest fills (InLine-cr (b ∷ line) h)

-- Where a line's carriage return and newline come together, all carriage returns at its end are
-- taken off; where the newline comes with the next piece, they stay in the line.
pub read_line-split_crlf :
    (line rest : Bytes) (fills : List Fill)
    → InLine line
    → ((read_line (source [] (filled ((line ++ b'\r' ∷ []) ++ b'\n' ∷ rest) ∷ fills))).1
        ≡ answer_of (strip_cr line))
      × ((read_line (source [] (filled (line ++ b'\r' ∷ []) ∷ filled (b'\n' ∷ rest) ∷ fills))).1
          ≡ answer_of (line ++ b'\r' ∷ []))
read_line-split_crlf line rest fills h =
    let together =
      read_line-Brings [] [] (line ++ b'\r' ∷ []) rest fills nothing (InLine-cr line h) in
    (together ∙ ap answer_of (strip_cr-cr line), split_cr line rest fills h)
