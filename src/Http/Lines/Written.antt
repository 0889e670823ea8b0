-- ===== src/Http/Lines/Written.antt =====
-- A line of text that is written to a socket is read back.
use devicekit.Prelude.{
  ℕ, ◌+◌, ◌≤◌, ◌≡◌, ◌≢◌, refl, ap, subst, sym, ◌∙◌, false, none, some, List, [], ◌∷◌, ◌++◌,
  append_assoc, ltb, length, length-append, All, if◌then◌else◌, arith,
}
use devicekit.Prelude.Text.{Str, as_bytes, utf8_char, len}
use devicekit.Prelude.Text.Utf8.{from_utf8, IsScalar, utf8_char-pos, from_utf8-as_bytes}
use devicekit.Prelude.Result.{ok}
use devicekit.Protocol.{Bytes}
use devicekit.Http.Response.{crlf}
use devicekit.Http.Response.Compiled.{IsLine, is_break}
use devicekit.Http.Lines.{
  Fill, source, Line, on_chunk, cut, strip_cr, line_of, decoded, read_fills, read_line,
}
use devicekit.Http.Lines.Chunks.{InLine, cut-line, strip_cr-cr, InLine-cr}

-- No byte of a text without line breaks is one of a line break.
abbrev pub IsPlain : Bytes → Type 0
IsPlain bytes = All (λ b. is_break b ≡ false) bytes

utf8_char-IsPlain : (c : ℕ) → is_break c ≡ false → IsPlain (utf8_char c)
utf8_char-IsPlain c h = ground arith

append-IsPlain : (xs ys : Bytes) → IsPlain xs → IsPlain ys → IsPlain (xs ++ ys)
append-IsPlain [] ys h k = k
append-IsPlain (x ∷ xs) ys (n, h) k = (n, append-IsPlain xs ys h k)

as_bytes-IsPlain : (s : Str) → IsLine s → IsPlain (as_bytes s)
unfolding as_bytes
as_bytes-IsPlain [] h = tt
as_bytes-IsPlain (c ∷ s) h =
    append-IsPlain (utf8_char c) (as_bytes s) (utf8_char-IsPlain c (ground arith))
      (as_bytes-IsPlain s (ground arith))

plain-InLine : (bytes : Bytes) → IsPlain bytes → InLine bytes
plain-InLine [] h = tt
plain-InLine (b ∷ bytes) (n, h) = (λ e. absurd (ground arith), plain-InLine bytes h)

strip_cr-plain : (bytes : Bytes) → IsPlain bytes → strip_cr bytes ≡ bytes
unfolding strip_cr
strip_cr-plain [] h = refl
strip_cr-plain (b ∷ []) (n, h) = ground arith
strip_cr-plain (b ∷ c ∷ bytes) (n, h) = rw (strip_cr-plain (c ∷ bytes) h) refl

cut_off :
    (line rest : Bytes)
    → IsPlain line
    → cut (line ++ (crlf ++ rest)) ≡ some (line ++ b'\r' ∷ [], rest)
cut_off line rest h =
    ap cut (sym (append_assoc line (b'\r' ∷ []) (b'\n' ∷ rest)))
    ∙ cut-line (line ++ b'\r' ∷ []) rest (InLine-cr line (plain-InLine line h))

short_enough : (n : ℕ) (a b : Line) → n ≤ 8_192 → (if ltb 8_192 (0 + n) then a else b) ≡ b
short_enough n a b h = ground arith

on_chunk-plain :
    (line rest chunk : Bytes) (fills : List Fill) (next : Bytes → Line)
    → IsPlain line
    → length line ≤ 8_192
    → on_chunk [] chunk fills next (some (line ++ b'\r' ∷ [], rest))
      ≡ (source rest fills, line_of line)
on_chunk-plain line rest chunk fills next h short =
    let bare : strip_cr (line ++ b'\r' ∷ []) ≡ line = strip_cr-cr line ∙ strip_cr-plain line h in
    short_enough (length (strip_cr (line ++ b'\r' ∷ []))) _ _
      (subst (λ l. length l ≤ 8_192) (sym bare) short)
    ∙ ap (λ l. (source rest fills, line_of l)) bare

read_line-plain :
    (line rest : Bytes) (fills : List Fill)
    → IsPlain line
    → length line ≤ 8_192
    → read_line (source (line ++ (crlf ++ rest)) fills) ≡ (source rest fills, line_of line)
unfolding read_line
read_line-plain [] rest fills h short =
    ap (on_chunk [] (crlf ++ rest) fills (λ o. read_fills o fills)) (cut_off [] rest h)
    ∙ on_chunk-plain [] rest (crlf ++ rest) fills (λ o. read_fills o fills) h short
read_line-plain (b ∷ line) rest fills h short =
    let chunk : Bytes = (b ∷ line) ++ (crlf ++ rest) in
    ap (on_chunk [] chunk fills (λ o. read_fills o fills)) (cut_off (b ∷ line) rest h)
    ∙ on_chunk-plain (b ∷ line) rest chunk fills (λ o. read_fills o fills) h short

line_of-cons :
    (bytes : Bytes) (text : Str)
    → bytes ≢ []
    → from_utf8 bytes ≡ some text
    → line_of bytes ≡ ok (some text)
unfolding line_of
line_of-cons [] text n e = absurd (n refl)
line_of-cons (b ∷ bytes) text n e = ap decoded e

as_bytes-nonempty : (c : ℕ) (s : Str) → as_bytes (c ∷ s) ≢ []
unfolding as_bytes
as_bytes-nonempty c s e =
    omega (arith, ap length e, utf8_char-pos c, length-append (utf8_char c) (as_bytes s))

-- What a writer's line may be: text without line breaks, of at most 8 KiB.
abbrev pub IsWritten : Str → Type 0
IsWritten s = IsLine s × All IsScalar s × (len s ≤ 8_192)

-- A line that is written with its line break is read as it was, and what is behind it is left.
pub read_line-as_bytes :
    (c : ℕ) (s : Str) (rest : Bytes) (fills : List Fill)
    → IsWritten (c ∷ s)
    → read_line (source (as_bytes (c ∷ s) ++ (crlf ++ rest)) fills)
      ≡ (source rest fills, ok (some (c ∷ s)))
read_line-as_bytes c s rest fills (plain, scalars, short) =
    read_line-plain (as_bytes (c ∷ s)) rest fills (as_bytes-IsPlain (c ∷ s) plain) short
    ∙ ap (λ l. (source rest fills, l))
        (line_of-cons (as_bytes (c ∷ s)) (c ∷ s) (as_bytes-nonempty c s)
          (from_utf8-as_bytes (c ∷ s) scalars))

-- And an empty one ends the head.
pub read_line-blank :
    (rest : Bytes) (fills : List Fill)
    → read_line (source (crlf ++ rest) fills) ≡ (source rest fills, ok none)
unfolding line_of
read_line-blank rest fills = read_line-plain [] rest fills tt (omega arith)
