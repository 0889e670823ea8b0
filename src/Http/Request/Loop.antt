-- ===== src/Http/Request/Loop.antt =====
-- The loop over the header lines ends.
use devicekit.Prelude.{
  ℕ, zero, suc, ◌+◌, ◌≤◌, ◌<◌, ◌≡◌, refl, Bool, true, false, Option, none, some, List, [], ◌∷◌,
  ◌++◌, length, ltb, ◌==◌, if◌then◌else◌, arith,
}
use devicekit.Prelude.Text.{Str}
use devicekit.Prelude.Result.{Result, ok, err}
use devicekit.Protocol.{Bytes}
use devicekit.Http.Headers.{Headers}
use devicekit.Http.Response.{FailureResp}
use devicekit.Http.Lines.{
  Fill, filled, interrupted, timed_out, failed, Source, source, Line, cut, strip_cr, line_of,
  in_front, on_chunk, read_fills, read_line, too_long, at_eof, read_buffered,
}
use devicekit.Http.Parse.{Parse, and_then}
use devicekit.Http.Request.{on_line, header_loop, parse_header, size, fills_size}

-- The two parts and the newline have so many bytes.
abbrev Adds : ℕ → Option (Bytes × Bytes) → Type 0
Adds n none = Unit {0}
Adds n (some (before, after)) = length before + suc (length after) ≡ n

in_front-Adds :
    (n b : ℕ) (parts : Option (Bytes × Bytes)) → Adds n parts → Adds (suc n) (in_front b parts)
in_front-Adds n b none h = tt
in_front-Adds n b (some (before, after)) h = omega arith

cut_step-Adds :
    (here : Bool) (b : ℕ) (bytes : Bytes)
    → Adds (length bytes) (cut bytes)
    → Adds (suc (length bytes)) (elim here as (λ _. Option (Bytes × Bytes)) [
      | true ↦ some ([], bytes)
      | false ↦ in_front b (cut bytes)
    ])
cut_step-Adds true b bytes h = omega arith
cut_step-Adds false b bytes h = in_front-Adds (length bytes) b (cut bytes) h

cut-Adds : (bytes : Bytes) → Adds (length bytes) (cut bytes)
unfolding cut
cut-Adds [] = tt
cut-Adds (b ∷ bytes) = cut_step-Adds (b == b'\n') b bytes (cut-Adds bytes)

-- A line that is read leaves fewer bytes.
abbrev Shrinks : ℕ → Line → Type 0
Shrinks n (s, ok line) = size s < n
Shrinks n (s, err e) = Unit {0}

read-Shrinks :
    (n : ℕ) (s : Source) (r : Result (Option Str) FailureResp) → size s < n → Shrinks n (s, r)
read-Shrinks n s (ok line) h = h
read-Shrinks n s (err e) h = tt

Shrinks-le : (n m : ℕ) (l : Line) → n ≤ m → Shrinks n l → Shrinks m l
Shrinks-le n m (s, ok line) le h = omega arith
Shrinks-le n m (s, err e) le h = tt

kept-Shrinks :
    (c : Bool) (n : ℕ) (s s' : Source) (r : Result (Option Str) FailureResp)
    → size s' < n
    → Shrinks n (if c then (s, too_long) else (s', r))
kept-Shrinks true n s s' r h = tt
kept-Shrinks false n s s' r h = read-Shrinks n s' r h

more-Shrinks :
    (c : Bool) (n : ℕ) (s : Source) (l : Line)
    → Shrinks n l
    → Shrinks n (elim c as (λ _. Line) [ true ↦ (s, too_long) | false ↦ l ])
more-Shrinks true n s l h = tt
more-Shrinks false n s l h = h

on_chunk-Shrinks :
    (out chunk : Bytes) (fills : List Fill) (next : Bytes → Line) (parts : Option (Bytes × Bytes))
    → Adds (length chunk) parts
    → ((o : Bytes) → Shrinks (fills_size fills) (next o))
    → Shrinks (length chunk + fills_size fills) (on_chunk out chunk fills next parts)
on_chunk-Shrinks out chunk fills next (some (before, after)) a h =
    kept-Shrinks (ltb 8_192 (length out + length (strip_cr before))) _ (source chunk fills)
      (source after fills) (line_of (out ++ strip_cr before)) (omega arith)
on_chunk-Shrinks out chunk fills next none a h =
    more-Shrinks (ltb 8_192 (length out + length chunk)) _ (source chunk fills)
      (next (out ++ chunk))
      (Shrinks-le (fills_size fills) _ (next (out ++ chunk)) (omega arith) (h (out ++ chunk)))

at_eof-Shrinks : (n : ℕ) (s : Source) (out : Bytes) → Shrinks n (s, at_eof out)
at_eof-Shrinks n s [] = tt
at_eof-Shrinks n s (b ∷ out) = tt

read_fills-Shrinks :
    (out : Bytes) (fills : List Fill) → Shrinks (fills_size fills) (read_fills out fills)
unfolding read_fills
read_fills-Shrinks out [] = at_eof-Shrinks 0 (source [] []) out
read_fills-Shrinks out (interrupted ∷ fills) = read_fills-Shrinks out fills
read_fills-Shrinks out (timed_out ∷ fills) = tt
read_fills-Shrinks out (failed ∷ fills) = tt
read_fills-Shrinks out (filled [] ∷ fills) = at_eof-Shrinks _ (source [] fills) out
read_fills-Shrinks out (filled (b ∷ chunk) ∷ fills) =
    on_chunk-Shrinks out (b ∷ chunk) fills (λ o. read_fills o fills) (cut (b ∷ chunk))
      (cut-Adds (b ∷ chunk)) (λ o. read_fills-Shrinks o fills)

read_buffered-Shrinks :
    (buffered : Bytes) (fills : List Fill)
    → Shrinks (length buffered + fills_size fills) (read_buffered buffered fills)
read_buffered-Shrinks [] fills =
    Shrinks-le (fills_size fills) _ (read_fills [] fills) (omega arith)
      (read_fills-Shrinks [] fills)
read_buffered-Shrinks (b ∷ chunk) fills =
    on_chunk-Shrinks [] (b ∷ chunk) fills (λ o. read_fills o fills) (cut (b ∷ chunk))
      (cut-Adds (b ∷ chunk)) (λ o. read_fills-Shrinks o fills)

read_line-Shrinks : (s : Source) → Shrinks (size s) (read_line s)
unfolding read_line
read_line-Shrinks s = read_buffered-Shrinks s.buffered s.fills

parsed_agrees :
    (f g : Headers → Parse Headers) (s : Source) (r : Result Headers FailureResp)
    → ((hs : Headers) → f hs s ≡ g hs s)
    → and_then (s, r) f ≡ and_then (s, r) g
parsed_agrees f g s (ok hs) same = same hs
parsed_agrees f g s (err e) same = refl

-- One round of the loop does the same for all fuel above what the source holds.
round_agrees :
    (n : ℕ) (f g : Headers → Parse Headers) (headers : Headers) (l : Line)
    → Shrinks n l
    → ((hs : Headers) (s : Source) → size s < n → f hs s ≡ g hs s)
    → and_then l (λ line. on_line f headers line) ≡ and_then l (λ line. on_line g headers line)
round_agrees n f g headers (s, err e) h same = refl
round_agrees n f g headers (s, ok none) h same = refl
round_agrees n f g headers (s, ok (some line)) h same =
    parsed_agrees f g s (parse_header headers line) (λ hs. same hs s h)

header_loop_agrees :
    (n m : ℕ) (headers : Headers) (s : Source)
    → size s < n
    → size s < m
    → header_loop n headers s ≡ header_loop m headers s
unfolding header_loop
header_loop_agrees zero m headers s h k = absurd (omega arith)
header_loop_agrees (suc n) zero headers s h k = absurd (omega arith)
header_loop_agrees (suc n) (suc m) headers s h k =
    round_agrees (size s) (header_loop n) (header_loop m) headers (read_line s)
      (read_line-Shrinks s) (λ hs s' lt. header_loop_agrees n m hs s' (omega arith) (omega arith))

-- `parse_request_headers` with the headers so far.
abbrev pub loop : Headers → Parse Headers
loop headers s = header_loop (suc (size s)) headers s

-- The loop over the header lines does one round, reads a line and ends or goes on with what is left,
-- whatever the source holds: it never stops for want of fuel.
pub header_loop-unrolled :
    (headers : Headers) (s : Source)
    → loop headers s ≡ and_then (read_line s) (λ line. on_line loop headers line)
unfolding header_loop
header_loop-unrolled headers s =
    round_agrees (size s) (header_loop (size s)) loop headers (read_line s) (read_line-Shrinks s)
      (λ hs s' lt. header_loop_agrees (size s) (suc (size s')) hs s' lt (omega arith))
