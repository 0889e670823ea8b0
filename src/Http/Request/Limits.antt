-- ===== src/Http/Request/Limits.antt =====
-- How much a request may hold.
use devicekit.Prelude.{
  ℕ, zero, suc, ◌≤◌, ◌≡◌, refl, subst, inl, inr, Bool, true, false, Option, none, some, [], ◌∷◌,
  length, leb, if◌then◌else◌, Bool-cases, arith,
}
use devicekit.Prelude.Text.{Str, chars, str_eq, is_empty, to_ascii_lowercase, trim}
use devicekit.Prelude.Result as Result
use devicekit.Prelude.Result.{Result, ok, err, Result-cases}
use devicekit.Http.{split_once}
use devicekit.Http.Headers.{Headers, insert}
use devicekit.Http.Response.{FailureResp}
use devicekit.Http.Lines.{Source, Line, read_line}
use devicekit.Http.Parse.{Parsed, Parse, and_then}
use devicekit.Http.Request.{
  on_line, header_loop, parse_header, parse_request_headers, header_of, size, or_refuse,
}

pub insert-length :
    (key value : Str) (hs : Headers) → length (insert key value hs) ≤ suc (length hs)
unfolding insert
insert-length key value [] = omega arith
insert-length key value ((k, v) ∷ hs) = elim (Bool-cases (str_eq k key)) [
  | inl h ↦ rw h (omega arith)
  | inr h ↦ let rest = insert-length key value hs in rw h (omega arith)
]

-- At most 64 headers.
abbrev Fits : Result Headers FailureResp → Type 0
Fits (ok hs) = length hs ≤ 64
Fits (err e) = Unit {0}

stored-Fits :
    (empty full : Bool) (e e' : FailureResp) (name value : Str) (hs : Headers)
    → leb 64 (length hs) ≡ full
    → Fits (if empty then err e else if full then err e' else ok (insert name value hs))
stored-Fits true full e e' name value hs h = tt
stored-Fits false true e e' name value hs h = tt
stored-Fits false false e e' name value hs h = ground (arith, insert-length name value hs)

parse_header-Fits : (hs : Headers) (line : Str) → Fits (parse_header hs line)
unfolding parse_header
parse_header-Fits hs line = parts-Fits hs (split_once b':' line)
  where
    parts-Fits :
        (hs : Headers) (parts : Option (Str × Str))
        → Fits
            (Result.◌>>=◌ (or_refuse (chars "Malformed header line") parts) (λ p. header_of hs p))
    parts-Fits hs none = tt
    parts-Fits hs (some (name, value)) =
        stored-Fits (is_empty (to_ascii_lowercase (trim name))) (leb 64 (length hs)) _ _ _ _ hs refl

abbrev Short : Parsed Headers → Type 0
Short (s, r) = Fits r

parsed-Short :
    (f : Headers → Parse Headers) (s : Source) (r : Result Headers FailureResp)
    → Fits r
    → ((hs : Headers) (s' : Source) → length hs ≤ 64 → Short (f hs s'))
    → Short (and_then (s, r) f)
parsed-Short f s (ok hs) h next = next hs s h
parsed-Short f s (err e) h next = tt

round-Short :
    (f : Headers → Parse Headers) (hs : Headers) (l : Line)
    → length hs ≤ 64
    → ((hs' : Headers) (s : Source) → length hs' ≤ 64 → Short (f hs' s))
    → Short (and_then l (λ line. on_line f hs line))
round-Short f hs (s, err e) h next = tt
round-Short f hs (s, ok none) h next = h
round-Short f hs (s, ok (some line)) h next =
    parsed-Short f s (parse_header hs line) (parse_header-Fits hs line) next

header_loop-Short :
    (n : ℕ) (hs : Headers) (s : Source) → length hs ≤ 64 → Short (header_loop n hs s)
unfolding header_loop
header_loop-Short zero hs s h = tt
header_loop-Short (suc n) hs s h =
    round-Short (λ hs'. header_loop n hs') hs (read_line s) h
      (λ hs' s' h'. header_loop-Short n hs' s' h')

-- The headers that are read number 64 at most, of as many names.
pub parse_request_headers-length :
    (s s' : Source) (hs : Headers) → parse_request_headers s ≡ (s', ok hs) → length hs ≤ 64
unfolding parse_request_headers
parse_request_headers-length s s' hs e =
    subst Short e (header_loop-Short (suc (size s)) [] s (omega arith))
