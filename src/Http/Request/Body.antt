-- ===== src/Http/Request/Body.antt =====
-- The body of a request.
use devicekit.Prelude.{
  ℕ, zero, suc, ◌+◌, ◌-◌, ◌*◌, ◌≤◌, ◌<◌, ◌≡◌, refl, ap, subst, sym, ◌∙◌, Bool, true, false, Option,
  none, some, List, [], ◌∷◌, ◌++◌, length, length-append, take, ltb, leb, if◌then◌else◌, arith,
}
use devicekit.Prelude.Text.{Str, chars, parse_u64}
use devicekit.Prelude.Result.{ok, guard-succeeds}
use devicekit.Protocol.{Bytes}
use devicekit.Outside.{Outside}
use devicekit.Http.Headers.{Headers, get}
use devicekit.Http.Lines.{Fill, filled, interrupted, timed_out, failed, Source}
use devicekit.Http.Parse.{and_then-succeeds, lift}
use devicekit.Http.Exact.{read_exact_fills, read_exact}
use devicekit.Http.Request.{
  read_body, or_refuse, is_chunked, length_of, parsed_length, typed_length, body_length, json_of,
  parsed_json, read_json, parse_request_body,
}

length-take : (n : ℕ) (bytes : Bytes) → n ≤ length bytes → length (take n bytes) ≡ n
length-take zero bytes h = refl
length-take (suc n) [] h = omega arith
length-take (suc n) (b ∷ bytes) h = ap suc (length-take n bytes (omega arith))

-- The read gives so many bytes, if it gives any.
abbrev Gives : ℕ → Source × Option Bytes → Type 0
Gives n (s, none) = Unit {0}
Gives n (s, some bytes) = length bytes ≡ n

last-Gives :
    (here : Bool) (n : ℕ) (out chunk : Bytes) (s : Source) (later : Source × Option Bytes)
    → leb n (length chunk) ≡ here
    → (here ≡ false → Gives (length out + n) later)
    → Gives (length out + n) (elim here as (λ _. Source × Option Bytes) [
      | true ↦ (s, some (out ++ take n chunk))
      | false ↦ later
    ])
last-Gives true n out chunk s later h next =
    length-append out (take n chunk) ∙ ap (λ m. length out + m) (length-take n chunk (ground arith))
last-Gives false n out chunk s later h next = next refl

Gives-eq : (n m : ℕ) (r : Source × Option Bytes) → n ≡ m → Gives n r → Gives m r
Gives-eq n m r e g = subst (λ k. Gives k r) e g

rest_adds :
    (out chunk : Bytes) (n : ℕ)
    → leb n (length chunk) ≡ false
    → length (out ++ chunk) + (n - length chunk) ≡ length out + n
rest_adds out chunk n h = ground (arith, length-append out chunk)

sum_of : (n m : ℕ) → leb n m ≡ false → m + (n - m) ≡ n
sum_of n m h = ground arith

read_exact_fills-Gives :
    (n : ℕ) (out : Bytes) (fills : List Fill)
    → Gives (length out + n) (read_exact_fills n out fills)
unfolding read_exact_fills
read_exact_fills-Gives n out [] = tt
read_exact_fills-Gives n out (interrupted ∷ fills) = read_exact_fills-Gives n out fills
read_exact_fills-Gives n out (timed_out ∷ fills) = tt
read_exact_fills-Gives n out (failed ∷ fills) = tt
read_exact_fills-Gives n out (filled [] ∷ fills) = tt
read_exact_fills-Gives n out (filled (b ∷ chunk) ∷ fills) =
    let rest : ℕ = n - length (b ∷ chunk) in
    last-Gives (leb n (length (b ∷ chunk))) n out (b ∷ chunk) _
      (read_exact_fills rest (out ++ b ∷ chunk) fills) refl
      (λ h.
        Gives-eq (length (out ++ b ∷ chunk) + rest) (length out + n)
          (read_exact_fills rest (out ++ b ∷ chunk) fills) (rest_adds out (b ∷ chunk) n h)
          (read_exact_fills-Gives rest (out ++ b ∷ chunk) fills))

first-Gives :
    (here : Bool) (n : ℕ) (s s' : Source) (later : Source × Option Bytes)
    → leb n (length s.buffered) ≡ here
    → (here ≡ false → Gives n later)
    → Gives n (if here then (s', some (take n s.buffered)) else later)
first-Gives true n s s' later h next = length-take n s.buffered (ground arith)
first-Gives false n s s' later h next = next refl

read_exact-Gives : (n : ℕ) (s : Source) → Gives n (read_exact n s)
unfolding read_exact
read_exact-Gives n s =
    let later : Source × Option Bytes =
      read_exact_fills (n - length s.buffered) s.buffered s.fills in
    first-Gives (leb n (length s.buffered)) n s _ later refl (λ h.
      Gives-eq _ n later (sum_of n (length s.buffered) h)
        (read_exact_fills-Gives (n - length s.buffered) s.buffered s.fills))

or_refuse-succeeds :
    (msg : Str) (b : Option Bytes) (bytes : Bytes) → or_refuse msg b ≡ ok bytes → b ≡ some bytes
or_refuse-succeeds msg none bytes e = cc
or_refuse-succeeds msg (some b) bytes e = cc

read_body-length :
    (n : ℕ) (s s' : Source) (bytes : Bytes) → read_body n s ≡ (s', ok bytes) → length bytes ≡ n
read_body-length n s s' bytes e =
    let given : (read_exact n s).1 ≡ some bytes =
      or_refuse-succeeds _ ((read_exact n s).1) bytes (ap (λ p. p.1) e) in
    subst (λ b. Gives n ((read_exact n s).0, b)) given (read_exact-Gives n s)

module _ (o : Outside) where
  -- The length of a body that is asked for, which the header gives.
  abbrev pub Announces : Headers → ℕ → Type 0
  Announces hs n =
      (text : Str) × (get (chars "content-length") hs ≡ some text) × (parse_u64 text ≡ some n)

  typed_length-succeeds :
      (n m : ℕ) (content_type : Option Str) → typed_length o n content_type ≡ ok m → n ≡ m
  typed_length-succeeds n m none e = cc
  typed_length-succeeds n m (some text) e = ground arith

  parsed_length-succeeds :
      (content_type : Option Str) (parsed : Option ℕ) (n : ℕ)
      → parsed_length o content_type parsed ≡ ok (suc n)
      → (parsed ≡ some (suc n)) × (suc n ≤ 64 * 1024)
  parsed_length-succeeds content_type none n e = cc
  parsed_length-succeeds content_type (some zero) n e = cc
  parsed_length-succeeds content_type (some (suc m)) n e =
      let (short, typed) =
        guard-succeeds (ltb (64 * 1024) (suc m)) _ (typed_length o (suc m) content_type) e in
      let same : suc m ≡ suc n = typed_length-succeeds (suc m) (suc n) content_type typed in
      (ap some same, ground arith)

  length_of-succeeds :
      (content_type content_length : Option Str) (n : ℕ)
      → length_of o content_type content_length ≡ ok (suc n)
      → (text : Str) × (content_length ≡ some text)
        × (parse_u64 text ≡ some (suc n))
        × (suc n ≤ 64 * 1024)
  length_of-succeeds content_type none n e = cc
  length_of-succeeds content_type (some text) n e =
      let (parsed, short) = parsed_length-succeeds content_type (parse_u64 text) n e in
      (text, refl, parsed, short)

  body_length-succeeds :
      (hs : Headers) (n : ℕ)
      → body_length o hs ≡ ok (suc n)
      → Announces hs (suc n) × (suc n ≤ 64 * 1024)
  unfolding body_length
  body_length-succeeds hs n e =
      let (_, announced) =
        guard-succeeds (is_chunked (get (chars "transfer-encoding") hs)) _
          (length_of o (get (chars "content-type") hs) (get (chars "content-length") hs)) e in
      let (text, there, parsed, short) = length_of-succeeds _ _ n announced in
      ((text, there, parsed), short)

  parsed_json-succeeds : (j v : Option o.Value) → parsed_json o j ≡ ok v → j ≡ v
  parsed_json-succeeds none v e = cc
  parsed_json-succeeds (some j) v e = cc

  -- What is read is as long as the checks said.
  read_json-succeeds :
      (hs : Headers) (n : ℕ) (s s' : Source) (v : o.Value)
      → body_length o hs ≡ ok n
      → read_json o n s ≡ (s', ok (some v))
      → (bytes : Bytes) × Announces hs (length bytes)
        × (0 < length bytes)
        × (length bytes ≤ 64 * 1024)
        × (o.from_slice bytes ≡ some v)
  read_json-succeeds hs zero s s' v announced e = cc
  read_json-succeeds hs (suc n) s s' v announced e =
      let (s₁, bytes, e₁, there) =
        and_then-succeeds (λ bytes. lift (json_of o bytes)) (read_body (suc n) s) e in
      let (header, short) = body_length-succeeds hs n announced in
      let exact : suc n ≡ length bytes = sym (read_body-length (suc n) s s₁ bytes there) in
      let json : o.from_slice bytes ≡ some v =
        parsed_json-succeeds (o.from_slice bytes) (some v) (ap (λ p. p.1) e₁) in
      (bytes, subst (Announces hs) exact header, omega arith, omega arith, json)

  -- The body of a request is the JSON value of so many bytes as its header announces, which are 1 to
  -- 64 KiB.
  pub parse_request_body-json :
      (hs : Headers) (s s' : Source) (v : o.Value)
      → parse_request_body o hs s ≡ (s', ok (some v))
      → (bytes : Bytes) × Announces hs (length bytes)
        × (0 < length bytes)
        × (length bytes ≤ 64 * 1024)
        × (o.from_slice bytes ≡ some v)
  unfolding parse_request_body
  parse_request_body-json hs s s' v e =
      let (s₁, n, e₁, announced) = and_then-succeeds (read_json o) (lift (body_length o hs) s) e in
      read_json-succeeds hs n s₁ s' v (ap (λ p. p.1) announced) e₁
