-- ===== src/MailId/Bounds.antt =====
-- The number of a mail id.
use devicekit.Prelude.{
  ℕ, ◌+◌, ◌*◌, ◌^◌, ◌≤◌, ◌<◌, ◌≡◌, ap, subst, sym, ◌∙◌, inl, inr, true, ◌∷◌, all, length, take,
  drop, Bool-cases, arith,
}
use devicekit.Prelude.Text.{Str, is_ascii_hexdigit}
use devicekit.Prelude.Result.{ok}
use devicekit.MailId.{digit_value, from_hex, char_at, is_variant, is_uuidv7, cleaned, uuidv7_u128}
use devicekit.MailId.Digits.{
  scale, from_hex-below, from_hex-above, from_hex-append, len-hexdigits, split_at, length-drop,
}

-- What the test of a cleaned text says.
pub is_uuidv7_facts :
    (s : Str)
    → is_uuidv7 s ≡ true
    → (all is_ascii_hexdigit s ≡ true)
      × (length s ≡ 32)
      × (char_at 12 s ≡ b'7')
      × (is_variant (char_at 16 s) ≡ true)
unfolding is_uuidv7
is_uuidv7_facts s h =
    let digits : all is_ascii_hexdigit s ≡ true = ground arith in
    (digits, ground (arith, len-hexdigits s digits), ground arith, ground arith)

-- A text is accepted exactly if its cleaned form passes the test, as the number that this names.
pub accepted :
    (s : Str) (v : ℕ)
    → uuidv7_u128 s ≡ ok v
    → (is_uuidv7 (cleaned s) ≡ true) × (from_hex 0 (cleaned s) ≡ v)
unfolding uuidv7_u128
accepted s v e = elim (Bool-cases (is_uuidv7 (cleaned s))) [
  | inl h ↦ ground arith
  | inr h ↦ ground arith
]

value_bounds :
    (t : Str)
    → all is_ascii_hexdigit t ≡ true
    → length t ≡ 32
    → char_at 12 t ≡ b'7'
    → (2 ^ 64 ≤ from_hex 0 t) × (from_hex 0 t < 2 ^ 128)
unfolding from_hex
value_bounds t digits size seven =
    let front = take 12 t in
    let back = drop 13 t in
    let whole : from_hex 0 t ≡ from_hex (from_hex 0 front * 16 + digit_value (char_at 12 t)) back =
      ap (from_hex 0) (split_at 12 t (omega arith))
      ∙ from_hex-append front (char_at 12 t ∷ back) 0 in
    let high : 7 ≤ from_hex 0 front * 16 + digit_value (char_at 12 t) =
      subst (λ c. 7 ≤ from_hex 0 front * 16 + digit_value c) (sym seven) (omega arith) in
    let places : length back ≡ 19 = omega (arith, length-drop 13 t) in
    let above = from_hex-above back (from_hex 0 front * 16 + digit_value (char_at 12 t)) 7 high in
    let least : scale 19 7 ≤ from_hex (from_hex 0 front * 16 + digit_value (char_at 12 t)) back =
      subst (λ k. scale k 7 ≤ from_hex (from_hex 0 front * 16 + digit_value (char_at 12 t)) back)
        places above in
    let most : from_hex 0 t < scale 32 1 =
      subst (λ k. from_hex 0 t < scale k 1) size (from_hex-below t 0 1 digits (omega arith)) in
    (omega arith, omega arith)

-- The number of a mail id has 128 bits, and it is no 64-bit number: among the pending transactions
-- it never meets the id of a pulse or of a request for mail.
pub uuidv7_u128_bounds : (s : Str) (v : ℕ) → uuidv7_u128 s ≡ ok v → (2 ^ 64 ≤ v) × (v < 2 ^ 128)
uuidv7_u128_bounds s v e =
    let (test, value) = accepted s v e in
    let (digits, size, seven, variant) = is_uuidv7_facts (cleaned s) test in
    subst (λ n. (2 ^ 64 ≤ n) × (n < 2 ^ 128)) value (value_bounds (cleaned s) digits size seven)
