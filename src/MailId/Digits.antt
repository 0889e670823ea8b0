-- ===== src/MailId/Digits.antt =====
-- Hexadecimal texts and the numbers that they name.
use devicekit.Prelude.{
  ℕ, zero, suc, ◌+◌, ◌-◌, ◌*◌, ◌/◌, ◌%◌, ◌≤◌, ◌<◌, ◌≡◌, refl, ap, ap₂, sym, ◌∙◌, Bool, true, ◌&&◌,
  ◌||◌, [], ◌∷◌, ◌++◌, all, length, take, drop, leb, append-nil, append_assoc, arith,
}
use devicekit.Prelude.Text.{Str, as_bytes, len, is_ascii_hexdigit}
use devicekit.MailId.{digit_value, digit_char, from_hex, char_at, hex}

-- `n` times 16, `k` times over.
abbrev pub scale : ℕ → ℕ → ℕ
scale zero n = n
scale (suc k) n = scale k (n * 16)

digit_value-bound : (c : ℕ) → is_ascii_hexdigit c ≡ true → digit_value c < 16
digit_value-bound c h = ground arith

pub from_hex-below :
    (s : Str) (acc n : ℕ)
    → all is_ascii_hexdigit s ≡ true
    → acc < n
    → from_hex acc s < scale (length s) n
unfolding from_hex
from_hex-below [] acc n h e = e
from_hex-below (c ∷ s) acc n h e =
    from_hex-below s (acc * 16 + digit_value c) (n * 16) (ground arith)
      (omega (arith, digit_value-bound c (ground arith)))

pub from_hex-above : (s : Str) (acc n : ℕ) → n ≤ acc → scale (length s) n ≤ from_hex acc s
unfolding from_hex
from_hex-above [] acc n e = e
from_hex-above (c ∷ s) acc n e = from_hex-above s (acc * 16 + digit_value c) (n * 16) (omega arith)

pub from_hex-append : (s t : Str) (acc : ℕ) → from_hex acc (s ++ t) ≡ from_hex (from_hex acc s) t
unfolding from_hex
from_hex-append [] t acc = refl
from_hex-append (c ∷ s) t acc = from_hex-append s t (acc * 16 + digit_value c)

pub len-hexdigits : (s : Str) → all is_ascii_hexdigit s ≡ true → len s ≡ length s
unfolding as_bytes
len-hexdigits [] h = refl
len-hexdigits (c ∷ s) h = ground (arith, len-hexdigits s)

pub split_at : (i : ℕ) (s : Str) → i < length s → s ≡ take i s ++ (char_at i s ∷ drop (suc i) s)
split_at zero [] h = absurd (omega arith)
split_at zero (c ∷ s) h = refl
split_at (suc i) [] h = absurd (omega arith)
split_at (suc i) (c ∷ s) h = ap (λ t. c ∷ t) (split_at i s (omega arith))

pub length-drop : (i : ℕ) (s : Str) → length (drop i s) ≡ length s - i
length-drop zero s = omega arith
length-drop (suc i) [] = omega arith
length-drop (suc i) (c ∷ s) = omega (arith, length-drop i s)

-- A digit in lower case.
abbrev pub is_lower_hexdigit : ℕ → Bool
is_lower_hexdigit c = leb b'0' c && leb c b'9' || leb b'a' c && leb c b'f'

digit_char-digit_value : (c : ℕ) → is_lower_hexdigit c ≡ true → digit_char (digit_value c) ≡ c
digit_char-digit_value c h = ground arith

digit_value-lower : (c : ℕ) → is_lower_hexdigit c ≡ true → digit_value c < 16
digit_value-lower c h = ground arith

shift_left : (acc d : ℕ) → d < 16 → (acc * 16 + d) / 16 ≡ acc
shift_left acc d h = omega arith

low_digit : (acc d : ℕ) → d < 16 → (acc * 16 + d) % 16 ≡ d
low_digit acc d h = omega arith

-- Digits are printed again.
pub hex-from_hex :
    (s : Str) (k acc : ℕ)
    → all is_lower_hexdigit s ≡ true
    → hex (length s + k) (from_hex acc s) ≡ hex k acc ++ s
unfolding from_hex hex
hex-from_hex [] k acc h =
    let none_left : 0 + k ≡ k = omega arith in
    ap (λ j. hex j acc) none_left ∙ sym (append-nil (hex k acc))
hex-from_hex (c ∷ s) k acc h =
    let lower : is_lower_hexdigit c ≡ true = ground arith in
    let rest : all is_lower_hexdigit s ≡ true = ground arith in
    let d = digit_value c in
    let small = digit_value-lower c lower in
    let moved : suc (length s) + k ≡ length s + suc k = omega arith in
    ap (λ j. hex j (from_hex (acc * 16 + d) s)) moved
    ∙ hex-from_hex s (suc k) (acc * 16 + d) rest
    ∙ ap₂ (λ x y. (hex k x ++ (y ∷ [])) ++ s) (shift_left acc d small)
        (ap digit_char (low_digit acc d small) ∙ digit_char-digit_value c lower)
    ∙ append_assoc (hex k acc) (c ∷ []) s
