-- ===== src/MailId.antt =====
-- `uuidv7_u128` and `uuidv7_str` of device-agent/src/moonlight_codec.rs: a mail id between its
-- UUIDv7 text and its number.
pub mod Digits
pub mod Bounds
pub mod RoundTrip
use devicekit.Prelude.{
  ℕ, zero, suc, ◌+◌, ◌-◌, ◌*◌, ◌/◌, ◌%◌, Bool, ◌&&◌, ◌||◌, [], ◌∷◌, ◌++◌, ◌==◌, leb, ltb,
  if◌then◌else◌, all, take, drop,
}
use devicekit.Prelude.Text.{Str, len, is_ascii_hexdigit, trim, to_ascii_lowercase}
use devicekit.Prelude.Result.{Result, ok, err}

-- `mail_id.replace("-", "")`
unfoldable pub remove_dashes : Str → Str
remove_dashes [] = []
remove_dashes (c ∷ s) = let rest = remove_dashes s in if c == b'-' then rest else c ∷ rest

abbrev pub digit_value : ℕ → ℕ
digit_value c = if leb c b'9' then c - b'0' else c - b'a' + 10

-- `u128::from_str_radix(_, 16)` on 1 to 32 hexadecimal digits in lower case.
unfoldable pub from_hex : ℕ → Str → ℕ
from_hex acc [] = acc
from_hex acc (c ∷ s) = from_hex (acc * 16 + digit_value c) s

-- The byte at an index of a text of ASCII characters; the source reads it after the length check.
abbrev pub char_at : ℕ → Str → ℕ
char_at i [] = 0
char_at zero (c ∷ s) = c
char_at (suc i) (c ∷ s) = char_at i s

abbrev pub is_variant : ℕ → Bool
is_variant c = c == b'8' || c == b'9' || c == b'a' || c == b'b'

pub data InvalidPulseId : Type 0 where
  invalid_pulse_id : InvalidPulseId

-- The test of `uuidv7_u128` on the cleaned text.
unfoldable pub is_uuidv7 : Str → Bool
is_uuidv7 s =
    all is_ascii_hexdigit s && len s == 32 && char_at 12 s == b'7' && is_variant (char_at 16 s)

abbrev pub cleaned : Str → Str
cleaned mail_id = to_ascii_lowercase (remove_dashes (trim mail_id))

unfoldable pub uuidv7_u128 : Str → Result ℕ InvalidPulseId
uuidv7_u128 mail_id =
    if is_uuidv7 (cleaned mail_id) then ok (from_hex 0 (cleaned mail_id)) else err invalid_pulse_id

abbrev pub digit_char : ℕ → ℕ
digit_char d = if ltb d 10 then b'0' + d else b'a' + (d - 10)

-- `{:0kx}`: the last `k` hexadecimal digits.
unfoldable pub hex : ℕ → ℕ → Str
hex zero v = []
hex (suc k) v = hex k (v / 16) ++ (digit_char (v % 16) ∷ [])

abbrev pub slice : ℕ → ℕ → Str → Str
slice i j s = take (j - i) (drop i s)

unfoldable pub uuidv7_str : ℕ → Str
uuidv7_str mail_id =
    let h = hex 32 mail_id in
    slice 0 8 h
    ++ (b'-'
        ∷ (slice 8 12 h
            ++ (b'-' ∷ (slice 12 16 h ++ (b'-' ∷ (slice 16 20 h ++ (b'-' ∷ slice 20 32 h)))))))
