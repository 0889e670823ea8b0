-- ===== src/Tests/MailId.antt =====
-- A mail id with capitals and spaces, and the reply that brings the mail.
use devicekit.Prelude.{ℕ, ◌≡◌, refl, true, false, some}
use devicekit.Prelude.Text.{Str, chars, as_bytes, trim, trim_start, trim_end}
use devicekit.Prelude.Result.{ok}
use devicekit.Protocol.{Packet}
use devicekit.Protocol.Build.{mailbox_next_resp_full}
use devicekit.MailId.{remove_dashes, from_hex, is_uuidv7, cleaned, uuidv7_u128, uuidv7_str}
use devicekit.MailId.RoundTrip.{dashed, uuidv7_str-uuidv7_u128}

abbrev pub text : Str
text = chars " 0189C2F0-0000-7000-8000-00000000000A "

abbrev pub number : ℕ
number = 0x0189c2f00000700080000000000000_0a

pub text_read : uuidv7_u128 text ≡ ok number
unfolding uuidv7_u128 is_uuidv7 from_hex remove_dashes trim trim_start trim_end as_bytes
text_read = refl

uuidv7_str-uuidv7_u128_example :
    (uuidv7_str number ≡ dashed (cleaned text)) × (uuidv7_u128 (uuidv7_str number) ≡ ok number)
uuidv7_str-uuidv7_u128_example = uuidv7_str-uuidv7_u128 text number text_read

abbrev name : Str
name = chars "hi"

abbrev full : Packet
full =
    Packet.mailbox_next_resp false true 7 2 (some number) (some 2) (some (as_bytes name)) (some 2)
      (some (as_bytes name))

full_built : mailbox_next_resp_full 7 2 number name name ≡ some full
unfolding mailbox_next_resp_full as_bytes
full_built = refl
