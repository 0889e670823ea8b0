-- ===== src/Tests/Http.antt =====
-- Requests and the operations that they ask for.
use devicekit.Prelude.{◌≡◌, ◌≢◌, refl, true}
use devicekit.Prelude.Text.{Str, chars, as_bytes}
use devicekit.Protocol.{PulseType}
use devicekit.Http.{is_valid_pulse_name}

abbrev name : Str
name = chars "room_temp-1"

name_valid : is_valid_pulse_name name ≡ true
unfolding is_valid_pulse_name as_bytes
name_valid = refl

msg_known : PulseType.msg ≢ PulseType.unknown
msg_known e = cc
