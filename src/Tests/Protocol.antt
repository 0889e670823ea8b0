-- ===== src/Tests/Protocol.antt =====
-- The packet layout at concrete packets.
use devicekit.Prelude.{
  ℕ, zero, suc, ◌<◌, ◌≤◌, none, some, ◌^◌, ◌≡◌, refl, ◌⊎◌, true, [], ◌∷◌, ◌++◌, arith,
}
use devicekit.Prelude.Text.{Str, chars, len, as_bytes}
use devicekit.Prelude.Result.{ok}
use devicekit.Protocol.{Packet, PulseType, SerializationFormat}
use devicekit.Protocol.Reader.{done, incomplete}
use devicekit.Protocol.Layout.{word, to_bytes, from_bytes, read_variant, read_heartbeat_ack}
use devicekit.Protocol.Layout.RoundTrip.{IsWellFormed, RoundTrips, from_bytes-to_bytes}
use devicekit.Protocol.Layout.Truncation.{from_bytes_truncated}
use devicekit.Protocol.Build.{connect, connect-IsWellFormed, pulse, pulse_outcome}
use devicekit.Creds.{new, validate_fleet_id, validate_device_id, validate_device_secret}
use devicekit.Tests.Sample.{sample, fleet, device, secret, sample_creds, data_pulse}

data_pulse-IsWellFormed : IsWellFormed data_pulse
data_pulse-IsWellFormed = (omega arith, refl, omega arith, refl)

from_bytes-to_bytes_example : RoundTrips data_pulse
from_bytes-to_bytes_example = from_bytes-to_bytes data_pulse data_pulse-IsWellFormed

ack_read : from_bytes (9 ∷ 1 ∷ 8 ∷ []) ≡ done (Packet.heartbeat_ack true) (8 ∷ [])
unfolding from_bytes read_variant read_heartbeat_ack
ack_read = refl

data_pulse_cut :
    to_bytes data_pulse
    ≡ (10 ∷ 0 ∷ 2 ∷ [])
      ++ (0 ∷ 0 ∷ 0 ∷ 0 ∷ 0 ∷ 0 ∷ 0 ∷ 7 ∷ 2 ∷ b'h' ∷ b'i' ∷ 0 ∷ 0 ∷ 0 ∷ 1 ∷ b'1' ∷ [])
unfolding to_bytes word
data_pulse_cut = refl

from_bytes_truncated_example : from_bytes (10 ∷ 0 ∷ 2 ∷ []) ≡ incomplete
from_bytes_truncated_example =
    from_bytes_truncated data_pulse (10 ∷ 0 ∷ 2 ∷ []) 0
      (0 ∷ 0 ∷ 0 ∷ 0 ∷ 0 ∷ 0 ∷ 7 ∷ 2 ∷ b'h' ∷ b'i' ∷ 0 ∷ 0 ∷ 0 ∷ 1 ∷ b'1' ∷ [])
      data_pulse-IsWellFormed data_pulse_cut

abbrev connected_with : Packet
connected_with =
    Packet.connect true 1 SerializationFormat.json (as_bytes fleet) (as_bytes device)
      (as_bytes secret)

sample_connects : connect sample fleet device secret true ≡ ok (connected_with, sample_creds)
unfolding connect as_bytes new validate_fleet_id validate_device_id validate_device_secret
sample_connects = refl

connect-IsWellFormed_example :
    IsWellFormed connected_with
    × (sample_creds
        ≡ record { fleet_id = fleet; device_id = device; device_secret = secret; prod = true })
connect-IsWellFormed_example =
    connect-IsWellFormed sample fleet device secret true connected_with sample_creds sample_connects

short_texts : (len (chars "hi") < 2 ^ 32)
unfolding as_bytes
short_texts = omega arith

pulse_outcome_example :
    ((255 < len (chars "temp")) × (pulse PulseType.datapoint 7 (chars "temp") (chars "hi") ≡ none))
    ⊎ ((len (chars "temp") ≤ 255)
        × ((p : Packet) × (pulse PulseType.datapoint 7 (chars "temp") (chars "hi") ≡ some p)
            × IsWellFormed p))
pulse_outcome_example =
    pulse_outcome PulseType.datapoint 7 (chars "temp") (chars "hi") (omega arith) short_texts

-- A name of `n` letters.
abbrev letters : ℕ → Str
letters zero = []
letters (suc n) = b'a' ∷ letters n
