-- ===== src/Tests/Codec.antt =====
-- The streaming decoder at concrete bytes.
use mathlib.Core.List.{flatten}
use devicekit.Prelude.{true, false, ◌≡◌, refl, arith, List, [], ◌∷◌}
use devicekit.Prelude.Result.{ok}
use devicekit.Protocol.{Bytes, Packet}
use devicekit.Protocol.Layout.{word, to_bytes}
use devicekit.Codec.{Codec, layout, new, encode, decode, process_packets}
use devicekit.Codec.Stream.{round, process_packets_lem}
use devicekit.Codec.Chunks.{receive, encode_all, receive-encode_all}

-- A heartbeat's answer, and the first byte of an event.
abbrev started : Codec
started = record { buffer = 9 ∷ 1 ∷ 20 ∷ [] }

process_packets_lem_example :
    process_packets layout started ≡ round layout started (decode layout started.buffer)
process_packets_lem_example = process_packets_lem layout started

abbrev two_packets : List Packet
two_packets = Packet.heartbeat_ack true ∷ Packet.mailbox_next false 5 ∷ []

abbrev chunks : List Bytes
chunks = (9 ∷ 1 ∷ 21 ∷ []) ∷ (0 ∷ 0 ∷ 0 ∷ 0 ∷ []) ∷ (0 ∷ 0 ∷ 0 ∷ 0 ∷ 5 ∷ []) ∷ []

two_packets_encoded : encode_all layout two_packets ≡ ok (flatten chunks)
unfolding encode_all encode to_bytes word flatten
two_packets_encoded = refl

receive-encode_all_example : receive layout new chunks ≡ (new, ok two_packets)
receive-encode_all_example =
    receive-encode_all layout two_packets chunks (tt, (omega arith, tt)) two_packets_encoded
