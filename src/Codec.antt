-- ===== src/Codec.antt =====
-- `Codec` of device-agent/src/moonlight_codec.rs: the encoder and the streaming decoder, over the
-- two functions that the deku crate derives for `MoonlightPacket`.
pub mod Stream
pub mod Chunks
use devicekit.Prelude.{
  ℕ, zero, suc, ◌-◌, ◌^◌, ◌<◌, ◌≡◌, subst, Option, none, some, List, [], ◌∷◌, ◌++◌, length, drop,
}
use devicekit.Prelude.Result.{Result, ok, err}
use devicekit.Protocol.{Bytes, Packet}
use devicekit.Protocol.Reader.{Read, Reader, done, incomplete, invalid}
use devicekit.Protocol.Layout.{to_bytes, from_bytes}
use devicekit.Protocol.Layout.RoundTrip.{IsWellFormed, RoundTrips, from_bytes-to_bytes}
use devicekit.Protocol.Layout.Truncation.{
  from_bytes-append, from_bytes-append_invalid, from_bytes_takes, from_bytes-nil,
}

-- What the codec takes from the derived `to_bytes` and `from_bytes`: an answer does not depend on
-- the bytes behind it, a packet takes a byte at least, and a packet whose fields fit is read back.
pub record Deku : Type 0 where
  pub to_bytes : Packet → Option Bytes
  pub from_bytes : Reader Packet
  pub from_bytes-nil : from_bytes [] ≡ incomplete
  pub from_bytes-append :
      (bs more : Bytes) (p : Packet) (rest : Bytes)
      → from_bytes bs ≡ done p rest
      → from_bytes (bs ++ more) ≡ done p (rest ++ more)
  pub from_bytes-append_invalid :
      (bs more : Bytes) → from_bytes bs ≡ invalid → from_bytes (bs ++ more) ≡ invalid
  pub from_bytes_takes :
      (bs : Bytes) (p : Packet) (rest : Bytes)
      → from_bytes bs ≡ done p rest
      → (used : Bytes) × (bs ≡ used ++ rest) × (0 < length used)
  pub from_bytes-to_bytes :
      (p : Packet) (bs rest : Bytes)
      → IsWellFormed p
      → to_bytes p ≡ some bs
      → from_bytes (bs ++ rest) ≡ done p rest

pub layout_round_trip :
    (p : Packet) (bs rest : Bytes)
    → IsWellFormed p
    → some (to_bytes p) ≡ some bs
    → from_bytes (bs ++ rest) ≡ done p rest
layout_round_trip p bs rest w e =
    subst (λ b. from_bytes (b ++ rest) ≡ done p rest) (cc) (from_bytes-to_bytes p w rest)

-- The layout that the attributes declare is such a pair of functions.
abbrev pub layout : Deku
layout = record {
  to_bytes = λ p. some (to_bytes p);
  from_bytes = from_bytes;
  from_bytes-nil = from_bytes-nil;
  from_bytes-append = λ bs more p rest. from_bytes-append bs more;
  from_bytes-append_invalid = from_bytes-append_invalid;
  from_bytes_takes = λ bs p rest. from_bytes_takes bs;
  from_bytes-to_bytes = layout_round_trip;
}

pub data CodecError : Type 0 where
  invalid_packet decode_failed : CodecError

pub record Codec : Type 0 where
  pub buffer : Bytes

abbrev pub new : Codec
new = record { buffer = [] }

unfoldable pub feed : Codec → Bytes → Codec
feed c bytes = record c { buffer = c.buffer ++ bytes }

-- The match of `decode` on the reader's answer.
abbrev decoded : Bytes → Read Packet → Result (Option (Packet × ℕ)) CodecError
decoded bytes (done p rest) = ok (some (p, length bytes - length rest))
decoded bytes incomplete = ok none
decoded bytes invalid = err decode_failed

module _ (deku : Deku) where
  unfoldable pub encode : Packet → Result Bytes CodecError
  encode p = elim (deku.to_bytes p) [ none ↦ err invalid_packet | some bytes ↦ ok bytes ]

  unfoldable pub decode : Bytes → Result (Option (Packet × ℕ)) CodecError
  decode bytes = decoded bytes (deku.from_bytes bytes)

  -- The `while let` of `process_packets`, on fuel: the buffer and the packets so far.
  unfoldable pub process_loop : ℕ → Bytes → List Packet → Codec × Result (List Packet) CodecError
  process_loop zero buffer packets = (record { buffer = buffer }, ok packets)
  process_loop (suc fuel) buffer packets = elim (decode buffer) [
    | err e ↦ (record { buffer = buffer }, err e)
    | ok none ↦ (record { buffer = buffer }, ok packets)
    | ok (some (p, consumed)) ↦ process_loop fuel (drop consumed buffer) (packets ++ (p ∷ []))
  ]

  -- Every round drains a byte at least, so this much fuel does not run out (`process_packets_lem`).
  unfoldable pub process_packets : Codec → Codec × Result (List Packet) CodecError
  unfolding process_loop
  process_packets c = process_loop (suc (length c.buffer)) c.buffer []
