-- ===== src/Codec/Stream.antt =====
-- `process_packets` as the loop that the source writes, and its independence of how the bytes of
-- a stream are cut into chunks.
use devicekit.Prelude.{
  ℕ, zero, suc, ◌+◌, ◌-◌, ◌<◌, ◌≡◌, refl, ap, sym, ◌∙◌, Option, none, some, List, [], ◌∷◌, ◌++◌,
  length, length-append, append_assoc, drop, drop-length-append, arith, inl, inr,
}
use devicekit.Prelude.Result.{Result, ok, err}
use devicekit.Protocol.{Bytes, Packet}
use devicekit.Protocol.Reader.{done, incomplete, invalid}
use devicekit.Protocol.Reader.Laws.{Read-cases}
use devicekit.Codec.{
  Deku, CodecError, decode_failed, Codec, decoded, decode, process_loop, process_packets,
}

abbrev pub Answer : Type 0
Answer = Codec × Result (List Packet) CodecError

-- Packets that were taken before go in front.
abbrev pub after : List Packet → Answer → Answer
after ps (c, ok qs) = (c, ok (ps ++ qs))
after ps (c, err e) = (c, err e)

drop-sub-append : (xs ys : Bytes) → drop (length xs + length ys - length ys) (xs ++ ys) ≡ ys
drop-sub-append xs ys = ap (λ n. drop n (xs ++ ys)) (omega arith) ∙ drop-length-append xs ys

pub after-append : (ps qs : List Packet) (a : Answer) → after ps (after qs a) ≡ after (ps ++ qs) a
after-append ps qs (c, ok rs) = rw append_assoc
after-append ps qs (c, err e) = refl

pub after-nil : (a : Answer) → after [] a ≡ a
after-nil (c, ok rs) = refl
after-nil (c, err e) = refl

module _ (deku : Deku) where
  decode_done :
      (bs : Bytes) (p : Packet) (rest : Bytes)
      → deku.from_bytes bs ≡ done p rest
      → decode deku bs ≡ ok (some (p, length bs - length rest))
  unfolding decode
  decode_done bs p rest e = ap (decoded bs) e

  decode_incomplete : (bs : Bytes) → deku.from_bytes bs ≡ incomplete → decode deku bs ≡ ok none
  unfolding decode
  decode_incomplete bs e = ap (decoded bs) e

  decode_invalid : (bs : Bytes) → deku.from_bytes bs ≡ invalid → decode deku bs ≡ err decode_failed
  unfolding decode
  decode_invalid bs e = ap (decoded bs) e

  -- What `drain(..consumed)` leaves is what the reader left.
  drain_left :
      (bs : Bytes) (p : Packet) (rest : Bytes)
      → deku.from_bytes bs ≡ done p rest
      → drop (length bs - length rest) bs ≡ rest
  drain_left bs p rest e =
      let (used, front, _) = deku.from_bytes_takes bs p rest e in
      rw (front, length-append) (drop-sub-append used rest)

  pub step_done :
      (fuel : ℕ) (bs : Bytes) (ps : List Packet) (p : Packet) (rest : Bytes)
      → deku.from_bytes bs ≡ done p rest
      → process_loop deku (suc fuel) bs ps ≡ process_loop deku fuel rest (ps ++ (p ∷ []))
  unfolding process_loop
  step_done fuel bs ps p rest e =
      rw (decode_done bs p rest e, process_loop)
        (ap (λ b. process_loop deku fuel b (ps ++ (p ∷ []))) (drain_left bs p rest e))

  pub shorter :
      (bs : Bytes) (p : Packet) (rest : Bytes)
      → deku.from_bytes bs ≡ done p rest
      → length rest < length bs
  shorter bs p rest e =
      let (used, front, some_used) = deku.from_bytes_takes bs p rest e in
      omega (arith, ap length front, length-append used rest)

  pub step_incomplete :
      (fuel : ℕ) (bs : Bytes) (ps : List Packet)
      → deku.from_bytes bs ≡ incomplete
      → process_loop deku (suc fuel) bs ps ≡ (record { buffer = bs }, ok ps)
  unfolding process_loop
  step_incomplete fuel bs ps e = rw (decode_incomplete bs e, process_loop)

  pub step_invalid :
      (fuel : ℕ) (bs : Bytes) (ps : List Packet)
      → deku.from_bytes bs ≡ invalid
      → process_loop deku (suc fuel) bs ps ≡ (record { buffer = bs }, err decode_failed)
  unfolding process_loop
  step_invalid fuel bs ps e = rw (decode_invalid bs e, process_loop)

  pub process_loop-after :
      (fuel : ℕ) (bs : Bytes) (ps qs : List Packet)
      → process_loop deku fuel bs (ps ++ qs) ≡ after ps (process_loop deku fuel bs qs)
  process_loop-after zero bs ps qs = unfold process_loop in refl
  process_loop-after (suc fuel) bs ps qs = elim (Read-cases (deku.from_bytes bs)) [
    | inl (p, rest, e) ↦
        step_done fuel bs (ps ++ qs) p rest e
        ∙ ap (process_loop deku fuel rest) (append_assoc ps qs (p ∷ []))
        ∙ process_loop-after fuel rest ps (qs ++ (p ∷ []))
        ∙ ap (after ps) (sym (step_done fuel bs qs p rest e))
    | inr (inl e) ↦
        step_incomplete fuel bs (ps ++ qs) e ∙ ap (after ps) (sym (step_incomplete fuel bs qs e))
    | inr (inr e) ↦
        step_invalid fuel bs (ps ++ qs) e ∙ ap (after ps) (sym (step_invalid fuel bs qs e))
  ]

  -- Fuel beyond the length of the buffer makes no difference.
  pub enough_fuel :
      (n m : ℕ) (bs : Bytes) (ps : List Packet)
      → length bs < n
      → length bs < m
      → process_loop deku n bs ps ≡ process_loop deku m bs ps
  enough_fuel zero m bs ps hn hm = absurd (omega arith)
  enough_fuel (suc n) zero bs ps hn hm = absurd (omega arith)
  enough_fuel (suc n) (suc m) bs ps hn hm = elim (Read-cases (deku.from_bytes bs)) [
    | inl (p, rest, e) ↦
        step_done n bs ps p rest e
        ∙ enough_fuel n m rest (ps ++ (p ∷ [])) (omega (arith, shorter bs p rest e))
            (omega (arith, shorter bs p rest e))
        ∙ sym (step_done m bs ps p rest e)
    | inr (inl e) ↦ step_incomplete n bs ps e ∙ sym (step_incomplete m bs ps e)
    | inr (inr e) ↦ step_invalid n bs ps e ∙ sym (step_invalid m bs ps e)
  ]

  pub process_packets_done :
      (c : Codec) (p : Packet) (rest : Bytes)
      → deku.from_bytes c.buffer ≡ done p rest
      → process_packets deku c ≡ after (p ∷ []) (process_packets deku (record { buffer = rest }))
  unfolding process_packets
  process_packets_done c p rest e =
      step_done (length c.buffer) c.buffer [] p rest e
      ∙ process_loop-after (length c.buffer) rest (p ∷ []) []
      ∙ ap (after (p ∷ [])) (
          enough_fuel (length c.buffer) (suc (length rest)) rest [] (shorter c.buffer p rest e)
            (omega arith))

  -- One round of the source's loop, on the answer of the decoder.
  abbrev pub round : Codec → Result (Option (Packet × ℕ)) CodecError → Answer
  round c (err e) = (c, err e)
  round c (ok none) = (c, ok [])
  round c (ok (some (p, consumed))) =
      after (p ∷ []) (process_packets deku (record c { buffer = drop consumed c.buffer }))

  -- `process_packets` satisfies the equation of its `while` loop, with no bound on the rounds: it
  -- stops with the decoder's error, it stops where no whole packet is buffered, and otherwise it
  -- takes one packet, drains the bytes that the packet took, and goes on.
  pub process_packets_lem : (c : Codec) → process_packets deku c ≡ round c (decode deku c.buffer)
  unfolding process_packets
  process_packets_lem c = elim (Read-cases (deku.from_bytes c.buffer)) [
    | inl (p, rest, e) ↦
        process_packets_done c p rest e
        ∙ ap (λ b. after (p ∷ []) (process_packets deku (record { buffer = b })))
            (sym (drain_left c.buffer p rest e))
        ∙ ap (round c) (sym (decode_done c.buffer p rest e))
    | inr (inl e) ↦
        step_incomplete (length c.buffer) c.buffer [] e
        ∙ ap (round c) (sym (decode_incomplete c.buffer e))
    | inr (inr e) ↦
        step_invalid (length c.buffer) c.buffer [] e
        ∙ ap (round c) (sym (decode_invalid c.buffer e))
  ]
