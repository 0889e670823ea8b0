-- ===== src/Codec/Chunks.antt =====
-- A stream of packets is decoded alike, however its bytes are cut into chunks.
use mathlib.Core.List.{flatten}
use devicekit.Prelude.{
  ℕ, zero, suc, ◌<◌, ◌≡◌, refl, ap, sym, ◌∙◌, some, List, [], ◌∷◌, ◌++◌, length, length-append,
  append_assoc, append-nil, arith, All, inl, inr,
}
use devicekit.Prelude.Result.{Result, ok, err, ◌>>=◌, >>=-succeeds}
use devicekit.Protocol.{Bytes, Packet}
use devicekit.Protocol.Reader.{incomplete}
use devicekit.Protocol.Reader.Laws.{Read-cases}
use devicekit.Protocol.Layout.RoundTrip.{IsWellFormed}
use devicekit.Codec.{Deku, CodecError, Codec, new, feed, encode, process_loop, process_packets}
use devicekit.Codec.Stream.{
  Answer, after, after-append, after-nil, process_loop-after, enough_fuel, shorter, step_done,
  step_incomplete, step_invalid, process_packets_done,
}

feed-nil : (c : Codec) → feed c [] ≡ c
unfolding feed
feed-nil c = λ i. record { buffer = append-nil c.buffer i }

feed-append : (c : Codec) (xs ys : Bytes) → feed c (xs ++ ys) ≡ feed (feed c xs) ys
unfolding feed
feed-append c xs ys = λ i. record { buffer = sym (append_assoc c.buffer xs ys) i }

module _ (deku : Deku) where
  -- `more` arrives behind what `process_packets` has left.
  abbrev pub continue : Bytes → Answer → Answer
  continue more (c, ok ps) = after ps (process_packets deku (feed c more))
  continue more (c, err e) = (feed c more, err e)

  continue-after :
      (more : Bytes) (ps : List Packet) (a : Answer)
      → continue more (after ps a) ≡ after ps (continue more a)
  continue-after more ps (c, ok qs) = sym (after-append ps qs (process_packets deku (feed c more)))
  continue-after more ps (c, err e) = refl

  process_loop-append :
      (n k : ℕ) (bs more : Bytes)
      → length bs < n
      → length (bs ++ more) < k
      → process_loop deku k (bs ++ more) [] ≡ continue more (process_loop deku n bs [])
  unfolding process_packets feed
  process_loop-append zero k bs more hn hk = absurd (omega arith)
  process_loop-append (suc n) zero bs more hn hk = absurd (omega arith)
  process_loop-append (suc n) (suc k) bs more hn hk = elim (Read-cases (deku.from_bytes bs)) [
    | inl (p, rest, e) ↦
        step_done deku k (bs ++ more) [] p (rest ++ more) (deku.from_bytes-append bs more p rest e)
        ∙ process_loop-after deku k (rest ++ more) (p ∷ []) []
        ∙ ap (after (p ∷ [])) (
            process_loop-append n k rest more (omega (arith, shorter deku bs p rest e)) (
              omega
                (arith, shorter deku bs p rest e, length-append bs more, length-append rest more)))
        ∙ sym (continue-after more (p ∷ []) (process_loop deku n rest []))
        ∙ ap (continue more) (sym (process_loop-after deku n rest (p ∷ []) []))
        ∙ ap (continue more) (sym (step_done deku n bs [] p rest e))
    | inr (inl e) ↦
        enough_fuel deku (suc k) (suc (length (bs ++ more))) (bs ++ more) [] hk (omega arith)
        ∙ sym (after-nil (process_packets deku (record { buffer = bs ++ more })))
        ∙ ap (continue more) (sym (step_incomplete deku n bs [] e))
    | inr (inr e) ↦
        step_invalid deku k (bs ++ more) [] (deku.from_bytes-append_invalid bs more e)
        ∙ ap (continue more) (sym (step_invalid deku n bs [] e))
  ]

  -- Packets that can be taken are not touched by bytes that arrive later.
  pub process_packets-feed :
      (c : Codec) (more : Bytes)
      → process_packets deku (feed c more) ≡ continue more (process_packets deku c)
  unfolding process_packets feed
  process_packets-feed c more =
      process_loop-append (suc (length c.buffer)) (suc (length (c.buffer ++ more))) c.buffer more
        (omega arith) (omega arith)

  -- No whole packet is buffered.
  abbrev pub IsSettled : Codec → Type 0
  IsSettled c = deku.from_bytes c.buffer ≡ incomplete

  abbrev SettledAfter : Answer → Type 0
  SettledAfter (c, ok ps) = IsSettled c
  SettledAfter (c, err e) = Unit

  SettledAfter-after : (ps : List Packet) (a : Answer) → SettledAfter a → SettledAfter (after ps a)
  SettledAfter-after ps (c, ok qs) h = h
  SettledAfter-after ps (c, err e) h = tt

  process_loop-SettledAfter :
      (n : ℕ) (bs : Bytes) → length bs < n → SettledAfter (process_loop deku n bs [])
  process_loop-SettledAfter zero bs h = absurd (omega arith)
  process_loop-SettledAfter (suc n) bs h = elim (Read-cases (deku.from_bytes bs)) [
    | inl (p, rest, e) ↦
        rw (step_done deku n bs [] p rest e, process_loop-after deku n rest (p ∷ []) [])
          (SettledAfter-after (p ∷ []) (process_loop deku n rest [])
            (process_loop-SettledAfter n rest (omega (arith, shorter deku bs p rest e))))
    | inr (inl e) ↦ rw (step_incomplete deku n bs [] e) e
    | inr (inr e) ↦ rw (step_invalid deku n bs [] e) tt
  ]

  pub process_packets-SettledAfter : (c : Codec) → SettledAfter (process_packets deku c)
  unfolding process_packets
  process_packets-SettledAfter c =
      process_loop-SettledAfter (suc (length c.buffer)) c.buffer (omega arith)

  settled-process_packets : (c : Codec) → IsSettled c → process_packets deku c ≡ (c, ok [])
  unfolding process_packets
  settled-process_packets c h = step_incomplete deku (length c.buffer) c.buffer [] h

  abbrev next : Answer → (Codec → Answer) → Answer
  next (c, ok ps) k = after ps (k c)
  next (c, err e) k = (c, err e)

  -- What the events `TransportRecv` do with the codec, one after the other, up to an error.
  pub receive : Codec → List Bytes → Answer
  receive c [] = (c, ok [])
  receive c (bytes ∷ chunks) = next (process_packets deku (feed c bytes)) (λ c'. receive c' chunks)

  -- Equal answers, but for what an error leaves in the buffer.
  abbrev Coheres : Answer → Answer → Type 0
  Coheres (c, ok ps) b = (c, ok ps) ≡ b
  Coheres (c, err e) b = err e ≡ b.1

  Coheres-after :
      (ps : List Packet) (a b : Answer) → Coheres a b → Coheres (after ps a) (after ps b)
  Coheres-after ps (c, ok qs) b h = ap (after ps) h
  Coheres-after ps (c, err e) (d, ok qs) h = cc
  Coheres-after ps (c, err e) (d, err f) h = h

  next-Coheres :
      (a : Answer) (chunks : List Bytes)
      → SettledAfter a
      → ((c : Codec)
          → IsSettled c
          → Coheres (receive c chunks) (process_packets deku (feed c (flatten chunks))))
      → Coheres (next a (λ c. receive c chunks)) (continue (flatten chunks) a)
  next-Coheres (c, ok ps) chunks s ih = Coheres-after ps _ _ (ih c s)
  next-Coheres (c, err e) chunks s ih = refl

  Coheres-result : (a b : Answer) → Coheres a b → a.1 ≡ b.1
  Coheres-result (c, ok ps) b h = ap (λ (x : Answer). x.1) h
  Coheres-result (c, err e) b h = h

  Coheres-ok : (a b : Answer) (ps : List Packet) → Coheres a b → a.1 ≡ ok ps → a ≡ b
  Coheres-ok (c, ok qs) b ps h e = h
  Coheres-ok (c, err f) b ps h e = cc

  receive-Coheres :
      (c : Codec) (chunks : List Bytes)
      → IsSettled c
      → Coheres (receive c chunks) (process_packets deku (feed c (flatten chunks)))
  unfolding receive flatten
  receive-Coheres c [] s =
      sym (ap (process_packets deku) (feed-nil c) ∙ settled-process_packets c s)
  receive-Coheres c (bytes ∷ chunks) s =
      let whole : process_packets deku (feed c (flatten (bytes ∷ chunks)))
          ≡ continue (flatten chunks) (process_packets deku (feed c bytes)) =
        ap (process_packets deku) (feed-append c bytes (flatten chunks))
        ∙ process_packets-feed (feed c bytes) (flatten chunks) in
      rw whole (
        next-Coheres (process_packets deku (feed c bytes)) chunks
          (process_packets-SettledAfter (feed c bytes)) (λ d h. receive-Coheres d chunks h))

  receive_pair :
      (c : Codec) (chunks : List Bytes)
      → IsSettled c
      → ((receive c chunks).1 ≡ (process_packets deku (feed c (flatten chunks))).1)
        × ((ps : List Packet)
            → (receive c chunks).1 ≡ ok ps
            → receive c chunks ≡ process_packets deku (feed c (flatten chunks)))
  receive_pair c chunks s = (
    Coheres-result (receive c chunks) _ (receive-Coheres c chunks s),
    λ ps e. Coheres-ok (receive c chunks) _ ps (receive-Coheres c chunks s) e,
  )

  -- Chunks that arrive one by one, with no whole packet buffered before, give the packets or the
  -- failure that their bytes give when they arrive at once.
  pub receive-result :
      (c : Codec) (chunks : List Bytes)
      → IsSettled c
      → (receive c chunks).1 ≡ (process_packets deku (feed c (flatten chunks))).1
  receive-result c chunks s = (receive_pair c chunks s).0

  -- Chunks that arrive one by one, with no whole packet buffered before, and are received without a
  -- failure leave the packets and the codec that their bytes leave when they arrive at once.
  pub receive-process_packets :
      (c : Codec) (chunks : List Bytes) (ps : List Packet)
      → IsSettled c
      → (receive c chunks).1 ≡ ok ps
      → receive c chunks ≡ process_packets deku (feed c (flatten chunks))
  receive-process_packets c chunks ps s e = (receive_pair c chunks s).1 ps e

  -- The bytes of packets in a row.
  unfoldable pub encode_all : List Packet → Result Bytes CodecError
  encode_all [] = ok []
  encode_all (p ∷ ps) = do bytes ← encode deku p; more ← encode_all ps; ok (bytes ++ more)

  encode-ok : (p : Packet) (bytes : Bytes) → encode deku p ≡ ok bytes → deku.to_bytes p ≡ some bytes
  unfolding encode
  encode-ok p bytes e = ground arith

  pub decode-All :
      (ps : List Packet) (bytes : Bytes)
      → All IsWellFormed ps
      → encode_all ps ≡ ok bytes
      → process_packets deku (record { buffer = bytes }) ≡ (new, ok ps)
  unfolding encode_all
  decode-All [] bytes w e =
      let empty : [] ≡ bytes = cc in rw (← empty) (settled-process_packets new deku.from_bytes-nil)
  decode-All (p ∷ ps) bytes (wp, w) e =
      let (b, e', eb) = >>=-succeeds _ (encode deku p) e in
      let (more, joined, em) = >>=-succeeds _ (encode_all ps) e' in
      let split : b ++ more ≡ bytes = cc in
      rw (← split) (
        process_packets_done deku (record { buffer = b ++ more }) p more
          (deku.from_bytes-to_bytes p b more wp (encode-ok p b eb))
        ∙ ap (after (p ∷ [])) (decode-All ps more w em))

  -- Well-formed packets that are encoded one after the other are decoded again, in order, with
  -- nothing left in the buffer, however the bytes are cut into chunks on the way.
  pub receive-encode_all :
      (ps : List Packet) (chunks : List Bytes)
      → All IsWellFormed ps
      → encode_all ps ≡ ok (flatten chunks)
      → receive new chunks ≡ (new, ok ps)
  unfolding feed
  receive-encode_all ps chunks w e =
      let once = decode-All ps (flatten chunks) w e in
      let (same, whole) = receive_pair new chunks deku.from_bytes-nil in
      whole ps (same ∙ ap (λ (x : Answer). x.1) once) ∙ once
