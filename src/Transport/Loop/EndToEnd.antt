-- ===== src/Transport/Loop/EndToEnd.antt =====
-- What the server receives of the packets that the client sends.
use mathlib.Core.List.{flatten}
use devicekit.Prelude.{
  ◌≡◌, refl, ap, subst, sym, ◌∙◌, Bool, true, false, none, some, List, [], ◌∷◌, ◌++◌, append_assoc,
  All,
}
use devicekit.Prelude.Result.{Result, ok, err}
use devicekit.Protocol.{Bytes, Packet}
use devicekit.Protocol.Layout.RoundTrip.{IsWellFormed}
use devicekit.Client.State.{ClientEvent}
use devicekit.Codec.{Deku, Codec, CodecError, new, feed, process_packets}
use devicekit.Codec.Stream.{Answer, after}
use devicekit.Codec.Chunks.{
  receive, encode_all, continue, decode-All, process_packets-feed, receive-result,
}
use devicekit.Transport.{Writer, Pushed, push_bytes_to_socket}
use devicekit.Transport.Order.{
  left_of, outgoing, IsPending, IsHonest, push_bytes_to_socket-Conserves,
}
use devicekit.Transport.Loop.{
  PullError, Tick, with_messages, Run, closed, pulled, pushed, pull_bytes_from_socket,
  transport_loop,
}

-- All that the senders give to the channel.
abbrev pub messages_of : List Tick → Bytes
messages_of [] = []
messages_of (tick ∷ ticks) = flatten tick.messages ++ messages_of ticks

abbrev pub AllHonest : List Tick → Type 0
AllHonest ticks = All (λ tick. IsHonest tick.rounds) ticks

-- What has been sent and, behind it, something that has not, are what was to be sent.
abbrev Sends : Bytes → Writer → Type 0
Sends whole w = (rest : Bytes) × (w.sent ++ rest ≡ whole)

flatten-append : (xs ys : List Bytes) → flatten (xs ++ ys) ≡ flatten xs ++ flatten ys
unfolding flatten
flatten-append [] ys = refl
flatten-append (x ∷ xs) ys =
    ap (λ r. x ++ r) (flatten-append xs ys) ∙ sym (append_assoc x (flatten xs) (flatten ys))

with_messages-outgoing :
    (messages : List Bytes) (w : Writer)
    → outgoing (with_messages messages w) ≡ outgoing w ++ flatten messages
with_messages-outgoing messages w =
    let left : Bytes = left_of w.pending_offset w.pending_buf in
    ap (λ r. left ++ r) (flatten-append w.queue messages)
    ∙ sym (append_assoc left (flatten w.queue) (flatten messages))

module _ (V : Type 0) where
  pulled-Sends :
      (whole : Bytes) (w : Writer) (next : Writer → Run V)
      (r : Result (List (ClientEvent V)) PullError)
      → Sends whole w
      → Sends whole (next w).0
      → Sends whole (pulled w next r).0
  pulled-Sends whole w next (err e) h k = h
  pulled-Sends whole w next (ok events) h k = k

  pushed-Sends :
      (whole : Bytes) (tick : Tick) (next : Writer → Run V) (p : Pushed)
      → Sends whole p.0
      → Sends whole (next p.0).0
      → Sends whole (pushed tick next p).0
  pushed-Sends whole tick next (w, none) h k = h
  pushed-Sends whole tick next (w, some (err e)) h k = h
  pushed-Sends whole tick next (w, some (ok u)) h k =
      pulled-Sends whole w next (pull_bytes_from_socket tick.receives tick.answer) h k

  flagged-Sends :
      (whole : Bytes) (flag : Bool) (w : Writer) (r : Run V)
      → Sends whole w
      → Sends whole r.0
      → Sends whole (elim flag as (λ _. Run V) [ true ↦ closed w | false ↦ r ]).0
  flagged-Sends whole true w r h k = h
  flagged-Sends whole false w r h k = k

  transport_loop-Sends :
      (ticks : List Tick) (w : Writer) (whole : Bytes)
      → AllHonest ticks
      → IsPending w
      → w.sent ++ (outgoing w ++ messages_of ticks) ≡ whole
      → Sends whole (transport_loop {V = V} ticks w).0
  unfolding transport_loop
  transport_loop-Sends [] w whole honest p e = (outgoing w ++ [], e)
  transport_loop-Sends (tick ∷ ticks) w whole (honest, others) p e =
      let w₁ : Writer = with_messages tick.messages w in
      let step : Pushed = push_bytes_to_socket tick.rounds tick.flush_fails tick.fuel w₁ in
      let (kept, pending) =
        push_bytes_to_socket-Conserves tick.rounds honest tick.flush_fails tick.fuel w₁ p in
      let later : Bytes = messages_of ticks in
      let e₁ : w₁.sent ++ (outgoing w₁ ++ later) ≡ whole =
        ap (λ r. w.sent ++ (r ++ later)) (with_messages-outgoing tick.messages w)
        ∙ ap (λ r. w.sent ++ r) (append_assoc (outgoing w) (flatten tick.messages) later)
        ∙ e in
      let e₂ : step.0.sent ++ (outgoing step.0 ++ later) ≡ whole =
        sym (append_assoc step.0.sent (outgoing step.0) later)
        ∙ ap (λ r. r ++ later) kept
        ∙ append_assoc w₁.sent (outgoing w₁) later
        ∙ e₁ in
      flagged-Sends whole tick.shutdown_flag w₁ _ (outgoing w₁ ++ later, e₁)
        (pushed-Sends whole tick (λ w'. transport_loop ticks w') step (outgoing step.0 ++ later, e₂)
          (transport_loop-Sends ticks step.0 whole others pending e₂))

abbrev pub idle : Writer
idle = record {
  queue = [];
  has_sender = true;
  pending_buf = none;
  pending_offset = 0;
  pending_since = 0;
  sent = [];
}

module _ (deku : Deku) where
  -- Packets that a stream gives, of which more may come.
  abbrev Begins : List Packet → Result (List Packet) CodecError → Type 0
  Begins ps r = (qs later : List Packet) × (ps ≡ qs ++ later) × (r ≡ ok qs)

  after-Begins :
      (ps qs : List Packet) (c : Codec) (a : Answer) → after qs a ≡ (c, ok ps) → Begins ps (ok qs)
  after-Begins ps qs c (d, ok rs) e = (qs, rs, sym (packets_of e), refl)
    where
      packets_of :
          {d c : Codec} {xs ys : List Packet} → ◌≡◌ {A = Answer} (d, ok xs) (c, ok ys) → xs ≡ ys
      packets_of e = cc
  after-Begins ps qs c (d, err x) e = cc

  continue-Begins :
      (ps : List Packet) (c : Codec) (rest : Bytes) (a : Answer)
      → continue deku rest a ≡ (c, ok ps)
      → Begins ps a.1
  continue-Begins ps c rest (d, ok qs) e =
      after-Begins ps qs c (process_packets deku (feed d rest)) e
  continue-Begins ps c rest (d, err x) e = cc

  receive-Begins :
      (ps : List Packet) (chunks : List Bytes) (rest : Bytes)
      → All IsWellFormed ps
      → encode_all deku ps ≡ ok (flatten chunks ++ rest)
      → Begins ps (receive deku new chunks).1
  unfolding feed
  receive-Begins ps chunks rest w e =
      let whole : process_packets deku (record { buffer = flatten chunks ++ rest }) ≡ (new, ok ps) =
        decode-All deku ps (flatten chunks ++ rest) w e in
      let cut : continue deku rest (process_packets deku (record { buffer = flatten chunks }))
          ≡ (new, ok ps) =
        sym (process_packets-feed deku (record { buffer = flatten chunks }) rest) ∙ whole in
      subst (Begins ps) (sym (receive-result deku new chunks deku.from_bytes-nil))
        (continue-Begins ps new rest _ cut)

  -- Whatever the socket does, and however often the loop goes round, a server that decodes what has
  -- been sent, in whatever chunks it comes, has received the first of the packets that were given to
  -- the transport's channel in their encoding, unchanged and in order.
  pub transport_loop-receive :
      (V : Type 0) (ticks : List Tick) (ps : List Packet) (chunks : List Bytes)
      → AllHonest ticks
      → All IsWellFormed ps
      → encode_all deku ps ≡ ok (messages_of ticks)
      → flatten chunks ≡ (transport_loop {V = V} ticks idle).0.sent
      → (qs later : List Packet) × (ps ≡ qs ++ later) × ((receive deku new chunks).1 ≡ ok qs)
  unfolding flatten
  transport_loop-receive V ticks ps chunks honest w e sent =
      let (rest, whole) = transport_loop-Sends V ticks idle (messages_of ticks) honest tt refl in
      receive-Begins ps chunks rest w (e ∙ ap ok (sym (ap (λ s. s ++ rest) sent ∙ whole)))
