-- ===== src/Transport/Order.antt =====
-- No byte is lost, doubled or moved on its way to the socket.
use mathlib.Core.List.{flatten}
use devicekit.Prelude.{
  ℕ, zero, suc, take-append-drop, drop-drop, drop_beyond, ◌+◌, ◌≤◌, ◌<◌, ◌≡◌, refl, ap, ap₂, subst,
  sym, ◌∙◌, Bool, true, false, Option, none, some, List, [], ◌∷◌, ◌++◌, length, take, drop, leb,
  if◌then◌else◌, append_assoc, arith,
}
use devicekit.Prelude.Result.{ok, err}
use devicekit.Protocol.{Bytes}
use devicekit.Transport.{
  WriteAnswer, wrote, blocked, interrupted, failed, Round, Writer, Fetched, ready, empty,
  disconnected, fetch_from, fetch_pending, fetch, slice_of, advance, completed, Pushed, on_write,
  write_pending, on_fetched, push_loop, flushed, push_bytes_to_socket,
}

abbrev pub left_of : ℕ → Option Bytes → Bytes
left_of offset none = []
left_of offset (some buf) = drop offset buf

-- What is still to be written, in order.
abbrev pub outgoing : Writer → Bytes
outgoing w = left_of w.pending_offset w.pending_buf ++ flatten w.queue

abbrev HasRest : ℕ → Option Bytes → Type 0
HasRest offset none = Unit {0}
HasRest offset (some buf) = offset < length buf

-- A pending message has bytes left.
abbrev pub IsPending : Writer → Type 0
IsPending w = HasRest w.pending_offset w.pending_buf

-- The socket writes no more than it is given.
abbrev pub IsHonest : (ℕ → Round) → Type 0
IsHonest rounds = (i n : ℕ) (slice : Bytes) → (rounds i).write slice ≡ wrote n → n ≤ length slice

take-take : (n m : ℕ) (xs : Bytes) → n ≤ length (take m xs) → take n (take m xs) ≡ take n xs
take-take zero m xs h = refl
take-take (suc n) zero xs h = absurd (omega arith)
take-take (suc n) (suc m) [] h = refl
take-take (suc n) (suc m) (x ∷ xs) h = ap (λ r. x ∷ r) (take-take n m xs (omega arith))

-- Nothing but the place of bytes has changed.
abbrev pub Conserves : Writer → Writer → Type 0
Conserves w w' = (w'.sent ++ outgoing w' ≡ w.sent ++ outgoing w) × IsPending w'

-- A message that has been fetched is the pending one.
abbrev HoldsFetched : Writer → Fetched → Type 0
HoldsFetched w (ready buf w') =
    (w'.pending_buf ≡ some buf) × (w'.pending_offset < length buf) × Conserves w w'
HoldsFetched w (empty w') = Conserves w w'
HoldsFetched w (disconnected w') = Conserves w w'

emptied-Conserves :
    (w : Writer)
    → w.pending_buf ≡ none
    → [] ≡ flatten w.queue
    → Conserves w (record w { queue = [] })
unfolding flatten
emptied-Conserves w h e = (
  ap (λ q. w.sent ++ (left_of w.pending_offset w.pending_buf ++ q)) e,
  subst (HasRest w.pending_offset) (sym h) tt,
)

fetch_end :
    (b : Bool) (w w' : Writer)
    → Conserves w w'
    → HoldsFetched w (if b then empty w' else disconnected w')
fetch_end true w w' h = h
fetch_end false w w' h = h

fetch_from-HoldsFetched :
    (now : ℕ) (w : Writer) (queue : List Bytes)
    → w.pending_buf ≡ none
    → flatten queue ≡ flatten w.queue
    → HoldsFetched w (fetch_from now w queue)
unfolding fetch_from flatten
fetch_from-HoldsFetched now w [] h e =
    fetch_end w.has_sender w (record w { queue = [] }) (emptied-Conserves w h e)
fetch_from-HoldsFetched now w ([] ∷ queue) h e = fetch_from-HoldsFetched now w queue h e
fetch_from-HoldsFetched now w ((b ∷ bytes) ∷ queue) h e = (
  refl,
  omega arith,
  (
    ap (λ q. w.sent ++ q) (e ∙ ap (λ p. left_of w.pending_offset p ++ flatten w.queue) (sym h)),
    omega arith,
  ),
)

fetch_pending-HoldsFetched :
    (now : ℕ) (w : Writer) (p : Option Bytes)
    → w.pending_buf ≡ p
    → IsPending w
    → HoldsFetched w (fetch_pending now w p)
fetch_pending-HoldsFetched now w none h r = fetch_from-HoldsFetched now w w.queue h refl
fetch_pending-HoldsFetched now w (some buf) h r =
    (h, subst (HasRest w.pending_offset) h r, (refl, r))

fetch-HoldsFetched : (now : ℕ) (w : Writer) → IsPending w → HoldsFetched w (fetch now w)
unfolding fetch
fetch-HoldsFetched now w r = fetch_pending-HoldsFetched now w w.pending_buf refl r

module _ (n : ℕ) (buf : Bytes) (w : Writer) (held : w.pending_buf ≡ some buf)
    (fits : n ≤ length (slice_of buf w)) where
  written : take n (slice_of buf w) ++ drop (w.pending_offset + n) buf ≡ drop w.pending_offset buf
  written =
      ap₂ (λ (x : Bytes) y. x ++ y) (take-take n 16_384 (drop w.pending_offset buf) fits)
        (sym (drop-drop n w.pending_offset buf))
      ∙ take-append-drop n (drop w.pending_offset buf)

  moved :
      (w.sent ++ take n (slice_of buf w)) ++ (drop (w.pending_offset + n) buf ++ flatten w.queue)
      ≡ w.sent ++ outgoing w
  moved =
      append_assoc w.sent (take n (slice_of buf w)) _
      ∙ ap (λ r. w.sent ++ r)
          (sym (
              append_assoc (take n (slice_of buf w)) (drop (w.pending_offset + n) buf)
                (flatten w.queue))
            ∙ ap (λ r. r ++ flatten w.queue) written
            ∙ ap (λ p. left_of w.pending_offset p ++ flatten w.queue) (sym held))

  advance-Conserves_cases :
      (b : Bool)
      → leb (length buf) (w.pending_offset + n) ≡ b
      → Conserves w (
          if b
          then record w {
            pending_buf = none;
            pending_offset = 0;
            sent = w.sent ++ take n (slice_of buf w);
          }
          else record w {
            pending_offset = w.pending_offset + n;
            sent = w.sent ++ take n (slice_of buf w);
          })
  advance-Conserves_cases true e = (
    ap (λ d. (w.sent ++ take n (slice_of buf w)) ++ (d ++ flatten w.queue))
          (sym (drop_beyond (w.pending_offset + n) buf (ground arith)))
        ∙ moved,
    tt,
  )
  advance-Conserves_cases false e = (
    ap
          (λ p.
            (w.sent ++ take n (slice_of buf w))
            ++ (left_of (w.pending_offset + n) p ++ flatten w.queue))
          held
        ∙ moved,
    subst (HasRest (w.pending_offset + n)) (sym held) (ground arith),
  )

  advance-Conserves : Conserves w (advance n buf w)
  unfolding advance
  advance-Conserves = advance-Conserves_cases (leb (length buf) (w.pending_offset + n)) refl

Conserves-trans : (u v w : Writer) → Conserves u v → Conserves v w → Conserves u w
Conserves-trans u v w (a, p) (b, q) = (b ∙ a, q)

module _ (rounds : ℕ → Round) (honest : IsHonest rounds) where
  abbrev Next : (ℕ → ℕ → Writer → Pushed) → Type 0
  Next next = (b m : ℕ) (w : Writer) → IsPending w → Conserves w (next b m w).0

  on_write-Conserves :
      (i b m : ℕ) (buf : Bytes) (w : Writer) (next : ℕ → ℕ → Writer → Pushed) (a : WriteAnswer)
      → w.pending_buf ≡ some buf
      → IsPending w
      → (rounds i).write (slice_of buf w) ≡ a
      → Next next
      → Conserves w (on_write b m buf w next a).0
  on_write-Conserves i b m buf w next (wrote zero) h p e k = (refl, p)
  on_write-Conserves i b m buf w next (wrote (suc n)) h p e k =
      let stop = advance-Conserves (suc n) buf w h (honest i (suc n) (slice_of buf w) e) in
      let more = k (b + suc n) (m + completed (suc n) buf w) (advance (suc n) buf w) stop.1 in
      let on =
        Conserves-trans w (advance (suc n) buf w)
          (next (b + suc n) (m + completed (suc n) buf w) (advance (suc n) buf w)).0 stop more in
      ground arith
  on_write-Conserves i b m buf w next blocked h p e k = (refl, p)
  on_write-Conserves i b m buf w next interrupted h p e k = k b m w p
  on_write-Conserves i b m buf w next failed h p e k = (refl, p)

  write_pending-Conserves :
      (i b m : ℕ) (buf : Bytes) (w : Writer) (next : ℕ → ℕ → Writer → Pushed)
      → w.pending_buf ≡ some buf
      → IsPending w
      → Next next
      → Conserves w (write_pending (rounds i) b m buf w next).0
  write_pending-Conserves i b m buf w next h p k =
      let go = on_write-Conserves i b m buf w next _ h p refl k in
      let still : Conserves w w = (refl, p) in ground arith

  on_fetched-Conserves :
      (i b m : ℕ) (w : Writer) (next : ℕ → ℕ → Writer → Pushed) (f : Fetched)
      → HoldsFetched w f
      → Next next
      → Conserves w (on_fetched (rounds i) b m next f).0
  on_fetched-Conserves i b m w next (ready buf w') (held, rest, c) k =
      Conserves-trans w w' (write_pending (rounds i) b m buf w' next).0 c
        (write_pending-Conserves i b m buf w' next held c.1 k)
  on_fetched-Conserves i b m w next (empty w') c k = c
  on_fetched-Conserves i b m w next (disconnected w') c k = c

  push_loop-Conserves :
      (fuel b m : ℕ) (w : Writer) → IsPending w → Conserves w (push_loop rounds fuel b m w).0
  unfolding push_loop
  push_loop-Conserves zero b m w p = (refl, p)
  push_loop-Conserves (suc fuel) b m w p =
      on_fetched-Conserves fuel b m w (push_loop rounds fuel) _ (fetch-HoldsFetched _ w p)
        (push_loop-Conserves fuel)

  flushed-fst : (f : Bool) (r : Pushed) → (flushed f r).0 ≡ r.0
  flushed-fst f (w, some (ok u)) = refl
  flushed-fst f (w, some (err e)) = refl
  flushed-fst f (w, none) = refl

  -- Whatever the socket answers, as long as it writes no more than it is given, what it has accepted
  -- followed by what is still to be written is what it was before the call: no byte is lost, doubled
  -- or moved, and a message that is pending afterwards has bytes left.
  pub push_bytes_to_socket-Conserves :
      (flush_fails : Bool) (fuel : ℕ) (w : Writer)
      → IsPending w
      → Conserves w (push_bytes_to_socket rounds flush_fails fuel w).0
  unfolding push_bytes_to_socket
  push_bytes_to_socket-Conserves flush_fails fuel w p =
      subst (Conserves w) (sym (flushed-fst flush_fails (push_loop rounds fuel 0 0 w)))
        (push_loop-Conserves fuel 0 0 w p)
