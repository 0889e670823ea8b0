-- ===== src/Transport/Returns.antt =====
-- A call of `push_bytes_to_socket` ends: each round writes a byte at least, and a call writes 64 KiB
-- at most before it leaves the loop.
use devicekit.Prelude.{ℕ, zero, suc, ◌+◌, ◌≤◌, ◌<◌, ◌≢◌, refl, Bool, none, some, arith}
use devicekit.Prelude.Result.{ok, err}
use devicekit.Protocol.{Bytes}
use devicekit.Transport.{
  WriteAnswer, wrote, blocked, interrupted, failed, Round, Writer, Fetched, ready, empty,
  disconnected, fetch, slice_of, advance, completed, Pushed, on_write, write_pending, on_fetched,
  push_loop, flushed, push_bytes_to_socket,
}

abbrev pub HasReturned : Pushed → Type 0
HasReturned (w, some r) = Unit {0}
HasReturned (w, none) = ⊥

-- No write is interrupted by a signal.
abbrev pub IsUninterrupted : (ℕ → Round) → Type 0
IsUninterrupted rounds = (i : ℕ) (slice : Bytes) → (rounds i).write slice ≢ interrupted

module _ (rounds : ℕ → Round) (calm : IsUninterrupted rounds) where
  abbrev NextReturns : ℕ → (ℕ → ℕ → Writer → Pushed) → Type 0
  NextReturns fuel next =
      (b m : ℕ) (w : Writer) → 65_536 ≤ b + fuel → 0 < fuel → HasReturned (next b m w)

  on_write-HasReturned :
      (fuel b m : ℕ) (buf : Bytes) (w : Writer) (next : ℕ → ℕ → Writer → Pushed) (a : WriteAnswer)
      → a ≢ interrupted
      → 65_536 ≤ b + suc fuel
      → NextReturns fuel next
      → HasReturned (on_write b m buf w next a)
  on_write-HasReturned fuel b m buf w next (wrote zero) c h k = tt
  on_write-HasReturned fuel b m buf w next (wrote (suc n)) c h k =
      let more : b + suc n < 65_536
          → HasReturned (next (b + suc n) (m + completed (suc n) buf w) (advance (suc n) buf w)) =
        λ below.
          k (b + suc n) (m + completed (suc n) buf w) (advance (suc n) buf w) (omega arith)
            (omega arith) in
      ground arith
  on_write-HasReturned fuel b m buf w next blocked c h k = tt
  on_write-HasReturned fuel b m buf w next interrupted c h k = absurd (c refl)
  on_write-HasReturned fuel b m buf w next failed c h k = tt

  write_pending-HasReturned :
      (i fuel b m : ℕ) (buf : Bytes) (w : Writer) (next : ℕ → ℕ → Writer → Pushed)
      → 65_536 ≤ b + suc fuel
      → NextReturns fuel next
      → HasReturned (write_pending (rounds i) b m buf w next)
  write_pending-HasReturned i fuel b m buf w next h k =
      let go =
        on_write-HasReturned fuel b m buf w next ((rounds i).write (slice_of buf w))
          (calm i (slice_of buf w)) h k in
      ground arith

  on_fetched-HasReturned :
      (i fuel b m : ℕ) (next : ℕ → ℕ → Writer → Pushed) (f : Fetched)
      → 65_536 ≤ b + suc fuel
      → NextReturns fuel next
      → HasReturned (on_fetched (rounds i) b m next f)
  on_fetched-HasReturned i fuel b m next (ready buf w) h k =
      write_pending-HasReturned i fuel b m buf w next h k
  on_fetched-HasReturned i fuel b m next (empty w) h k = tt
  on_fetched-HasReturned i fuel b m next (disconnected w) h k = tt

  push_loop-HasReturned :
      (fuel b m : ℕ) (w : Writer)
      → 65_536 ≤ b + fuel
      → 0 < fuel
      → HasReturned (push_loop rounds fuel b m w)
  unfolding push_loop
  push_loop-HasReturned zero b m w h k = absurd (omega arith)
  push_loop-HasReturned (suc fuel) b m w h k =
      on_fetched-HasReturned fuel fuel b m (push_loop rounds fuel) (fetch (rounds fuel).taken_at w)
        h (push_loop-HasReturned fuel)

  flushed-HasReturned : (f : Bool) (r : Pushed) → HasReturned r → HasReturned (flushed f r)
  flushed-HasReturned f (w, some (ok u)) h = tt
  flushed-HasReturned f (w, some (err e)) h = tt
  flushed-HasReturned f (w, none) h = h

  -- If no write is interrupted by a signal, a call returns within 65536 rounds, whatever else the
  -- socket answers and however much is queued.
  pub push_bytes_to_socket-HasReturned :
      (flush_fails : Bool) (fuel : ℕ) (w : Writer)
      → 65_536 ≤ fuel
      → HasReturned (push_bytes_to_socket rounds flush_fails fuel w)
  unfolding push_bytes_to_socket
  push_bytes_to_socket-HasReturned flush_fails fuel w h =
      flushed-HasReturned flush_fails (push_loop rounds fuel 0 0 w)
        (push_loop-HasReturned fuel 0 0 w (omega arith) (omega arith))
