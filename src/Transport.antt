-- ===== src/Transport.antt =====
-- The writing side of the transport's loop (device-agent/src/moonlight_socket.rs):
-- `push_bytes_to_socket`, over a socket whose answers are given.
pub mod Order
pub mod Returns
pub mod Loop
use devicekit.Prelude.{
  ℕ, zero, suc, ◌+◌, ◌-◌, Bool, true, false, ◌||◌, Option, none, some, List, [], ◌∷◌, ◌++◌, length,
  take, drop, ltb, leb, if◌then◌else◌,
}
use devicekit.Prelude.Result.{Result, ok, err}
use devicekit.Protocol.{Bytes}

-- What `write` answers for a slice: `WouldBlock` and `TimedOut` are `blocked`.
pub data WriteAnswer : Type 0 where
  wrote : ℕ → WriteAnswer
  blocked interrupted failed : WriteAnswer

-- What one round meets: the clock where a message is taken, the clock where its age is read, and
-- the answer of `write`.
pub record Round : Type 0 where
  pub taken_at : ℕ
  pub read_at : ℕ
  pub write : Bytes → WriteAnswer

-- The channel of messages, whether a sender is alive, and the three variables of the transport's
-- thread; `sent` is what the socket has accepted.
pub record Writer : Type 0 where
  pub queue : List Bytes
  pub has_sender : Bool
  pub pending_buf : Option Bytes
  pub pending_offset : ℕ
  pub pending_since : ℕ
  pub sent : Bytes

pub data PushError : Type 0 where
  channel_read_failed write_stalled zero_bytes io_failed out_of_range : PushError

pub data Fetched : Type 0 where
  ready : (buf : Bytes) → Writer → Fetched
  empty : Writer → Fetched
  disconnected : Writer → Fetched

-- `try_recv`, over the empty messages that `continue` passes.
unfoldable pub fetch_from : ℕ → Writer → List Bytes → Fetched
fetch_from now w [] =
    if w.has_sender then empty (record w { queue = [] }) else disconnected (record w { queue = [] })
fetch_from now w ([] ∷ queue) = fetch_from now w queue
fetch_from now w ((b ∷ bytes) ∷ queue) = ready (b ∷ bytes) (record w {
  queue = queue;
  pending_buf = some (b ∷ bytes);
  pending_offset = 0;
  pending_since = now;
})

abbrev fetch_pending : ℕ → Writer → Option Bytes → Fetched
fetch_pending now w none = fetch_from now w w.queue
fetch_pending now w (some buf) = ready buf w

unfoldable pub fetch : ℕ → Writer → Fetched
fetch now w = fetch_pending now w w.pending_buf

-- The slice that is given to `write`.
abbrev pub slice_of : Bytes → Writer → Bytes
slice_of buf w = take 16_384 (drop w.pending_offset buf)

-- After `n` bytes of the slice were written.
unfoldable pub advance : ℕ → Bytes → Writer → Writer
advance n buf w =
    let offset = w.pending_offset + n in
    let sent = w.sent ++ take n (slice_of buf w) in
    if leb (length buf) offset
    then record w { pending_buf = none; pending_offset = 0; sent = sent }
    else record w { pending_offset = offset; sent = sent }

abbrev completed : ℕ → Bytes → Writer → ℕ
completed n buf w = if leb (length buf) (w.pending_offset + n) then 1 else 0

-- `none` is a call that has not returned.
abbrev pub Pushed : Type 0
Pushed = Writer × Option (Result (Unit {0}) PushError)

-- `write_len` bytes of `buf` are given to the socket, in the loop that goes on as `next`, with the
-- bytes and messages written so far.
abbrev on_write : ℕ → ℕ → Bytes → Writer → (ℕ → ℕ → Writer → Pushed) → WriteAnswer → Pushed
on_write bytes messages buf w next (wrote zero) = (w, some (err zero_bytes))
on_write bytes messages buf w next (wrote (suc n)) =
    let bytes' : ℕ = bytes + suc n in
    let messages' : ℕ = messages + completed (suc n) buf w in
    elim (leb 65_536 bytes' || leb 32 messages') [
      | true ↦ (advance (suc n) buf w, some (ok tt))
      | false ↦ next bytes' messages' (advance (suc n) buf w)
    ]
on_write bytes messages buf w next blocked = (w, some (ok tt))
on_write bytes messages buf w next interrupted = next bytes messages w
on_write bytes messages buf w next failed = (w, some (err io_failed))

abbrev write_pending : Round → ℕ → ℕ → Bytes → Writer → (ℕ → ℕ → Writer → Pushed) → Pushed
write_pending round bytes messages buf w next =
    if ltb 10_000 (round.read_at - w.pending_since)
    then (w, some (err write_stalled))
    else if ltb (length buf) w.pending_offset
    then (w, some (err out_of_range))
    else on_write bytes messages buf w next (round.write (slice_of buf w))

abbrev on_fetched : Round → ℕ → ℕ → (ℕ → ℕ → Writer → Pushed) → Fetched → Pushed
on_fetched round bytes messages next (empty w) = (w, some (ok tt))
on_fetched round bytes messages next (disconnected w) = (w, some (err channel_read_failed))
on_fetched round bytes messages next (ready buf w) = write_pending round bytes messages buf w next

unfoldable pub push_loop : (ℕ → Round) → ℕ → ℕ → ℕ → Writer → Pushed
push_loop rounds zero bytes messages w = (w, none)
push_loop rounds (suc fuel) bytes messages w =
    on_fetched (rounds fuel) bytes messages (push_loop rounds fuel) (fetch (rounds fuel).taken_at w)

-- `flush`, where an error other than a timeout or an interruption fails the call.
abbrev flushed : Bool → Pushed → Pushed
flushed flush_fails (w, some (ok u)) = (w, some (if flush_fails then err io_failed else ok tt))
flushed flush_fails (w, some (err e)) = (w, some (err e))
flushed flush_fails (w, none) = (w, none)

-- The rounds are numbered downwards; 65536 of them are enough unless `write` is interrupted.
unfoldable pub push_bytes_to_socket : (ℕ → Round) → (flush_fails : Bool) → ℕ → Writer → Pushed
push_bytes_to_socket rounds flush_fails fuel w = flushed flush_fails (push_loop rounds fuel 0 0 w)
