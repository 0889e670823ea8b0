-- ===== src/NotifyCast.antt =====
-- `NotifyCast` of device-agent/src/notifycast.rs: notifications are sent to every subscriber.
pub mod Tokens
pub mod Delivery
use devicekit.Prelude.{
  ℕ, suc, ◌+◌, ◌%◌, ◌^◌, Bool, true, false, Option, none, some, List, [], ◌∷◌, ◌++◌, ◌==◌,
  if◌then◌else◌,
}
use devicekit.Prelude.Text.{Str}

abbrev pub Notification : Type 0
Notification = Str × Str

-- The sending end of a subscriber's channel: whether the receiver is alive, and what was sent.
pub record Listener : Type 0 where
  pub alive : Bool
  pub sent : List Notification

-- `HashMap<u64, Sender<Notification>>` as an association list.
abbrev pub Listeners : Type 0
Listeners = List (ℕ × Listener)

pub record NotifyCast : Type 0 where
  pub next_token : ℕ
  pub listeners : Listeners

unfoldable pub find : ℕ → Listeners → Option Listener
find token [] = none
find token ((t, l) ∷ ls) = if t == token then some l else find token ls

unfoldable pub put : ℕ → Listener → Listeners → Listeners
put token l [] = (token, l) ∷ []
put token l ((t, k) ∷ ls) = if t == token then (token, l) ∷ ls else (t, k) ∷ put token l ls

unfoldable pub erase : ℕ → Listeners → Listeners
erase token [] = []
erase token ((t, l) ∷ ls) = if t == token then ls else (t, l) ∷ erase token ls

unfoldable pub new : NotifyCast
new = record { next_token = 0; listeners = [] }

-- `fetch_add(1)` on an AtomicU64, which wraps.
unfoldable pub incr_token : NotifyCast → NotifyCast × ℕ
incr_token n = (record n { next_token = (n.next_token + 1) % 2 ^ 64 }, n.next_token)

-- One step here: the source draws the token in front of taking the lock.
unfoldable pub subscribe : NotifyCast → NotifyCast × ℕ
subscribe n =
    let (m, token) = incr_token n in
    (record m { listeners = put token (record { alive = true; sent = [] }) m.listeners }, token)

unfoldable pub unsubscribe : ℕ → NotifyCast → NotifyCast
unsubscribe token n = record n { listeners = erase token n.listeners }

-- `send(…).is_ok()` of `retain`, for one listener.
abbrev pub deliver : Notification → Listener → Listener
deliver note l = record l { sent = l.sent ++ (note ∷ []) }

unfoldable pub retain : Notification → Listeners → Listeners
retain note [] = []
retain note ((t, l) ∷ ls) =
    let rest = retain note ls in if l.alive then (t, deliver note l) ∷ rest else rest

-- A round of the listener thread's loop.
unfoldable pub broadcast : Notification → NotifyCast → NotifyCast
broadcast note n = record n { listeners = retain note n.listeners }

-- The receiver of a subscriber is dropped.
unfoldable pub drop_receiver : ℕ → Listeners → Listeners
drop_receiver token [] = []
drop_receiver token ((t, l) ∷ ls) =
    if t == token then (t, record l { alive = false }) ∷ ls else (t, l) ∷ drop_receiver token ls

-- What happens, in the order in which the lock is taken.
pub data Event : Type 0 where
  subscribes : Event
  unsubscribes hangs_up : ℕ → Event
  notifies : Notification → Event

unfoldable pub step : Event → NotifyCast → NotifyCast
step subscribes n = (subscribe n).0
step (unsubscribes token) n = unsubscribe token n
step (hangs_up token) n = record n { listeners = drop_receiver token n.listeners }
step (notifies note) n = broadcast note n

unfoldable pub run : List Event → NotifyCast → NotifyCast
run [] n = n
run (e ∷ es) n = run es (step e n)
