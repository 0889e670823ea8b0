-- ===== src/Session/Timer.antt =====
-- `timer_logic` of device-agent/src/moonlight_codec.rs: heartbeats, the watchdog and the refreshes
-- of a session.
use devicekit.Prelude.{
  ℕ, suc, ◌+◌, ◌-◌, ◌≤◌, ◌<◌, ◌≡◌, ◌↔◌, ◌⊎◌, Bool, true, false, ◌&&◌, List, [], ◌∷◌, ◌++◌, ltb, leb,
  if◌then◌else◌, arith,
}
use devicekit.Client.State.{ClientEvent, refresh, heartbeat_tick, transport_close}

-- Instants in milliseconds.
pub record Timer : Type 0 where
  pub last_refresh_sent : ℕ
  pub last_heartbeat_sent : ℕ
  pub last_heartbeat_ack : ℕ

-- The timer, what was sent to the mailbox, and whether the shutdown flag was set.
pub record Ticked (V : Type 0) : Type 0 where
  pub timer : Timer
  pub sent : List (ClientEvent V)
  pub shutdown : Bool

-- The readings of the clock, in the order in which a call makes them.
abbrev pub Clock : Type 0
Clock = ℕ → ℕ

abbrev on_ping : Bool → Clock → Timer → Timer
on_ping true now t = record t { last_heartbeat_ack = now 0 }
on_ping false now t = t

abbrev send_if : {V : Type 0} → Bool → ClientEvent V → List (ClientEvent V)
send_if true e = e ∷ []
send_if false e = []

-- The tests of the four steps, each at its reading.
abbrev pub is_due : Clock → Timer → Bool
is_due now t = leb 30_000 (now 1 - t.last_heartbeat_sent)

abbrev sent_at : Bool → ℕ → Timer → Timer
sent_at true now t = record t { last_heartbeat_sent = now }
sent_at false now t = t

abbrev pub is_missed : Clock → Timer → Bool
is_missed now t =
    leb 5_000 (now 3 - t.last_heartbeat_sent) && ltb t.last_heartbeat_ack t.last_heartbeat_sent

abbrev pub is_dead : Clock → Timer → Bool
is_dead now t = leb 90_000 (now 5 - t.last_heartbeat_ack)

abbrev needs_refresh : Clock → Timer → Bool
needs_refresh now t = leb 500 (now 6 - t.last_refresh_sent)

abbrev refreshed_at : Bool → ℕ → Timer → Timer
refreshed_at true now t = record t { last_refresh_sent = now }
refreshed_at false now t = t

unfoldable pub timer_logic : {V : Type 0} → (ping_ready : Bool) → Clock → Timer → Ticked V
timer_logic ping_ready now t0 =
    let t1 = on_ping ping_ready now t0 in
    let t2 = sent_at (is_due now t1) (now 2) t1 in
    let t3 = sent_at (is_missed now t2) (now 4) t2 in
    record {
      timer = refreshed_at (needs_refresh now t3) (now 7) t3;
      sent =
          send_if (is_due now t1) heartbeat_tick
          ++ (send_if (is_missed now t2) heartbeat_tick
              ++ (send_if (is_dead now t3) transport_close
                  ++ send_if (needs_refresh now t3) refresh));
      shutdown = is_dead now t3;
    }

-- How many heartbeats stand in a list of events.
abbrev pub heartbeats : {V : Type 0} → List (ClientEvent V) → ℕ
heartbeats [] = 0
heartbeats (heartbeat_tick ∷ es) = suc (heartbeats es)
heartbeats (_ ∷ es) = heartbeats es

-- Readings never fall.
abbrev pub IsClock : Clock → Type 0
IsClock now =
    (now 0 ≤ now 1)
    × (now 1 ≤ now 2)
    × (now 2 ≤ now 3)
    × (now 3 ≤ now 4)
    × (now 4 ≤ now 5)
    × (now 5 ≤ now 6)
    × (now 6 ≤ now 7)

-- When the last answer to a heartbeat has been seen, by the time of the tests.
abbrev pub acked : Bool → Clock → Timer → ℕ
acked ping_ready now t = if ping_ready then now 0 else t.last_heartbeat_ack

module _ (V : Type 0) (ping_ready : Bool) (now : Clock) (t : Timer) where
  -- A call that takes less than five seconds sends at most one heartbeat, and sends one exactly if
  -- thirty seconds have passed since the last, or five with no answer seen since then.
  pub timer_heartbeats :
      IsClock now
      → now 7 < now 0 + 5_000
      → (heartbeats (timer_logic {V = V} ping_ready now t).sent ≤ 1)
        × ((heartbeats (timer_logic {V = V} ping_ready now t).sent ≡ 1) ↔ (
            (30_000 ≤ now 1 - t.last_heartbeat_sent)
            ⊎ ((5_000 ≤ now 3 - t.last_heartbeat_sent)
                × (acked ping_ready now t < t.last_heartbeat_sent))))
  unfolding timer_logic
  timer_heartbeats clock quick = ground arith

  -- The shutdown flag is set exactly if no answer to a heartbeat has been seen for ninety seconds
  -- when the watchdog looks.
  pub timer_shutdown :
      ((timer_logic {V = V} ping_ready now t).shutdown ≡ true)
      ↔ (90_000 ≤ now 5 - acked ping_ready now t)
  unfolding timer_logic
  timer_shutdown = ground arith

  -- Behind a call the last heartbeat is less than thirty seconds old, if none of its readings is
  -- further than five seconds from the first.
  pub timer_pace :
      IsClock now
      → now 7 < now 0 + 5_000
      → now 1 - (timer_logic {V = V} ping_ready now t).timer.last_heartbeat_sent < 30_000
  unfolding timer_logic
  timer_pace clock quick = ground arith
