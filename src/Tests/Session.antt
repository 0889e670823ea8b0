-- ===== src/Tests/Session.antt =====
-- Sessions at concrete clients.
use devicekit.Prelude.{
  none, ℕ, ◌+◌, ◌-◌, ◌≤◌, ◌<◌, ◌≡◌, refl, ◌↔◌, ◌⊎◌, true, false, some, List, [], ◌∷◌, ltb, arith,
}
use devicekit.Codec.{layout}
use devicekit.Protocol.{UnauthorizedError, ConnectFailedError}
use devicekit.Response.{DisconnectedReason}
use devicekit.Session.State.{ConnectMode, MoonlightClient, unwrap_or_zero, new, end_session, status}
use devicekit.Session.{Encounter, start}
use devicekit.Session.Timer.{
  Clock, Timer, IsClock, acked, heartbeats, timer_logic, timer_heartbeats,
}
use devicekit.Session.Backoff.{
  ladder, ladder_from, sleeps, sleeps-ladder_from, sleeps-unauthorized, waits, status_ahead,
}
use devicekit.Session.Watchdog.{Round, Closed, timer_proc, timer_proc-Closed}
use devicekit.Session.Shutdown.{start_stop}
use devicekit.Tests.Sample.{sample, fleet, device, secret}

-- A clock that moves a millisecond at each reading, and a timer whose heartbeat of forty seconds
-- ago was answered.
abbrev clock : Clock
clock n = 100_000 + n

abbrev timer : Timer
timer = record {
  last_refresh_sent = 99_900;
  last_heartbeat_sent = 60_000;
  last_heartbeat_ack = 60_100;
}

clock-IsClock : IsClock clock
clock-IsClock =
    (omega arith, omega arith, omega arith, omega arith, omega arith, omega arith, omega arith)

timer_heartbeats_example :
    (heartbeats (timer_logic {V = ℕ} false clock timer).sent ≤ 1)
    × ((heartbeats (timer_logic {V = ℕ} false clock timer).sent ≡ 1) ↔ (
        (30_000 ≤ clock 1 - timer.last_heartbeat_sent)
        ⊎ ((5_000 ≤ clock 3 - timer.last_heartbeat_sent)
            × (acked false clock timer < timer.last_heartbeat_sent))))
timer_heartbeats_example = timer_heartbeats ℕ false clock timer clock-IsClock (omega arith)

abbrev client : MoonlightClient sample.Value
client = new fleet device secret ConnectMode.prod

abbrev failures : List DisconnectedReason
failures =
    DisconnectedReason.force_close_socket
    ∷ DisconnectedReason.connect_failed ConnectFailedError.service_restarting
    ∷ []

client_waits_none : unwrap_or_zero client.reconnect_in ≡ ladder 0
unfolding new
client_waits_none = refl

sleeps-ladder_from_example : sleeps failures client ≡ ladder_from 0 failures
sleeps-ladder_from_example =
    sleeps-ladder_from 0 failures client (refl, (refl, tt)) client_waits_none

-- Refused twice, and then two failures.
abbrev refusals : List DisconnectedReason
refusals = DisconnectedReason.unauthorized UnauthorizedError.device_disabled ∷ failures

sleeps-unauthorized_example :
    sleeps (DisconnectedReason.unauthorized UnauthorizedError.device_disabled ∷ refusals) client
    ≡ 300_000 ∷ waits none refusals
sleeps-unauthorized_example = sleeps-unauthorized UnauthorizedError.device_disabled refusals client

refusals_wait : waits none refusals ≡ 300_000 ∷ 300_000 ∷ 30_000 ∷ []
refusals_wait = refl

abbrev failed : MoonlightClient sample.Value
failed = (end_session (DisconnectedReason.connect_failed ConnectFailedError.unknown) client).0

status_ahead_example :
    ((end_session
        (DisconnectedReason.connect_failed ConnectFailedError.unknown)
        client).1.reconnecting_in_ms
      ≡ ladder 0)
    × ((status failed).reconnecting_in ≡ some (ladder 1))
status_ahead_example = status_ahead 0 ConnectFailedError.unknown client client_waits_none

abbrev encounter : Encounter sample.Value
encounter = record { opens = true; events = []; closing = λ now. ltb 5_000 now }

start_stop_example :
    start sample layout ((encounter, true) ∷ (encounter, false) ∷ []) client
    ≡ start sample layout ((encounter, true) ∷ []) client
start_stop_example = start_stop sample layout encounter ((encounter, false) ∷ []) client

-- Two rounds of the timer, the second a minute behind the first.
abbrev quiet_at : ℕ → Round
quiet_at time = record { stopped = false; ping_ready = false; now = λ n. time + n }

timer_proc-Closed_example :
    Closed ℕ (timer_proc {V = ℕ} (quiet_at 100_000 ∷ quiet_at 160_000 ∷ []) false timer)
timer_proc-Closed_example =
    timer_proc-Closed ℕ (quiet_at 100_000 ∷ []) (quiet_at 160_000) [] timer ((refl, refl), tt)
      (refl, refl) (omega arith)
