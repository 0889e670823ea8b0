-- ===== src/Session/Backoff.antt =====
-- The waiting times between sessions, and what the client reports of them.
use devicekit.Prelude.{
  ℕ, zero, suc, ◌≡◌, refl, ap, ap₂, ◌∙◌, Bool, true, false, Option, none, some, List, [], ◌∷◌,
}
use devicekit.Protocol.{ConnectFailedError, UnauthorizedError}
use devicekit.Response.{DisconnectedReason}
use devicekit.Session.State.{
  MoonlightClient, unwrap_or_zero, is_unauthorized, next_interval, backoff, end_session, status,
}

-- The waiting time before the session after `n` failures in a row.
abbrev pub ladder : ℕ → ℕ
ladder zero = 0
ladder (suc zero) = 1_000
ladder (suc (suc zero)) = 2_500
ladder (suc (suc (suc zero))) = 5_000
ladder (suc (suc (suc (suc zero)))) = 10_000
ladder (suc (suc (suc (suc (suc zero))))) = 15_000
ladder (suc (suc (suc (suc (suc (suc n)))))) = 30_000

next_interval-ladder : (n : ℕ) → next_interval (ladder n) ≡ ladder (suc n)
unfolding next_interval
next_interval-ladder zero = refl
next_interval-ladder (suc zero) = refl
next_interval-ladder (suc (suc zero)) = refl
next_interval-ladder (suc (suc (suc zero))) = refl
next_interval-ladder (suc (suc (suc (suc zero)))) = refl
next_interval-ladder (suc (suc (suc (suc (suc zero))))) = refl
next_interval-ladder (suc (suc (suc (suc (suc (suc n)))))) = refl

-- The waiting times of sessions that end one after the other, none of them established.
pub sleeps : {V : Type 0} → List DisconnectedReason → MoonlightClient V → List ℕ
sleeps [] c = []
sleeps (reason ∷ reasons) c =
    let (c', d) = end_session reason c in d.reconnecting_in_ms ∷ sleeps reasons c'

-- The same, by the number of failures since the last session that was established or refused the
-- credentials.
abbrev pub ladder_from : ℕ → List DisconnectedReason → List ℕ
ladder_from n [] = []
ladder_from n (reason ∷ reasons) = ladder n ∷ ladder_from (suc n) reasons

abbrev pub NoneUnauthorized : List DisconnectedReason → Type 0
NoneUnauthorized [] = Unit {0}
NoneUnauthorized (reason ∷ reasons) = (is_unauthorized reason ≡ false) × NoneUnauthorized reasons

end_session-ladder :
    {V : Type 0} (n : ℕ) (reason : DisconnectedReason) (c : MoonlightClient V)
    → is_unauthorized reason ≡ false
    → unwrap_or_zero c.reconnect_in ≡ ladder n
    → ((end_session reason c).1.reconnecting_in_ms ≡ ladder n)
      × (unwrap_or_zero (end_session reason c).0.reconnect_in ≡ ladder (suc n))
unfolding end_session backoff
end_session-ladder n reason c h e = rw h (e, ap next_interval e ∙ next_interval-ladder n)

-- While no session is established and the credentials are not refused, the waiting times climb the
-- ladder 0, 1, 2.5, 5, 10, 15 and 30 seconds from where the client stands on it, and stay at 30.
pub sleeps-ladder_from :
    {V : Type 0} (n : ℕ) (reasons : List DisconnectedReason) (c : MoonlightClient V)
    → NoneUnauthorized reasons
    → unwrap_or_zero c.reconnect_in ≡ ladder n
    → sleeps reasons c ≡ ladder_from n reasons
unfolding sleeps
sleeps-ladder_from n [] c h e = refl
sleeps-ladder_from n (reason ∷ reasons) c (hr, h) e =
    let (now, later) = end_session-ladder n reason c hr e in
    ap₂ (λ (x : ℕ) xs. x ∷ xs) now
      (sleeps-ladder_from (suc n) reasons (end_session reason c).0 h later)

end_session_refused :
    {V : Type 0} (reason : DisconnectedReason) (c : MoonlightClient V)
    → is_unauthorized reason ≡ false
    → c.reconnect_in ≡ some 300_000
    → ((end_session reason c).1.reconnecting_in_ms ≡ 300_000)
      × (unwrap_or_zero (end_session reason c).0.reconnect_in ≡ ladder 6)
unfolding end_session backoff next_interval
end_session_refused reason c h e =
    rw h (ap unwrap_or_zero e, ap (λ r. next_interval (unwrap_or_zero r)) e)

end_session_unauthorized :
    {V : Type 0} (reason : DisconnectedReason) (c : MoonlightClient V)
    → is_unauthorized reason ≡ true
    → ((end_session reason c).1.reconnecting_in_ms ≡ 300_000)
      × ((end_session reason c).0.reconnect_in ≡ some 300_000)
unfolding end_session backoff
end_session_unauthorized reason c h = rw h (refl, refl)

-- Where a client stands: `none` behind refused credentials, and else so many steps up the ladder.
abbrev pub wait_at : Bool → Option ℕ → ℕ
wait_at true place = 300_000
wait_at false none = 300_000
wait_at false (some n) = ladder n

abbrev pub moved : Bool → Option ℕ → Option ℕ
moved true place = none
moved false none = some 6
moved false (some n) = some (suc n)

-- The waiting times from there: five minutes for a refusal, and for what comes behind one.
abbrev pub waits : Option ℕ → List DisconnectedReason → List ℕ
waits place [] = []
waits place (reason ∷ reasons) =
    wait_at (is_unauthorized reason) place ∷ waits (moved (is_unauthorized reason) place) reasons

abbrev pub Stands : {V : Type 0} → Option ℕ → MoonlightClient V → Type 0
Stands none c = c.reconnect_in ≡ some 300_000
Stands (some n) c = unwrap_or_zero c.reconnect_in ≡ ladder n

end_session-moved :
    {V : Type 0} (refused : Bool) (place : Option ℕ) (reason : DisconnectedReason)
    (c : MoonlightClient V)
    → is_unauthorized reason ≡ refused
    → Stands place c
    → ((end_session reason c).1.reconnecting_in_ms ≡ wait_at refused place)
      × Stands (moved refused place) (end_session reason c).0
end_session-moved true place reason c h e = end_session_unauthorized reason c h
end_session-moved false none reason c h e = end_session_refused reason c h e
end_session-moved false (some n) reason c h e = end_session-ladder n reason c h e

sleeps-waits :
    {V : Type 0} (place : Option ℕ) (reasons : List DisconnectedReason) (c : MoonlightClient V)
    → Stands place c
    → sleeps reasons c ≡ waits place reasons
unfolding sleeps
sleeps-waits place [] c e = refl
sleeps-waits place (reason ∷ reasons) c e =
    let (now, later) = end_session-moved (is_unauthorized reason) place reason c refl e in
    ap₂ (λ (x : ℕ) xs. x ∷ xs) now
      (sleeps-waits (moved (is_unauthorized reason) place) reasons (end_session reason c).0 later)

-- Refused credentials make the client wait five minutes, and whatever ends the sessions behind
-- that, none of them established: each other refusal makes it wait five minutes as well, and so
-- does the first failure of another kind behind a refusal; the ones that follow it without another
-- refusal wait 30 seconds each.
pub sleeps-unauthorized :
    {V : Type 0} (u : UnauthorizedError) (reasons : List DisconnectedReason) (c : MoonlightClient V)
    → sleeps (DisconnectedReason.unauthorized u ∷ reasons) c ≡ 300_000 ∷ waits none reasons
unfolding sleeps
sleeps-unauthorized {V = V} u reasons c =
    let (now, later) =
      end_session_unauthorized {V = V} (DisconnectedReason.unauthorized u) c refl in
    ap₂ (λ (x : ℕ) xs. x ∷ xs) now (sleeps-waits none reasons _ later)

-- After a session that ended because the connection failed, `status` tells the waiting time one
-- step further up the ladder than the one that the client has announced and now waits.
pub status_ahead :
    {V : Type 0} (n : ℕ) (e : ConnectFailedError) (c : MoonlightClient V)
    → unwrap_or_zero c.reconnect_in ≡ ladder n
    → ((end_session (DisconnectedReason.connect_failed e) c).1.reconnecting_in_ms ≡ ladder n)
      × ((status (end_session (DisconnectedReason.connect_failed e) c).0).reconnecting_in
          ≡ some (ladder (suc n)))
unfolding end_session backoff status
status_ahead n e c h = (h, ap some (ap next_interval h ∙ next_interval-ladder n))
