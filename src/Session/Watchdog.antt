-- ===== src/Session/Watchdog.antt =====
-- `timer_proc` of device-agent/src/moonlight_codec.rs: the loop around `timer_logic`.
use devicekit.Prelude.{
  ◌-◌, ◌≤◌, ◌≡◌, refl, ap, subst, sym, ◌∙◌, inl, inr, Bool, true, false, ◌||◌, List, [], ◌∷◌, ◌++◌,
  All, Bool-cases, arith,
}
use devicekit.Client.State.{ClientEvent, transport_close}
use devicekit.Session.Timer.{Timer, Ticked, Clock, timer_logic, timer_shutdown}

-- A round: whether the session has set the flag, whether an answer to a heartbeat is there, and the
-- clock.
pub record Round : Type 0 where
  pub stopped : Bool
  pub ping_ready : Bool
  pub now : Clock

abbrev pub behind :
    {V : Type 0} → List (ClientEvent V) → List (ClientEvent V) × Bool → List (ClientEvent V) × Bool
behind sent (later, ended) = (sent ++ later, ended)

-- What is sent to the mailbox, and whether the loop has ended.
unfoldable pub timer_proc : {V : Type 0} → List Round → Bool → Timer → List (ClientEvent V) × Bool
timer_proc [] flag t = ([], flag)
timer_proc {V} (r ∷ rounds) flag t =
    let ticked = timer_logic {V = V} r.ping_ready r.now t in
    elim (flag || r.stopped) [
      | true ↦ ([], true)
      | false ↦ behind ticked.sent (timer_proc rounds ticked.shutdown ticked.timer)
    ]

-- The end of the transport is asked for.
abbrev pub closes : {V : Type 0} → List (ClientEvent V) → Bool
closes [] = false
closes (transport_close ∷ events) = true
closes (_ ∷ events) = closes events

-- Nobody stops the loop, and no answer comes.
abbrev pub IsQuiet : Round → Type 0
IsQuiet r = (r.stopped ≡ false) × (r.ping_ready ≡ false)

closes-append :
    {V : Type 0} (xs ys : List (ClientEvent V)) → closes xs ≡ true → closes (xs ++ ys) ≡ true
closes-append [] ys h = cc
closes-append (ClientEvent.transport_close ∷ xs) ys h = refl
closes-append (ClientEvent.refresh ∷ xs) ys h = closes-append xs ys h
closes-append (ClientEvent.heartbeat_tick ∷ xs) ys h = closes-append xs ys h
closes-append (ClientEvent.transport_recv bytes ∷ xs) ys h = closes-append xs ys h
closes-append (ClientEvent.cmd c ∷ xs) ys h = closes-append xs ys h

append-closes :
    {V : Type 0} (xs ys : List (ClientEvent V)) → closes ys ≡ true → closes (xs ++ ys) ≡ true
append-closes [] ys h = h
append-closes (ClientEvent.transport_close ∷ xs) ys h = refl
append-closes (ClientEvent.refresh ∷ xs) ys h = append-closes xs ys h
append-closes (ClientEvent.heartbeat_tick ∷ xs) ys h = append-closes xs ys h
append-closes (ClientEvent.transport_recv bytes ∷ xs) ys h = append-closes xs ys h
append-closes (ClientEvent.cmd c ∷ xs) ys h = append-closes xs ys h

timer_logic-closes :
    (V : Type 0) (ping_ready : Bool) (now : Clock) (t : Timer)
    → (timer_logic {V = V} ping_ready now t).shutdown ≡ true
    → closes (timer_logic {V = V} ping_ready now t).sent ≡ true
unfolding timer_logic
timer_logic-closes V ping_ready now t h = ground arith

timer_logic-ack :
    (V : Type 0) (now : Clock) (t : Timer)
    → (timer_logic {V = V} false now t).timer.last_heartbeat_ack ≡ t.last_heartbeat_ack
unfolding timer_logic
timer_logic-ack V now t = ground arith

module _ (V : Type 0) where
  abbrev Ran : Type 0
  Ran = List (ClientEvent V) × Bool

  abbrev pub Closed : Ran → Type 0
  Closed r = (closes r.0 ≡ true) × (r.1 ≡ true)

  flagged : (rounds : List Round) (t : Timer) → timer_proc {V = V} rounds true t ≡ ([], true)
  unfolding timer_proc
  flagged [] t = refl
  flagged (r ∷ rounds) t = refl

  -- A round that nobody stops and that finds no answer.
  quiet_round :
      (r : Round) (rounds : List Round) (t : Timer)
      → IsQuiet r
      → timer_proc {V = V} (r ∷ rounds) false t
        ≡ behind (timer_logic {V = V} false r.now t).sent (
            timer_proc rounds
              (timer_logic {V = V} false r.now t).shutdown
              (timer_logic {V = V} false r.now t).timer)
  unfolding timer_proc
  quiet_round r rounds t (stopped, ping) = rw (stopped, ping) refl

  behind-Closed : (sent : List (ClientEvent V)) (r : Ran) → Closed r → Closed (behind sent r)
  behind-Closed sent (later, ended) (c, e) = (append-closes sent later c, e)

  after_round :
      (r : Round) (rounds : List Round) (t : Timer) (flag : Bool)
      → IsQuiet r
      → (timer_logic {V = V} false r.now t).shutdown ≡ flag
      → timer_proc {V = V} (r ∷ rounds) false t
        ≡ behind
            (timer_logic {V = V} false r.now t).sent
            (timer_proc rounds flag (timer_logic {V = V} false r.now t).timer)
  after_round r rounds t flag quiet e =
      let ticked : Ticked V = timer_logic false r.now t in
      quiet_round r rounds t quiet
      ∙ ap (λ f. behind ticked.sent (timer_proc rounds f ticked.timer)) e

  round-Closed :
      (r : Round) (rounds : List Round) (t : Timer)
      → IsQuiet r
      → (timer_logic {V = V} false r.now t).shutdown ≡ true
      → Closed (timer_proc {V = V} (r ∷ rounds) false t)
  round-Closed r rounds t quiet dead =
      let ticked : Ticked V = timer_logic false r.now t in
      subst Closed
        (sym (
          after_round r rounds t true quiet dead
          ∙ ap (behind ticked.sent) (flagged rounds ticked.timer)))
        (closes-append ticked.sent [] (timer_logic-closes V false r.now t dead), refl)

  -- Where no answer to a heartbeat comes and nobody else stops the loop, the round that looks ninety
  -- seconds behind the last answer, or one before it, asks for the end of the transport, and the loop
  -- ends.
  pub timer_proc-Closed :
      (before : List Round) (r : Round) (rounds : List Round) (t : Timer)
      → All IsQuiet before
      → IsQuiet r
      → 90_000 ≤ r.now 5 - t.last_heartbeat_ack
      → Closed (timer_proc {V = V} (before ++ r ∷ rounds) false t)
  timer_proc-Closed [] r rounds t quiet q late =
      round-Closed r rounds t q ((timer_shutdown V false r.now t).1 late)
  timer_proc-Closed (b ∷ before) r rounds t (qb, quiet) q late =
      elim (Bool-cases (timer_logic {V = V} false b.now t).shutdown) [
        | inl dead ↦ round-Closed b (before ++ r ∷ rounds) t qb dead
        | inr alive ↦
            let ticked : Ticked V = timer_logic false b.now t in
            let still : 90_000 ≤ r.now 5 - ticked.timer.last_heartbeat_ack =
              subst (λ ack. 90_000 ≤ r.now 5 - ack) (sym (timer_logic-ack V b.now t)) late in
            subst Closed (sym (after_round b (before ++ r ∷ rounds) t false qb alive)) (
              behind-Closed ticked.sent (timer_proc (before ++ r ∷ rounds) false ticked.timer)
                (timer_proc-Closed before r rounds ticked.timer quiet q still))
      ]
