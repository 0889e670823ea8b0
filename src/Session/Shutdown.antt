-- ===== src/Session/Shutdown.antt =====
-- Stopping the client, and handing it commands.
use devicekit.Prelude.{
  ◌≡◌, refl, ◌⊎◌, inl, inr, Bool, true, false, Option, none, some, List, [], ◌∷◌, ◌++◌, arith,
  if◌then◌else◌, Bool-cases, sym, ◌∙◌, ap, ap₂,
}
use devicekit.Prelude.Result.{ok, err}
use devicekit.Outside.{Outside}
use devicekit.Codec.{Deku}
use devicekit.Response.{DisconnectedReason}
use devicekit.Client.State.{ClientCmd, cmd}
use devicekit.Session.State.{
  MoonlightClient, Mailbox, end_session, backoff, send_cmd, refused, send_to,
}
use devicekit.Session.{Encounter, start, Ended, after_session, announced, session_lifecycle}

-- Whether the session's mailbox takes an event: the lock's state, and the mailbox.
abbrev pub is_reachable : {V : Type 0} → Bool → Option (Mailbox V) → Bool
is_reachable true chan = false
is_reachable false none = false
is_reachable false (some m) = m.receives

poisoned_unreachable : {V : Type 0} (chan : Option (Mailbox V)) → is_reachable true chan ≡ false
poisoned_unreachable chan = refl

send_to_outcome :
    {V : Type 0} (chan : Option (Mailbox V)) (x : ClientCmd V) (c : MoonlightClient V)
    → c.mailbox_chan ≡ chan
    → c.poisoned ≡ false
    → send_cmd x c ≡ send_to chan x c
    → ((m : Mailbox V) × (c.mailbox_chan ≡ some m)
        × (m.receives ≡ true)
        × (c.poisoned ≡ false)
        × (send_cmd x c ≡ (
          record c {
            mailbox_chan = some (record { receives = true; sent = m.sent ++ (cmd x ∷ []) });
          },
          none,
        )))
      ⊎ ((is_reachable c.poisoned c.mailbox_chan ≡ false) × (send_cmd x c ≡ (c, refused x)))
send_to_outcome none x c e h q = inr (ap₂ is_reachable h e, q)
send_to_outcome (some m) x c e h q = elim (Bool-cases m.receives) [
  | inl r ↦ inl (
    m,
    e,
    r,
    h,
    q
        ∙ ap
            (λ b.
              if b
              then (
                record c { mailbox_chan = some (record m { sent = m.sent ++ (cmd x ∷ []) }) },
                none,
              )
              else (c, refused x))
            r
        ∙ ap
            (λ b. (
              record c {
                mailbox_chan = some (record { receives = b; sent = m.sent ++ (cmd x ∷ []) });
              },
              none,
            ))
            r,
  )
  | inr r ↦ inr (
    ap₂ is_reachable h e ∙ r,
    q
        ∙ ap
            (λ b.
              if b
              then (
                record c { mailbox_chan = some (record m { sent = m.sent ++ (cmd x ∷ []) }) },
                none,
              )
              else (c, refused x))
            r,
  )
]

-- A command is appended to the session's mailbox, with no answer yet, if the client has one that
-- still receives and its lock is sound; otherwise no mailbox can be reached, nothing changes, and
-- the caller is answered with a failure at once.
pub send_cmd_outcome :
    {V : Type 0} (x : ClientCmd V) (c : MoonlightClient V)
    → ((m : Mailbox V) × (c.mailbox_chan ≡ some m)
        × (m.receives ≡ true)
        × (c.poisoned ≡ false)
        × (send_cmd x c ≡ (
          record c {
            mailbox_chan = some (record { receives = true; sent = m.sent ++ (cmd x ∷ []) });
          },
          none,
        )))
      ⊎ ((is_reachable c.poisoned c.mailbox_chan ≡ false) × (send_cmd x c ≡ (c, refused x)))
unfolding send_cmd
send_cmd_outcome x c = elim (Bool-cases c.poisoned) [
  | inl h ↦ inr (
    ap (λ b. is_reachable b c.mailbox_chan) h ∙ poisoned_unreachable c.mailbox_chan,
    ap (λ b. if b then (c, refused x) else send_to c.mailbox_chan x c) h,
  )
  | inr h ↦
      send_to_outcome c.mailbox_chan x c refl h
        (ap (λ b. if b then (c, refused x) else send_to c.mailbox_chan x c) h)
]

module _ (o : Outside) (deku : Deku) where
  end_session-shutdown_flag :
      (reason : DisconnectedReason) (c : MoonlightClient o.Value)
      → (end_session reason c).0.shutdown_flag ≡ c.shutdown_flag
  unfolding end_session backoff
  end_session-shutdown_flag reason c = ground arith

  start_stopped :
      (encounters : List (Encounter o.Value × Bool)) (c : MoonlightClient o.Value)
      → c.shutdown_flag ≡ true
      → start o deku encounters c ≡ (c, [], none)
  unfolding start
  start_stopped [] c h = refl
  start_stopped ((e, s) ∷ encounters) c h = ground arith

  start_running :
      (e : Encounter o.Value) (s : Bool) (more : List (Encounter o.Value × Bool))
      (c : MoonlightClient o.Value)
      → c.shutdown_flag ≡ false
      → start o deku ((e, s) ∷ more) c
        ≡ after_session o deku s (session_lifecycle o deku e c) (start o deku more)
  unfolding start
  start_running e s more c h = ground arith

  after_session_stopped :
      (ended : Ended o deku) (more : List (Encounter o.Value × Bool))
      → after_session o deku true ended (start o deku more)
        ≡ after_session o deku true ended (start o deku [])
  after_session_stopped (c, err fault) more = refl
  after_session_stopped (c, ok reason) more =
      let (c', d) = end_session reason (record c { shutdown_flag = true }) in
      let stays = end_session-shutdown_flag reason (record c { shutdown_flag = true }) in
      ap (announced o deku d) (start_stopped more c' stays ∙ sym (start_stopped [] c' stays))

  -- A client that is stopped while a session runs, whatever the session meets, starts no other: what
  -- would come after it makes no difference.
  pub start_stop :
      (e : Encounter o.Value) (more : List (Encounter o.Value × Bool)) (c : MoonlightClient o.Value)
      → start o deku ((e, true) ∷ more) c ≡ start o deku ((e, true) ∷ []) c
  start_stop e more c = elim (Bool-cases c.shutdown_flag) [
    | inl h ↦ start_stopped ((e, true) ∷ more) c h ∙ sym (start_stopped ((e, true) ∷ []) c h)
    | inr h ↦
        start_running e true more c h
        ∙ after_session_stopped (session_lifecycle o deku e c) more
        ∙ sym (start_running e true [] c h)
  ]
