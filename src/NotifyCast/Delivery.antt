-- ===== src/NotifyCast/Delivery.antt =====
-- What a subscriber receives.
use devicekit.Prelude.{
  ℕ, suc, ◌+◌, ◌^◌, ◌<◌, ◌≡◌, ◌≢◌, refl, ap, sym, ◌∙◌, true, none, some, List, [], ◌∷◌, ◌++◌,
  append-nil, append_assoc, arith,
}
use devicekit.NotifyCast.{
  Notification, Listener, Listeners, NotifyCast, find, put, new, incr_token, subscribe, unsubscribe,
  deliver, retain, broadcast, Event, subscribes, unsubscribes, hangs_up, notifies, step, run,
}
use devicekit.NotifyCast.Tokens.{
  HasFreshTokens, IsFresh, subscriptions, find_fresh, find-put, find-erase_ne,
  find-drop_receiver_ne, find-none-retain, subscribe-IsFresh, step-IsFresh, subscriptions-cons,
  run-IsFresh,
}

-- The events that leave a subscriber alone, and the notifications among events.
abbrev pub Leaves : ℕ → Event → Type 0
Leaves token subscribes = Unit {0}
Leaves token (unsubscribes t) = t ≢ token
Leaves token (hangs_up t) = t ≢ token
Leaves token (notifies note) = Unit {0}

abbrev pub AllLeave : ℕ → List Event → Type 0
AllLeave token [] = Unit {0}
AllLeave token (e ∷ es) = Leaves token e × AllLeave token es

abbrev pub notes : List Event → List Notification
notes [] = []
notes (notifies note ∷ es) = note ∷ notes es
notes (subscribes ∷ es) = notes es
notes (unsubscribes t ∷ es) = notes es
notes (hangs_up t ∷ es) = notes es

-- A listener that is alive is sent the notification.
find-retain :
    (note : Notification) (t next : ℕ) (l : Listener) (ls : Listeners)
    → HasFreshTokens next ls
    → find t ls ≡ some l
    → l.alive ≡ true
    → find t (retain note ls) ≡ some (deliver note l)
unfolding find retain
find-retain note t next l [] h e a = cc
find-retain note t next l ((u, m) ∷ ls) h e a =
    ground (arith, find-retain note t next l ls h.2, find-none-retain note t ls)

unchanged : (l : Listener) → some l ≡ some (record l { sent = l.sent ++ [] })
unchanged l = ap (λ s. some (record l { sent = s })) (sym (append-nil l.sent))

notes-cons : (e : Event) (es : List Event) → notes (e ∷ es) ≡ notes (e ∷ []) ++ notes es
notes-cons subscribes es = refl
notes-cons (unsubscribes t) es = refl
notes-cons (hangs_up t) es = refl
notes-cons (notifies note) es = refl

ne_none-some : {l : Listener} → none ≡ some l → ⊥
ne_none-some e = cc

find-put-ne : (k t : ℕ) (l : Listener) (ls : Listeners) → k ≢ t → find t (put k l ls) ≡ find t ls
find-put-ne k t l ls h = ground (arith, find-put k t l ls)

-- What a step that leaves a subscriber alone does to what it has been sent.
step-find :
    (e : Event) (n : NotifyCast) (token : ℕ) (l : Listener)
    → Leaves token e
    → IsFresh n
    → find token n.listeners ≡ some l
    → l.alive ≡ true
    → find token (step e n).listeners ≡ some (record l { sent = l.sent ++ notes (e ∷ []) })
unfolding step subscribe incr_token unsubscribe broadcast
step-find subscribes n token l h f e a =
    find-put-ne n.next_token token _ n.listeners (λ q.
      ne_none-some
        (sym (find_fresh n.next_token n.listeners f) ∙ ap (λ t. find t n.listeners) q ∙ e))
    ∙ e
    ∙ unchanged l
step-find (unsubscribes t) n token l h f e a = find-erase_ne t token n.listeners h ∙ e ∙ unchanged l
step-find (hangs_up t) n token l h f e a =
    find-drop_receiver_ne t token n.listeners h ∙ e ∙ unchanged l
step-find (notifies note) n token l h f e a =
    find-retain note token n.next_token l n.listeners f e a

run-find :
    (es : List Event) (n : NotifyCast) (token : ℕ) (l : Listener)
    → AllLeave token es
    → n.next_token + subscriptions es < 2 ^ 64
    → IsFresh n
    → find token n.listeners ≡ some l
    → l.alive ≡ true
    → find token (run es n).listeners ≡ some (record l { sent = l.sent ++ notes es })
unfolding run
run-find [] n token l h k f e a = e ∙ unchanged l
run-find (x ∷ es) n token l (h, hs) k f e a =
    let sum = subscriptions-cons x es in
    let (g, m) = step-IsFresh x n (omega arith) f in
    run-find es (step x n) token (record l { sent = l.sent ++ notes (x ∷ []) }) hs (omega arith) g
      (step-find x n token l h f e a) a
    ∙ ap (λ s. some (record l { sent = s }))
        (append_assoc l.sent (notes (x ∷ [])) (notes es)
          ∙ ap (λ s. l.sent ++ s) (sym (notes-cons x es)))

subscribe_there :
    (n : NotifyCast) (k : ℕ)
    → IsFresh n
    → n.next_token ≡ k
    → suc k < 2 ^ 64
    → IsFresh (subscribe n).0
      × ((subscribe n).0.next_token ≡ suc k)
      × (find (subscribe n).1 (subscribe n).0.listeners ≡ some (record { alive = true; sent = [] }))
unfolding subscribe incr_token
subscribe_there n k f e h = (subscribe-IsFresh n (omega arith) f, next, there)
  where
    next : (subscribe n).0.next_token ≡ suc k
    next = omega arith

    there :
        find (subscribe n).1 (subscribe n).0.listeners ≡ some (record { alive = true; sent = [] })
    there =
        ground (
          arith,
          find-put n.next_token n.next_token (record { alive = true; sent = [] }) n.listeners,
        )

module _ (before : List Event) where
  abbrev pub joined : NotifyCast × ℕ
  joined = subscribe (run before new)

  start-IsFresh :
      subscriptions before < 2 ^ 64
      → IsFresh (run before new) × ((run before new).next_token ≡ 0 + subscriptions before)
  unfolding new
  start-IsFresh h = run-IsFresh before new (omega arith) tt

  token_is_new : subscriptions before < 2 ^ 64 → find joined.1 (run before new).listeners ≡ none
  unfolding subscribe incr_token
  token_is_new h =
      find_fresh (run before new).next_token (run before new).listeners (start-IsFresh h).0

  subscribed :
      suc (subscriptions before) < 2 ^ 64
      → IsFresh joined.0
        × (joined.0.next_token ≡ suc (subscriptions before))
        × (find joined.1 joined.0.listeners ≡ some (record { alive = true; sent = [] }))
  subscribed h =
      let (fresh, count) = start-IsFresh (omega arith) in
      subscribe_there (run before new) (subscriptions before) fresh (omega arith) (omega arith)

  -- In any run with less than 2 ^ 64 subscriptions, a new subscriber gets a token that nobody holds,
  -- and as long as it neither unsubscribes nor hangs up it is sent exactly the notifications from
  -- then on, each once and in order, whatever the other subscribers do.
  pub subscriber_receives :
      (after : List Event)
      → suc (subscriptions before + subscriptions after) < 2 ^ 64
      → AllLeave joined.1 after
      → (find joined.1 (run before new).listeners ≡ none)
        × (find joined.1 (run after joined.0).listeners
            ≡ some (record { alive = true; sent = notes after }))
  subscriber_receives after h leave =
      let (fresh, next, there) = subscribed (omega arith) in
      (
        token_is_new (omega arith),
        run-find after joined.0 joined.1 (record { alive = true; sent = [] }) leave (omega arith)
            fresh there refl,
      )
