-- ===== src/NotifyCast/Tokens.antt =====
-- The tokens in use are below the next one, and no two are the same.
use devicekit.Prelude.{
  ℕ, suc, ◌+◌, ◌%◌, ◌^◌, ◌<◌, ◌≡◌, ◌≢◌, refl, subst, true, none, some, List, [], ◌∷◌, ◌==◌,
  if◌then◌else◌, arith,
}
use devicekit.NotifyCast.{
  Notification, Listener, Listeners, NotifyCast, find, put, erase, incr_token, subscribe,
  unsubscribe, retain, broadcast, drop_receiver, Event, subscribes, unsubscribes, hangs_up,
  notifies, step, run,
}

-- Every token in use is below the next one, and none stands twice.
abbrev pub HasFreshTokens : ℕ → Listeners → Type 0
HasFreshTokens next [] = Unit {0}
HasFreshTokens next ((t, l) ∷ ls) = (t < next) × (find t ls ≡ none) × HasFreshTokens next ls

abbrev pub subscriptions : List Event → ℕ
subscriptions [] = 0
subscriptions (subscribes ∷ es) = suc (subscriptions es)
subscriptions (unsubscribes t ∷ es) = subscriptions es
subscriptions (hangs_up t ∷ es) = subscriptions es
subscriptions (notifies note ∷ es) = subscriptions es

pub find_fresh : (next : ℕ) (ls : Listeners) → HasFreshTokens next ls → find next ls ≡ none
unfolding find
find_fresh next [] h = refl
find_fresh next ((t, l) ∷ ls) h = ground (arith, find_fresh next ls h.2)

pub find-put :
    (k t : ℕ) (l : Listener) (ls : Listeners)
    → find t (put k l ls) ≡ (if k == t then some l else find t ls)
unfolding find put
find-put k t l [] = refl
find-put k t l ((u, m) ∷ ls) = ground (arith, find-put k t l ls)

pub find-erase_ne : (k t : ℕ) (ls : Listeners) → k ≢ t → find t (erase k ls) ≡ find t ls
unfolding find erase
find-erase_ne k t [] h = refl
find-erase_ne k t ((u, m) ∷ ls) h = ground (arith, find-erase_ne k t ls h)

pub find-drop_receiver_ne :
    (k t : ℕ) (ls : Listeners) → k ≢ t → find t (drop_receiver k ls) ≡ find t ls
unfolding find drop_receiver
find-drop_receiver_ne k t [] h = refl
find-drop_receiver_ne k t ((u, m) ∷ ls) h = ground (arith, find-drop_receiver_ne k t ls h)

pub find-none-erase : (k t : ℕ) (ls : Listeners) → find t ls ≡ none → find t (erase k ls) ≡ none
unfolding find erase
find-none-erase k t [] h = refl
find-none-erase k t ((u, m) ∷ ls) h = ground (arith, find-none-erase k t ls)

pub find-none-drop_receiver :
    (k t : ℕ) (ls : Listeners) → find t ls ≡ none → find t (drop_receiver k ls) ≡ none
unfolding find drop_receiver
find-none-drop_receiver k t [] h = refl
find-none-drop_receiver k t ((u, m) ∷ ls) h = ground (arith, find-none-drop_receiver k t ls)

pub find-none-retain :
    (note : Notification) (t : ℕ) (ls : Listeners)
    → find t ls ≡ none
    → find t (retain note ls) ≡ none
unfolding find retain
find-none-retain note t [] h = refl
find-none-retain note t ((u, m) ∷ ls) h = ground (arith, find-none-retain note t ls)

put-HasFreshTokens :
    (next : ℕ) (l : Listener) (ls : Listeners)
    → HasFreshTokens next ls
    → HasFreshTokens (suc next) (put next l ls)
unfolding put find
put-HasFreshTokens next l [] h = (omega arith, refl, tt)
put-HasFreshTokens next l ((t, m) ∷ ls) (below, fresh, h) =
    ground (arith, put-HasFreshTokens next l ls h, find-put next t l ls)

erase-HasFreshTokens :
    (k next : ℕ) (ls : Listeners) → HasFreshTokens next ls → HasFreshTokens next (erase k ls)
unfolding erase
erase-HasFreshTokens k next [] h = tt
erase-HasFreshTokens k next ((t, m) ∷ ls) (below, fresh, h) =
    ground (arith, erase-HasFreshTokens k next ls h, find-none-erase k t ls)

drop_receiver-HasFreshTokens :
    (k next : ℕ) (ls : Listeners)
    → HasFreshTokens next ls
    → HasFreshTokens next (drop_receiver k ls)
unfolding drop_receiver
drop_receiver-HasFreshTokens k next [] h = tt
drop_receiver-HasFreshTokens k next ((t, m) ∷ ls) (below, fresh, h) =
    ground (arith, drop_receiver-HasFreshTokens k next ls h, find-none-drop_receiver k t ls)

retain-HasFreshTokens :
    (note : Notification) (next : ℕ) (ls : Listeners)
    → HasFreshTokens next ls
    → HasFreshTokens next (retain note ls)
unfolding retain
retain-HasFreshTokens note next [] h = tt
retain-HasFreshTokens note next ((t, m) ∷ ls) (below, fresh, h) =
    ground (arith, retain-HasFreshTokens note next ls h, find-none-retain note t ls)

abbrev pub IsFresh : NotifyCast → Type 0
IsFresh n = HasFreshTokens n.next_token n.listeners

next_token-succ : (k : ℕ) → k + 1 < 2 ^ 64 → suc k ≡ (k + 1) % 2 ^ 64
next_token-succ k h = omega arith

pub subscribe-IsFresh :
    (n : NotifyCast) → n.next_token + 1 < 2 ^ 64 → IsFresh n → IsFresh (subscribe n).0
unfolding subscribe incr_token
subscribe-IsFresh n h f =
    subst
      (λ k. HasFreshTokens k (put n.next_token (record { alive = true; sent = [] }) n.listeners))
      (next_token-succ n.next_token h) (put-HasFreshTokens n.next_token _ n.listeners f)

-- A step keeps the tokens fresh, and counts its subscription.
pub step-IsFresh :
    (e : Event) (n : NotifyCast)
    → n.next_token + subscriptions (e ∷ []) < 2 ^ 64
    → IsFresh n
    → IsFresh (step e n) × ((step e n).next_token ≡ n.next_token + subscriptions (e ∷ []))
unfolding step subscribe incr_token unsubscribe broadcast
step-IsFresh subscribes n h f = (subscribe-IsFresh n (omega arith) f, omega arith)
step-IsFresh (unsubscribes t) n h f =
    (erase-HasFreshTokens t n.next_token n.listeners f, omega arith)
step-IsFresh (hangs_up t) n h f =
    (drop_receiver-HasFreshTokens t n.next_token n.listeners f, omega arith)
step-IsFresh (notifies note) n h f =
    (retain-HasFreshTokens note n.next_token n.listeners f, omega arith)

pub subscriptions-cons :
    (e : Event) (es : List Event)
    → subscriptions (e ∷ es) ≡ subscriptions (e ∷ []) + subscriptions es
subscriptions-cons subscribes es = omega arith
subscriptions-cons (unsubscribes t) es = omega arith
subscriptions-cons (hangs_up t) es = omega arith
subscriptions-cons (notifies note) es = omega arith

pub run-IsFresh :
    (es : List Event) (n : NotifyCast)
    → n.next_token + subscriptions es < 2 ^ 64
    → IsFresh n
    → IsFresh (run es n) × ((run es n).next_token ≡ n.next_token + subscriptions es)
unfolding run
run-IsFresh [] n h f = (f, omega arith)
run-IsFresh (e ∷ es) n h f =
    let sum = subscriptions-cons e es in
    let (g, k) = step-IsFresh e n (omega arith) f in
    let (r, m) = run-IsFresh es (step e n) (omega arith) g in (r, omega arith)
