-- ===== src/Http/Events/Listener.antt =====
-- A stream leaves no subscriber behind.
use devicekit.Prelude.{
  ℕ, ◌≡◌, refl, subst, sym, Bool, true, false, not, none, List, [], ◌∷◌, if◌then◌else◌, arith,
}
use devicekit.Prelude.Text.{Str}
use devicekit.NotifyCast.{
  NotifyCast, Notification, Listener, Listeners, find, put, erase, retain, drop_receiver, Event,
  subscribes, unsubscribes, hangs_up, notifies, new, incr_token, subscribe, unsubscribe, broadcast,
  step, run,
}
use devicekit.NotifyCast.Tokens.{
  find-put, find-none-retain, find-none-erase, find-none-drop_receiver,
}
use devicekit.Http.Events.{Stream, first_exit, second_exit, handle_event_stream}

-- Each token stands for one subscriber.
abbrev pub IsMap : Listeners → Type 0
IsMap [] = Unit {0}
IsMap ((t, l) ∷ ls) = (find t ls ≡ none) × IsMap ls

find-erase : (t : ℕ) (ls : Listeners) → IsMap ls → find t (erase t ls) ≡ none
unfolding find erase
find-erase t [] h = refl
find-erase t ((u, l) ∷ ls) (n, h) = ground (arith, find-erase t ls h)

put-IsMap : (t : ℕ) (l : Listener) (ls : Listeners) → IsMap ls → IsMap (put t l ls)
unfolding put find
put-IsMap t l [] h = (refl, tt)
put-IsMap t l ((u, m) ∷ ls) (n, h) = ground (arith, put-IsMap t l ls h, find-put t u l ls)

erase-IsMap : (t : ℕ) (ls : Listeners) → IsMap ls → IsMap (erase t ls)
unfolding erase
erase-IsMap t [] h = tt
erase-IsMap t ((u, m) ∷ ls) (n, h) = ground (arith, erase-IsMap t ls h, find-none-erase t u ls n)

retain-IsMap : (note : Notification) (ls : Listeners) → IsMap ls → IsMap (retain note ls)
unfolding retain
retain-IsMap note [] h = tt
retain-IsMap note ((u, m) ∷ ls) (n, h) =
    ground (arith, retain-IsMap note ls h, find-none-retain note u ls n)

drop_receiver-IsMap : (t : ℕ) (ls : Listeners) → IsMap ls → IsMap (drop_receiver t ls)
unfolding drop_receiver
drop_receiver-IsMap t [] h = tt
drop_receiver-IsMap t ((u, m) ∷ ls) (n, h) =
    ground (arith, drop_receiver-IsMap t ls h, find-none-drop_receiver t u ls n)

step-IsMap : (e : Event) (n : NotifyCast) → IsMap n.listeners → IsMap (step e n).listeners
unfolding step subscribe incr_token unsubscribe broadcast
step-IsMap subscribes n h = put-IsMap n.next_token _ n.listeners h
step-IsMap (unsubscribes t) n h = erase-IsMap t n.listeners h
step-IsMap (hangs_up t) n h = drop_receiver-IsMap t n.listeners h
step-IsMap (notifies note) n h = retain-IsMap note n.listeners h

run-IsMap : (es : List Event) (n : NotifyCast) → IsMap n.listeners → IsMap (run es n).listeners
unfolding run
run-IsMap [] n h = h
run-IsMap (e ∷ es) n h = run-IsMap es (step e n) (step-IsMap e n h)

joined-IsMap : (before : List Event) → IsMap (subscribe (run before new)).0.listeners
unfolding step new
joined-IsMap before = step-IsMap subscribes (run before new) (run-IsMap before new tt)

-- Each exit gives the subscribers without the one of this token.
abbrev Leaves : ℕ → NotifyCast → List Str × NotifyCast → Type 0
Leaves token notify exit = exit.1 ≡ unsubscribe token notify

either-Leaves :
    (b : Bool) (token : ℕ) (notify : NotifyCast) (x y : List Str × NotifyCast)
    → Leaves token notify x
    → Leaves token notify y
    → Leaves token notify (if b then x else y)
either-Leaves true token notify x y h k = h
either-Leaves false token notify x y h k = k

first_exit-Leaves :
    (s : Stream) (token : ℕ) (notify : NotifyCast) → Leaves token notify (first_exit s token notify)
first_exit-Leaves s token notify =
    either-Leaves (not s.first_goes_out) token notify _ (second_exit s token notify) refl (
      either-Leaves (not s.still_connected) token notify _ _ refl
        (either-Leaves (not s.second_goes_out) token notify _ _ refl refl))

abbrev pub Gone : ℕ → NotifyCast → Type 0
Gone token notify = (find token notify.listeners ≡ none) × IsMap notify.listeners

unsubscribe-Gone :
    (token : ℕ) (notify : NotifyCast)
    → IsMap notify.listeners
    → Gone token (unsubscribe token notify)
unfolding unsubscribe
unsubscribe-Gone token notify h =
    (find-erase token notify.listeners h, erase-IsMap token notify.listeners h)

-- Whichever of its exits a stream that has subscribed takes, and whatever the others do meanwhile,
-- its own subscriber is gone behind it, and each token still stands for one subscriber.
pub handle_event_stream-unsubscribes :
    (s : Stream) (before meanwhile : List Event)
    → s.timeout_set ≡ true
    → Gone (subscribe (run before new)).1 (handle_event_stream s (run meanwhile) (run before new)).1
unfolding handle_event_stream
handle_event_stream-unsubscribes s before meanwhile h =
    let (joined, token) = subscribe (run before new) in
    let others : NotifyCast = run meanwhile joined in
    rw h (
      subst (Gone token) (sym (first_exit-Leaves s token others))
        (unsubscribe-Gone token others (run-IsMap meanwhile joined (joined-IsMap before))))
