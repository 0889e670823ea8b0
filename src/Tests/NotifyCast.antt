-- ===== src/Tests/NotifyCast.antt =====
-- A subscriber among others.
use devicekit.Prelude.{◌≡◌, true, none, some, List, [], ◌∷◌, arith}
use devicekit.Prelude.Text.{chars}
use devicekit.NotifyCast.{
  Notification, Event, subscribes, unsubscribes, hangs_up, notifies, new, subscribe, incr_token,
  run, step, find, broadcast,
}
use devicekit.NotifyCast.Delivery.{AllLeave, notes, joined, subscriber_receives}

abbrev connected : Notification
connected = (chars "connected", [])

abbrev before : List Event
before = subscribes ∷ notifies connected ∷ []

abbrev after : List Event
after = subscribes ∷ hangs_up 0 ∷ notifies connected ∷ unsubscribes 2 ∷ notifies connected ∷ []

joined_leaves : AllLeave (joined before).1 after
unfolding run step subscribe incr_token new broadcast
joined_leaves = (tt, ((λ e. omega arith), (tt, ((λ e. omega arith), (tt, tt)))))

subscriber_receives_example :
    (find (joined before).1 (run before new).listeners ≡ none)
    × (find (joined before).1 (run after (joined before).0).listeners
        ≡ some (record { alive = true; sent = notes after }))
subscriber_receives_example = subscriber_receives before after (omega arith) joined_leaves
