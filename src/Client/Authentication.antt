-- ===== src/Client/Authentication.antt =====
-- `wait_for_authentication_with_timeout`: commands that come before the server's answer are kept
-- and replayed in order.
use devicekit.Prelude.{ℕ, Bool, true, false, List, [], ◌∷◌, ◌++◌}
use devicekit.Prelude.Text.{Str, chars}
use devicekit.Outside.{Outside}
use devicekit.Codec.{Codec}
use devicekit.Client.State.{
  ClientCmd, ClientEvent, refresh, heartbeat_tick, transport_close, transport_recv, cmd,
  ClientLogic,
}

-- The events that neither bring bytes nor close the connection, and the commands among events.
abbrev pub IsQuiet : {V : Type 0} → List (ℕ × ClientEvent V) → Type 0
IsQuiet [] = Unit {0}
IsQuiet ((now, transport_recv bytes) ∷ events) = ⊥
IsQuiet ((now, transport_close) ∷ events) = ⊥
IsQuiet ((now, cmd c) ∷ events) = IsQuiet events
IsQuiet ((now, refresh) ∷ events) = IsQuiet events
IsQuiet ((now, heartbeat_tick) ∷ events) = IsQuiet events

abbrev pub commands : {V : Type 0} → List (ℕ × ClientEvent V) → List (ClientCmd V)
commands [] = []
commands ((now, cmd c) ∷ events) = c ∷ commands events
commands ((now, transport_recv bytes) ∷ events) = commands events
commands ((now, transport_close) ∷ events) = commands events
commands ((now, refresh) ∷ events) = commands events
commands ((now, heartbeat_tick) ∷ events) = commands events

-- The notifications of an established session.
abbrev pub announced : Bool → List (Str × Str)
announced true = (chars "connected", []) ∷ (chars "new_mail", []) ∷ []
announced false = (chars "connected", []) ∷ []

abbrev pub established : {V : Type 0} → Codec → Bool → ClientLogic V → ClientLogic V
established c mail_available s = record s {
  codec = c;
  authenticated = true;
  notified = s.notified ++ announced mail_available;
}
