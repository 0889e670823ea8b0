-- ===== src/Client/Waiting.antt =====
-- A command never takes the place of a transaction that waits.
use devicekit.Prelude.{ℕ, ◌≡◌, none, some, ==_iff, arith}
use devicekit.Outside.{Outside}
use devicekit.Codec.{Deku}
use devicekit.Client.Txns.{Entry, Txns, get, get-insert, get-contains_key}
use devicekit.Client.State.{ClientCmd, cmd, ClientLogic, pure}
use devicekit.Client.Commands.{handle_cmd}
use devicekit.Client.Events.{force_close, process_client_event}
use devicekit.Client.Keeps.{Admits, or_close_in-Keeps, handle_cmd-Keeps}

-- An entry stands under a key.
abbrev Waits : ℕ → Entry → Txns → Type 0
Waits k e m = get k m ≡ some e

Waits-Admits : (k : ℕ) (e : Entry) → Admits (Waits k e)
Waits-Admits k e j f m free h =
    grind (arith, get-insert j k f m, get-contains_key j m free, ==_iff j k)

module _ (o : Outside) (deku : Deku) where
  -- Whatever is asked for, under whatever id, whether it is sent or refused: each transaction that
  -- waits goes on waiting under its id, since when it does and on the channel that it does.
  pub process_client_event-waiting :
      (now k : ℕ) (e : Entry) (x : ClientCmd o.Value) (s : ClientLogic o.Value)
      → get k s.pending_txns ≡ some e
      → get k (process_client_event o deku now (cmd x) s).0.pending_txns ≡ some e
  unfolding process_client_event
  process_client_event-waiting now k e x s h =
      or_close_in-Keeps (Waits k e) force_close (handle_cmd o deku now x s) (pure none)
        (handle_cmd-Keeps (Waits k e) (Waits-Admits k e) o deku now x s h) (λ t w. w)
