-- ===== src/Client/Keeps.antt =====
-- What commands leave of the transactions that wait: any property of these that entering one under a
-- free id keeps.
use devicekit.Prelude.{
  ℕ, zero, suc, ◌≡◌, refl, inl, inr, Bool, true, false, Option, none, some, ltb, Bool-cases, arith,
}
use devicekit.Prelude.Text.{len}
use devicekit.Prelude.Result.{Result, ok, err}
use devicekit.Outside.{Outside}
use devicekit.Protocol.{Bytes, Packet, MailAckType}
use devicekit.Protocol.Build
use devicekit.Codec.{Deku}
use devicekit.Client.Txns.{Chan, Entry, Txns, contains_key, insert}
use devicekit.Client.State.{
  ClientCmd, send_pulse, mailbox_next, mail_op, ClientLogic, Fault, error, panic, M, and_then,
  ◌>>=◌, write_bytes,
}
use devicekit.Client.Commands.{
  next_txn_id, write_packet_to_transport, find_txn_id, push_txn, claim, claim_if_free, mail_op_if,
  or_panic, payload_text, handle_cmd,
}
use devicekit.Client.Events.{or_close_in}

module _ (P : Txns → Type 0) where
  -- An action that keeps the property.
  abbrev pub Keeps : {V A : Type 0} → M V A → Type 0
  Keeps {V} m = (s : ClientLogic V) → P s.pending_txns → P (m s).0.pending_txns

  and_then-Keeps :
      {V A B : Type 0} (r : ClientLogic V × Result A Fault) (f : A → M V B)
      → P r.0.pending_txns
      → ((x : A) → Keeps (f x))
      → P (and_then r f).0.pending_txns
  and_then-Keeps (s, ok x) f h k = k x s h
  and_then-Keeps (s, err x) f h k = h

  pub bind-Keeps :
      {V A B : Type 0} (m : M V A) (f : A → M V B)
      → Keeps m
      → ((x : A) → Keeps (f x))
      → Keeps (m >>= f)
  bind-Keeps m f h k s w = and_then-Keeps (m s) f (h s w) k

  pub or_close_in-Keeps :
      {V A B : Type 0} (closed : B) (r : ClientLogic V × Result A Fault) (next : M V B)
      → P r.0.pending_txns
      → Keeps next
      → P (or_close_in closed r next).0.pending_txns
  or_close_in-Keeps closed (s, ok x) next h k = k s h
  or_close_in-Keeps closed (s, err error) next h k = h
  or_close_in-Keeps closed (s, err panic) next h k = h

  pub write_bytes-Keeps : {V : Type 0} (bytes : Bytes) → Keeps {V = V} (write_bytes bytes)
  unfolding write_bytes
  write_bytes-Keeps bytes s h = ground arith

  write_packet_to_transport-Keeps :
      {V : Type 0} (deku : Deku) (p : Packet) → Keeps {V = V} (write_packet_to_transport deku p)
  unfolding write_packet_to_transport write_bytes
  write_packet_to_transport-Keeps deku p s h = ground arith

  find_txn_id-Keeps : {V : Type 0} (rounds id : ℕ) → Keeps {V = V} (find_txn_id rounds id)
  unfolding find_txn_id next_txn_id
  find_txn_id-Keeps zero id s h = h
  find_txn_id-Keeps (suc rounds) id s h =
      ground (arith, find_txn_id-Keeps rounds s.next_txn_id (next_txn_id s).0 h)

  write_some-Keeps :
      {V : Type 0} (deku : Deku) (p : Option Packet)
      → Keeps {V = V} (or_panic p >>= λ packet. write_packet_to_transport deku packet)
  write_some-Keeps deku none s h = h
  write_some-Keeps deku (some p) s h = write_packet_to_transport-Keeps deku p s h

  -- A transaction under a free id keeps the property.
  abbrev pub Admits : Type 0
  Admits = (k : ℕ) (e : Entry) (m : Txns) → contains_key k m ≡ false → P m → P (insert k e m)

  module _ (admits : Admits) where
    claim-Keeps :
        {V : Type 0} (b : Bool) (id now : ℕ) (chan : Chan) (s : ClientLogic V)
        → contains_key id s.pending_txns ≡ b
        → P s.pending_txns
        → P (claim b id now chan s).0.pending_txns
    claim-Keeps true id now chan s free h = h
    claim-Keeps false id now chan s free h = admits id (now, chan) s.pending_txns free h

    push_txn-Keeps : {V : Type 0} (now : ℕ) (chan : Chan) → Keeps {V = V} (push_txn now chan)
    unfolding push_txn next_txn_id
    push_txn-Keeps now chan =
        bind-Keeps next_txn_id (λ first. find_txn_id 3 first >>= claim_if_free now chan) (λ s h. h)
          (λ first.
            bind-Keeps (find_txn_id 3 first) (claim_if_free now chan) (find_txn_id-Keeps 3 first)
              (λ id s. claim-Keeps (contains_key id s.pending_txns) id now chan s refl))

    mail_op_if-Keeps :
        {V : Type 0} (deku : Deku) (b : Bool) (kind : MailAckType) (id now : ℕ) (chan : Chan)
        (s : ClientLogic V)
        → contains_key id s.pending_txns ≡ b
        → P s.pending_txns
        → P (mail_op_if deku b kind id now chan s).0.pending_txns
    mail_op_if-Keeps deku true kind id now chan s free h = h
    mail_op_if-Keeps deku false kind id now chan s free h =
        write_packet_to_transport-Keeps deku (Build.ack_mail id kind) _
          (admits id (now, chan) s.pending_txns free h)

    pub handle_cmd-Keeps :
        (o : Outside) (deku : Deku) (now : ℕ) (x : ClientCmd o.Value)
        → Keeps (handle_cmd o deku now x)
    unfolding handle_cmd
    handle_cmd-Keeps o deku now (send_pulse t name payload chan) s h =
        elim (Bool-cases (ltb 255 (len name))) [
          | inl long ↦ rw long h
          | inr short ↦ rw short (
              bind-Keeps (push_txn now chan)
                (λ id. or_panic (Build.pulse t id name (payload_text o deku payload)) >>= λ packet.
                  write_packet_to_transport deku packet)
                (push_txn-Keeps now chan)
                (λ id. write_some-Keeps deku (Build.pulse t id name (payload_text o deku payload)))
                s h)
        ]
    handle_cmd-Keeps o deku now (mailbox_next header_only chan) s h =
        bind-Keeps (push_txn now chan)
          (λ id. write_packet_to_transport deku (Build.mailbox_next header_only id))
          (push_txn-Keeps now chan)
          (λ id. write_packet_to_transport-Keeps deku (Build.mailbox_next header_only id)) s h
    handle_cmd-Keeps o deku now (mail_op kind id chan) s h =
        mail_op_if-Keeps deku (contains_key id s.pending_txns) kind id now chan s refl h
