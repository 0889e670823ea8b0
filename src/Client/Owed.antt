-- ===== src/Client/Owed.antt =====
-- Every request is answered at most once, and not forgotten: how often a channel waits for an
-- answer or has had one is changed by a command of that channel, and by nothing else.
use devicekit.Prelude.{
  ℕ, zero, suc, ◌+◌, ◌≡◌, refl, ◌∙◌, Bool, true, false, Option, none, some, List, [], ◌∷◌, ◌++◌,
  ◌==◌, ltb, Bool-cases, Option-cases, inl, inr, arith,
}
use devicekit.Prelude.Text.{Str, len}
use devicekit.Prelude.Result.{Result, ok, err, Result-cases}
use devicekit.Outside.{Outside}
use devicekit.Protocol.{Bytes, Packet, PulseType, MailAckType}
use devicekit.Protocol.Build
use devicekit.Codec.{Deku, encode}
use devicekit.Client.Txns.{Chan, get, contains_key, waiting, one_if, waiting-insert, waiting-remove}
use devicekit.Client.State.{
  ReturnChanResult, failure, ClientCmd, send_pulse, mailbox_next, mail_op, ClientLogic, Fault, M,
  and_then, ◌>>=◌, write_bytes,
}
use devicekit.Client.Messages.{txn_exhaustion_message, invalid_name_message, duplicate_req_message}
use devicekit.Client.Commands.{
  next_txn_id, write_packet_to_transport, find_txn_id, push_txn, claim, claim_if_free, insert_txn,
  mail_op_if, or_panic, payload_text, handle_cmd,
}
use devicekit.Client.Responses.{answer, resolve}

-- How often a channel has been answered.
unfoldable pub answered : {V : Type 0} → Chan → List (Chan × ReturnChanResult V) → ℕ
answered c [] = 0
answered c ((d, r) ∷ rs) = one_if (d == c) + answered c rs

abbrev pub owed : {V : Type 0} → Chan → ClientLogic V → ℕ
owed c s = waiting c s.pending_txns + answered c s.replied

answered-append :
    {V : Type 0} (c d : Chan) (r : ReturnChanResult V) (rs : List (Chan × ReturnChanResult V))
    → answered c (rs ++ ((d, r) ∷ [])) ≡ one_if (d == c) + answered c rs
unfolding answered
answered-append c d r [] = refl
answered-append c d r ((e, q) ∷ rs) = omega (arith, answered-append c d r rs)

-- An action that gives `n` more requests of channel `c` to account for.
abbrev pub Owes : {V A : Type 0} → Chan → ℕ → M V A → Type 0
Owes {V} c n m = (s : ClientLogic V) → owed c (m s).0 ≡ n + owed c s

module _ {V : Type 0} (c : Chan) where
  pub resolve-Owes : (k : ℕ) (v : ReturnChanResult V) → Owes c 0 (resolve k v)
  unfolding resolve
  resolve-Owes k v s = elim (Option-cases (get k s.pending_txns)) [
    | inl e ↦ rw (e, answer) (omega arith)
    | inr ((t, d), e) ↦
        rw (e, answer)
          (omega (arith, waiting-remove c k t d s.pending_txns e, answered-append c d v s.replied))
  ]

  next_txn_id-Owes : Owes c 0 (next_txn_id {V = V})
  unfolding next_txn_id
  next_txn_id-Owes s = omega arith

  pub write_bytes-Owes : (bytes : Bytes) → Owes c 0 (write_bytes {V = V} bytes)
  unfolding write_bytes
  write_bytes-Owes bytes s = ground arith

  write_packet_to_transport-Owes :
      (deku : Deku) (p : Packet) → Owes c 0 (write_packet_to_transport {V = V} deku p)
  unfolding write_packet_to_transport
  write_packet_to_transport-Owes deku p s = elim (Result-cases (encode deku p)) [
    | inl (bytes, e) ↦ rw e (write_bytes-Owes bytes s)
    | inr (x, e) ↦ rw e (omega arith)
  ]

  find_txn_id-Owes : (rounds id : ℕ) → Owes c 0 (find_txn_id {V = V} rounds id)
  unfolding find_txn_id
  find_txn_id-Owes zero id s = omega arith
  find_txn_id-Owes (suc rounds) id s =
      ground (arith, find_txn_id-Owes rounds s.next_txn_id (next_txn_id s).0, next_txn_id-Owes s)

  claim-Owes :
      (b : Bool) (id now : ℕ) (chan : Chan) (s : ClientLogic V)
      → contains_key id s.pending_txns ≡ b
      → owed c (claim b id now chan s).0 ≡ one_if (chan == c) + owed c s
  claim-Owes true id now chan s e =
      omega (arith, answered-append c chan (failure txn_exhaustion_message) s.replied)
  claim-Owes false id now chan s e = omega (arith, waiting-insert c id now chan s.pending_txns e)

  pub and_then-owed :
      {A B : Type 0} (n m : ℕ) (r : ClientLogic V × Result A Fault) (f : A → M V B)
      → owed c r.0 ≡ n
      → ((x : A) → r.1 ≡ ok x → owed c (f x r.0).0 ≡ m + owed c r.0)
      → ((x : Fault) → r.1 ≡ err x → m ≡ 0)
      → owed c (and_then r f).0 ≡ m + n
  and_then-owed n m (t, ok x) f h k z = omega (arith, k x refl)
  and_then-owed n m (t, err x) f h k z = omega (arith, z x refl)

  -- A bind where each part is accounted for; the second asks nothing where the first can fail.
  pub bind-Owes :
      {A B : Type 0} (n m k : ℕ) (a : M V A) (f : A → M V B)
      → m + n ≡ k
      → Owes c n a
      → ((x : A) → Owes c m (f x))
      → ((s : ClientLogic V) (x : Fault) → (a s).1 ≡ err x → m ≡ 0)
      → Owes c k (a >>= f)
  bind-Owes n m k a f sum h l z s =
      and_then-owed (n + owed c s) m (a s) f (h s) (λ x _. l x (a s).0) (z s) ∙ omega arith

  find_txn_id-ne-err :
      (rounds id : ℕ) (s : ClientLogic V) (x : Fault) → (find_txn_id rounds id s).1 ≡ err x → ⊥
  unfolding find_txn_id
  find_txn_id-ne-err zero id s x e = cc
  find_txn_id-ne-err (suc rounds) id s x e =
      ground (arith, find_txn_id-ne-err rounds s.next_txn_id (next_txn_id s).0 x)

  -- A transaction is claimed for one more request of the channel, or that request is answered.
  push_txn-Owes : (now : ℕ) (chan : Chan) → Owes c (one_if (chan == c)) (push_txn {V = V} now chan)
  unfolding push_txn
  push_txn-Owes now chan =
      let n = one_if (chan == c) in
      let find = λ (first : ℕ). find_txn_id {V = V} 3 first >>= claim_if_free now chan in
      bind-Owes 0 n n next_txn_id find (omega arith) next_txn_id-Owes
        (λ first.
          bind-Owes 0 n n (find_txn_id 3 first) (claim_if_free now chan) (omega arith)
            (find_txn_id-Owes 3 first)
            (λ id t. claim-Owes (contains_key id t.pending_txns) id now chan t refl)
            (λ t x e. absurd (find_txn_id-ne-err 3 first t x e)))
        (λ t x e. unfold next_txn_id in cc)

  write_some-Owes :
      (deku : Deku) (p : Option Packet)
      → Owes {V = V} c 0 (or_panic p >>= λ packet. write_packet_to_transport deku packet)
  write_some-Owes deku none s = omega arith
  write_some-Owes deku (some p) s = write_packet_to_transport-Owes deku p s

  mail_op_if-Owes :
      (deku : Deku) (b : Bool) (kind : MailAckType) (id now : ℕ) (chan : Chan) (s : ClientLogic V)
      → contains_key id s.pending_txns ≡ b
      → owed c (mail_op_if deku b kind id now chan s).0 ≡ one_if (chan == c) + owed c s
  mail_op_if-Owes deku true kind id now chan s e =
      omega (arith, answered-append c chan (failure duplicate_req_message) s.replied)
  mail_op_if-Owes deku false kind id now chan s e =
      write_packet_to_transport-Owes deku (Build.ack_mail id kind) (insert_txn id now chan s).0
      ∙ omega (arith, waiting-insert c id now chan s.pending_txns e)

-- The channel on which a command wants its answer.
abbrev pub chan_of : {V : Type 0} → ClientCmd V → Chan
chan_of (send_pulse pulse_type name payload chan) = chan
chan_of (mailbox_next header_only chan) = chan
chan_of (mail_op ack_type pulse_id chan) = chan

module _ (o : Outside) (deku : Deku) where
  send_pulse-Owes :
      (c now : ℕ) (t : PulseType) (name : Str) (payload : Option o.Value) (chan : Chan)
      → Owes c (one_if (chan == c)) (handle_cmd o deku now (send_pulse t name payload chan))
  unfolding handle_cmd
  send_pulse-Owes c now t name payload chan s = elim (Bool-cases (ltb 255 (len name))) [
    | inl long ↦
        rw long (omega (arith, answered-append c chan (failure invalid_name_message) s.replied))
    | inr short ↦ rw short (
        bind-Owes c (one_if (chan == c)) 0 (one_if (chan == c)) (push_txn now chan)
          (λ id. or_panic (Build.pulse t id name (payload_text o deku payload)) >>= λ packet.
            write_packet_to_transport deku packet)
          (omega arith) (push_txn-Owes c now chan)
          (λ id. write_some-Owes c deku (Build.pulse t id name (payload_text o deku payload)))
          (λ t x e. refl) s)
  ]

  -- A command gives its channel one more request that is pending or answered, in every state and
  -- however it ends, and changes this for no other channel.
  pub handle_cmd-owed :
      (now : ℕ) (cmd : ClientCmd o.Value) (s : ClientLogic o.Value) (c : Chan)
      → owed c (handle_cmd o deku now cmd s).0 ≡ one_if (chan_of cmd == c) + owed c s
  unfolding handle_cmd
  handle_cmd-owed now (send_pulse t name payload chan) s c =
      send_pulse-Owes c now t name payload chan s
  handle_cmd-owed now (mailbox_next header_only chan) s c =
      bind-Owes c (one_if (chan == c)) 0 (one_if (chan == c)) (push_txn now chan)
        (λ id. write_packet_to_transport deku (Build.mailbox_next header_only id)) (omega arith)
        (push_txn-Owes c now chan)
        (λ id. write_packet_to_transport-Owes c deku (Build.mailbox_next header_only id))
        (λ t x e. refl) s
  handle_cmd-owed now (mail_op kind id chan) s c =
      mail_op_if-Owes c deku (contains_key id s.pending_txns) kind id now chan s refl
