-- ===== src/Client/Commands.antt =====
-- Commands: `next_txn_id`, `push_txn`, `write_packet_to_transport` and `handle_cmd`.
use devicekit.Prelude.{
  ℕ, zero, suc, ◌+◌, ◌%◌, ◌^◌, Bool, true, false, Option, none, some, [], ltb, if◌then◌else◌,
}
use devicekit.Prelude.Text.{Str, len}
use devicekit.Prelude.Result.{Result, ok, err}
use devicekit.Outside.{Outside}
use devicekit.Protocol.{Bytes, Packet, MailAckType}
use devicekit.Protocol.Build
use devicekit.Codec.{Deku, encode, CodecError}
use devicekit.Client.Txns.{Chan, contains_key, insert}
use devicekit.Client.State.{
  failure, ClientCmd, send_pulse, mailbox_next, mail_op, error, panic, M, ◌>>=◌, ◌>>◌, pure, fail,
  reply, write_bytes,
}
use devicekit.Client.Messages.{duplicate_req_message, txn_exhaustion_message, invalid_name_message}

-- `wrapping_add(1)` on a u64.
unfoldable pub next_txn_id : {V : Type 0} → M V ℕ
next_txn_id s = (record s { next_txn_id = (s.next_txn_id + 1) % 2 ^ 64 }, ok s.next_txn_id)

abbrev pub encoded : {V : Type 0} → Result Bytes CodecError → M V Bytes
encoded (ok bytes) s = (s, ok bytes)
encoded (err e) s = (s, err error)

unfoldable pub write_packet_to_transport : {V : Type 0} → Deku → Packet → M V (Unit {0})
write_packet_to_transport deku packet = do bytes ← encoded (encode deku packet); write_bytes bytes

-- The rounds of `for _ in 0..3` in `push_txn`.
unfoldable pub find_txn_id : {V : Type 0} → ℕ → ℕ → M V ℕ
find_txn_id zero txn_id s = (s, ok txn_id)
find_txn_id (suc rounds) txn_id s = elim (contains_key txn_id s.pending_txns) [
  | true ↦ find_txn_id rounds s.next_txn_id (next_txn_id s).0
  | false ↦ (s, ok txn_id)
]

abbrev pub insert_txn : {V : Type 0} → ℕ → ℕ → Chan → M V (Unit {0})
insert_txn key now return_chan s =
    (record s { pending_txns = insert key (now, return_chan) s.pending_txns }, ok tt)

abbrev pub claim : {V : Type 0} → Bool → ℕ → ℕ → Chan → M V ℕ
claim true txn_id now return_chan = do
  reply return_chan (failure txn_exhaustion_message)
  fail error
claim false txn_id now return_chan = do insert_txn txn_id now return_chan; pure txn_id

abbrev pub claim_if_free : {V : Type 0} → ℕ → Chan → ℕ → M V ℕ
claim_if_free now return_chan txn_id s =
    claim (contains_key txn_id s.pending_txns) txn_id now return_chan s

unfoldable pub push_txn : {V : Type 0} → ℕ → Chan → M V ℕ
push_txn now return_chan = do
  first ← next_txn_id
  txn_id ← find_txn_id 3 first
  claim_if_free now return_chan txn_id

abbrev pub or_panic : {V A : Type 0} → Option A → M V A
or_panic none = fail panic
or_panic (some a) = pure a

abbrev pub mail_op_if : {V : Type 0} → Deku → Bool → MailAckType → ℕ → ℕ → Chan → M V (Unit {0})
mail_op_if deku true ack_type pulse_id now return_chan =
    reply return_chan (failure duplicate_req_message)
mail_op_if deku false ack_type pulse_id now return_chan = do
  insert_txn pulse_id now return_chan
  write_packet_to_transport deku (Build.ack_mail pulse_id ack_type)

module _ (o : Outside) (deku : Deku) where
  abbrev pub payload_text : Option o.Value → Str
  payload_text none = []
  payload_text (some v) = o.to_string v

  unfoldable pub handle_cmd : ℕ → ClientCmd o.Value → M o.Value (Unit {0})
  handle_cmd now (send_pulse pulse_type name payload return_chan) =
      if ltb 255 (len name) then reply return_chan (failure invalid_name_message) else do
        txn_id ← push_txn now return_chan
        packet ← or_panic (Build.pulse pulse_type txn_id name (payload_text payload))
        write_packet_to_transport deku packet
  handle_cmd now (mailbox_next header_only return_chan) = do
    txn_id ← push_txn now return_chan
    write_packet_to_transport deku (Build.mailbox_next header_only txn_id)
  handle_cmd now (mail_op ack_type pulse_id return_chan) = λ s.
      mail_op_if deku (contains_key pulse_id s.pending_txns) ack_type pulse_id now return_chan s
