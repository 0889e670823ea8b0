-- ===== src/Client/Responses.antt =====
-- Answers: `resolve_txn`, `resolve_mail`, `handle_server_resp` and `refresh`.
use devicekit.Prelude.{ℕ, ◌-◌, Option, none, some, List, [], ◌∷◌, ltb, if◌then◌else◌}
use devicekit.Prelude.Text.{chars}
use devicekit.Prelude.Result.{ok, err}
use devicekit.Protocol.{PulseErrorReason, MailAckType}
use devicekit.Response.{DisconnectedReason, ServerResp}
use devicekit.Client.Txns.{Entry, Txns, get, remove}
use devicekit.Client.State.{
  ReturnChanResult, success, failure, timeout, mail, mail_ack_successful, panic, M, ◌>>◌, pure,
  fail, reply, notify, ping,
}
use devicekit.Client.Messages.{
  pulse_error_message, ack_mail_failed_message, next_mail_failed_message,
}

abbrev pub drop_txn : {V : Type 0} → ℕ → M V (Unit {0})
drop_txn key s = (record s { pending_txns = remove key s.pending_txns }, ok tt)

abbrev pub answer : {V : Type 0} → ℕ → ReturnChanResult V → Option Entry → M V (Unit {0})
answer key value none = pure tt
answer key value (some (since, return_chan)) = do reply return_chan value; drop_txn key

-- `resolve_txn` and `resolve_mail`, which differ only in the key's width.
unfoldable pub resolve : {V : Type 0} → ℕ → ReturnChanResult V → M V (Unit {0})
resolve key value s = answer key value (get key s.pending_txns) s

abbrev pub pulse_value : {V : Type 0} → PulseErrorReason → ReturnChanResult V
pulse_value reason = failure (pulse_error_message reason)

abbrev pub ack_failure : {V : Type 0} → ℕ → MailAckType → ReturnChanResult V
ack_failure pulse_id ack_type = failure (ack_mail_failed_message pulse_id ack_type)

abbrev pub going_on : {V : Type 0} → M V (Unit {0}) → M V (Option DisconnectedReason)
going_on m = do m; pure none

-- `unreachable!()` is a panic.
unfoldable pub handle_server_resp : {V : Type 0} → ServerResp V → M V (Option DisconnectedReason)
handle_server_resp ServerResp.force_close_socket = pure (some DisconnectedReason.force_close_socket)
handle_server_resp (ServerResp.disconnected reason) = pure (some reason)
handle_server_resp (ServerResp.connected mail_available) = fail panic
handle_server_resp ServerResp.heartbeat_ack = going_on ping
handle_server_resp ServerResp.new_mail = going_on (notify (chars "new_mail") [])
handle_server_resp (ServerResp.pulse_resp (ok txn_id)) = going_on (resolve txn_id success)
handle_server_resp (ServerResp.pulse_resp (err (txn_id, reason))) =
    going_on (resolve txn_id (pulse_value reason))
handle_server_resp (ServerResp.ack_mail_resp (ok (pulse_id, more))) =
    going_on (resolve pulse_id (mail_ack_successful more))
handle_server_resp (ServerResp.ack_mail_resp (err (pulse_id, ack_type))) =
    going_on (resolve pulse_id (ack_failure pulse_id ack_type))
handle_server_resp (ServerResp.mailbox_next (ok (txn_id, found))) =
    going_on (resolve txn_id (mail found))
handle_server_resp (ServerResp.mailbox_next (err txn_id)) =
    going_on (resolve txn_id (failure next_mail_failed_message))

-- The ids whose entry is older than ten seconds.
unfoldable pub timed_out : ℕ → Txns → List ℕ
timed_out now [] = []
timed_out now ((txn_id, (since, return_chan)) ∷ txns) =
    let rest = timed_out now txns in if ltb 10_000 (now - since) then txn_id ∷ rest else rest

unfoldable pub expire : {V : Type 0} → List ℕ → M V (Unit {0})
expire [] = pure tt
expire (txn_id ∷ ids) = do resolve txn_id timeout; expire ids

unfoldable pub refresh : {V : Type 0} → ℕ → M V (Unit {0})
refresh now s = expire (timed_out now s.pending_txns) s
