-- ===== src/Response/Replies.antt =====
-- What the client makes of the replies that the constructors of `impl MoonlightPacket` build.
use devicekit.Prelude.{ℕ, suc, ◌≡◌, Option, none, some, All, arith}
use devicekit.Prelude.Text.{Str}
use devicekit.Prelude.Text.Utf8.{IsScalar, from_utf8-as_bytes}
use devicekit.Prelude.Result.{ok}
use devicekit.Outside.{Outside}
use devicekit.Protocol.{Packet}
use devicekit.Protocol.Build
use devicekit.Response.{Mail, unwrap_or_default, handle_mail, handle_packet, mailbox_next}

module _ (o : Outside) where
  abbrev pub mail : ℕ → ℕ → Str → Option o.Value → Mail o.Value
  mail mailbox_size pulse_id name payload = record {
    pulse_id = pulse_id;
    name = name;
    payload = payload;
    mailbox_size = mailbox_size;
  }

  module _ (txn_id size pulse_id : ℕ) (name : Str) (scalars : All IsScalar name) where
    -- A header-only reply with mail is understood as that mail without a payload.
    pub header_only_reply :
        handle_packet o (Build.mailbox_next_resp_header_only txn_id (suc size) pulse_id name)
        ≡ mailbox_next (ok (txn_id, some (mail (suc size) pulse_id name none)))
    unfolding handle_packet handle_mail Build.mailbox_next_resp_header_only
    header_only_reply = ground (arith, from_utf8-as_bytes name scalars)

    -- A full reply with mail, whose name has at most 255 bytes, is understood as that mail with the
    -- payload that its text parses to; text that is no JSON counts as none.
    pub full_reply :
        (payload : Str) (p : Packet)
        → All IsScalar payload
        → Build.mailbox_next_resp_full txn_id (suc size) pulse_id name payload ≡ some p
        → handle_packet o p
          ≡ mailbox_next (
              ok (
                txn_id,
                some (mail (suc size) pulse_id name (unwrap_or_default o (o.from_str payload))),
              ))
    unfolding handle_packet handle_mail Build.mailbox_next_resp_full
    full_reply payload p more e =
        ground (arith, from_utf8-as_bytes name scalars, from_utf8-as_bytes payload more)
