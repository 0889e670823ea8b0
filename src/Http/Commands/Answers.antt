-- ===== src/Http/Commands/Answers.antt =====
-- What a client reads from the answers of the commands, and what they leave with the agent.
use devicekit.Prelude.{
  ◌≡◌, refl, ap, ◌∙◌, inl, inr, Bool, true, false, Option, none, some, [], ◌∷◌, ◌++◌, if◌then◌else◌,
  Bool-cases,
}
use devicekit.Prelude.Text.{Str, chars}
use devicekit.Prelude.Result.{ok, err}
use devicekit.Outside.{Outside}
use devicekit.Protocol.{MailAckType}
use devicekit.MailId.{uuidv7_str, uuidv7_u128}
use devicekit.MailId.RoundTrip.{uuidv7_str-uuidv7_u128}
use devicekit.Response.{Mail}
use devicekit.Client.State.{ClientCmd, cmd}
use devicekit.Session.State.{MoonlightClient, Mailbox, send_cmd}
use devicekit.Http.{Method, route, mail_op}
use devicekit.Http.Routes.{mail_path, route-mail_path}
use devicekit.Http.Headers.{get}
use devicekit.Http.Headers.Laws.{get-insert, get-insert_other}
use devicekit.Http.Response.{Resp, Web}
use devicekit.Http.Commands.{
  Exchange, wait_for_connected, make_request, not_connected, result_of, mail_resp, with_payload,
  has_payload,
}

-- A request sends its command to the session once the client is seen connected, and nothing where it
-- never is; what comes back on its channel is then its result.
pub make_request-sent :
    {V : Type 0} (x : Exchange V) (c : ClientCmd V) (client : MoonlightClient V) (m : Mailbox V)
    → client.poisoned ≡ false
    → client.mailbox_chan ≡ some m
    → m.receives ≡ true
    → make_request x c client ≡ (
        if wait_for_connected x.polls x.at_end
        then (
          record client { mailbox_chan = some (record m { sent = m.sent ++ (cmd c ∷ []) }) },
          result_of x.answer,
        )
        else (client, err not_connected))
unfolding make_request send_cmd
make_request-sent x c client m alive open_ receives =
    elim (Bool-cases (wait_for_connected x.polls x.at_end)) [
      | inl w ↦ rw (w, alive, open_, receives) refl
      | inr w ↦ rw w refl
    ]

module _ (o : Outside) (web : Web) where
  with_payload-headers :
      (header_only : Bool) (payload : Option o.Value) (r : Resp)
      → (with_payload o web header_only payload r).headers ≡ r.headers
  with_payload-headers header_only none r = refl
  with_payload-headers true (some v) r = refl
  with_payload-headers false (some v) r = refl

  mail_resp-id :
      (header_only : Bool) (mail : Mail o.Value)
      → get (chars "X-Mail-ID") (mail_resp o web header_only mail).headers
        ≡ some (uuidv7_str mail.pulse_id)
  unfolding mail_resp
  mail_resp-id header_only mail =
      ap (get (chars "X-Mail-ID")) (with_payload-headers header_only mail.payload _)
      ∙ get-insert_other (chars "X-Mail-ID") (chars "X-Mail-Has-Payload")
          (has_payload o web mail.payload) _ refl
      ∙ get-insert_other (chars "X-Mail-ID") (chars "X-Mail-Name") mail.name _ refl
      ∙ get-insert (chars "X-Mail-ID") (uuidv7_str mail.pulse_id) _

  -- The id in the header of a mail's response, put behind the path of an operation, asks for that
  -- operation on that mail, where the mail's id is one that some text gives.
  pub mail_resp-route :
      (header_only : Bool) (mail : Mail o.Value) (s : Str) (k : MailAckType)
      → uuidv7_u128 s ≡ ok mail.pulse_id
      → (id : Str) × (get (chars "X-Mail-ID") (mail_resp o web header_only mail).headers ≡ some id)
        × (route Method.put (mail_path k ++ id) ≡ mail_op k mail.pulse_id)
  mail_resp-route header_only mail s k h =
      let (text, back) = uuidv7_str-uuidv7_u128 s mail.pulse_id h in
      (
        uuidv7_str mail.pulse_id,
        mail_resp-id header_only mail,
        route-mail_path k (uuidv7_str mail.pulse_id) mail.pulse_id back,
      )
