-- ===== src/Http/Routes.antt =====
-- Which requests become commands, and with what.
use devicekit.Prelude.{
  ℕ, ◌≡◌, ◌≢◌, refl, ap, sym, ◌∙◌, inl, inr, Bool, true, false, Option, none, some, [], ◌∷◌, ◌++◌,
  all, if◌then◌else◌, arith,
}
use devicekit.Prelude.Text.{Str, chars, starts_with, trim, trim_start, trim_end}
use devicekit.Prelude.Result.{ok, Result-cases}
use devicekit.Protocol.{PulseType, MailAckType}
use devicekit.MailId.{uuidv7_u128}
use devicekit.Http.{
  Method, get, head, post, put, delete, status, ping, stop_agent, event_stream, not_found,
  mailbox_next, bad_request, with_mail_id, send_pulse, mail_op, strip_prefix, trim_start_loop,
  split_once, is_name_char, is_valid_pulse_name, exec_mail_op, mail_op_of, with_pulse_name,
  exec_send_pulse, route,
}

-- The name characters are no white space.
valid-trim_start : (s : Str) → all is_name_char s ≡ true → trim_start s ≡ s
unfolding trim_start
valid-trim_start [] h = refl
valid-trim_start (c ∷ s) h = ground arith

valid-trim_end : (s : Str) → all is_name_char s ≡ true → trim_end s ≡ s
unfolding trim_end
valid-trim_end [] h = refl
valid-trim_end (c ∷ []) h = ground arith
valid-trim_end (c ∷ d ∷ s) h = rw (valid-trim_end (d ∷ s) (ground arith)) refl

valid-trim : (s : Str) → is_valid_pulse_name s ≡ true → trim s ≡ s
unfolding trim is_valid_pulse_name
valid-trim s h = ap trim_end (valid-trim_start s (ground arith)) ∙ valid-trim_end s (ground arith)

-- The first part of the path of a pulse.
abbrev pub pulse_path : PulseType → Str
pulse_path PulseType.unknown = []
pulse_path PulseType.system = chars "/pulse/system/"
pulse_path PulseType.datapoint = chars "/pulse/datapoint/"
pulse_path PulseType.msg = chars "/pulse/msg/"

named :
    (t : PulseType) (kind name : Str)
    → is_valid_pulse_name name ≡ true
    → with_pulse_name t (some (kind, name)) ≡ send_pulse t name
named t kind name h =
    ap
      (λ n.
        if is_valid_pulse_name n
        then send_pulse t name
        else bad_request (chars "Invalid Pulse Name"))
      (valid-trim name h)
    ∙ ap (λ b. if b then send_pulse t name else bad_request (chars "Invalid Pulse Name")) h

-- A POST to a pulse's path with a valid name behind it sends that pulse, under that name.
pub route-pulse_path :
    (t : PulseType) (name : Str)
    → t ≢ PulseType.unknown
    → is_valid_pulse_name name ≡ true
    → route post (pulse_path t ++ name) ≡ send_pulse t name
unfolding route exec_send_pulse strip_prefix trim_start_loop split_once
route-pulse_path PulseType.unknown name u h = absurd (u refl)
route-pulse_path PulseType.system name u h = named PulseType.system (chars "system") name h
route-pulse_path PulseType.datapoint name u h = named PulseType.datapoint (chars "datapoint") name h
route-pulse_path PulseType.msg name u h = named PulseType.msg (chars "msg") name h

abbrev pub mail_path : MailAckType → Str
mail_path MailAckType.ack = chars "/mailbox/ack/"
mail_path MailAckType.reject = chars "/mailbox/reject/"
mail_path MailAckType.requeue = chars "/mailbox/requeue/"

-- A PUT to a mail operation's path with a mail id behind it asks for that operation on that mail.
pub route-mail_path :
    (k : MailAckType) (text : Str) (mail_id : ℕ)
    → uuidv7_u128 text ≡ ok mail_id
    → route put (mail_path k ++ text) ≡ mail_op k mail_id
unfolding route exec_mail_op strip_prefix trim_start_loop split_once
route-mail_path MailAckType.ack text mail_id h = ap (mail_op_of MailAckType.ack) h
route-mail_path MailAckType.reject text mail_id h = ap (mail_op_of MailAckType.reject) h
route-mail_path MailAckType.requeue text mail_id h = ap (mail_op_of MailAckType.requeue) h

named_valid :
    (k t : PulseType) (parts : Option (Str × Str)) (name : Str)
    → with_pulse_name k parts ≡ send_pulse t name
    → (k ≡ t) × (is_valid_pulse_name (trim name) ≡ true)
named_valid k t none name e = cc
named_valid k t (some (kind, n)) name e = ground arith

exec_send_pulse-valid :
    (k t : PulseType) (path name : Str)
    → exec_send_pulse k path ≡ send_pulse t name
    → (k ≡ t) × (is_valid_pulse_name (trim name) ≡ true)
unfolding exec_send_pulse
exec_send_pulse-valid k t path name e = named_valid k t _ name e

mail_op-ne-send_pulse :
    (k : MailAckType) (parts : Option (Str × Str)) (t : PulseType) (name : Str)
    → with_mail_id k parts ≡ send_pulse t name
    → ⊥
mail_op-ne-send_pulse k none t name e = cc
mail_op-ne-send_pulse k (some (action, text)) t name e = elim (Result-cases (uuidv7_u128 text)) [
  | inl (v, r) ↦ cc (ap (mail_op_of k) r)
  | inr (x, r) ↦ cc (ap (mail_op_of k) r)
]

put_cases :
    (a b c : Bool) (path name : Str) (t : PulseType)
    → (if a
        then exec_mail_op MailAckType.ack path
        else if b
        then exec_mail_op MailAckType.reject path
        else if c
        then exec_mail_op MailAckType.requeue path
        else not_found)
      ≡ send_pulse t name
    → ⊥
unfolding exec_mail_op
put_cases true b c path name t e = mail_op-ne-send_pulse MailAckType.ack _ t name e
put_cases false true c path name t e = mail_op-ne-send_pulse MailAckType.reject _ t name e
put_cases false false true path name t e = mail_op-ne-send_pulse MailAckType.requeue _ t name e
put_cases false false false path name t e = cc

abbrev one_of : Bool → Bool → Bool → PulseType → Bool
one_of datapoint msg system PulseType.unknown = false
one_of datapoint msg system PulseType.datapoint = datapoint
one_of datapoint msg system PulseType.msg = msg
one_of datapoint msg system PulseType.system = system

post_cases :
    (a b c : Bool) (path name : Str) (t : PulseType)
    → (if a
        then exec_send_pulse PulseType.datapoint path
        else if b
        then exec_send_pulse PulseType.msg path
        else if c
        then exec_send_pulse PulseType.system path
        else not_found)
      ≡ send_pulse t name
    → (one_of a b c t ≡ true) × (is_valid_pulse_name (trim name) ≡ true)
post_cases true b c path name t e =
    let (k, valid) = exec_send_pulse-valid PulseType.datapoint t path name e in
    (ap (one_of true b c) (sym k), valid)
post_cases false true c path name t e =
    let (k, valid) = exec_send_pulse-valid PulseType.msg t path name e in
    (ap (one_of false true c) (sym k), valid)
post_cases false false true path name t e =
    let (k, valid) = exec_send_pulse-valid PulseType.system t path name e in
    (ap (one_of false false true) (sym k), valid)
post_cases false false false path name t e = cc

get_cases :
    (a b c : Bool) (name : Str) (t : PulseType)
    → (if a
        then status
        else if b
        then event_stream
        else if c
        then mailbox_next false
        else not_found)
      ≡ send_pulse t name
    → ⊥
get_cases a b c name t e = ground arith

head_cases :
    (a b : Bool) (name : Str) (t : PulseType)
    → (if a then ping else if b then mailbox_next true else not_found) ≡ send_pulse t name
    → ⊥
head_cases a b name t e = ground arith

delete_cases :
    (a : Bool) (name : Str) (t : PulseType)
    → (if a then stop_agent else not_found) ≡ send_pulse t name
    → ⊥
delete_cases a name t e = ground arith

one_of-starts_with :
    (t : PulseType) (path : Str)
    → one_of
        (starts_with (chars "/pulse/datapoint/") path)
        (starts_with (chars "/pulse/msg/") path)
        (starts_with (chars "/pulse/system/") path)
        t
      ≡ true
    → starts_with (pulse_path t) path ≡ true
one_of-starts_with PulseType.unknown path e = cc
one_of-starts_with PulseType.datapoint path e = e
one_of-starts_with PulseType.msg path e = e
one_of-starts_with PulseType.system path e = e

-- Only a POST to the path of its type sends a pulse, and only under a name that, but for white space
-- around it, has 1 to 255 bytes, all letters, digits, dashes and underscores of ASCII.
pub route-send_pulse :
    (m : Method) (path : Str) (t : PulseType) (name : Str)
    → route m path ≡ send_pulse t name
    → (m ≡ post)
      × (starts_with (pulse_path t) path ≡ true)
      × (is_valid_pulse_name (trim name) ≡ true)
unfolding route
route-send_pulse get path t name e = absurd (get_cases _ _ _ name t e)
route-send_pulse head path t name e = absurd (head_cases _ _ name t e)
route-send_pulse delete path t name e = absurd (delete_cases _ name t e)
route-send_pulse put path t name e = absurd (
    put_cases (starts_with (chars "/mailbox/ack/") path)
      (starts_with (chars "/mailbox/reject/") path) (starts_with (chars "/mailbox/requeue/") path)
      path name t e)
route-send_pulse post path t name e =
    let (k, valid) =
      post_cases (starts_with (chars "/pulse/datapoint/") path)
        (starts_with (chars "/pulse/msg/") path) (starts_with (chars "/pulse/system/") path) path
        name t e in
    (refl, one_of-starts_with t path k, valid)
