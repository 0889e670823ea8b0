-- ===== src/Protocol/Layout/RoundTrip.antt =====
-- Packets whose fields fit the layout, and what is read back from their bytes.
use native.Mathlib.Nat.{pow-suc}
use devicekit.Prelude.{
  ℕ, zero, suc, ◌+◌, ◌*◌, ◌/◌, ◌%◌, ◌^◌, ◌<◌, ◌≡◌, refl, ◌∙◌, ap, ap₂, Bool, true, false, not,
  Option, none, some, [], ◌∷◌, ◌++◌, append_assoc, length, arith,
}
use devicekit.Protocol.{
  Bytes, Packet, SerializationFormat, PulseType, PulseErrorReason, pulse_error_reason,
  mail_ack_type,
}
use devicekit.Protocol.Packet.{
  close_connection, connect, connected, unauthorized, connect_failed, heartbeat, heartbeat_ack,
  pulse, pulse_resp, new_mail_event, mailbox_next, mailbox_next_resp, ack_mail, ack_mail_resp,
}
use devicekit.Protocol.Reader.{done, read_word, read_vec, cons_read}
use devicekit.Protocol.Layout.{
  word, write_if, write_enum, has_mail, has_payload, to_bytes, from_bytes, read_variant,
  read_close_connection, read_connect, read_connected, read_unauthorized, read_connect_failed,
  read_heartbeat, read_heartbeat_ack, read_pulse, read_pulse_resp, read_new_mail_event,
  read_mailbox_next, read_mail_payload, read_mail_fields, bit, read_mailbox_next_resp,
  read_ack_mail, read_ack_mail_resp,
}

-- A field under `cond` is there exactly when the condition holds.
abbrev pub IsPresent {ℓ} : {A : Type ℓ} → Bool → (A → Type 0) → Option A → Type 0
IsPresent true P (some a) = P a
IsPresent true P none = ⊥
IsPresent false P (some a) = ⊥
IsPresent false P none = Unit

-- The words fit their widths, and the vectors have the lengths that the layout reads.
abbrev pub IsWellFormed : Packet → Type 0
IsWellFormed (connect keep_alive version format fleet_id device_id device_secret) =
    (length fleet_id ≡ 8) × (length device_id ≡ 10) × (length device_secret ≡ 36)
IsWellFormed (pulse kind txn_id name_len name payload_len payload) =
    (txn_id < 2 ^ 64)
    × (length name ≡ name_len)
    × (payload_len < 2 ^ 32)
    × (length payload ≡ payload_len)
IsWellFormed (pulse_resp successful txn_id error_reason) =
    (txn_id < 2 ^ 64) × IsPresent (not successful) (λ _. Unit) error_reason
IsWellFormed (mailbox_next header_only txn_id) = txn_id < 2 ^ 64
IsWellFormed
      (mailbox_next_resp header_only successful txn_id mailbox_size pulse_id name_len name
        payload_len payload) =
    (txn_id < 2 ^ 64)
    × (mailbox_size < 2 ^ 16)
    × IsPresent (has_mail successful mailbox_size) (λ id. id < 2 ^ 128) pulse_id
    × IsPresent (has_mail successful mailbox_size) (λ _. Unit) name_len
    × IsPresent (has_mail successful mailbox_size) (λ s. some (length s) ≡ name_len) name
    × IsPresent (has_payload header_only successful mailbox_size) (λ n. n < 2 ^ 32) payload_len
    × IsPresent (has_payload header_only successful mailbox_size)
        (λ s. some (length s) ≡ payload_len) payload
IsWellFormed (ack_mail pulse_id kind) = pulse_id < 2 ^ 128
IsWellFormed (ack_mail_resp successful mailbox_size pulse_id kind) =
    (mailbox_size < 2 ^ 16) × (pulse_id < 2 ^ 128)
IsWellFormed _ = Unit

-- The reader in front of `j` more bytes, when it has passed the `k` bytes of a word.
read_word-word_then :
    (k j v acc : ℕ) (rest : Bytes)
    → v < 256 ^ k
    → read_word (k + j) acc (word k v ++ rest) ≡ read_word j (acc * 256 ^ k + v) rest
unfolding word
read_word-word_then zero j v acc rest h =
    ap₂ (λ k a. read_word k a rest) (omega arith) (omega arith)
read_word-word_then (suc k) j v acc rest h =
    let small : v / 256 < 256 ^ k = omega (arith, pow-suc 256 k) in
    rw (append_assoc (word k (v / 256)) (v % 256 ∷ []) rest) (
      ap (λ n. read_word n acc (word k (v / 256) ++ (v % 256 ∷ rest))) (omega arith)
      ∙ read_word-word_then k (suc j) (v / 256) acc (v % 256 ∷ rest) small
      ∙ unfold read_word in
        ap (λ a. read_word j a rest) omega (arith, ap (λ (t : ℕ). acc * t) (pow-suc 256 k)))

pub read_word-word :
    (k v : ℕ) (rest : Bytes) → v < 256 ^ k → read_word k 0 (word k v ++ rest) ≡ done v rest
unfolding read_word
read_word-word k v rest h =
    ap (λ n. read_word n 0 (word k v ++ rest)) (omega arith)
    ∙ read_word-word_then k 0 v 0 rest h
    ∙ ap (λ a. done a rest) (omega arith)

pub read_vec-append :
    (n : ℕ) (xs rest : Bytes) → length xs ≡ n → read_vec n (xs ++ rest) ≡ done xs rest
unfolding read_vec
read_vec-append zero [] rest h = refl
read_vec-append zero (x ∷ xs) rest h = absurd (omega arith)
read_vec-append (suc n) [] rest h = absurd (omega arith)
read_vec-append (suc n) (x ∷ xs) rest h = ap (cons_read x) (read_vec-append n xs rest (omega arith))

abbrev pub RoundTrips : Packet → Type 0
RoundTrips p = (rest : Bytes) → from_bytes (to_bytes p ++ rest) ≡ done p rest

connect-RoundTrips :
    (k : Bool) (v : ℕ) (f : SerializationFormat) (a b c : Bytes)
    → IsWellFormed (connect k v f a b c)
    → RoundTrips (connect k v f a b c)
unfolding from_bytes to_bytes read_variant read_connect
connect-RoundTrips k v f a b c (ha, hb, hc) rest = ground (
  arith,
  append_assoc a (b ++ c) rest,
  append_assoc b c rest,
  read_vec-append 8 a (b ++ (c ++ rest)),
  read_vec-append 10 b (c ++ rest),
  read_vec-append 36 c rest,
)

pulse-RoundTrips :
    (k : PulseType) (t n : ℕ) (name : Bytes) (m : ℕ) (payload : Bytes)
    → IsWellFormed (pulse k t n name m payload)
    → RoundTrips (pulse k t n name m payload)
unfolding from_bytes to_bytes read_variant read_pulse
pulse-RoundTrips k t n name m payload (ht, hn, hm, hp) rest = ground (
  arith,
  append_assoc (word 8 t) (n ∷ (name ++ (word 4 m ++ payload))) rest,
  append_assoc name (word 4 m ++ payload) rest,
  append_assoc (word 4 m) payload rest,
  read_word-word 8 t (n ∷ (name ++ (word 4 m ++ (payload ++ rest)))),
  read_vec-append n name (word 4 m ++ (payload ++ rest)),
  read_word-word 4 m (payload ++ rest),
  read_vec-append m payload rest,
)

pulse_resp-RoundTrips :
    (s : Bool) (t : ℕ) (e : Option PulseErrorReason)
    → IsWellFormed (pulse_resp s t e)
    → RoundTrips (pulse_resp s t e)
unfolding from_bytes to_bytes read_variant read_pulse_resp
pulse_resp-RoundTrips s t e (ht, he) rest = ground (
  arith,
  append_assoc (word 8 t) [] rest,
  append_assoc (word 8 t) (write_if (not s) (write_enum pulse_error_reason) e) rest,
  read_word-word 8 t (write_if (not s) (write_enum pulse_error_reason) e ++ rest),
)

-- The header fields and the payload of a mail, in front of `rest`.
mail_fields :
    (h : Bool) (t size id n : ℕ) (name : Bytes) (m : Option ℕ) (payload : Option Bytes)
    (more rest : Bytes)
    → id < 2 ^ 128
    → length name ≡ n
    → read_mail_payload h true t (suc size) (some id) (some n) (some name) more
      ≡ done (mailbox_next_resp h true t (suc size) (some id) (some n) (some name) m payload) rest
    → read_mail_fields h true t (suc size) (word 16 id ++ (n ∷ (name ++ more)))
      ≡ done (mailbox_next_resp h true t (suc size) (some id) (some n) (some name) m payload) rest
unfolding read_mail_fields
mail_fields h t size id n name m payload more rest hid hn e =
    ground (arith, read_word-word 16 id (n ∷ (name ++ more)), read_vec-append n name more)

mail_payload :
    (t size : ℕ) (id n : Option ℕ) (name : Option Bytes) (m : ℕ) (payload rest : Bytes)
    → m < 2 ^ 32
    → length payload ≡ m
    → read_mail_payload false true t (suc size) id n name (word 4 m ++ (payload ++ rest))
      ≡ done (mailbox_next_resp false true t (suc size) id n name (some m) (some payload)) rest
unfolding read_mail_payload
mail_payload t size id n name m payload rest hm hp =
    ground (arith, read_word-word 4 m (payload ++ rest), read_vec-append m payload rest)

no_mail_fields :
    (h s : Bool) (t size : ℕ) (rest : Bytes)
    → has_mail s size ≡ false
    → read_mail_fields h s t size rest
      ≡ done (mailbox_next_resp h s t size none none none none none) rest
unfolding read_mail_fields read_mail_payload
no_mail_fields h s t size rest e = ground arith

mailbox_next_resp_prefix :
    (h s : Bool) (t size : ℕ) (more : Bytes)
    → t < 2 ^ 64
    → size < 2 ^ 16
    → read_mailbox_next_resp ((2 * bit h + bit s) ∷ (word 8 t ++ (word 2 size ++ more)))
      ≡ read_mail_fields h s t size more
unfolding read_mailbox_next_resp
mailbox_next_resp_prefix h s t size more ht hs =
    ground (arith, read_word-word 8 t (word 2 size ++ more), read_word-word 2 size more)

mailbox_next_resp-RoundTrips :
    (h s : Bool) (t size : ℕ) (id n : Option ℕ) (name : Option Bytes) (m : Option ℕ)
    (payload : Option Bytes)
    → IsWellFormed (mailbox_next_resp h s t size id n name m payload)
    → RoundTrips (mailbox_next_resp h s t size id n name m payload)
unfolding from_bytes to_bytes read_variant
mailbox_next_resp-RoundTrips h false t size none none none none none w rest = ground (
  arith,
  append_assoc (word 8 t) (word 2 size ++ []) rest,
  append_assoc (word 2 size) [] rest,
  mailbox_next_resp_prefix h false t size rest w.0 w.1,
  no_mail_fields h false t size rest refl,
)
mailbox_next_resp-RoundTrips h true t zero none none none none none w rest = ground (
  arith,
  append_assoc (word 8 t) (word 2 0 ++ []) rest,
  append_assoc (word 2 0) [] rest,
  mailbox_next_resp_prefix h true t 0 rest w.0 w.1,
  no_mail_fields h true t 0 rest refl,
)
mailbox_next_resp-RoundTrips true true t (suc size) (some id) (some n) (some name) none none w
      rest =
    ground (
      arith,
      append_assoc (word 8 t) (word 2 (suc size) ++ (word 16 id ++ (n ∷ (name ++ [])))) rest,
      append_assoc (word 2 (suc size)) (word 16 id ++ (n ∷ (name ++ []))) rest,
      append_assoc (word 16 id) (n ∷ (name ++ [])) rest,
      append_assoc name [] rest,
      mailbox_next_resp_prefix true true t (suc size) (word 16 id ++ (n ∷ (name ++ rest))) w.0 w.1,
      mail_fields true t size id n name none none rest rest w.2 (ground arith)
          (unfold read_mail_payload in refl),
    )
mailbox_next_resp-RoundTrips false true t (suc size) (some id) (some n) (some name) (some m)
      (some payload) w rest =
    let body = word 4 m ++ payload in
    ground (
      arith,
      append_assoc (word 8 t) (word 2 (suc size) ++ (word 16 id ++ (n ∷ (name ++ body)))) rest,
      append_assoc (word 2 (suc size)) (word 16 id ++ (n ∷ (name ++ body))) rest,
      append_assoc (word 16 id) (n ∷ (name ++ body)) rest,
      append_assoc name body rest,
      append_assoc (word 4 m) payload rest,
      mailbox_next_resp_prefix false true t (suc size)
          (word 16 id ++ (n ∷ (name ++ (word 4 m ++ (payload ++ rest))))) w.0 w.1,
      mail_fields false t size id n name (some m) (some payload) (word 4 m ++ (payload ++ rest))
          rest w.2 (ground arith)
          (mail_payload t size (some id) (some n) (some name) m payload rest w.5 (ground arith)),
    )
mailbox_next_resp-RoundTrips h s t size id n name m payload w rest = ground arith

-- A packet whose fields fit their widths, and whose conditional fields are there exactly where their
-- conditions hold, is read back from its bytes, whatever follows them.
pub from_bytes-to_bytes : (p : Packet) → IsWellFormed p → RoundTrips p
unfolding from_bytes to_bytes read_variant read_close_connection read_connected read_unauthorized
    read_connect_failed read_heartbeat read_heartbeat_ack read_new_mail_event read_mailbox_next
    read_ack_mail read_ack_mail_resp
from_bytes-to_bytes (close_connection s) w rest = ground arith
from_bytes-to_bytes (connect k v f a b c) w rest = connect-RoundTrips k v f a b c w rest
from_bytes-to_bytes (connected m k) w rest = ground arith
from_bytes-to_bytes (unauthorized e) w rest = ground arith
from_bytes-to_bytes (connect_failed e) w rest = ground arith
from_bytes-to_bytes (heartbeat f) w rest = refl
from_bytes-to_bytes (heartbeat_ack s) w rest = ground arith
from_bytes-to_bytes (pulse k t n name m payload) w rest =
    pulse-RoundTrips k t n name m payload w rest
from_bytes-to_bytes (pulse_resp s t e) w rest = pulse_resp-RoundTrips s t e w rest
from_bytes-to_bytes (new_mail_event f) w rest = refl
from_bytes-to_bytes (mailbox_next h t) w rest = ground (arith, read_word-word 8 t rest)
from_bytes-to_bytes (mailbox_next_resp h s t size id n name m payload) w rest =
    mailbox_next_resp-RoundTrips h s t size id n name m payload w rest
from_bytes-to_bytes (ack_mail id k) w rest = ground (
  arith,
  append_assoc (word 16 id) (write_enum mail_ack_type k) rest,
  read_word-word 16 id (write_enum mail_ack_type k ++ rest),
)
from_bytes-to_bytes (ack_mail_resp s size id k) w rest = ground (
  arith,
  append_assoc (word 2 size) (word 16 id ++ write_enum mail_ack_type k) rest,
  append_assoc (word 16 id) (write_enum mail_ack_type k) rest,
  read_word-word 2 size (word 16 id ++ (write_enum mail_ack_type k ++ rest)),
  read_word-word 16 id (write_enum mail_ack_type k ++ rest),
)
