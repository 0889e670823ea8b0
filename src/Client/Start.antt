-- ===== src/Client/Start.antt =====
-- `ClientLogic::new`.
use devicekit.Prelude.{Bool, true, false, []}
use devicekit.Prelude.Text.{Str}
use devicekit.Prelude.Result.{Result, ok, err}
use devicekit.Outside.{Outside}
use devicekit.Protocol.{Bytes, Packet}
use devicekit.Protocol.Build
use devicekit.Creds.{Creds, CredErr}
use devicekit.Codec
use devicekit.Codec.{Deku, encode, CodecError}
use devicekit.Client.State.{ClientLogic}

pub data SetupError : Type 0 where
  bad_creds : CredErr → SetupError
  bad_packet : CodecError → SetupError

module _ (o : Outside) (deku : Deku) where
  abbrev client_of : Creds → Bytes → ClientLogic o.Value
  client_of creds connect_packet_bytes = record {
    codec = Codec.new;
    next_txn_id = 0;
    pending_txns = [];
    creds = creds;
    connect_packet_bytes = connect_packet_bytes;
    authenticated = false;
    transport_open = true;
    written = [];
    notified = [];
    pinged = 0;
    replied = [];
  }

  abbrev with_packet : Result (Packet × Creds) CredErr → Result (ClientLogic o.Value) SetupError
  with_packet (err e) = err (bad_creds e)
  with_packet (ok (packet, creds)) = elim (encode deku packet) [
    | err e ↦ err (bad_packet e)
    | ok bytes ↦ ok (client_of creds bytes)
  ]

  unfoldable pub new : Str → Str → Str → Bool → Result (ClientLogic o.Value) SetupError
  new fleet_id device_id device_secret prod =
      with_packet (Build.connect o fleet_id device_id device_secret prod)
