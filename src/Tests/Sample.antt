-- ===== src/Tests/Sample.antt =====
-- Concrete data for the tests: functions in place of the code that the agent takes from elsewhere,
-- credentials, and packets.
use devicekit.Prelude.{true, false, none, some, [], ◌∷◌}
use devicekit.Prelude.Text.{
  Str, chars, is_ascii_alphanumeric, to_ascii_lowercase, to_ascii_uppercase,
}
use devicekit.Outside.{Outside}
use devicekit.Protocol.{Packet, PulseType}
use devicekit.Creds.{Creds}
use devicekit.Client.State.{ReturnChanResult}
use devicekit.Session.State.{ConnectMode, Mailbox, MoonlightClient}
use devicekit.Http.Response.{Web}
use devicekit.Http.Commands.{Exchange, received}
use devicekit.Http.Server.{SocketContext}

-- JSON values are texts, and a digest is the text itself.
abbrev pub sample : Outside
sample = record {
  Value = Str;
  from_str = λ s. some (some s);
  to_string = λ s. s;
  from_slice = λ bytes. some bytes;
  sha256 = λ bytes. bytes;
  hex_encode = λ bytes. bytes;
  is_alphanumeric = is_ascii_alphanumeric;
  to_lowercase = to_ascii_lowercase;
  to_uppercase = to_ascii_uppercase;
  version = chars "1.2.3";
}

abbrev pub fleet : Str
fleet = chars "FLEET123"

abbrev pub device : Str
device = chars "DEVICE1234"

abbrev pub secret : Str
secret = chars "FOS-0123456789ABCDEF0123456789ABCDEF"

abbrev pub sample_creds : Creds
sample_creds = record { fleet_id = fleet; device_id = device; device_secret = secret; prod = true }

abbrev pub data_pulse : Packet
data_pulse = Packet.pulse PulseType.datapoint 7 2 (b'h' ∷ b'i' ∷ []) 1 (b'1' ∷ [])

-- Headers in the order in which they were added, and a day without a date.
abbrev pub web : Web
web = record {
  http_date = chars "now";
  error_json = λ msg. msg;
  ok_json = chars "{}";
  mail_available_json = λ more. chars "{}";
  status_json = λ status. chars "{}";
  arrange = λ headers. headers;
}

-- An agent that is connected, with a mailbox that is read.
abbrev pub mailbox : Mailbox Str
mailbox = record { receives = true; sent = [] }

abbrev pub connected_client : MoonlightClient Str
connected_client = record {
  fleet_id = fleet;
  device_id = device;
  device_secret = secret;
  connect_mode = ConnectMode.prod;
  shutdown_flag = false;
  authenticated = true;
  disconnected_reason = none;
  reconnect_in = none;
  mailbox_chan = some mailbox;
  poisoned = false;
}

abbrev pub context : SocketContext Str
context = record { client = connected_client; shutdown_flag = false }

abbrev pub exchange : Exchange Str
exchange = record {
  polls = false ∷ true ∷ [];
  at_end = false;
  chan = 4;
  answer = received ReturnChanResult.success;
}
