-- ===== src/Tests/Cli.antt =====
-- Starting and stopping an agent.
use devicekit.Prelude.{true, false, none, some, [], ◌∷◌, if◌then◌else◌}
use devicekit.Prelude.Text.{chars, str_eq}
use devicekit.Session.State.{ConnectMode}
use devicekit.Cli.{AgentConfig, Env}
use devicekit.Cli.Files.{absent, holds, Files, Others, terminate_agent}
use devicekit.Cli.Files.Stopping.{Says, terminate_agent-Says}
use devicekit.Tests.Creds.{local_creds}
use devicekit.Tests.Sample.{fleet, device, secret, sample_creds}

abbrev env : Env
env name =
    if str_eq name (chars "FOSTROM_FLEET_ID")
    then some fleet
    else if str_eq name (chars "FOSTROM_DEVICE_ID")
    then some device
    else if str_eq name (chars "FOSTROM_DEVICE_SECRET")
    then some secret
    else none

-- An agent that answers but leaves its socket, and can be killed.
abbrev files : Files
files = record { sock = true; pid = holds (chars "41\n"); hash = absent }

abbrev others : Others
others = record {
  reply = some (chars "HTTP/1.1 200 OK\r\n\r\n");
  looks = files ∷ [];
  late = files;
  kill = λ pid. true;
}

terminate_agent-Says_example : Says others.kill (terminate_agent others files)
terminate_agent-Says_example = terminate_agent-Says others files

abbrev config : AgentConfig
config = record {
  creds = sample_creds;
  enable_unix_socket = true;
  enable_tcp_socket = false;
  connect_mode = ConnectMode.prod;
  start_daemon = true;
}

abbrev local_config : AgentConfig
local_config = record config { creds = local_creds }
