-- ===== src/Cli.antt =====
-- The command line: device-agent/src/cli/parser.rs and the types of device-agent/src/cli/mod.rs.
pub mod Config
pub mod Files
pub mod Start
use devicekit.Prelude.{
  ℕ, Bool, true, false, ◌&&◌, ◌||◌, Option, none, some, List, [], ◌∷◌, map, if◌then◌else◌,
}
use devicekit.Prelude.Text.{Str, chars, str_eq}
use devicekit.Prelude.Result.{Result, ok, err, ◌>>=◌}
use devicekit.Outside.{Outside}
use devicekit.Creds.{CredErr, Creds}
use devicekit.Creds
use devicekit.Session.State.{ConnectMode, prod, local}

pub record AgentConfig : Type 0 where
  pub creds : Creds
  pub enable_unix_socket : Bool
  pub enable_tcp_socket : Bool
  pub connect_mode : ConnectMode
  pub start_daemon : Bool

pub data ParsedAction : Type 0 where
  start daemon : AgentConfig → ParsedAction
  stop status test_conn : ParsedAction

pub data ConfigErr : Type 0 where
  env_error : ConfigErr
  invalid : CredErr → ConfigErr

-- What is printed where no action follows.
pub data Shown : Type 0 where
  help version : Shown
  unknown : (args : List Str) → Shown
  failed : ConfigErr → Shown

-- `env::var`, `none` for an error.
abbrev pub Env : Type 0
Env = Str → Option Str

abbrev pub or_env_error : Option Str → Result Str ConfigErr
or_env_error none = err env_error
or_env_error (some value) = ok value

abbrev pub is_local : Option Str → Bool
is_local none = false
is_local (some value) = str_eq value (chars "true") || str_eq value (chars "1")

abbrev pub mode_of : Bool → ConnectMode
mode_of true = local 8484
mode_of false = prod

-- The four variables, `FOSTROM_LOCAL_MODE` behind the others.
abbrev pub vars_of :
    Option Str
    → Option Str
    → Option Str
    → Option Str
    → Result (Str × Str × Str × ConnectMode) ConfigErr
vars_of fleet_id device_id device_secret local_mode = do
  fleet_id' ← or_env_error fleet_id
  device_id' ← or_env_error device_id
  device_secret' ← or_env_error device_secret
  ok (fleet_id', device_id', device_secret', mode_of (is_local local_mode))

unfoldable pub read_env : Env → Result (Str × Str × Str × ConnectMode) ConfigErr
read_env env =
    vars_of (env (chars "FOSTROM_FLEET_ID")) (env (chars "FOSTROM_DEVICE_ID"))
      (env (chars "FOSTROM_DEVICE_SECRET")) (env (chars "FOSTROM_LOCAL_MODE"))

abbrev pub is_prod : ConnectMode → Bool
is_prod prod = true
is_prod (local port) = false

abbrev pub or_invalid : Result Creds CredErr → Result Creds ConfigErr
or_invalid (ok creds) = ok creds
or_invalid (err e) = err (invalid e)

abbrev pub contains : Str → List Str → Bool
contains arg [] = false
contains arg (a ∷ args) = str_eq a arg || contains arg args

abbrev pub single : List Str → Str → Bool
single (a ∷ []) command = str_eq a command
single args command = false

module _ (o : Outside) where
  abbrev pub config_of : Bool → Bool → Str × Str × Str × ConnectMode → Result AgentConfig ConfigErr
  config_of start_daemon start_tcp (fleet_id, device_id, device_secret, connect_mode) = do
    creds ← or_invalid (Creds.new o fleet_id device_id device_secret (is_prod connect_mode))
    ok (record {
      creds = creds;
      enable_unix_socket = true;
      enable_tcp_socket = start_tcp;
      connect_mode = connect_mode;
      start_daemon = start_daemon;
    })

  unfoldable pub get_agent_config : Bool → Bool → Env → Result AgentConfig ConfigErr
  get_agent_config start_daemon start_tcp env =
      read_env env >>= λ vars. config_of start_daemon start_tcp vars

  abbrev pub started : Str → Result AgentConfig ConfigErr → Result ParsedAction Shown
  started command (ok config) =
      if str_eq command (chars "daemon") then ok (daemon config) else ok (start config)
  started command (err e) = err (failed e)

  abbrev pub is_test : Str → Bool
  is_test command = str_eq command (chars "test-conn") || str_eq command (chars "test-connection")

  abbrev pub is_background : Str → Bool
  is_background command = str_eq command (chars "start") || str_eq command (chars "daemon")

  abbrev pub is_start : Str → Bool
  is_start command = str_eq command (chars "run") || is_background command

  abbrev pub command_of : Env → Str → List Str → Result ParsedAction Shown
  command_of env command args =
      if is_test command
      then ok test_conn
      else if is_start command
      then started command
          (get_agent_config (is_background command) (contains (chars "--tcp") (command ∷ args)) env)
      else err (unknown (command ∷ args))

  abbrev pub parse_args : Env → List Str → Result ParsedAction Shown
  parse_args env [] = err help
  parse_args env (command ∷ args) =
      if single (command ∷ args) (chars "help")
      then err help
      else if single (command ∷ args) (chars "version")
      then err version
      else if single (command ∷ args) (chars "stop")
      then ok stop
      else if single (command ∷ args) (chars "status")
      then ok status
      else command_of env command args

  -- From the arguments behind the program's name: an action, or what is printed instead.
  unfoldable pub parse : Env → List Str → Result ParsedAction Shown
  parse env args = parse_args env (map (λ arg. o.to_lowercase arg) args)
