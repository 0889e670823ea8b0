-- ===== src/Cli/Config.antt =====
-- The configurations with which the agent is started.
use devicekit.Prelude.{◌≡◌, Bool, true, some}
use devicekit.Prelude.Text.{chars}
use devicekit.Prelude.Result.{Result, ok, err}
use devicekit.Outside.{Outside}
use devicekit.Creds.Laws.{IsId, IsSecret}
use devicekit.Cli.{
  AgentConfig, ParsedAction, start, daemon, ConfigErr, Shown, Env, is_local, mode_of, is_prod,
}

module _ (o : Outside) (env : Env) where
  -- The fields of a configuration are the environment's, and its credentials are well formed.
  abbrev pub FromEnv : AgentConfig → Type 0
  FromEnv c =
      (env (chars "FOSTROM_FLEET_ID") ≡ some c.creds.fleet_id)
      × (env (chars "FOSTROM_DEVICE_ID") ≡ some c.creds.device_id)
      × (env (chars "FOSTROM_DEVICE_SECRET") ≡ some c.creds.device_secret)
      × IsId o 8 c.creds.fleet_id
      × IsId o 10 c.creds.device_id
      × IsSecret o c.creds.device_secret
      × (c.connect_mode ≡ mode_of (is_local (env (chars "FOSTROM_LOCAL_MODE"))))
      × (c.creds.prod ≡ is_prod c.connect_mode)

  abbrev Made : Bool → Result AgentConfig ConfigErr → Type 0
  Made start_daemon (ok c) = FromEnv c × (c.start_daemon ≡ start_daemon)
  Made start_daemon (err e) = Unit {0}

  -- What an action carries: to start takes a configuration of the environment, and only the daemon
  -- itself and `start` go to the background.
  abbrev pub IsReady : Result ParsedAction Shown → Type 0
  IsReady (ok (start c)) = FromEnv c
  IsReady (ok (daemon c)) = FromEnv c × (c.start_daemon ≡ true)
  IsReady _ = Unit {0}
