-- ===== src/Cli/Start.antt =====
-- device-agent/src/cli/start.rs: whether an agent runs already, and the files of one that is started.
pub mod Again
pub mod Handshake
use devicekit.Prelude.{
  ℕ, Bool, true, false, not, ◌&&◌, Option, none, some, List, [], ◌∷◌, ◌++◌, if◌then◌else◌,
}
use devicekit.Prelude.Text.{Str, chars, str_eq, trim}
use devicekit.Outside.{Outside}
use devicekit.Creds.{Creds, hash}
use devicekit.Client.Messages.{decimal}
use devicekit.Cli.{AgentConfig}
use devicekit.Cli.Files.{
  File, absent, unreadable, holds, Files, Others, terminate_agent, run_readiness_check,
}

pub data Preflight : Type 0 where
  already_started start_fresh : Preflight

abbrev pub exists : File → Bool
exists absent = false
exists unreadable = true
exists (holds contents) = true

abbrev pub reads : File → Str → Bool
reads absent new_hash = false
reads unreadable new_hash = false
reads (holds contents) new_hash = str_eq (trim contents) new_hash

-- How the parts of `start_proc` go that may fail: writing the files of the process id and the hash,
-- setting the handler of Ctrl-C, and the client; and whether the socket is left behind.
pub record Run : Type 0 where
  pub pid_written : Bool
  pub hash_written : Bool
  pub handler_set : Bool
  pub client_ok : Bool
  pub sock_left : Bool

abbrev pub removed : Files → Files
removed files = record files { pid = absent; hash = absent }

abbrev pub with_hash : Run → (Files → Bool × Files) → Str → Files → Bool × Files
with_hash run next hash files =
    if not run.hash_written
    then (false, record files { pid = absent })
    else next (record files { hash = holds (hash ++ (b'\n' ∷ [])) })

abbrev pub serve : Run → Files → Bool × Files
serve run files =
    if not run.handler_set
    then (false, removed files)
    else (run.client_ok, record (removed files) { sock = run.sock_left })

module _ (o : Outside) where
  -- The files while the agent runs.
  abbrev pub running : ℕ → AgentConfig → Bool → Files
  running id config sock = record {
    sock = sock;
    pid = holds (decimal id ++ (b'\n' ∷ []));
    hash = holds (hash o config.creds ++ (b'\n' ∷ []));
  }

  -- `start_proc` of the process with this id: whether it went well, and the files behind it, from
  -- which the guards have removed theirs.
  unfoldable pub start_proc : ℕ → AgentConfig → Run → Files → Bool × Files
  start_proc id config run files =
      if not run.pid_written
      then (false, files)
      else with_hash run (λ files'. serve run files') (hash o config.creds)
          (record files { pid = holds (decimal id ++ (b'\n' ∷ [])) })

  -- `connects` says whether somebody listens on the socket.
  unfoldable pub preflight : AgentConfig → Bool → Others → Files → Preflight × Files
  preflight config connects others files =
      if files.sock && exists files.hash && connects && reads files.hash (hash o config.creds)
      then (already_started, files)
      else (start_fresh, (terminate_agent others files).1)

-- How starting goes: whether the directory is made and the child process spawned; the answers that the
-- readiness check gets; the process id; and the run in the foreground.
pub record Launch : Type 0 where
  pub dir_made : Bool
  pub spawned : Bool
  pub answers : List (Option Str)
  pub id : ℕ
  pub run : Run

pub data Outcome : Type 0 where
  panicked already_running : Outcome
  finished : (went_well child_killed : Bool) → Outcome

-- `start_daemon` of device-agent/src/cli/daemon.rs: a child that does not become ready is killed.
unfoldable pub start_daemon : Launch → Outcome
start_daemon launch =
    if not launch.spawned
    then finished false false
    else if run_readiness_check launch.answers
    then finished true false
    else finished false true

abbrev pub in_foreground : Bool × Files → Outcome × Files
in_foreground (went_well, files) = (finished went_well false, files)

module _ (o : Outside) where
  abbrev pub launched : Launch → AgentConfig → Preflight × Files → Outcome × Files
  launched launch config (already_started, files) = (already_running, files)
  launched launch config (start_fresh, files) =
      if config.start_daemon
      then (start_daemon launch, files)
      else in_foreground (start_proc o launch.id config launch.run files)

  unfoldable pub start_agent : Launch → AgentConfig → Bool → Others → Files → Outcome × Files
  start_agent launch config connects others files =
      if not launch.dir_made
      then (panicked, files)
      else launched launch config (preflight o config connects others files)
