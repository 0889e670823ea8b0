-- ===== src/Cli/Files.antt =====
-- device-agent/src/cli/stop.rs and status.rs: the files of a running agent, and how it is stopped.
pub mod Stopping
use devicekit.Prelude.{
  ℕ, zero, suc, ◌-◌, ◌^◌, Bool, true, false, ◌||◌, Option, none, some, List, [], ◌∷◌, ◌==◌, leb,
  if◌then◌else◌,
}
use devicekit.Prelude.Text.{Str, chars, trim, contains, parse_digits}

-- What reading a file gives.
pub data File : Type 0 where
  absent unreadable : File
  holds : Str → File

-- The socket's file, and those of the process id and the hash of the credentials.
pub record Files : Type 0 where
  pub sock : Bool
  pub pid : File
  pub hash : File

pub data StopMode : Type 0 where
  not_running stopped force_killed failed : StopMode

pub data ℤ : Type 0 where
  pos negsuc : ℕ → ℤ

abbrev minus : ℕ → ℤ
minus zero = pos 0
minus (suc n) = negsuc n

abbrev pub bounded : ℕ → (ℕ → ℤ) → Option ℕ → Option ℤ
bounded max sign none = none
bounded max sign (some n) = if leb n max then some (sign n) else none

-- `str::parse::<i32>`
unfoldable pub parse_i32 : Str → Option ℤ
parse_i32 [] = none
parse_i32 (c ∷ []) = bounded (2 ^ 31 - 1) pos (parse_digits 0 (c ∷ []))
parse_i32 (c ∷ d ∷ s) =
    if c == b'-'
    then bounded (2 ^ 31) minus (parse_digits 0 (d ∷ s))
    else if c == b'+'
    then bounded (2 ^ 31 - 1) pos (parse_digits 0 (d ∷ s))
    else bounded (2 ^ 31 - 1) pos (parse_digits 0 (c ∷ d ∷ s))

abbrev pub no_files : Files
no_files = record { sock = false; pid = absent; hash = absent }

abbrev pub pid_of : File → Option ℤ
pid_of absent = none
pid_of unreadable = none
pid_of (holds contents) = parse_i32 (trim contents)

-- `kill` says whether the signal can be sent to a process. Removing the files is taken to succeed.
abbrev pub kill_pid : (ℤ → Bool) → Option ℤ → Files → StopMode × Files
kill_pid kill none files = (failed, files)
kill_pid kill (some pid) files = if kill pid then (force_killed, no_files) else (failed, files)

unfoldable pub force_kill_agent : (ℤ → Bool) → Files → StopMode × Files
force_kill_agent kill files = kill_pid kill (pid_of files.pid) files

-- The files each time that the socket's is looked for within five seconds, and behind them.
unfoldable pub wait_for_cleanup : (ℤ → Bool) → Files → List Files → Files → StopMode × Files
wait_for_cleanup kill late [] files =
    if files.sock then force_kill_agent kill late else (stopped, files)
wait_for_cleanup kill late (next ∷ looks) files =
    let rest = wait_for_cleanup kill late looks next in
    if files.sock then rest else (stopped, files)

-- What the others do while the agent is stopped: what is read in answer to the request, `none` where
-- nobody listens; the files as they are looked at; and which processes can be killed.
pub record Others : Type 0 where
  pub reply : Option Str
  pub looks : List Files
  pub late : Files
  pub kill : ℤ → Bool

abbrev pub stop_request : Str
stop_request = chars "DELETE /stop-agent HTTP/1.1\r\n\r\n"

abbrev pub status_request : Str
status_request = chars "GET / HTTP/1.1\r\n\r\n"

abbrev pub is_ok : Str → Bool
is_ok buffer = contains (chars "200 OK") buffer

abbrev pub stop_by : Others → Files → Option Str → StopMode × Files
stop_by others files none = force_kill_agent others.kill files
stop_by others files (some buffer) =
    if is_ok buffer
    then wait_for_cleanup others.kill others.late others.looks files
    else force_kill_agent others.kill files

unfoldable pub terminate_agent : Others → Files → StopMode × Files
terminate_agent others files =
    if files.sock then stop_by others files others.reply else (not_running, files)

-- `fetch_status`, of the answer to `status_request`.
abbrev pub fetch_status : Option Str → Bool
fetch_status none = false
fetch_status (some buffer) = is_ok buffer

-- `run_readiness_check` of device-agent/src/cli/daemon.rs: the answers each time that it asks within ten
-- seconds.
unfoldable pub run_readiness_check : List (Option Str) → Bool
run_readiness_check [] = false
run_readiness_check (answer ∷ answers) =
    let rest = run_readiness_check answers in if fetch_status answer then true else rest
