-- ===== src/Cli/Files/Stopping.antt =====
-- What stopping an agent leaves.
use devicekit.Prelude.{
  ◌≡◌, refl, sym, ◌∙◌, Bool, true, false, Option, none, some, List, [], ◌∷◌, if◌then◌else◌,
}
use devicekit.Prelude.Text.{Str}
use devicekit.Cli.Files.{
  Files, StopMode, not_running, stopped, force_killed, failed, ℤ, no_files, pid_of, kill_pid,
  force_kill_agent, wait_for_cleanup, Others, is_ok, stop_by, terminate_agent,
}

-- What a way of stopping says of the files that it leaves: no socket where the agent did not run or
-- cleaned up; no file at all where a process was killed; and where it failed, no process of the id in
-- the file that could be killed.
abbrev pub Says : (ℤ → Bool) → StopMode × Files → Type 0
Says kill (not_running, files) = files.sock ≡ false
Says kill (stopped, files) = files.sock ≡ false
Says kill (force_killed, files) = (files ≡ no_files) × ((pid : ℤ) × (kill pid ≡ true))
Says kill (failed, files) = (pid : ℤ) → pid_of files.pid ≡ some pid → kill pid ≡ false

if-Says :
    (kill : ℤ → Bool) (b : Bool) (r r' : StopMode × Files)
    → (b ≡ true → Says kill r)
    → (b ≡ false → Says kill r')
    → Says kill (if b then r else r')
if-Says kill true r r' h k = h refl
if-Says kill false r r' h k = k refl

other_pid :
    (kill : ℤ → Bool) (pid pid' : ℤ) → some pid ≡ some pid' → kill pid ≡ false → kill pid' ≡ false
other_pid kill pid pid' e k = cc

kill_pid-Says :
    (kill : ℤ → Bool) (files : Files) (pid : Option ℤ)
    → pid_of files.pid ≡ pid
    → Says kill (kill_pid kill pid files)
kill_pid-Says kill files none e = λ pid h. absurd (cc (sym e ∙ h))
kill_pid-Says kill files (some pid) e =
    if-Says kill (kill pid) (force_killed, no_files) (failed, files) (λ k. (refl, (pid, k)))
      (λ k pid' h. other_pid kill pid pid' (sym e ∙ h) k)

force_kill_agent-Says : (kill : ℤ → Bool) (files : Files) → Says kill (force_kill_agent kill files)
unfolding force_kill_agent
force_kill_agent-Says kill files = kill_pid-Says kill files (pid_of files.pid) refl

wait_for_cleanup-Says :
    (kill : ℤ → Bool) (late : Files) (looks : List Files) (files : Files)
    → Says kill (wait_for_cleanup kill late looks files)
unfolding wait_for_cleanup
wait_for_cleanup-Says kill late [] files =
    if-Says kill files.sock _ (stopped, files) (λ _. force_kill_agent-Says kill late) (λ h. h)
wait_for_cleanup-Says kill late (next ∷ looks) files =
    if-Says kill files.sock _ (stopped, files) (λ _. wait_for_cleanup-Says kill late looks next)
      (λ h. h)

stop_by-Says :
    (others : Others) (files : Files) (reply : Option Str)
    → Says others.kill (stop_by others files reply)
stop_by-Says others files none = force_kill_agent-Says others.kill files
stop_by-Says others files (some buffer) =
    if-Says others.kill (is_ok buffer) _ _
      (λ _. wait_for_cleanup-Says others.kill others.late others.looks files)
      (λ _. force_kill_agent-Says others.kill files)

-- However the agent is stopped, the outcome that is reported is true of the files: there is no socket
-- where the agent was not running or has stopped; a process was killed and no file is left where it
-- was killed; and where all failed, no process of the id in the file could be killed.
pub terminate_agent-Says :
    (others : Others) (files : Files) → Says others.kill (terminate_agent others files)
unfolding terminate_agent
terminate_agent-Says others files =
    if-Says others.kill files.sock _ (not_running, files)
      (λ _. stop_by-Says others files others.reply) (λ h. h)
