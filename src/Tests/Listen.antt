-- ===== src/Tests/Listen.antt =====
-- The loop that accepts connections, at concrete events.
use devicekit.Prelude.{◌≡◌, refl, true, false, none, some, List, [], ◌∷◌}
use devicekit.Prelude.Text.{Str, as_bytes}
use devicekit.Cli.Files.{stop_request}
use devicekit.Http.Lines.{source}
use devicekit.Http.Listen.{
  Connection, connection, would_block, failed, Listening, unix_server, spawn, round, picked, Event,
  accepts, handles, step, run,
}
use devicekit.Http.Listen.Stopped.{Ended, run_stop-Ended}
use devicekit.Http.Listen.File.{IsKept, unix_server-file}
use devicekit.Tests.Sample.{sample, web, context, exchange}

abbrev stopper : Connection Str
stopper = record {
  timeouts_set = true;
  source = source (as_bytes stop_request) [];
  exchange = exchange;
}

abbrev listening : Listening Str
listening = record { ctx = context; running = stopper ∷ []; sent = []; sock = true; ended = none }

first_picked : picked 0 listening.running ≡ some (stopper, [])
unfolding picked
first_picked = refl

run_stop-Ended_example : Ended sample web (
    round would_block
      (run sample web (accepts (connection stopper) ∷ []) (step sample web (handles 0) listening)))
run_stop-Ended_example =
    run_stop-Ended sample web 0 stopper [] [] (accepts (connection stopper) ∷ []) would_block
      listening (refl, refl, refl) first_picked refl refl refl

abbrev events : List (Event sample web)
events = accepts would_block ∷ accepts (connection stopper) ∷ accepts failed ∷ []

failed_left : (run sample web events (unix_server true true true context)).ended ≡ some false
unfolding run step round spawn unix_server
failed_left = refl

unix_server-file_example : IsKept (run sample web events (unix_server true true true context))
unix_server-file_example = unix_server-file sample web true true context events
