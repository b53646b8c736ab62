-- ===== src/Timer/Examples.antt =====
-- Tests of Timer, and its theorem at a concrete input.
use cxx_server.Common.{◌+◌, ◌≡◌, refl, true, false, List, [], ◌∷◌, none, some}
use cxx_server.Asio.{operation_aborted, timed_out}
use cxx_server.Timer.{
  Timer, timer_notify, on_err, err, wait_async, wait_handler, cancel, setup_time,
}
use cxx_server.Timer.System.{
  Event, call_setup_time, call_wait_async, call_cancel, wait_done, end_wait, step, run, owed,
  account, account-run,
}

abbrev idle : Timer
idle = record { strand_needed = false; action = none; expiry = none; waits = []; calls = [] }

-- Two waits, a cancel that aborts the first, a setup that fails, and a third wait.
abbrev busy : List Event
busy =
    call_wait_async
    ∷ call_wait_async
    ∷ call_cancel none
    ∷ wait_done (some operation_aborted)
    ∷ call_setup_time (some timed_out) 5
    ∷ wait_done none
    ∷ call_wait_async
    ∷ []

account-run_example : account (run busy idle) ≡ owed busy + account idle
account-run_example = account-run busy idle

busy_calls : (run busy idle).calls ≡ timer_notify false ∷ on_err timed_out ∷ timer_notify true ∷ []
unfolding run step wait_async cancel end_wait wait_handler setup_time err
busy_calls = refl
