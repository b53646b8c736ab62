-- ===== src/Wait/Examples.antt =====
-- The timed waits at concrete inputs.
use cxx_server.Common.{ℕ, ◌≤◌, ◌≡◌, ◌↔◌, true, none, some, arith}
use cxx_server.Asio.{eof}
use cxx_server.Wait.{
  Wait, moves, is_over, schedule, outcome, timer_between, timer_first, timer_runs,
  client_timer_runs, moves-schedule, woken, may_end, count_read, early_wake_garbage,
  uninitialised_done_blocks,
}

moves-schedule_example :
    let w =
      moves
        (schedule timer_runs timer_between (some eof) 12)
        (record { done = 0; error = none; count = 77 }) in
    (is_over w ≡ true) × (w.error ≡ outcome timer_between (some eof)) × (w.count ≡ 12)
moves-schedule_example = moves-schedule timer_between (some eof) 12 77

early_wake_garbage_example :
    let w =
      woken
        (schedule timer_runs timer_first none 12)
        (record { done = 0; error = none; count = 77 }) in
    (is_over w ≡ true) × (w.count ≡ count_read timer_first 12 77)
early_wake_garbage_example = early_wake_garbage timer_first none 12 77

uninitialised_done_blocks_example :
    let ms = schedule (client_timer_runs none) timer_first none 12 in
    let w : Wait = record { done = 5; error = none; count = 0 } in
    ((may_end ms w ≡ true) ↔ (5 ≤ 2)) × ((is_over (moves ms w) ≡ true) ↔ (◌≡◌ {A = ℕ} 5 0))
uninitialised_done_blocks_example =
    uninitialised_done_blocks none timer_first none 12 0 5 (omega arith)
