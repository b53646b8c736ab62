-- ===== src/Wait/Ended.antt =====
-- How the blocking calls of Tcp::Client (source/core/tcp/tcp_client.cxx) come by the error and the count, with a
-- time-out and without.
use cxx_server.Common.{ℕ, ◌≡◌, ◌⊎◌, inl, inr, refl, Option, none, some, if◌then◌else◌}
use cxx_server.Asio.{ErrorCode}
use cxx_server.Wait.{
  Wait, Move, Order, schedule, move, settle, woken, may_end, count_read, error_or_timeout,
}

-- The locals when the caller goes on, if it does: without a time-out the socket's call sets them; with one, the two
-- handlers run in some order, and the caller wakes as soon as the wait is over. `code` is what the timer's handler is
-- given.
unfoldable pub ended : Option ErrorCode → Option Order → Option ErrorCode → ℕ → Wait → Option Wait
ended code none e n w = some (record w { error = e; count = n })
ended code (some o) e n w =
    let ms = schedule (Move.client_timer_runs code) o e n in
    if may_end ms w then some (woken ms w) else none

-- The error that the caller finds: of the first handler to run, where the timer's is a time-out or its own error.
unfoldable pub error_read : Option ErrorCode → Option Order → Option ErrorCode → Option ErrorCode
error_read code none e = e
error_read code (some Order.operation_first) e = e
error_read code (some Order.timer_between) e = e
error_read code (some Order.timer_first) e = error_or_timeout code

-- The count that it finds: of the operation, unless its handler has not stored it yet.
unfoldable pub moved : Option Order → ℕ → ℕ → ℕ
moved none n before = n
moved (some o) n before = count_read o n before

pub ended-read :
    (code : Option ErrorCode) (timing : Option Order) (e : Option ErrorCode) (n before : ℕ)
    → (d : ℕ) × (ended code timing e n (record { done = 0; error = none; count = before })
        ≡ some
            (record { done = d; error = error_read code timing e; count = moved timing n before }))
unfolding ended may_end woken move settle schedule error_read moved count_read
ended-read code none e n before = (0, refl)
ended-read code (some Order.operation_first) e n before = (2, refl)
ended-read code (some Order.timer_between) e n before = (2, refl)
ended-read code (some Order.timer_first) e n before = (2, refl)

pub moved_cases :
    (timing : Option Order) (n before : ℕ)
    → (moved timing n before ≡ n) ⊎ (moved timing n before ≡ before)
unfolding moved count_read
moved_cases none n before = inl refl
moved_cases (some Order.operation_first) n before = inl refl
moved_cases (some Order.timer_between) n before = inr refl
moved_cases (some Order.timer_first) n before = inr refl
