-- ===== src/Wait.antt =====
-- The timed waits of the blocking `send` and `receive`, alike in source/core/tcp/tcp_session.cxx and
-- source/core/tcp/tcp_client.cxx: two handlers, the timer's and the operation's, share the locals
-- `done`, `err` and the count of bytes, and the caller waits on a condition variable for `done == 2`.
pub mod Ended
mod Examples
use cxx_server.Common.{
  ℕ, ◌+◌, ◌%◌, ◌^◌, ◌<◌, ◌≤◌, ◌≡◌, ◌↔◌, Bool, true, false, List, [], ◌∷◌, Option, none, some, arith,
  ◌==◌, ◌||◌, if◌then◌else◌,
}
use cxx_server.Asio.{ErrorCode, timed_out}

pub record Wait : Type 0 where
  pub done : ℕ
  pub error : Option ErrorCode
  pub count : ℕ

-- The steps of the two handlers. The operation's handler takes the lock only for `handler(code)`: the
-- count is stored after it has let the caller go.
pub data Move : Type 0 where
  timer_runs : Move
  client_timer_runs : Option ErrorCode → Move
  operation_settles : Option ErrorCode → Move
  operation_stores : ℕ → Move

-- `handler`: the first of the two to run decides the error. `done` is an `int`, as its 32 bits.
settle : Option ErrorCode → Wait → Wait
settle e w =
    if w.done == 0
    then record w { done = 1; error = e }
    else record w { done = (w.done + 1) % 2 ^ 32 }

-- The timer passes `err ? err : timed_out`: the session's tests the shared local, the client's its own
-- argument.
abbrev error_or_timeout : Option ErrorCode → Option ErrorCode
error_or_timeout none = some timed_out
error_or_timeout (some e) = some e

pub move : Move → Wait → Wait
move Move.timer_runs w = settle (error_or_timeout w.error) w
move (Move.client_timer_runs code) w = settle (error_or_timeout code) w
move (Move.operation_settles e) w = settle e w
move (Move.operation_stores n) w = record w { count = n }

pub moves : List Move → Wait → Wait
moves [] w = w
moves (m ∷ ms) w = moves ms (move m w)

-- The predicate of `cv.wait`.
abbrev pub is_over : Wait → Bool
is_over w = w.done == 2

-- The orders in which the handlers can run to their ends.
pub data Order : Type 0 where
  operation_first timer_between timer_first : Order

pub schedule : Move → Order → Option ErrorCode → ℕ → List Move
schedule timer Order.operation_first e n =
    Move.operation_settles e ∷ Move.operation_stores n ∷ timer ∷ []
schedule timer Order.timer_between e n =
    Move.operation_settles e ∷ timer ∷ Move.operation_stores n ∷ []
schedule timer Order.timer_first e n =
    timer ∷ Move.operation_settles e ∷ Move.operation_stores n ∷ []

-- The error that the wait is to report: a time-out only if the timer came first.
pub outcome : Order → Option ErrorCode → Option ErrorCode
outcome Order.operation_first e = e
outcome Order.timer_between e = e
outcome Order.timer_first e = some timed_out

-- `err && err != asio::error::timed_out`, with which the blocking calls decide whether to report.
abbrev pub fails : Option ErrorCode → Option ErrorCode
fails none = none
fails (some ErrorCode.timed_out) = none
fails (some e) = some e

-- With `done` and `err` initialised, as in the session: once both handlers have run to their ends the
-- wait is over, the error is that of the first to run, and the count is the operation's.
pub moves-schedule :
    (o : Order) (e : Option ErrorCode) (n garbage : ℕ)
    → let w =
        moves
          (schedule Move.timer_runs o e n)
          (record { done = 0; error = none; count = garbage }) in
      (is_over w ≡ true) × (w.error ≡ outcome o e) × (w.count ≡ n)
unfolding moves move settle schedule outcome
moves-schedule Order.operation_first e n garbage = ground arith
moves-schedule Order.timer_between e n garbage = ground arith
moves-schedule Order.timer_first e n garbage = ground arith

-- The state in which the caller finds the wait over, if it tests before it blocks and after each step.
unfoldable pub woken : List Move → Wait → Wait
woken [] w = w
woken (m ∷ ms) w = let rest = woken ms (move m w) in if is_over w then w else rest

-- Whether some test before, between or after the steps finds the wait over.
unfoldable pub may_end : List Move → Wait → Bool
may_end [] w = is_over w
may_end (m ∷ ms) w = is_over w || may_end ms (move m w)

-- The count that the caller reads when it wakes at once: that of the operation only if it was stored before the
-- timer's handler ran.
unfoldable pub count_read : Order → ℕ → ℕ → ℕ
count_read Order.operation_first n garbage = n
count_read Order.timer_between n garbage = garbage
count_read Order.timer_first n garbage = garbage

-- With `done` and `err` initialised, in each order in which the handlers can run to their ends: a caller that wakes
-- as soon as the wait is over finds it over, and reads the operation's count if the operation's handler ended before
-- the timer's ran, and otherwise what the uninitialised local held, since the count is stored too late.
pub early_wake_garbage :
    (o : Order) (e : Option ErrorCode) (n garbage : ℕ)
    → let w =
        woken
          (schedule Move.timer_runs o e n)
          (record { done = 0; error = none; count = garbage }) in
      (is_over w ≡ true) × (w.count ≡ count_read o n garbage)
unfolding woken move settle schedule count_read
early_wake_garbage Order.operation_first e n garbage = ground arith
early_wake_garbage Order.timer_between e n garbage = ground arith
early_wake_garbage Order.timer_first e n garbage = ground arith

-- The client leaves `done` uninitialised. In each order in which its handlers can run to their ends, some test of the
-- wait finds it over exactly if `done` held 0, 1 or 2, and the test after both have run exactly if it held 0: with
-- a value above 2 the wait does not end.
pub uninitialised_done_blocks :
    (code : Option ErrorCode) (o : Order) (e : Option ErrorCode) (n garbage done : ℕ)
    → done < 2 ^ 32
    → let ms = schedule (Move.client_timer_runs code) o e n in
      let w : Wait = record { done = done; error = none; count = garbage } in
      ((may_end ms w ≡ true) ↔ (done ≤ 2)) × ((is_over (moves ms w) ≡ true) ↔ (done ≡ 0))
unfolding may_end moves move settle schedule
uninitialised_done_blocks code Order.operation_first e n garbage done h =
    ((λ p. ground arith, λ p. ground arith), (λ p. ground arith, λ p. ground arith))
uninitialised_done_blocks code Order.timer_between e n garbage done h =
    ((λ p. ground arith, λ p. ground arith), (λ p. ground arith, λ p. ground arith))
uninitialised_done_blocks code Order.timer_first e n garbage done h =
    ((λ p. ground arith, λ p. ground arith), (λ p. ground arith, λ p. ground arith))
