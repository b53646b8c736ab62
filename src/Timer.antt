-- ===== src/Timer.antt =====
-- `Timer` of include/core/timer.hxx and source/core/timer.cxx. The errors of asio's timer are arguments;
-- `timerNotify`, which the repository declares and does not define, is recorded as a call.
pub mod System
mod Examples
use cxx_server.Common.{
  ℕ, ◌≡◌, Bool, true, false, List, [], ◌∷◌, ◌++◌, Option, none, some, if◌then◌else◌, arith, length,
}
use cxx_server.Asio.{ErrorCode, Executor, executor_for}

pub data Call : Type 0 where
  timer_notify : Bool → Call
  on_err : ErrorCode → Call

-- The fields of the class; a function is a number, and `waits` are the waits not yet completed.
pub record Timer : Type 0 where
  pub strand_needed : Bool
  pub action : Option ℕ
  pub expiry : Option ℕ
  pub waits : List Executor
  pub calls : List Call

-- The six constructors; a service is whether its handlers need strands. A null one is used before it is
-- tested for, which has no result.
pub new : Option Bool → Option ℕ → Option ℕ → Option Timer
new none action expiry = none
new (some strand_needed) action expiry = some (record {
  strand_needed = strand_needed;
  action = action;
  expiry = expiry;
  waits = [];
  calls = [];
})

abbrev call : Call → Timer → Timer
call c t = record t { calls = c ∷ t.calls }

abbrev pub is_aborted : ErrorCode → Bool
is_aborted ErrorCode.operation_aborted = true
is_aborted _ = false

pub err : ErrorCode → Timer → Timer
err e t = if is_aborted e then t else call (Call.on_err e) t

-- `setup` of a time, absolute or relative.
pub setup_time : Option ErrorCode → ℕ → Timer → Timer × Bool
setup_time none time t = (record t { expiry = some time }, true)
setup_time (some e) time t = (err e t, false)

pub setup_action : Option ℕ → Timer → Timer × Bool
setup_action none t = (t, false)
setup_action (some action) t = (record t { action = some action }, true)

pub setup : Option ErrorCode → Option ℕ → ℕ → Timer → Timer × Bool
setup e action time t =
    let (u, done) = setup_action action t in if done then setup_time e time u else (u, false)

pub wait_async : Timer → Timer × Bool
wait_async t = (record t { waits = t.waits ++ executor_for t.strand_needed ∷ [] }, true)

-- `if (err == operation_aborted) timerNotify(true);`
abbrev notify_aborted : ErrorCode → Timer → Timer
notify_aborted e t = if is_aborted e then call (Call.timer_notify true) t else t

-- The handler of `waitAsync`.
pub wait_handler : Option ErrorCode → Timer → Timer
wait_handler none t = call (Call.timer_notify false) t
wait_handler (some e) t = err e (notify_aborted e t)

pub wait_sync : Option ErrorCode → Timer → Timer × Bool
wait_sync none t = (call (Call.timer_notify false) t, true)
wait_sync (some e) t = (err e (notify_aborted e t), false)

pub cancel : Option ErrorCode → Timer → Timer × Bool
cancel none t = (t, true)
cancel (some e) t = (err e t, false)

-- The one call that the end of a wait makes.
pub told : Option ErrorCode → Call
told none = Call.timer_notify false
told (some e) = if is_aborted e then Call.timer_notify true else Call.on_err e

-- A wait that ends, synchronous or not and with whatever error, makes exactly one call: it notifies of the
-- expiry or of an abort, or else it reports the error.
pub wait_told :
    (e : Option ErrorCode) (t : Timer)
    → ((wait_handler e t).calls ≡ told e ∷ t.calls) × ((wait_sync e t).0.calls ≡ told e ∷ t.calls)
unfolding wait_handler wait_sync err told
wait_told none t = ground arith
wait_told (some e) t = ground arith
