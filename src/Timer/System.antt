-- ===== src/Timer/System.antt =====
-- A timer among what calls it: its user, and asio, which completes the waits. A completion that cannot occur
-- changes nothing.
use cxx_server.Common.{
  ℕ, ◌+◌, ◌≡◌, refl, List, [], ◌∷◌, Option, none, some, if◌then◌else◌, arith, length, length-append,
}
use cxx_server.Asio.{ErrorCode, Executor, executor_for}
use cxx_server.Timer.{
  Timer, setup, setup_time, setup_action, wait_async, wait_handler, wait_sync, cancel, is_aborted,
  err,
}

pub data Event : Type 0 where
  call_setup : Option ErrorCode → Option ℕ → ℕ → Event
  call_setup_time : Option ErrorCode → ℕ → Event
  call_setup_action : Option ℕ → Event
  call_wait_async : Event
  call_wait_sync : Option ErrorCode → Event
  call_cancel : Option ErrorCode → Event
  wait_done : Option ErrorCode → Event

unfoldable pub end_wait : Option ErrorCode → List Executor → Timer → Timer
end_wait e [] t = t
end_wait e (x ∷ rest) t = wait_handler e (record t { waits = rest })

unfoldable pub step : Event → Timer → Timer
step (Event.call_setup e action time) t = (setup e action time t).0
step (Event.call_setup_time e time) t = (setup_time e time t).0
step (Event.call_setup_action action) t = (setup_action action t).0
step Event.call_wait_async t = (wait_async t).0
step (Event.call_wait_sync e) t = (wait_sync e t).0
step (Event.call_cancel e) t = (cancel e t).0
step (Event.wait_done e) t = end_wait e t.waits t

unfoldable pub run : List Event → Timer → Timer
run [] t = t
run (ev ∷ evs) t = run evs (step ev t)

-- An error is reported, unless it is that of an abort.
pub reported : Option ErrorCode → ℕ
reported none = 0
reported (some e) = if is_aborted e then 0 else 1

-- How many calls an event makes the timer owe: one for each wait, and one for each other error.
pub owes : Event → ℕ
owes (Event.call_setup e none time) = 0
owes (Event.call_setup e (some action) time) = reported e
owes (Event.call_setup_time e time) = reported e
owes (Event.call_setup_action action) = 0
owes Event.call_wait_async = 1
owes (Event.call_wait_sync e) = 1
owes (Event.call_cancel e) = reported e
owes (Event.wait_done e) = 0

pub owed : List Event → ℕ
owed [] = 0
owed (ev ∷ evs) = owes ev + owed evs

-- The calls made and those that outstanding waits will make.
pub account : Timer → ℕ
account t = length t.calls + length t.waits

account-setup_time :
    (e : Option ErrorCode) (time : ℕ) (t : Timer)
    → account (setup_time e time t).0 ≡ reported e + account t
unfolding account setup_time reported err
account-setup_time none time t = omega arith
account-setup_time (some e) time t = ground arith

account-cancel :
    (e : Option ErrorCode) (t : Timer) → account (cancel e t).0 ≡ reported e + account t
unfolding account cancel reported err
account-cancel none t = omega arith
account-cancel (some e) t = ground arith

account-wait_sync : (e : Option ErrorCode) (t : Timer) → account (wait_sync e t).0 ≡ 1 + account t
unfolding account wait_sync err
account-wait_sync none t = omega arith
account-wait_sync (some e) t = ground arith

account-end_wait :
    (e : Option ErrorCode) (xs : List Executor) (t : Timer)
    → t.waits ≡ xs
    → account (end_wait e xs t) ≡ account t
unfolding account end_wait wait_handler err
account-end_wait e [] t q = omega arith
account-end_wait none (x ∷ rest) t q = ground arith
account-end_wait (some e) (x ∷ rest) t q = ground arith

account-setup :
    (e : Option ErrorCode) (action : Option ℕ) (time : ℕ) (t : Timer)
    → account (setup e action time t).0 ≡ owes (Event.call_setup e action time) + account t
unfolding setup setup_action owes account
account-setup e none time t = omega arith
account-setup e (some action) time t = account-setup_time e time (record t { action = some action })

account-step : (ev : Event) (t : Timer) → account (step ev t) ≡ owes ev + account t
unfolding step owes wait_async account setup_action
account-step (Event.call_setup e action time) t = account-setup e action time t
account-step (Event.call_setup_time e time) t = account-setup_time e time t
account-step (Event.call_setup_action none) t = omega arith
account-step (Event.call_setup_action (some action)) t = omega arith
account-step Event.call_wait_async t =
    omega (arith, length-append t.waits (executor_for t.strand_needed ∷ []))
account-step (Event.call_wait_sync e) t = account-wait_sync e t
account-step (Event.call_cancel e) t = account-cancel e t
account-step (Event.wait_done e) t = omega (arith, account-end_wait e t.waits t refl)

-- Over every sequence of events, the calls that a timer has made and the waits that are outstanding grow
-- together by one for each wait that is asked for and one for each error of a setup or a cancel that is not
-- an abort.
pub account-run : (evs : List Event) (t : Timer) → account (run evs t) ≡ owed evs + account t
unfolding run owed
account-run [] t = omega arith
account-run (ev ∷ evs) t = omega (arith, account-run evs (step ev t), account-step ev t)
