-- ===== src/Client/Examples.antt =====
-- Tests of Tcp::Client, and its theorems at concrete inputs.
use cxx_server.Common.{
  suc, length, some, ◌≡◌, refl, true, false, List, [], ◌∷◌, ◌++◌, none, arith, replicate,
}
use cxx_server.Client.Reconnect.{reconnect_async_ends}
use cxx_server.Client.Stale.{reconnect_undone}
use cxx_server.Asio.{operation_aborted, connection_reset, strand, bytes}
use cxx_server.Client.{
  Client, enqueue, connect_task, tcp, new, err, clear_buffs, disconnect, disconnect_async,
  try_receive, swap_buffs, start_send, try_send, append, send_async,
}
use cxx_server.Client.Handlers.{
  reconnect, reconnect_async, connect, set_up, tell_empty, refuse, connect_async, connect_handler,
  connected_handler, perform, finish_receive, grow, received, receive_handler, sent, finish_send,
  send_handler,
}
use cxx_server.Client.System.{
  read_done, Event, call_send, call_connect_async, connect_done, run_posted, write_done, run_first,
  end_connect, end_read, end_write, step, run,
}
use cxx_server.Client.Sync.{Accounts}
use cxx_server.Client.Timed.{send, receive, blocking_calls_return}
use cxx_server.Wait.{Wait, timer_between, count_read}
use cxx_server.Wait.Ended.{error_read, moved}
use cxx_server.Client.Invariant.{Inv}
use cxx_server.Client.Stream.{accepted, transmitted, unsent, accepted-transmitted_whole}
use cxx_server.Client.Resend.{Flushing, partial_write_repeats}

-- A client with strands that has connected asynchronously, with a receive buffer of 4 bytes.
abbrev joining : List Event
joining = call_connect_async ∷ run_posted ∷ connect_done none 4 ∷ []

abbrev home : Client
home = new 3 true (127 ∷ 0 ∷ 0 ∷ 1 ∷ []) 80

-- Its line names what a run computes with.
after : List Event → Client
unfolding run step send_async append try_send swap_buffs start_send end_write send_handler sent
    finish_send run_first perform disconnect disconnect_async clear_buffs end_read receive_handler
    received grow finish_receive err connect new try_receive set_up tell_empty refuse connect_async
    connect_handler connected_handler end_connect
after evs = run tcp evs home

-- It has a read outstanding.
joining_reads : (run tcp joining home).reads ≡ (strand, 4) ∷ []
unfolding after
joining_reads = refl

abbrev joined : Client
joined = run tcp joining home

-- It posts a disconnect, waits for it, and posts a connect.
reconnect_async_ends_example :
    (t : Client) × (reconnect_async
        (suc (suc (length joined.posted)))
        (λ u. run_first tcp u.posted u)
        false
        joined
      ≡ some (enqueue connect_task t, true))
    × (t.connected ≡ false)
unfolding after
reconnect_async_ends_example = reconnect_async_ends tcp false joined refl refl

-- Three bytes handed to `async_write_some`.
abbrev flushing : Client
flushing = run tcp (call_send true (bytes (1 ∷ 2 ∷ 3 ∷ [])) ∷ []) joined

flushing-Flushing : Flushing (1 ∷ 2 ∷ 3 ∷ []) 0 flushing
unfolding after
flushing-Flushing = record {
  connected = refl;
  sending = refl;
  buffer = refl;
  offset = refl;
  outstanding = refl;
}

partial_write_repeats_example :
    Flushing
      (1 ∷ 2 ∷ 3 ∷ [])
      8
      (run tcp (write_done none 2 ∷ replicate 2 (write_done none 3)) flushing)
partial_write_repeats_example =
    partial_write_repeats 2 2 (1 ∷ 2 ∷ 3 ∷ []) flushing (omega arith) (omega arith) (omega arith)
      flushing-Flushing

joined-Inv : Inv joined
unfolding after
joined-Inv = ground arith

abbrev traffic : List Event
traffic =
    call_send true (bytes (1 ∷ 2 ∷ 3 ∷ []))
    ∷ call_send false (bytes (4 ∷ 5 ∷ []))
    ∷ write_done none 3
    ∷ run_posted
    ∷ []

accepted-transmitted_whole_example :
    unsent joined ++ accepted traffic joined
    ≡ transmitted traffic joined ++ unsent (run tcp traffic joined)
unfolding after
accepted-transmitted_whole_example =
    accepted-transmitted_whole traffic joined (tt, (tt, (refl, (tt, tt)))) joined-Inv refl

-- The locals of a blocking call, with a `done` that holds 0.
abbrev locals : Wait
locals = record { done = 0; error = none; count = 77 }

-- A reset ends the operation, and the timer's handler runs before the count is stored.
blocking_calls_return_example :
    ((t : Client) × (send tcp
          (bytes (7 ∷ 8 ∷ []))
          none
          (some timer_between)
          (some connection_reset)
          1
          locals
          joined
        ≡ some (t, 77))
      × Accounts (some connection_reset) joined t 77 0)
    × ((t : Client) × (receive tcp
            (bytes (7 ∷ 8 ∷ []))
            none
            (some timer_between)
            (some connection_reset)
            (9 ∷ [])
            locals
            joined
          ≡ some (t, 0))
        × Accounts (some connection_reset) joined t 0 0)
unfolding after error_read moved count_read
blocking_calls_return_example =
    blocking_calls_return tcp (7 ∷ 8 ∷ []) (9 ∷ []) none (some timer_between)
      (some connection_reset) 1 77 joined refl refl (omega arith) (omega arith) (omega arith)

-- The read that joining began completes after a reconnect.
reconnect_undone_example :
    ((reconnect tcp none 8 joined).1 ≡ true)
    × ((reconnect tcp none 8 joined).0.connected ≡ true)
    × ((step tcp (read_done (some operation_aborted) []) (reconnect tcp none 8 joined).0).connected
        ≡ false)
unfolding after
reconnect_undone_example = reconnect_undone 8 4 strand [] joined refl refl
