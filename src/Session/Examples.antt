-- ===== src/Session/Examples.antt =====
-- Tests of Tcp::Session, and its theorems at concrete inputs.
use cxx_server.Common.{ℕ, ◌≡◌, refl, true, false, List, [], ◌∷◌, ◌++◌, none, some, arith}
use cxx_server.Asio.{strand, bytes, eof, timed_out, connection_reset}
use cxx_server.Session.{
  Session, tcp, new, err, clear_buffs, disconnect_handler, disconnect, try_receive, swap_buffs,
  start_send, try_send, perform, append, send_async, set_send_buff_limit, set_receive_buff_limit,
}
use cxx_server.Session.Handlers.{
  finish_receive, grow, received, receive_handler, sent, finish_send, send_handler, connect,
  connect_stream, tell_empty,
}
use cxx_server.Session.System.{
  Event, call_send, call_disconnect, run_posted, read_done, write_done, run_first, end_read,
  end_write, step, run,
}
use cxx_server.Session.Invariant.{Inv}
use cxx_server.Session.Preserve.{connect-Inv, run-Inv}
use cxx_server.Session.Stream.{
  accepted, accept, transmitted, transmit, taken_by, unsent, accepted-transmitted,
}
use cxx_server.Session.Lifetime.{Settled, run-Settled}
use cxx_server.Session.Limits.{Within, run-Within}
use cxx_server.Session.Serial.{IsSerial, run-IsSerial}
use cxx_server.Session.Pipe.{left, run-left}
use cxx_server.Session.Progress.{drain, drain-unsent}
use cxx_server.Session.Sync.{send, SendAccounts, send-SendAccounts}

-- A session with strands, just connected, with a receive buffer of 4 bytes.
abbrev fresh : Session
fresh = connect tcp true false 4 (new 7 true 0 0)

-- Two sends from the executor, one from outside, a partial write and a complete one.
abbrev traffic : List Event
traffic =
    call_send true (bytes (1 ∷ 2 ∷ 3 ∷ []))
    ∷ call_send false (bytes (4 ∷ 5 ∷ []))
    ∷ write_done none 2
    ∷ write_done none 1
    ∷ run_posted
    ∷ []

-- Its line names what a run computes with.
after : List Event → Session
unfolding run step send_async append try_send swap_buffs start_send end_write send_handler sent
    finish_send run_first perform disconnect disconnect_handler clear_buffs end_read receive_handler
    received grow finish_receive err connect connect_stream tell_empty new try_receive
after evs = run tcp evs fresh

traffic_connected : (run tcp traffic fresh).connected ≡ true
unfolding after
traffic_connected = refl

traffic_writes : (run tcp traffic fresh).writes ≡ (strand, 4 ∷ 5 ∷ []) ∷ []
unfolding after
traffic_writes = refl

fresh-Inv : Inv tcp fresh
fresh-Inv = connect-Inv tcp refl 7 true 0 0 true false 4

accepted-transmitted_example :
    unsent fresh ++ accepted tcp traffic fresh
    ≡ transmitted tcp traffic fresh ++ unsent (run tcp traffic fresh)
accepted-transmitted_example =
    accepted-transmitted tcp refl traffic fresh fresh-Inv traffic_connected

traffic_bytes :
    (accepted tcp traffic fresh ≡ 1 ∷ 2 ∷ 3 ∷ 4 ∷ 5 ∷ [])
    × (transmitted tcp traffic fresh ≡ 1 ∷ 2 ∷ 3 ∷ [])
unfolding after accepted accept transmitted transmit taken_by
traffic_bytes = (refl, refl)

run-Inv_example : Inv tcp (run tcp traffic fresh)
run-Inv_example = run-Inv tcp refl traffic fresh fresh-Inv

-- The peer closes; then a late write completes and the user disconnects once more.
abbrev closing : List Event
closing = read_done (some eof) [] ∷ []

abbrev late : List Event
late = write_done (some connection_reset) 0 ∷ call_disconnect false ∷ run_posted ∷ []

run-Settled_example : Settled (run tcp closing fresh) (run tcp late (run tcp closing fresh))
unfolding after
run-Settled_example = run-Settled tcp refl late (run tcp closing fresh) refl

-- A full buffer of 4 bytes is read into a session whose receive limit is 4: it disconnects.
abbrev limited : Session
limited = set_receive_buff_limit 4 (set_send_buff_limit 2 fresh)

run-Within_example : Within 4 2 (run tcp (read_done none (1 ∷ 2 ∷ 3 ∷ 4 ∷ []) ∷ traffic) limited)
unfolding after set_receive_buff_limit set_send_buff_limit
run-Within_example =
    run-Within 4 2 (omega arith) (omega arith) tcp (read_done none (1 ∷ 2 ∷ 3 ∷ 4 ∷ []) ∷ traffic)
      limited
      (record {
        receive_set = refl;
        send_set = refl;
        receive_fits = omega arith;
        send_fits = omega arith;
        memory = omega arith;
      })

limit_disconnects : (run tcp (read_done none (1 ∷ 2 ∷ 3 ∷ 4 ∷ []) ∷ []) limited).connected ≡ false
unfolding after set_receive_buff_limit set_send_buff_limit
limit_disconnects = refl

run-IsSerial_example : IsSerial strand (run tcp traffic fresh)
unfolding after
run-IsSerial_example =
    run-IsSerial strand tcp traffic fresh
      (record { own = refl; posted_in = tt; reads_in = (refl, tt); writes_in = tt })

-- Three bytes are being written while two more wait.
abbrev half_sent : Session
half_sent =
    run tcp (call_send true (bytes (1 ∷ 2 ∷ 3 ∷ [])) ∷ call_send true (bytes (4 ∷ 5 ∷ [])) ∷ [])
      fresh

half_sent-Inv : Inv tcp half_sent
half_sent-Inv = run-Inv tcp refl _ fresh fresh-Inv

send-SendAccounts_example :
    SendAccounts half_sent (send tcp false (bytes (9 ∷ [])) (some timed_out) 1 half_sent)
unfolding after
send-SendAccounts_example =
    send-SendAccounts tcp false (bytes (9 ∷ [])) (some timed_out) 1 half_sent (omega arith)
      (omega arith)

fresh_connected : fresh.connected ≡ true
unfolding after
fresh_connected = refl

run-left_example :
    (lost : List ℕ) × (unsent fresh ++ accepted tcp (traffic ++ closing) fresh
      ≡ transmitted tcp (traffic ++ closing) fresh
        ++ left (run tcp (traffic ++ closing) fresh) lost)
run-left_example = run-left tcp refl (traffic ++ closing) fresh fresh-Inv fresh_connected

drain-unsent_example :
    (unsent (drain tcp (0 ∷ 1 ∷ 0 ∷ 9 ∷ 0 ∷ []) half_sent) ≡ [])
    × ((drain tcp (0 ∷ 1 ∷ 0 ∷ 9 ∷ 0 ∷ []) half_sent).connected ≡ true)
unfolding after
drain-unsent_example =
    drain-unsent tcp refl (0 ∷ 1 ∷ 0 ∷ 9 ∷ 0 ∷ []) half_sent half_sent-Inv refl refl (omega arith)
