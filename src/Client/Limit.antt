-- ===== src/Client/Limit.antt =====
-- The limit of a Tcp::Client's send buffer is set by its user alone.
use cxx_server.Common.{
  ℕ, ◌≡◌, List, ◌∷◌, arith, Bool, refl, [], Option, none, some, mul64, false, true, length,
}
use cxx_server.Asio.{bytes, null, Buffer, no_buffer_space, ErrorCode, Executor}
use cxx_server.Client.{
  Client, Task, send_task, connect_task, disconnect_task, tcp, append, send_async, err, try_send,
  swap_buffs, start_send, try_receive, disconnect, disconnect_async, clear_buffs,
}
use cxx_server.Client.Handlers.{
  finish_receive, grow, received, receive_handler, connect, connect_async, connected_handler,
  set_up, tell_empty, refuse, perform, connect_handler, send_handler, finish_send, sent,
}
use cxx_server.Client.System.{
  Event, call_connect, call_connect_async, connect_done, call_disconnect, call_disconnect_async,
  call_send, call_receive, run_posted, read_done, write_done, step, run_first, end_write, end_read,
  end_connect,
}
use cxx_server.Client.Cases.{append_cases, filled}

hang_up_limit :
    (e : ErrorCode) (s : Client)
    → (disconnect_async true true (err tcp e s)).0.send_buff_limit ≡ s.send_buff_limit
unfolding disconnect_async disconnect clear_buffs err
hang_up_limit e s = ground arith

pub finish_receive_limit :
    (e : Option ErrorCode) (s : Client)
    → (finish_receive tcp e s).send_buff_limit ≡ s.send_buff_limit
unfolding finish_receive try_receive
finish_receive_limit none s = ground arith
finish_receive_limit (some e) s = hang_up_limit e s

pub grow_limit :
    (e : Option ErrorCode) (n : ℕ) (s : Client)
    → (grow tcp e n s).send_buff_limit ≡ s.send_buff_limit
unfolding grow
grow_limit e n s = ground (
  arith,
  hang_up_limit no_buffer_space s,
  finish_receive_limit e s,
  finish_receive_limit e (record s { receive_buff = mul64 n 2 }),
)

try_send_limit : (s : Client) → (try_send tcp s).send_buff_limit ≡ s.send_buff_limit
unfolding try_send swap_buffs start_send
try_send_limit s = ground arith

run_first_limit :
    (ts : List (Executor × Task)) (s : Client)
    → (run_first tcp ts s).send_buff_limit ≡ s.send_buff_limit
unfolding run_first perform connect_handler disconnect clear_buffs
run_first_limit [] s = refl
run_first_limit ((x, send_task) ∷ rest) s = try_send_limit (record s { posted = rest })
run_first_limit ((x, connect_task) ∷ rest) s = ground arith
run_first_limit ((x, disconnect_task) ∷ rest) s = ground arith

end_write_limit :
    (e : Option ErrorCode) (n : ℕ) (ws : List (Executor × List ℕ)) (s : Client)
    → (end_write tcp e n ws s).send_buff_limit ≡ s.send_buff_limit
unfolding end_write send_handler finish_send sent
end_write_limit e n [] s = refl
end_write_limit none n ((x, w) ∷ rest) s =
    let idle : Client = record s { writes = rest; sending = false } in
    ground (arith, try_send_limit (sent n idle), try_send_limit idle)
end_write_limit (some e) n ((x, w) ∷ rest) s =
    let idle : Client = record s { writes = rest; sending = false } in
    ground (arith, hang_up_limit e (sent n idle), hang_up_limit e idle)

end_read_limit :
    (e : Option ErrorCode) (data' : List ℕ) (rs : List (Executor × ℕ)) (s : Client)
    → (end_read tcp e data' rs s).send_buff_limit ≡ s.send_buff_limit
unfolding end_read receive_handler received
end_read_limit e data' [] s = refl
end_read_limit e data' ((x, space) ∷ rest) s =
    let idle : Client = record s { reads = rest; receiving = false } in
    ground (arith, grow_limit e (length data') (received data' idle), finish_receive_limit e idle)

connect_limit :
    (e : Option ErrorCode) (space : ℕ) (s : Client)
    → (connect tcp e space s).0.send_buff_limit ≡ s.send_buff_limit
unfolding connect set_up tell_empty refuse err
connect_limit none space s = ground arith
connect_limit (some e) space s = ground arith

end_connect_limit :
    (e : Option ErrorCode) (space : ℕ) (xs : List Executor) (s : Client)
    → (end_connect tcp e space xs s).send_buff_limit ≡ s.send_buff_limit
unfolding end_connect connected_handler set_up tell_empty refuse err try_receive
end_connect_limit e space [] s = refl
end_connect_limit none space (x ∷ rest) s = ground arith
end_connect_limit (some e) space (x ∷ rest) s = ground arith

append_limit :
    (inside : Bool) (data' : List ℕ) (s : Client)
    → (append tcp inside data' s).0.send_buff_limit ≡ s.send_buff_limit
append_limit inside data' s =
    append_cases (λ t. t.send_buff_limit ≡ s.send_buff_limit) tcp inside data' s
      (unfold err in ground arith) (try_send_limit (filled data' s)) refl (λ h. refl)

send_async_limit :
    (inside : Bool) (buffer : Buffer) (s : Client)
    → (send_async tcp inside buffer s).0.send_buff_limit ≡ s.send_buff_limit
unfolding send_async
send_async_limit inside (null n) s = ground arith
send_async_limit inside (bytes data') s = ground (arith, append_limit inside data' s)

-- No event moves the limit of the send buffer.
pub step_limit : (ev : Event) (s : Client) → (step tcp ev s).send_buff_limit ≡ s.send_buff_limit
unfolding step
step_limit (call_connect e space) s = connect_limit e space s
step_limit call_connect_async s = unfold connect_async in ground arith
step_limit (connect_done e space) s = end_connect_limit e space s.connects s
step_limit call_disconnect s = unfold disconnect clear_buffs in ground arith
step_limit (call_disconnect_async inside) s =
    unfold disconnect_async disconnect clear_buffs in ground arith
step_limit (call_send inside buffer) s = ground (arith, send_async_limit inside buffer s)
step_limit call_receive s = unfold try_receive in ground arith
step_limit run_posted s = run_first_limit s.posted s
step_limit (read_done e data') s = end_read_limit e data' s.reads s
step_limit (write_done e n) s = end_write_limit e n s.writes s
