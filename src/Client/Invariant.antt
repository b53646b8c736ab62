-- ===== src/Client/Invariant.antt =====
-- What holds of a connected Tcp::Client between two events, with the offset at 0, and the operations that
-- keep it.
use cxx_server.Common.{
  ℕ, ◌+◌, ◌<◌, ◌≡◌, refl, ◌≢◌, ◌⊎◌, Bool, true, false, List, [], ◌∷◌, ◌++◌, arith, word, length,
  length-append, is_empty, ◌||◌,
}
use cxx_server.Asio.{ErrorCode, no_buffer_space, Executor}
use cxx_server.Client.{
  Client, tcp, Task, send_task, connect_task, disconnect_task, executor, err, clear_buffs,
  disconnect, disconnect_async, enqueue, try_receive, try_send, swap_buffs, start_send, append,
}
use cxx_server.Client.Cases.{filled, append_cases}
use cxx_server.Client.Handlers.{connect_handler, perform}
use cxx_server.Client.System.{run_first}

-- A `trySend` waits in the executor.
abbrev pub scheduled : List (Executor × Task) → Bool
scheduled [] = false
scheduled ((x, send_task) ∷ rest) = true
scheduled ((x, connect_task) ∷ rest) = scheduled rest
scheduled ((x, disconnect_task) ∷ rest) = scheduled rest

scheduled-append_send :
    (x : Executor) (ts : List (Executor × Task)) → scheduled (ts ++ (x, send_task) ∷ []) ≡ true
scheduled-append_send x [] = refl
scheduled-append_send x ((y, send_task) ∷ ts) = refl
scheduled-append_send x ((y, connect_task) ∷ ts) = scheduled-append_send x ts
scheduled-append_send x ((y, disconnect_task) ∷ ts) = scheduled-append_send x ts

scheduled-append_disconnect :
    (x : Executor) (ts : List (Executor × Task))
    → scheduled (ts ++ (x, disconnect_task) ∷ []) ≡ scheduled ts
scheduled-append_disconnect x [] = refl
scheduled-append_disconnect x ((y, send_task) ∷ ts) = refl
scheduled-append_disconnect x ((y, connect_task) ∷ ts) = scheduled-append_disconnect x ts
scheduled-append_disconnect x ((y, disconnect_task) ∷ ts) = scheduled-append_disconnect x ts

-- What a `trySend` asks of the state that it finds.
pub record Base (s : Client) : Type 0 where
  pub settled : s.connected ≡ true → s.connecting ≡ false
  pub pending : s.bytes_pending ≡ length s.send_buff_main
  pub counted : s.bytes_sending ≡ length s.send_buff_flush
  pub start : s.send_flush_offset ≡ 0
  pub fits : length s.send_buff_main + length s.send_buff_flush < word
  pub idle : s.sending ≡ false → s.send_buff_flush ≡ []
  pub busy : s.sending ≡ true → s.send_buff_flush ≢ []
  pub started : s.sending ≡ true → s.writes ≡ (executor s, s.send_buff_flush) ∷ []
  pub drained : s.connected ≡ true → s.sending ≡ false → s.writes ≡ []
  pub gate :
      s.connected ≡ false → (s.send_buff_main ≡ []) × (s.sending ≡ false) × (s.receiving ≡ false)

pub record Inv (s : Client) : Type 0 where
  pub base : Base s
  pub open base use *
  pub awake : s.send_buff_main ≢ [] → (s.sending ≡ true) ⊎ (scheduled s.posted ≡ true)

pub disconnect-Inv : (s : Client) → Inv s → Inv (disconnect s).0
unfolding disconnect clear_buffs
disconnect-Inv s i = ground arith

pub disconnect_async-Inv :
    (d inside : Bool) (s : Client) → Inv s → Inv (disconnect_async d inside s).0
unfolding disconnect_async disconnect clear_buffs
disconnect_async-Inv d inside s i =
    ground (arith, scheduled-append_disconnect (executor s) s.posted)

pub try_receive-Inv : (s : Client) → Inv s → Inv (try_receive tcp s)
unfolding try_receive
try_receive-Inv s i = ground arith

pub err-Inv : (e : ErrorCode) (s : Client) → Inv s → Inv (err tcp e s)
unfolding err
err-Inv e s i = ground arith

pub try_send-Inv : (s : Client) → Base s → Inv (try_send tcp s)
unfolding try_send swap_buffs start_send
try_send-Inv s i = ground arith

-- The first task leaves the executor.
taken_send-Base :
    (x : Executor) (rest : List (Executor × Task)) (s : Client)
    → Inv s
    → Base (record s { posted = rest })
taken_send-Base x rest s i = ground arith

taken_other-Inv :
    (rest : List (Executor × Task)) (s : Client)
    → scheduled s.posted ≡ scheduled rest
    → Inv s
    → Inv (record s { posted = rest })
taken_other-Inv rest s e i = ground arith

connect_handler-Inv : (s : Client) → Inv s → Inv (connect_handler s)
unfolding connect_handler
connect_handler-Inv s i = ground arith

-- Of the tasks only `connectAsync`'s could connect; it does not begin while the client is connected.
perform-Inv :
    (x : Executor) (t : Task) (rest : List (Executor × Task)) (s : Client)
    → s.posted ≡ (x, t) ∷ rest
    → Inv s
    → Inv (perform tcp t (record s { posted = rest }))
unfolding perform
perform-Inv x send_task rest s e i =
    try_send-Inv (record s { posted = rest }) (taken_send-Base x rest s i)
perform-Inv x connect_task rest s e i =
    connect_handler-Inv (record s { posted = rest }) (taken_other-Inv rest s (rw e refl) i)
perform-Inv x disconnect_task rest s e i =
    disconnect-Inv (record s { posted = rest }) (taken_other-Inv rest s (rw e refl) i)

pub run_first-Inv :
    (ts : List (Executor × Task)) (s : Client) → s.posted ≡ ts → Inv s → Inv (run_first tcp ts s)
unfolding run_first
run_first-Inv [] s e i = i
run_first-Inv ((x, t) ∷ rest) s e i = perform-Inv x t rest s e i

filled-Base :
    (data' : List ℕ) (s : Client)
    → length s.send_buff_main + length s.send_buff_flush + length data' < word
    → s.connected ≡ true
    → Base s
    → Base (filled data' s)
filled-Base data' s f c i = ground (arith, length-append s.send_buff_main data')

enqueue_send-Inv : (s : Client) → Base s → Inv (enqueue send_task s)
enqueue_send-Inv s h = ground (arith, scheduled-append_send (executor s) s.posted)

-- With both buffers in use a write is outstanding, so that the bytes appended need no `trySend`.
filled-Inv :
    (data' : List ℕ) (s : Client)
    → (is_empty s.send_buff_main || is_empty s.send_buff_flush) ≡ false
    → Inv s
    → Base (filled data' s)
    → Inv (filled data' s)
filled-Inv data' s e i b = ground arith

pub append-Inv :
    (inside : Bool) (data' : List ℕ) (s : Client)
    → length s.send_buff_main + length s.send_buff_flush + length data' < word
    → s.connected ≡ true
    → Inv s
    → Inv (append tcp inside data' s).0
append-Inv inside data' s f c i =
    let b = filled-Base data' s f c i.base in
    append_cases Inv tcp inside data' s (err-Inv no_buffer_space s i)
      (try_send-Inv (filled data' s) b) (enqueue_send-Inv (filled data' s) b)
      (λ e. filled-Inv data' s e i b)
