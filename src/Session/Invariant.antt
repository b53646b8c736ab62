-- ===== src/Session/Invariant.antt =====
-- What holds of a Tcp::Session between two events: the counters agree with the buffers, one write is
-- outstanding exactly while the session is sending, and no byte waits with nothing to send it.
use cxx_server.Common.{
  ℕ, ◌+◌, ◌<◌, ◌≡◌, inl, inr, Bool-cases, ◌≢◌, ◌⊎◌, Bool, true, false, List, [], ◌∷◌, ◌++◌, arith,
  word, length, is_empty, ◌||◌, length-append, drop,
}
use cxx_server.Asio.{ErrorCode, no_buffer_space, Executor}
use cxx_server.Session.{
  Session, Virtuals, Task, send_task, disconnect_task, executor, disconnect, disconnect_handler,
  clear_buffs, swap_buffs, start_send, try_receive, try_send, perform, append, enqueue, err,
}
use cxx_server.Session.Cases.{filled, append_cases}

-- A `trySend` waits in the executor.
abbrev pub scheduled : List (Executor × Task) → Bool
scheduled [] = false
scheduled ((x, send_task) ∷ rest) = true
scheduled ((x, disconnect_task) ∷ rest) = scheduled rest

scheduled-append_send :
    (x : Executor) (ts : List (Executor × Task)) → scheduled (ts ++ (x, send_task) ∷ []) ≡ true
scheduled-append_send x [] = ground arith
scheduled-append_send x ((y, send_task) ∷ ts) = ground arith
scheduled-append_send x ((y, disconnect_task) ∷ ts) = scheduled-append_send x ts

scheduled-append_disconnect :
    (x : Executor) (ts : List (Executor × Task))
    → scheduled (ts ++ (x, disconnect_task) ∷ []) ≡ scheduled ts
scheduled-append_disconnect x [] = ground arith
scheduled-append_disconnect x ((y, send_task) ∷ ts) = ground arith
scheduled-append_disconnect x ((y, disconnect_task) ∷ ts) = scheduled-append_disconnect x ts

-- What a `trySend` asks of the state that it finds: the flush buffer may be sent in part.
pub record Base (v : Virtuals) (s : Session) : Type 0 where
  pub pending : s.bytes_pending ≡ length s.send_buff_main
  pub counted : s.bytes_sending + s.send_flush_offset ≡ length s.send_buff_flush
  pub fits : length s.send_buff_main + length s.send_buff_flush < word
  pub within : s.send_buff_flush ≢ [] → s.send_flush_offset < length s.send_buff_flush
  pub busy : s.sending ≡ true → s.send_buff_flush ≢ []
  pub started :
      s.sending ≡ true → s.writes ≡ (executor s, drop s.send_flush_offset s.send_buff_flush) ∷ []
  pub drained : s.connected ≡ true → s.sending ≡ false → s.writes ≡ []
  pub reading : s.receiving ≡ true → s.reads ≡ (executor s, s.receive_buff) ∷ []
  pub quiet : s.connected ≡ true → s.receiving ≡ false → s.reads ≡ []
  pub gate :
      v.complete s.connected ≡ false
      → (s.send_buff_main ≡ [])
        × (s.send_buff_flush ≡ [])
        × (s.sending ≡ false)
        × (s.receiving ≡ false)

pub record Inv (v : Virtuals) (s : Session) : Type 0 where
  pub base : Base v s
  pub open base use *
  pub idle : s.sending ≡ false → s.send_buff_flush ≡ []
  pub awake : s.send_buff_main ≢ [] → (s.sending ≡ true) ⊎ (scheduled s.posted ≡ true)

pub connected_of_complete :
    (v : Virtuals)
    → v.complete false ≡ false
    → (s : Session) → v.complete s.connected ≡ true
    → s.connected ≡ true
connected_of_complete v shut s c = elim (Bool-cases s.connected) [
  | inl on ↦ on
  | inr off ↦ ground arith
]

module _ (v : Virtuals) (shut : v.complete false ≡ false) where
  pub disconnect-Inv : (d inside : Bool) (s : Session) → Inv v s → Inv v (disconnect d inside s).0
  unfolding disconnect disconnect_handler clear_buffs
  disconnect-Inv d inside s i = ground (arith, scheduled-append_disconnect (executor s) s.posted)

  pub try_receive-Inv : (s : Session) → Inv v s → Inv v (try_receive v s)
  unfolding try_receive
  try_receive-Inv s i = ground arith

  pub err-Inv : (e : ErrorCode) (s : Session) → Inv v s → Inv v (err v e s)
  unfolding err
  err-Inv e s i = ground arith

  -- An error disconnects a connected session, whatever its buffers are.
  pub hang_up-Inv :
      (e : ErrorCode) (s : Session)
      → s.connected ≡ true
      → Base v s
      → Inv v (disconnect true true (err v e s)).0
  unfolding disconnect disconnect_handler clear_buffs err
  hang_up-Inv e s c i = ground arith

  -- A `trySend` leaves no pending bytes behind, unless a write is outstanding.
  pub try_send-Base : (s : Session) → Base v s → Inv v (try_send v s)
  unfolding try_send swap_buffs start_send
  try_send-Base s i = ground arith

  pub perform-Inv :
      (x : Executor) (t : Task) (rest : List (Executor × Task)) (s : Session)
      → s.posted ≡ (x, t) ∷ rest
      → Inv v s
      → Inv v (perform v t (record s { posted = rest }))
  unfolding perform disconnect_handler clear_buffs
  perform-Inv x send_task rest s e i = try_send-Base (record s { posted = rest }) (ground arith)
  perform-Inv x disconnect_task rest s e i = ground arith

  filled-Base :
      (data' : List ℕ) (s : Session)
      → length s.send_buff_main + length s.send_buff_flush + length data' < word
      → v.complete s.connected ≡ true
      → Base v s
      → Base v (filled data' s)
  filled-Base data' s f c i = ground (arith, length-append s.send_buff_main data')

  enqueue_send-Inv :
      (s : Session)
      → (s.sending ≡ false → s.send_buff_flush ≡ [])
      → Base v s
      → Inv v (enqueue send_task s)
  enqueue_send-Inv s h i = ground (arith, scheduled-append_send (executor s) s.posted)

  -- With both buffers in use a write is outstanding, so that the bytes appended need no `trySend`.
  filled-Inv :
      (data' : List ℕ) (s : Session)
      → (is_empty s.send_buff_main || is_empty s.send_buff_flush) ≡ false
      → Inv v s
      → Base v (filled data' s)
      → Inv v (filled data' s)
  filled-Inv data' s e i b = ground arith

  pub append-Inv :
      (inside : Bool) (data' : List ℕ) (s : Session)
      → length s.send_buff_main + length s.send_buff_flush + length data' < word
      → v.complete s.connected ≡ true
      → Inv v s
      → Inv v (append v inside data' s).0
  append-Inv inside data' s f c i =
      let b = filled-Base data' s f c i.base in
      append_cases (Inv v) v inside data' s (err-Inv no_buffer_space s i)
        (try_send-Base (filled data' s) b) (enqueue_send-Inv (filled data' s) i.idle b)
        (λ e. filled-Inv data' s e i b)
