-- ===== src/Session/Stream.antt =====
-- The bytes that a Tcp::Session accepts by `sendAsync` against those that asio takes from it.
use cxx_server.Common.{
  ℕ, ◌+◌, ◌≤◌, ◌<◌, ◌≡◌, refl, sym, ◌∙◌, Bool, true, false, List, [], ◌∷◌, ◌++◌, Option, none, some,
  arith, word, mul64, leb, if◌then◌else◌, append-nil, append_assoc, length, take, drop, drop-nil,
  drop-add, drop-nil_of_le, append_trade, take-append-drop, length-drop,
}
use cxx_server.Asio.{ErrorCode, Executor, Buffer, null, bytes}
use cxx_server.Session.{
  Session, Virtuals, Task, send_task, disconnect_task, disconnect, disconnect_handler, clear_buffs,
  try_receive, try_send, swap_buffs, start_send, perform, append, send_async, err,
}
use cxx_server.Session.Handlers.{
  finish_receive, grow, received, receive_handler, sent, finish_send, send_handler,
}
use cxx_server.Session.System.{
  Event, call_send, call_disconnect, call_receive, run_posted, read_done, write_done, step, run,
  fits, end_read, end_write, run_first,
}
use cxx_server.Session.Invariant.{Inv}
use cxx_server.Session.Preserve.{step-Inv}
use cxx_server.Session.Lifetime.{run_connected}

-- What the session holds and asio has not taken.
abbrev pub unsent : Session → List ℕ
unsent s = drop s.send_flush_offset s.send_buff_flush ++ s.send_buff_main

abbrev taken : Buffer → List ℕ
taken (null n) = []
taken (bytes data') = data'

-- The bytes that an event hands to the session: those of a `sendAsync` that returns true.
unfoldable pub accept : Virtuals → Event → Session → List ℕ
accept v (call_send inside buffer) s =
    if fits buffer s then (if (send_async v inside buffer s).1 then taken buffer else []) else []
accept v _ s = []

-- The bytes that asio takes by an event: the first `n` of the oldest outstanding write.
unfoldable pub taken_by : ℕ → List (Executor × List ℕ) → List ℕ
taken_by n [] = []
taken_by n ((x, w) ∷ rest) = if leb n (length w) then take n w else []

unfoldable pub transmit : Event → Session → List ℕ
transmit (write_done e n) s = taken_by n s.writes
transmit _ s = []

unfoldable pub accepted : Virtuals → List Event → Session → List ℕ
accepted v [] s = []
accepted v (ev ∷ evs) s = accept v ev s ++ accepted v evs (step v ev s)

unfoldable pub transmitted : Virtuals → List Event → Session → List ℕ
transmitted v [] s = []
transmitted v (ev ∷ evs) s = transmit ev s ++ transmitted v evs (step v ev s)

unsent-swap_buffs : (s : Session) → unsent (swap_buffs s) ≡ unsent s
unfolding swap_buffs
unsent-swap_buffs s =
    ground (arith, drop-nil {A = ℕ} s.send_flush_offset, append-nil s.send_buff_main)

unsent-try_send : (v : Virtuals) (s : Session) → unsent (try_send v s) ≡ unsent s
unfolding try_send start_send
unsent-try_send v s = ground (arith, unsent-swap_buffs s)

pub unsent-append :
    (v : Virtuals) (inside : Bool) (data' : List ℕ) (s : Session)
    → unsent s ++ (if (append v inside data' s).1 then data' else [])
      ≡ unsent (append v inside data' s).0
unfolding append err
unsent-append v inside data' s = ground (
  arith,
  append-nil (unsent s),
  append_assoc (drop s.send_flush_offset s.send_buff_flush) s.send_buff_main data',
  unsent-try_send v (record s {
    send_buff_main = s.send_buff_main ++ data';
    bytes_pending = length (s.send_buff_main ++ data');
  }),
)

unsent-accept :
    (v : Virtuals) (inside : Bool) (buffer : Buffer) (s : Session)
    → unsent s ++ accept v (call_send inside buffer) s ≡ unsent (step v (call_send inside buffer) s)
unfolding accept step send_async
unsent-accept v inside (null n) s = ground (arith, append-nil (unsent s))
unsent-accept v inside (bytes []) s = ground (arith, append-nil (unsent s))
unsent-accept v inside (bytes (b ∷ bs)) s =
    ground (arith, append-nil (unsent s), unsent-append v inside (b ∷ bs) s)

-- A disconnect leaves the session as it was, or disconnected.
unsent-disconnect :
    (d inside : Bool) (s : Session)
    → (disconnect d inside s).0.connected ≡ true
    → unsent (disconnect d inside s).0 ≡ unsent s
unfolding disconnect disconnect_handler clear_buffs
unsent-disconnect d inside s = ground arith

unsent-run_first :
    (v : Virtuals) (ts : List (Executor × Task)) (s : Session)
    → (run_first v ts s).connected ≡ true
    → unsent (run_first v ts s) ≡ unsent s
unfolding run_first perform disconnect_handler clear_buffs
unsent-run_first v [] s h = refl
unsent-run_first v ((x, send_task) ∷ rest) s h = unsent-try_send v (record s { posted = rest })
unsent-run_first v ((x, disconnect_task) ∷ rest) s h = ground arith

pub unsent-finish_receive :
    (v : Virtuals) (e : Option ErrorCode) (s : Session)
    → (finish_receive v e s).connected ≡ true
    → unsent (finish_receive v e s) ≡ unsent s
unfolding finish_receive try_receive err disconnect disconnect_handler clear_buffs
unsent-finish_receive v none s h = ground arith
unsent-finish_receive v (some e) s h = ground arith

unsent-received : (data' : List ℕ) (s : Session) → unsent (received data' s) ≡ unsent s
unfolding received
unsent-received data' s = refl

pub unsent-grow :
    (v : Virtuals) (e : Option ErrorCode) (n : ℕ) (s : Session)
    → (grow v e n s).connected ≡ true
    → unsent (grow v e n s) ≡ unsent s
unfolding grow err disconnect disconnect_handler clear_buffs
unsent-grow v e n s h = ground (
  arith,
  unsent-finish_receive v e s,
  unsent-finish_receive v e (record s { receive_buff = mul64 n 2 }),
)

unsent-end_read :
    (v : Virtuals) (e : Option ErrorCode) (data' : List ℕ) (rs : List (Executor × ℕ)) (s : Session)
    → (end_read v e data' rs s).connected ≡ true
    → unsent (end_read v e data' rs s) ≡ unsent s
unfolding end_read receive_handler
unsent-end_read v e data' [] s h = refl
unsent-end_read v e data' ((x, space) ∷ rest) s h =
    let idle : Session = record s { reads = rest; receiving = false } in
    ground (
      arith,
      unsent-finish_receive v e idle,
      unsent-grow v e (length data') (received data' idle),
      unsent-received data' idle,
    )

-- What a write of `n` of the outstanding bytes leaves to be sent.
take-drop-add :
    (o n : ℕ) (f : List ℕ) (main : List ℕ)
    → take n (drop o f) ++ (drop (o + n) f ++ main) ≡ drop o f ++ main
take-drop-add o n f main = simp (← drop-add, ← append_assoc, take-append-drop)

unsent-sent :
    (n : ℕ) (s : Session)
    → length s.send_buff_flush < word
    → s.send_flush_offset + n ≤ length s.send_buff_flush
    → take n (drop s.send_flush_offset s.send_buff_flush) ++ unsent (sent n s) ≡ unsent s
unfolding sent
unsent-sent n s f h = ground (
  arith,
  take-drop-add s.send_flush_offset n s.send_buff_flush s.send_buff_main,
  drop-nil_of_le (s.send_flush_offset + n) s.send_buff_flush,
)

unsent-finish_send :
    (v : Virtuals) (e : Option ErrorCode) (s : Session)
    → (finish_send v e s).connected ≡ true
    → unsent (finish_send v e s) ≡ unsent s
unfolding finish_send err disconnect disconnect_handler clear_buffs
unsent-finish_send v none s h = unsent-try_send v s
unsent-finish_send v (some e) s h = ground arith

module _ (v : Virtuals) (shut : v.complete false ≡ false) where
  unsent-end_write :
      (e : Option ErrorCode) (n : ℕ) (ws : List (Executor × List ℕ)) (s : Session)
      → s.writes ≡ ws
      → Inv v s
      → (end_write v e n ws s).connected ≡ true
      → unsent s ≡ taken_by n ws ++ unsent (end_write v e n ws s)
  unfolding end_write send_handler taken_by
  unsent-end_write e n [] s q i h = refl
  unsent-end_write e n ((x, w) ∷ rest) s q i h =
      let idle : Session = record s { writes = rest; sending = false } in
      ground (
        arith,
        unsent-sent n idle,
        unsent-finish_send v e idle,
        unsent-finish_send v e (sent n idle),
        length-drop s.send_flush_offset s.send_buff_flush,
      )

  -- One event: what was held and what is accepted is what asio takes and what is held then.
  pub unsent-step :
      (ev : Event) (s : Session)
      → Inv v s
      → (step v ev s).connected ≡ true
      → unsent s ++ accept v ev s ≡ transmit ev s ++ unsent (step v ev s)
  unfolding step accept transmit try_receive
  unsent-step (call_send inside buffer) s i h =
      unfold step accept in unsent-accept v inside buffer s
  unsent-step (call_disconnect inside) s i h =
      append-nil (unsent s) ∙ sym (unsent-disconnect false inside s h)
  unsent-step call_receive s i h = ground (arith, append-nil (unsent s))
  unsent-step run_posted s i h = append-nil (unsent s) ∙ sym (unsent-run_first v s.posted s h)
  unsent-step (read_done e data') s i h =
      append-nil (unsent s) ∙ sym (unsent-end_read v e data' s.reads s h)
  unsent-step (write_done e n) s i h =
      append-nil (unsent s) ∙ unsent-end_write e n s.writes s refl i h

  -- As long as the session is connected, from a state that satisfies the invariant, and if
  -- `isConnectionComplete` needs a connection, whatever events come in whatever order: the bytes that were
  -- held at the start, followed by those of each `sendAsync` that returned true, are those that asio
  -- took, followed by those still held. None is lost, repeated or reordered.
  pub accepted-transmitted :
      (evs : List Event) (s : Session)
      → Inv v s
      → (run v evs s).connected ≡ true
      → unsent s ++ accepted v evs s ≡ transmitted v evs s ++ unsent (run v evs s)
  unfolding accepted transmitted run
  accepted-transmitted [] s i h = append-nil (unsent s)
  accepted-transmitted (ev ∷ evs) s i h =
      let t = step v ev s in
      append_trade (unsent s) (accept v ev s) (accepted v evs t) (transmit ev s) (unsent t)
        (transmitted v evs t) (unsent (run v evs t))
        (unsent-step ev s i (run_connected v shut evs t h))
        (accepted-transmitted evs t (step-Inv v shut ev s i) h)
