-- ===== src/Client/Resend.antt =====
-- What a partial write does to Tcp::Client's flush buffer.
use cxx_server.Common.{
  ℕ, zero, suc, ◌+◌, ◌*◌, ◌≤◌, ◌<◌, ◌≡◌, ◌≢◌, true, false, List, [], ◌∷◌, none, arith, word, length,
  replicate,
}
use cxx_server.Client.{Client, tcp, executor, try_send, swap_buffs, start_send, async_write_some}
use cxx_server.Client.Cases.{send_handler_written}
use cxx_server.Client.Handlers.{sent}
use cxx_server.Client.System.{write_done, step, run, end_write}

-- The client is sending the flush buffer `f`, having counted `k` bytes of it as sent.
pub record Flushing (f : List ℕ) (k : ℕ) (s : Client) : Type 0 where
  pub connected : s.connected ≡ true
  pub sending : s.sending ≡ true
  pub buffer : s.send_buff_flush ≡ f
  pub offset : s.send_flush_offset ≡ k
  pub outstanding : s.writes ≡ (executor s, f) ∷ []

-- `trySend` hands the flush buffer to the socket again.
try_send_again :
    (s : Client)
    → s.connected ≡ true
    → s.sending ≡ false
    → s.send_buff_flush ≢ []
    → try_send tcp s ≡ async_write_some s.send_buff_flush (record s { sending = true })
unfolding try_send swap_buffs start_send
try_send_again s c i b = ground arith

-- What such a write leaves.
sent_part :
    (n : ℕ) (s : Client)
    → s.send_flush_offset + n < word
    → s.send_flush_offset + n ≢ length s.send_buff_flush
    → ((sent n s).connected ≡ s.connected)
      × ((sent n s).strand_needed ≡ s.strand_needed)
      × ((sent n s).sending ≡ s.sending)
      × ((sent n s).writes ≡ s.writes)
      × ((sent n s).send_buff_flush ≡ s.send_buff_flush)
      × ((sent n s).send_flush_offset ≡ s.send_flush_offset + n)
unfolding sent
sent_part n s w o = ground arith

sent-Flushing :
    (f : List ℕ) (k n : ℕ) (s : Client)
    → n ≤ length f
    → 0 < n
    → k + n < word
    → k + n ≢ length f
    → Flushing f k s
    → Flushing f (k + n) (try_send tcp (sent n (record s { sending = false; writes = [] })))
sent-Flushing f k n s b q w o i =
    let idle : Client = record s { sending = false; writes = [] } in
    let kept = sent_part n idle (rw i.offset w) (rw (i.offset, i.buffer) o) in
    ground (arith, kept, try_send_again (sent n idle))

-- A write after which `_send_flush_offset` is not the end of the buffer: the buffer is written again.
Flushing-write :
    (f : List ℕ) (k n : ℕ) (s : Client)
    → 0 < n
    → n ≤ length f
    → k + n < word
    → k + n ≢ length f
    → Flushing f k s
    → Flushing f (k + n) (step tcp (write_done none n) s)
unfolding step end_write
Flushing-write f k n s q b w o i =
    ground
      (arith, send_handler_written n (record s { writes = [] }), sent-Flushing f k n s b q w o i)

Flushing-run :
    (rounds : ℕ) (f : List ℕ) (k : ℕ) (s : Client)
    → 0 < k
    → 0 < length f
    → k + rounds * length f < word
    → Flushing f k s
    → Flushing f (k + rounds * length f) (run tcp (replicate rounds (write_done none (length f))) s)
unfolding run
Flushing-run zero f k s h p w i = let e : k + zero * length f ≡ k = omega arith in rw e i
Flushing-run (suc r) f k s h p w i =
    let e : k + suc r * length f ≡ (k + length f) + r * length f = omega arith in
    rw e (
      Flushing-run r f (k + length f) (step tcp (write_done none (length f)) s) (omega arith) p
        (omega arith)
        (Flushing-write f k (length f) s p (omega arith) (omega arith) (omega arith) i))

-- After one write of a part of the flush buffer the client writes the whole buffer again, and after each
-- complete write of it once more: however many rounds have gone well, it is still sending the buffer that
-- it has sent, as long as the 64-bit offset does not wrap.
pub partial_write_repeats :
    (rounds n : ℕ) (f : List ℕ) (s : Client)
    → 0 < n
    → n < length f
    → n + rounds * length f < word
    → Flushing f 0 s
    → Flushing f
        (n + rounds * length f)
        (run tcp (write_done none n ∷ replicate rounds (write_done none (length f))) s)
unfolding run
partial_write_repeats rounds n f s h p w i =
    let e : 0 + n ≡ n = omega arith in
    Flushing-run rounds f n (step tcp (write_done none n) s) h (omega arith) w
      (rw e at (Flushing-write f 0 n s h (omega arith) (omega arith) (omega arith) i))
