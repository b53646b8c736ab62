-- ===== src/Session/Sync.antt =====
-- The blocking `send` and `receive` of Tcp::Session (source/core/tcp/tcp_session.cxx). The error and the
-- number of bytes are those of `writeSome` or `readSome`, or of the timed wait (Wait.antt).
use cxx_server.Common.{
  ℕ, zero, suc, inl, inr, Bool-cases, ◌<◌, ◌≤◌, ◌≡◌, refl, ap, length-replicate, Bool, false, not,
  List, [], ◌∷◌, Option, none, some, arith, ltb, ◌==◌, if◌then◌else◌, add64, word, length, take,
  replicate,
}
use cxx_server.Asio.{ErrorCode, Buffer, size, is_null, fill}
use cxx_server.Wait.{fails}
use cxx_server.Session.{Session, Virtuals, Call, call, err, disconnect}
use cxx_server.Session.Invariant.{Inv, disconnect-Inv, err-Inv}

-- The end of both: an error is reported, and a disconnect posted.
unfoldable pub report : Virtuals → Bool → Option ErrorCode → Session → Session
report v inside none s = s
report v inside (some e) s = (disconnect false inside (err v e s)).0

-- The counters of the session and of its server.
abbrev count_sent : ℕ → Session → Session
count_sent n s = record s { bytes_sent = add64 s.bytes_sent n; server_sent = add64 s.server_sent n }

abbrev count_received : ℕ → Session → Session
count_received n s = record s {
  bytes_received = add64 s.bytes_received n;
  server_received = add64 s.server_received n;
}

unfoldable pub after_send : Virtuals → Bool → Option ErrorCode → ℕ → Session → Session
after_send v inside e n s =
    report v inside (fails e)
      (if ltb 0 n then call (Call.on_send n s.bytes_pending) (count_sent n s) else s)

unfoldable pub after_receive : Virtuals → Bool → Option ErrorCode → List ℕ → Session → Session
after_receive v inside e bytes s = report v inside (fails e) (
    if ltb 0 (length bytes)
    then call (Call.on_receive bytes) (count_received (length bytes) s)
    else s)

-- The guards of both: what is left alone answers 0.
unfoldable pub send : Virtuals → Bool → Buffer → Option ErrorCode → ℕ → Session → Session × ℕ
send v inside buffer e n s =
    if not (v.complete s.connected)
    then (s, 0)
    else if size buffer == 0
    then (s, 0)
    else if is_null buffer
    then (s, 0)
    else (after_send v inside e n s, n)

-- `buffer` is where the bytes go.
unfoldable pub receive :
    Virtuals → Bool → Buffer → Option ErrorCode → List ℕ → Session → Session × ℕ
receive v inside buffer e bytes s =
    if not (v.complete s.connected)
    then (s, 0)
    else if size buffer == 0
    then (s, 0)
    else if is_null buffer
    then (s, 0)
    else (after_receive v inside e bytes s, length bytes)

module _ (v : Virtuals) (shut : v.complete false ≡ false) where
  report-Inv :
      (inside : Bool) (e : Option ErrorCode) (s : Session) → Inv v s → Inv v (report v inside e s)
  unfolding report
  report-Inv inside none s i = i
  report-Inv inside (some e) s i =
      disconnect-Inv v shut false inside (err v e s) (err-Inv v shut e s i)

  told_sent-Inv :
      (n : ℕ) (s : Session)
      → Inv v s
      → Inv v (call (Call.on_send n s.bytes_pending) (count_sent n s))
  told_sent-Inv n s i = ground arith

  told_received-Inv :
      (bytes : List ℕ) (s : Session)
      → Inv v s
      → Inv v (call (Call.on_receive bytes) (count_received (length bytes) s))
  told_received-Inv bytes s i = ground arith

  after_send-Inv :
      (inside : Bool) (e : Option ErrorCode) (n : ℕ) (s : Session)
      → Inv v s
      → Inv v (after_send v inside e n s)
  unfolding after_send
  after_send-Inv inside e n s i = elim (Bool-cases (ltb 0 n)) [
    | inl some_sent ↦ rw some_sent (report-Inv inside (fails e) _ (told_sent-Inv n s i))
    | inr none_sent ↦ rw none_sent (report-Inv inside (fails e) s i)
  ]

  after_receive-Inv :
      (inside : Bool) (e : Option ErrorCode) (bytes : List ℕ) (s : Session)
      → Inv v s
      → Inv v (after_receive v inside e bytes s)
  unfolding after_receive
  after_receive-Inv inside e bytes s i = elim (Bool-cases (ltb 0 (length bytes))) [
    | inl some_read ↦ rw some_read (report-Inv inside (fails e) _ (told_received-Inv bytes s i))
    | inr none_read ↦ rw none_read (report-Inv inside (fails e) s i)
  ]

  -- A blocking `send` keeps the invariant of the session, whatever the operation reports, if
  -- `isConnectionComplete` is false of a session that is not connected.
  pub send-Inv :
      (inside : Bool) (buffer : Buffer) (e : Option ErrorCode) (n : ℕ) (s : Session)
      → Inv v s
      → Inv v (send v inside buffer e n s).0
  unfolding send
  send-Inv inside buffer e n s i = ground (arith, after_send-Inv inside e n s i)

  -- A blocking `receive` keeps the invariant of the session, under the same condition.
  pub receive-Inv :
      (inside : Bool) (buffer : Buffer) (e : Option ErrorCode) (bytes : List ℕ) (s : Session)
      → Inv v s
      → Inv v (receive v inside buffer e bytes s).0
  unfolding receive
  receive-Inv inside buffer e bytes s i = ground (arith, after_receive-Inv inside e bytes s i)

-- What a blocking `send` does to the session: the count it returns is what it adds to the counters of the
-- session and of its server, and the buffers stay as they are.
pub record SendAccounts (s : Session) (r : Session × ℕ) : Type 0 where
  pub own : r.0.bytes_sent ≡ add64 s.bytes_sent r.1
  pub server : r.0.server_sent ≡ add64 s.server_sent r.1
  pub main_kept : r.0.send_buff_main ≡ s.send_buff_main
  pub flush_kept : r.0.send_buff_flush ≡ s.send_buff_flush
  pub still_connected : r.0.connected ≡ s.connected

report-SendAccounts :
    (v : Virtuals) (inside : Bool) (e : Option ErrorCode) (s t : Session) (n : ℕ)
    → SendAccounts s (t, n)
    → SendAccounts s (report v inside e t, n)
unfolding report err disconnect
report-SendAccounts v inside none s t n a = a
report-SendAccounts v inside (some e) s t n a = ground arith

-- On every branch of the blocking `send`, refusals included, both counters of bytes sent grow by what it
-- returns (modulo 2^64, from values below it); the buffers and the connection are kept.
pub send-SendAccounts :
    (v : Virtuals) (inside : Bool) (buffer : Buffer) (e : Option ErrorCode) (n : ℕ) (s : Session)
    → s.bytes_sent < word
    → s.server_sent < word
    → SendAccounts s (send v inside buffer e n s)
unfolding send after_send
send-SendAccounts v inside buffer e n s a b = ground (
  arith,
  report-SendAccounts v inside (fails e) s s n,
  report-SendAccounts v inside (fails e) s (call (Call.on_send n s.bytes_pending) (count_sent n s))
      n,
)

-- `std::string receive(size, timeout)`: a text of `size` zeros, filled and cut to the count received.
pub receive_text : Virtuals → Bool → ℕ → Option ErrorCode → List ℕ → Session → Session × List ℕ
receive_text v inside n e bytes s =
    let (t, count) = receive v inside (Buffer.bytes (replicate n 0)) e bytes s in
    (t, take count (fill bytes (replicate n 0)))

take-fill :
    (bytes : List ℕ) (n : ℕ)
    → length bytes ≤ n
    → take (length bytes) (fill bytes (replicate n 0)) ≡ bytes
take-fill [] n h = refl
take-fill (b ∷ bs) zero h = absurd (omega arith)
take-fill (b ∷ bs) (suc n) h = ap (◌∷◌ b) (take-fill bs n (omega arith))

-- The text received by a ready session is exactly the bytes that the operation delivered, if some were
-- asked for and at most as many came; a session that is not ready returns the empty text.
pub receive_text_lem :
    (v : Virtuals) (inside : Bool) (n : ℕ) (e : Option ErrorCode) (bytes : List ℕ) (s : Session)
    → 0 < n
    → length bytes ≤ n
    → (receive_text v inside n e bytes s).1 ≡ (if v.complete s.connected then bytes else [])
unfolding receive_text receive
receive_text_lem v inside n e bytes s h k =
    ground (arith, take-fill bytes n k, length-replicate {A = ℕ} n 0)
