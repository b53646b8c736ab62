-- ===== src/Client/Sync.antt =====
-- What the blocking `send` and `receive` of Tcp::Client (source/core/tcp/tcp_client.cxx) do once they have an error and
-- a number of bytes: they count the bytes and report the error. Unlike those of the session they disconnect at once.
use cxx_server.Common.{
  ℕ, ◌<◌, ◌≡◌, refl, true, false, List, [], Option, none, some, arith, ltb, if◌then◌else◌, add64,
  word, length, if_rule,
}
use cxx_server.Asio.{ErrorCode}
use cxx_server.Wait.{fails}
use cxx_server.Client.{Client, Virtuals, Call, call, err, disconnect, clear_buffs}

-- The end of both: an error is reported, and the client disconnects.
unfoldable pub report : Virtuals → Option ErrorCode → Client → Client
report v none s = s
report v (some e) s = (disconnect (err v e s)).0

unfoldable pub after_send : Virtuals → Option ErrorCode → ℕ → Client → Client
after_send v e n s =
    let counted = record s { bytes_sent = add64 s.bytes_sent n } in
    report v (fails e) (if ltb 0 n then call (Call.on_send n s.bytes_pending) counted else s)

unfoldable pub after_receive : Virtuals → Option ErrorCode → List ℕ → Client → Client
after_receive v e bytes s =
    let counted = record s { bytes_received = add64 s.bytes_received (length bytes) } in
    report v (fails e) (if ltb 0 (length bytes) then call (Call.on_receive bytes) counted else s)

-- The client goes on as it was after a call that does not fail, and is disconnected, its buffers
-- empty, after one that does.
abbrev IsAfter : Option ErrorCode → Client → Client → Type 0
IsAfter none s t =
    (t.connected ≡ s.connected)
    × (t.send_buff_main ≡ s.send_buff_main)
    × (t.send_buff_flush ≡ s.send_buff_flush)
IsAfter (some e) s t = (t.connected ≡ false) × (t.send_buff_main ≡ []) × (t.send_buff_flush ≡ [])

-- `t` is the client `s` with other counters.
report_after :
    (v : Virtuals) (e : Option ErrorCode) (s t : Client)
    → IsAfter none s t
    → s.connected ≡ true
    → IsAfter e s (report v e t)
unfolding report disconnect clear_buffs err
report_after v none s t k c = k
report_after v (some e) s t k c = ground arith

report_counts :
    (v : Virtuals) (e : Option ErrorCode) (s : Client)
    → ((report v e s).bytes_sent ≡ s.bytes_sent)
      × ((report v e s).bytes_received ≡ s.bytes_received)
unfolding report disconnect clear_buffs err
report_counts v none s = (refl, refl)
report_counts v (some e) s = ground arith

-- What a blocking call leaves of a client, beside the number of bytes that it returns: one counter has
-- grown by that number, and the client is as `fails` of the error says.
pub record Accounts (e : Option ErrorCode) (s : Client) (t : Client) (sent received : ℕ)
    : Type 0 where
  pub sent_counted : t.bytes_sent ≡ add64 s.bytes_sent sent
  pub received_counted : t.bytes_received ≡ add64 s.bytes_received received
  pub after : IsAfter (fails e) s t

module _ (v : Virtuals) (e : Option ErrorCode) (s : Client) (on : s.connected ≡ true) where
  pub after_send-Accounts :
      (n : ℕ)
      → s.bytes_sent < word
      → s.bytes_received < word
      → Accounts e s (after_send v e n s) n 0
  unfolding after_send
  after_send-Accounts n a b =
      let told : Client =
        call (Call.on_send n s.bytes_pending) (record s { bytes_sent = add64 s.bytes_sent n }) in
      if_rule (λ (t : Client). Accounts e s (report v (fails e) t) n 0) (ltb 0 n) told s
        (λ some_sent. record {
          sent_counted = (report_counts v (fails e) told).0;
          received_counted = omega (arith, (report_counts v (fails e) told).1);
          after = report_after v (fails e) s told (refl, refl, refl) on;
        })
        (λ none_sent. record {
          sent_counted = ground (arith, (report_counts v (fails e) s).0);
          received_counted = omega (arith, (report_counts v (fails e) s).1);
          after = report_after v (fails e) s s (refl, refl, refl) on;
        })

  pub after_receive-Accounts :
      (bytes : List ℕ)
      → s.bytes_sent < word
      → s.bytes_received < word
      → Accounts e s (after_receive v e bytes s) 0 (length bytes)
  unfolding after_receive
  after_receive-Accounts bytes a b =
      let told : Client =
        call (Call.on_receive bytes)
          (record s { bytes_received = add64 s.bytes_received (length bytes) }) in
      if_rule (λ (t : Client). Accounts e s (report v (fails e) t) 0 (length bytes))
        (ltb 0 (length bytes)) told s
        (λ some_read. record {
          sent_counted = omega (arith, (report_counts v (fails e) told).0);
          received_counted = (report_counts v (fails e) told).1;
          after = report_after v (fails e) s told (refl, refl, refl) on;
        })
        (λ none_read. record {
          sent_counted = omega (arith, (report_counts v (fails e) s).0);
          received_counted = ground (arith, (report_counts v (fails e) s).1);
          after = report_after v (fails e) s s (refl, refl, refl) on;
        })
