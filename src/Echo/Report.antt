-- ===== src/Echo/Report.antt =====
-- What the main program of performance/echo_tcp_client.cxx prints at its end, from the globals `start`, `end` and
-- `bytes_sent` and the option `size`.
use cxx_server.Common.{
  ℕ, ◌*◌, ◌/◌, ◌%◌, ◌^◌, ◌+◌, ◌-◌, ◌<◌, ◌≤◌, ◌≡◌, ◌≢◌, ◌⊎◌, ◌↔◌, refl, Bool, true, false, List, [],
  ◌∷◌, Option, none, some, arith, ltb, ◌==◌, if◌then◌else◌, sub64, mul64, word,
}

-- The times are in nanoseconds.
pub record Totals : Type 0 where
  pub start : ℕ
  pub end : ℕ
  pub bytes_sent : ℕ
  pub msg_size : ℕ

pub data Line : Type 0 where
  total_time total_data total_messages data_throughput average_latency message_throughput : ℕ → Line

-- The program divides by 0, which ends it.
abbrev pub divide : ℕ → ℕ → Option ℕ
divide a b = if b == 0 then none else some (a / b)

abbrev pub second : ℕ
second = 1000000000

abbrev pub elapsed : Totals → ℕ
elapsed t = sub64 t.end t.start

-- A line, and those after it.
abbrev pub then_print : (ℕ → Line) → Option ℕ → List Line × Bool → List Line × Bool
then_print line none rest = ([], false)
then_print line (some n) rest = (line n ∷ rest.0, rest.1)

-- The lines of the messages, if there is one.
unfoldable pub print_messages : ℕ → ℕ → List Line × Bool
print_messages messages time =
    let rest = then_print Line.message_throughput (divide messages (time / second)) ([], true) in
    if ltb 0 messages
    then then_print Line.average_latency (divide time messages) rest
    else ([], true)

unfoldable pub print_totals : ℕ → Totals → List Line × Bool
print_totals messages t =
    let rest =
      then_print Line.data_throughput (divide (mul64 t.bytes_sent second) (elapsed t))
        (print_messages messages (elapsed t)) in
    (
      Line.total_time (elapsed t)
          ∷ Line.total_data t.bytes_sent
          ∷ Line.total_messages messages
          ∷ rest.0,
      rest.1,
    )

-- `total_messages` is an unsigned int.
abbrev pub report_messages : Totals → Option ℕ → List Line × Bool
report_messages t none = ([], false)
report_messages t (some n) = print_totals (n % 2 ^ 32) t

-- The lines printed, and whether the program comes to its end.
unfoldable pub report : Totals → List Line × Bool
report t = report_messages t (divide t.bytes_sent t.msg_size)

-- The clocks of a run of at least a second, with a message and with what fits into the words that count.
record IsFair (t : Totals) : Type 0 where
  lasts : t.start + second ≤ t.end
  clock : t.end < word
  size : 0 < t.msg_size
  some_message : 0 < t.bytes_sent / t.msg_size
  messages_fit : t.bytes_sent / t.msg_size < 2 ^ 32
  data_fits : t.bytes_sent * second < word

report_fair :
    (t : Totals)
    → IsFair t
    → let time = t.end - t.start in
      let messages = t.bytes_sent / t.msg_size in
      report t ≡ (
        Line.total_time time
            ∷ Line.total_data t.bytes_sent
            ∷ Line.total_messages messages
            ∷ Line.data_throughput (t.bytes_sent * second / time)
            ∷ Line.average_latency (time / messages)
            ∷ Line.message_throughput (messages / (time / second))
            ∷ [],
        true,
      )
unfolding report print_totals print_messages
report_fair t f =
    let time : elapsed t ≡ t.end - t.start = omega arith in
    let sum : mul64 t.bytes_sent second ≡ t.bytes_sent * second = omega arith in
    let messages : (t.bytes_sent / t.msg_size) % 2 ^ 32 ≡ t.bytes_sent / t.msg_size = omega arith in
    let sized : (t.msg_size == 0) ≡ false = ground arith in
    let lasted : (t.end - t.start == 0) ≡ false = ground arith in
    let some_sent : (t.bytes_sent / t.msg_size == 0) ≡ false = ground arith in
    let told : ltb 0 (t.bytes_sent / t.msg_size) ≡ true = ground arith in
    let long : ((t.end - t.start) / second == 0) ≡ false = ground arith in
    simp (time, sum, messages, sized, lasted, some_sent, told, long) refl

-- The report that the echo client's main program prints after its waits comes to its end exactly if the size of a
-- message is not 0, the clocks differ modulo 2^64, and the number of messages is 0 modulo 2^32 or that difference is
-- at least a second.
pub report_ends :
    (t : Totals)
    → ((report t).1 ≡ true) ↔ (
        (0 < t.msg_size)
        × (elapsed t ≢ 0)
        × (((t.bytes_sent / t.msg_size) % 2 ^ 32 ≡ 0) ⊎ (second ≤ elapsed t)))
unfolding report print_totals print_messages
report_ends t = (λ h. (ground arith, ground arith, ground arith), λ h. ground arith)
