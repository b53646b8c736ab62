-- ===== src/Client/Timed.antt =====
-- The blocking `send` and `receive` of Tcp::Client (source/core/tcp/tcp_client.cxx) together with the wait for the
-- operation and for its time-out (Wait.antt).
use cxx_server.Common.{
  ℕ, ◌<◌, ◌≡◌, refl, ap, true, false, not, ◌||◌, ◌==◌, List, [], Option, none, some, arith,
  if◌then◌else◌, word, length, take, replicate, subst, inl, inr, suc, ◌∷◌,
}
use cxx_server.Asio.{ErrorCode, Buffer, size, is_null, fill}
use cxx_server.Wait.{Wait, Order}
use cxx_server.Wait.Ended.{ended, error_read, moved, ended-read, moved_cases}
use cxx_server.Client.{Client, Virtuals}
use cxx_server.Client.Sync.{
  after_send, after_receive, Accounts, after_send-Accounts, after_receive-Accounts,
}

-- The bytes are counted and the error reported when the caller goes on.
pub resume_send : Virtuals → Client → Option Wait → Option (Client × ℕ)
resume_send v s none = none
resume_send v s (some w) = some (after_send v w.error w.count s, w.count)

-- `onReceive` is given as many bytes of the buffer as the caller reads in `received`.
pub resume_receive : Virtuals → List ℕ → Client → Option Wait → Option (Client × ℕ)
resume_receive v bytes s none = none
resume_receive v bytes s (some w) = some (after_receive v w.error (take w.count bytes) s, w.count)

-- `w` has the locals as the call finds them: `done` and `sent` are not initialised.
unfoldable pub send :
    Virtuals
    → Buffer
    → Option ErrorCode
    → Option Order
    → Option ErrorCode
    → ℕ
    → Wait
    → Client
    → Option (Client × ℕ)
send v buffer code timing e n w s =
    if not (v.ready s.connected) || size buffer == 0
    then some (s, 0)
    else if is_null buffer
    then some (s, 0)
    else resume_send v s (ended code timing e n w)

-- `received` is set to 0 before the operation begins.
unfoldable pub receive :
    Virtuals
    → Buffer
    → Option ErrorCode
    → Option Order
    → Option ErrorCode
    → List ℕ
    → Wait
    → Client
    → Option (Client × ℕ)
receive v buffer code timing e bytes w s =
    if not (v.ready s.connected) || size buffer == 0
    then some (s, 0)
    else if is_null buffer
    then some (s, 0)
    else resume_receive v bytes s (ended code timing e (length bytes) (record w { count = 0 }))

-- `std::string receive(size, timeout)`.
pub text_of : List ℕ → Option (Client × ℕ) → Option (Client × List ℕ)
text_of buffer none = none
text_of buffer (some (t, count)) = some (t, take count buffer)

unfoldable pub receive_text :
    Virtuals
    → ℕ
    → Option ErrorCode
    → Option Order
    → Option ErrorCode
    → List ℕ
    → Wait
    → Client
    → Option (Client × List ℕ)
receive_text v n code timing e bytes w s =
    text_of (fill bytes (replicate n 0))
      (receive v (Buffer.bytes (replicate n 0)) code timing e bytes w s)

length-take_all : (xs : List ℕ) → length (take (length xs) xs) ≡ length xs
length-take_all [] = refl
length-take_all (x ∷ xs) = ap suc (length-take_all xs)

length-moved :
    (timing : Option Order) (bytes : List ℕ)
    → length (take (moved timing (length bytes) 0) bytes) ≡ moved timing (length bytes) 0
length-moved timing bytes = elim (moved_cases timing (length bytes) 0) [
  | inl all ↦ rw all (length-take_all bytes)
  | inr nothing ↦ rw nothing refl
]

-- A blocking `send` or `receive`, with a time-out or without, of a connected client that is ready, with a buffer that
-- is not empty, if `done` holds 0 and the caller goes on as soon as the wait is over: it returns, and adds the count
-- that it returns to the counter (modulo 2^64). This is the operation's count if there is no time-out or the
-- operation's handler ended before the timer's ran; otherwise it is what the uninitialised local held for `send`, and
-- 0 for `receive`. If the error of the operation, or of the first handler to run, is one other than a time-out, the
-- client is then disconnected and its buffers are empty; otherwise both are as before.
pub blocking_calls_return :
    (v : Virtuals) (data' bytes : List ℕ) (code : Option ErrorCode) (timing : Option Order)
    (e : Option ErrorCode) (n before : ℕ) (s : Client)
    → v.ready s.connected ≡ true
    → s.connected ≡ true
    → 0 < length data'
    → s.bytes_sent < word
    → s.bytes_received < word
    → let w : Wait = record { done = 0; error = none; count = before } in
      let m = moved timing n before in
      let k = moved timing (length bytes) 0 in
      let read = error_read code timing e in
      ((t : Client) × (send v (Buffer.bytes data') code timing e n w s ≡ some (t, m))
        × Accounts read s t m 0)
      × ((t : Client) × (receive v (Buffer.bytes data') code timing e bytes w s ≡ some (t, k))
          × Accounts read s t 0 k)
unfolding send receive resume_send resume_receive
blocking_calls_return v data' bytes code timing e n before s r c l a b =
    let free : (not (v.ready s.connected) || size (Buffer.bytes data') == 0) ≡ false =
      ground arith in
    let read = error_read code timing e in
    let (d, sends) = ended-read code timing e n before in
    let (f, receives) = ended-read code timing e (length bytes) 0 in
    let given = take (moved timing (length bytes) 0) bytes in
    rw free (
      (
        after_send v read (moved timing n before) s,
        ap (resume_send v s) sends,
        after_send-Accounts v read s c (moved timing n before) a b,
      ),
      (
        after_receive v read given s,
        ap (resume_receive v bytes s) receives,
        subst (λ k. Accounts read s (after_receive v read given s) 0 k) (length-moved timing bytes)
            (after_receive-Accounts v read s c given a b),
      ),
    )
