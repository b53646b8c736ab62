-- ===== src/Session/Progress.antt =====
-- A Tcp::Session sends all that it holds, however few bytes asio takes at a time.
use cxx_server.Common.{
  ℕ, suc, ◌+◌, ◌-◌, ◌<◌, ◌≤◌, ◌≡◌, refl, sym, subst, ap, ◌∙◌, inl, inr, Bool-cases, true, false,
  List, [], ◌∷◌, none, arith, leb, if◌then◌else◌, length, drop, length-drop, length-append, word,
  ◌⊎◌,
}
use cxx_server.Session.{Session, Virtuals, try_send, swap_buffs, start_send}
use cxx_server.Session.Handlers.{finish_send, sent, send_handler}
use cxx_server.Session.System.{write_done, step, end_write}
use cxx_server.Session.Invariant.{Inv, connected_of_complete}
use cxx_server.Session.Preserve.{step-Inv}
use cxx_server.Session.Stream.{unsent}

-- asio takes some of the bytes of the write that is outstanding: `suc n` of them, or all if they are
-- fewer.
unfoldable pub some_bytes : ℕ → Session → ℕ
some_bytes n s =
    let outstanding = length s.send_buff_flush - s.send_flush_offset in
    if leb (suc n) outstanding then suc n else outstanding

-- One write after another ends, each with some bytes.
unfoldable pub drain : Virtuals → List ℕ → Session → Session
drain v [] s = s
drain v (n ∷ ns) s = drain v ns (step v (write_done none (some_bytes n s)) s)

empty_of_length : (xs : List ℕ) → length xs ≡ 0 → xs ≡ []
empty_of_length [] h = refl
empty_of_length (x ∷ xs) h = absurd (omega arith)

-- How many bytes are held.
unfoldable pub held : Session → ℕ
held s = (length s.send_buff_flush - s.send_flush_offset) + length s.send_buff_main

-- A session that sends, or that has nothing to send.
abbrev IsBusy : Session → Type 0
IsBusy s = (s.sending ≡ true) ⊎ (held s ≡ 0)

try_send_held :
    (v : Virtuals) (s : Session)
    → s.sending ≡ false
    → v.complete s.connected ≡ true
    → (held (try_send v s) ≡ held s)
      × ((try_send v s).connected ≡ s.connected)
      × IsBusy (try_send v s)
unfolding held try_send swap_buffs start_send
try_send_held v s h c = ground arith

sent_held :
    (n : ℕ) (s : Session)
    → length s.send_buff_flush < word
    → s.send_flush_offset + n ≤ length s.send_buff_flush
    → (held (sent n s) + n ≡ held s)
      × ((sent n s).connected ≡ s.connected)
      × ((sent n s).sending ≡ s.sending)
unfolding held sent
sent_held n s f w = ground arith

held_lem : (s : Session) → length (unsent s) ≡ held s
unfolding held
held_lem s = ground (
  arith,
  length-append (drop s.send_flush_offset s.send_buff_flush) s.send_buff_main,
  length-drop s.send_flush_offset s.send_buff_flush,
)

nothing_held : (s : Session) → held s ≡ 0 → unsent s ≡ []
nothing_held s h = let e : length (unsent s) ≡ 0 = held_lem s ∙ h in empty_of_length (unsent s) e

module _ (v : Virtuals) (shut : v.complete false ≡ false) where
  -- The end of a write of some bytes, in a session that is sending.
  written :
      (n : ℕ) (s : Session)
      → Inv v s
      → s.sending ≡ true
      → v.complete s.connected ≡ true
      → 0 < n
      → s.send_flush_offset + n ≤ length s.send_buff_flush
      → step v (write_done none n) s
        ≡ try_send v (sent n (record s { sending = false; writes = [] }))
  unfolding step end_write send_handler finish_send
  written n s i h c p w =
      ground (arith, i.started h, length-drop s.send_flush_offset s.send_buff_flush)

  written_held :
      (n : ℕ) (s : Session)
      → Inv v s
      → s.sending ≡ true
      → v.complete s.connected ≡ true
      → 0 < n
      → s.send_flush_offset + n ≤ length s.send_buff_flush
      → let t = step v (write_done none n) s in
        (held t + n ≡ held s) × (t.connected ≡ s.connected) × IsBusy t
  unfolding held
  written_held n s i h c p w =
      let idle : Session = record s { sending = false; writes = [] } in
      let part = sent_held n idle (omega (arith, i.fits)) w in
      let rest = try_send_held v (sent n idle) part.2 (rw part.1 c) in
      rw (written n s i h c p w) (ap (λ m. m + n) rest.0 ∙ part.0, rest.1 ∙ part.1, rest.2)

  -- With nothing held the events change nothing that is held.
  idle_step :
      (n : ℕ) (s : Session)
      → Inv v s
      → s.sending ≡ false
      → s.connected ≡ true
      → step v (write_done none n) s ≡ s
  unfolding step end_write
  idle_step n s i h c = rw (i.drained c h)

  some_bytes_fit :
      (n : ℕ) (s : Session)
      → Inv v s
      → s.sending ≡ true
      → (0 < some_bytes n s) × (s.send_flush_offset + some_bytes n s ≤ length s.send_buff_flush)
  unfolding some_bytes
  some_bytes_fit n s i h = ground (arith, i.within (i.busy h))

  drain_held :
      (ns : List ℕ) (s : Session)
      → Inv v s
      → v.complete s.connected ≡ true
      → IsBusy s
      → held s ≤ length ns
      → (held (drain v ns s) ≡ 0) × ((drain v ns s).connected ≡ true)
  unfolding drain
  drain_held [] s i c b h = (omega arith, connected_of_complete v shut s c)
  drain_held (n ∷ ns) s i c b h =
      let k = some_bytes n s in
      let j = step-Inv v shut (write_done none k) s i in
      let on = connected_of_complete v shut s c in
      elim (Bool-cases s.sending) [
        | inl yet ↦
            let fit = some_bytes_fit n s i yet in
            let next = written_held k s i yet c fit.0 fit.1 in
            drain_held ns (step v (write_done none k) s) j (rw next.1 c) next.2
              (omega (arith, next.0, fit.0, h))
        | inr done ↦
            let zero_held : held s ≡ 0 = ground arith in
            subst (λ t. (held (drain v ns t) ≡ 0) × ((drain v ns t).connected ≡ true))
              (sym (idle_step k s i done on)) (drain_held ns s i c b (omega arith))
      ]

  -- A connected session that satisfies the invariant and is sending has sent all that it holds, and is
  -- still connected, after as many writes as it holds bytes, of however few bytes each.
  pub drain-unsent :
      (ns : List ℕ) (s : Session)
      → Inv v s
      → v.complete s.connected ≡ true
      → s.sending ≡ true
      → length (unsent s) ≤ length ns
      → (unsent (drain v ns s) ≡ []) × ((drain v ns s).connected ≡ true)
  drain-unsent ns s i c b h =
      let all = drain_held ns s i c (inl b) (rw (← held_lem s) h) in
      (nothing_held (drain v ns s) all.0, all.1)
