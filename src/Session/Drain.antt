-- ===== src/Session/Drain.antt =====
-- Progress of a Tcp::Session: what is held is sent.
use cxx_server.Common.{
  ℕ, ◌-◌, ◌≡◌, ◌∙◌, inl, inr, Bool-cases, true, false, [], none, arith, length, drop-nil,
  length-drop,
}
use cxx_server.Session.{Session, Virtuals, try_send, swap_buffs, start_send}
use cxx_server.Session.Handlers.{finish_send, sent, send_handler}
use cxx_server.Session.System.{Event, write_done, step, end_write}
use cxx_server.Session.Invariant.{Inv, connected_of_complete}
use cxx_server.Session.Preserve.{step-Inv}
use cxx_server.Session.Stream.{unsent}

-- asio takes all of the bytes of the write that is outstanding.
unfoldable pub complete_write : Session → Event
complete_write s = write_done none (length s.send_buff_flush - s.send_flush_offset)

module _ (v : Virtuals) (shut : v.complete false ≡ false) where
  complete_write_sending :
      (s : Session)
      → Inv v s
      → s.sending ≡ true
      → v.complete s.connected ≡ true
      → let t = step v (complete_write s) s in
        (t.send_buff_main ≡ [])
        × (t.send_buff_flush ≡ s.send_buff_main)
        × (t.connected ≡ s.connected)
  unfolding step complete_write end_write send_handler finish_send sent try_send swap_buffs
      start_send
  complete_write_sending s i h c =
      ground (arith, i.started h, length-drop s.send_flush_offset s.send_buff_flush)

  -- With nothing outstanding the event changes nothing.
  complete_write_idle :
      (s : Session)
      → Inv v s
      → s.sending ≡ false
      → s.connected ≡ true
      → step v (complete_write s) s ≡ s
  unfolding step complete_write end_write
  complete_write_idle s i h c = rw (i.drained c h)

  -- Two complete writes send all that a session holds while it is sending: the bytes being flushed, and
  -- those that were appended since, in a connected session that satisfies the invariant. Afterwards
  -- nothing is held, and the session is still connected.
  pub two_writes_drain :
      (s : Session)
      → Inv v s
      → s.sending ≡ true
      → v.complete s.connected ≡ true
      → let t = step v (complete_write s) s in
        let u = step v (complete_write t) t in (unsent u ≡ []) × (u.connected ≡ true)
  two_writes_drain s i h c =
      let t = step v (complete_write s) s in
      let first = complete_write_sending s i h c in
      let j = step-Inv v shut (complete_write s) s i in
      let on : s.connected ≡ true = connected_of_complete v shut s c in
      elim (Bool-cases t.sending) [
        | inl more ↦
            let second = complete_write_sending t j more (rw first.2 c) in
            (
              ground
                  (arith, second, drop-nil {A = ℕ} (step v (complete_write t) t).send_flush_offset),
              ground (arith, second),
            )
        | inr done ↦
            let same = complete_write_idle t j done (first.2 ∙ on) in
            rw same
              (ground (arith, j.idle done, drop-nil {A = ℕ} t.send_flush_offset), ground arith)
      ]
