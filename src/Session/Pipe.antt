-- ===== src/Session/Pipe.antt =====
-- A Tcp::Session over runs in which it may disconnect: what asio takes of it comes first in, first out.
use cxx_server.Common.{
  ℕ, ◌≡◌, refl, sym, ap, subst, ◌∙◌, true, false, inl, inr, Bool-cases, List, [], ◌∷◌, ◌++◌, Option,
  arith, append-nil, append_assoc, append_trade, leb, if◌then◌else◌, length, take, drop,
  take-append-drop,
}
use cxx_server.Asio.{ErrorCode, Executor}
use cxx_server.Session.{Session, Virtuals, send_async}
use cxx_server.Session.System.{
  Event, call_send, call_disconnect, call_receive, run_posted, read_done, write_done, step, run,
  end_write,
}
use cxx_server.Session.Invariant.{Inv}
use cxx_server.Session.Preserve.{step-Inv}
use cxx_server.Session.Keeps.{send_async_connected}
use cxx_server.Session.Lifetime.{step-Settled, run-Settled}
use cxx_server.Session.Stream.{
  unsent, accept, transmit, taken_by, unsent-step, accepted, transmitted,
}
use cxx_server.Session.Writes.{
  end_read_writes, run_first_writes, end_write_writes, end_write_none, end_write_refused,
  disconnect_writes, try_receive_writes, send_writes,
}

-- The bytes of the outstanding write, which asio may take after the session has disconnected.
abbrev pub flight : List (Executor × List ℕ) → List ℕ
flight [] = []
flight ((x, w) ∷ rest) = w

-- At most one write is outstanding.
abbrev pub IsSingle : List (Executor × List ℕ) → Type 0
IsSingle [] = Unit
IsSingle (w ∷ []) = Unit
IsSingle (w ∷ u ∷ rest) = ⊥

-- What is left of a session, with what it has lost if it has disconnected: all that it holds while it is connected,
-- and otherwise the bytes of the outstanding write and those lost.
abbrev pub left : Session → List ℕ → List ℕ
left s lost = if s.connected then unsent s else flight s.writes ++ lost

module _ (v : Virtuals) (shut : v.complete false ≡ false) where
  refuses : (ev : Event) (s : Session) → s.connected ≡ false → accept v ev s ≡ []
  unfolding accept send_async
  refuses (call_send inside buffer) s h = ground arith
  refuses (call_disconnect inside) s h = refl
  refuses call_receive s h = refl
  refuses run_posted s h = refl
  refuses (read_done c data') s h = refl
  refuses (write_done c n) s h = refl

  -- What is left of some bytes of which the outstanding write is the first part.
  record Left (a out : List ℕ) (ws : List (Executor × List ℕ)) : Type 0 where
    single : IsSingle ws
    lost : List ℕ
    rest : a ≡ out ++ (flight ws ++ lost)

  ended_write-Left :
      (e : Option ErrorCode) (n : ℕ) (ws : List (Executor × List ℕ)) (s : Session) (a : List ℕ)
      → s.writes ≡ ws
      → (end_write v e n ws s).connected ≡ false
      → Left a [] ws
      → Left a (taken_by n ws) (end_write v e n ws s).writes
  unfolding taken_by
  ended_write-Left e n [] s a q h k =
      subst (λ t. Left a [] t.writes) (sym (end_write_none v e n s)) (subst (Left a []) (sym q) k)
  ended_write-Left e n ((x, w) ∷ []) s a q h k = elim (Bool-cases (leb n (length w))) [
    | inl fit ↦
        let gone = end_write_writes v shut e n x w [] s h fit in
        let out : taken_by n ((x, w) ∷ []) ≡ take n w = rw fit refl in
        let whole : a ≡ take n w ++ (drop n w ++ k.lost) =
          k.rest
          ∙ ap (λ l. l ++ k.lost) (sym (take-append-drop n w))
          ∙ append_assoc (take n w) (drop n w) k.lost in
        subst (λ o. Left a o (end_write v e n ((x, w) ∷ []) s).writes) (sym out)
          (subst (Left a (take n w)) (sym gone)
            (record { single = tt; lost = drop n w ++ k.lost; rest = whole }))
    | inr big ↦
        let out : taken_by n ((x, w) ∷ []) ≡ [] = rw big refl in
        subst (λ o. Left a o (end_write v e n ((x, w) ∷ []) s).writes) (sym out)
          (subst (λ t. Left a [] t.writes) (sym (end_write_refused v e n x w [] s big))
            (subst (Left a []) (sym q) k))
  ]
  ended_write-Left e n ((x, w) ∷ u ∷ ws) s a q h k = absurd k.single

  step-Left :
      (ev : Event) (s : Session) (a : List ℕ)
      → (step v ev s).connected ≡ false
      → Left a [] s.writes
      → Left a (transmit ev s) (step v ev s).writes
  unfolding step transmit
  step-Left (call_send inside buffer) s a h k =
      subst (Left a []) (sym (send_writes v shut inside buffer s h)) k
  step-Left (call_disconnect inside) s a h k =
      subst (Left a []) (sym (disconnect_writes v false inside s)) k
  step-Left call_receive s a h k = subst (Left a []) (sym (try_receive_writes v s)) k
  step-Left run_posted s a h k = subst (Left a []) (sym (run_first_writes v shut s.posted s h)) k
  step-Left (read_done e data') s a h k =
      subst (Left a []) (sym (end_read_writes v e data' s.reads s)) k
  step-Left (write_done e n) s a h k = ended_write-Left e n s.writes s a refl h k

  held-Left : (s : Session) → Inv v s → s.connected ≡ true → Left (unsent s) [] s.writes
  held-Left s i on = elim (Bool-cases s.sending) [
    | inl busy ↦
        subst (Left (unsent s) []) (sym (i.started busy))
          (record { single = tt; lost = s.send_buff_main; rest = refl })
    | inr idle ↦
        subst (Left (unsent s) []) (sym (i.drained on idle))
          (record { single = tt; lost = unsent s; rest = refl })
  ]

  -- An event after which the session is disconnected, and those that follow.
  then-Left :
      (ev : Event) (evs : List Event) (s : Session) (a : List ℕ)
      → accept v ev s ≡ []
      → (first : Left a (transmit ev s) (step v ev s).writes)
      → (accepted v evs (step v ev s) ≡ [])
        × Left
            (flight (step v ev s).writes ++ first.lost)
            (transmitted v evs (step v ev s))
            (run v evs (step v ev s)).writes
      → (accepted v (ev ∷ evs) s ≡ [])
        × Left a (transmitted v (ev ∷ evs) s) (run v (ev ∷ evs) s).writes
  unfolding accepted transmitted run
  then-Left ev evs s a none' first later =
      let t = step v ev s in
      (
        ap (λ l. l ++ accepted v evs t) none' ∙ later.0,
        record {
          single = later.1.single;
          lost = later.1.lost;
          rest =
              first.rest
              ∙ ap (λ l. transmit ev s ++ l) later.1.rest
              ∙ sym (append_assoc (transmit ev s) (transmitted v evs t) _);
        },
      )

  -- Once disconnected, the session accepts nothing, and what asio takes is of the write that is outstanding.
  closed_run :
      (evs : List Event) (s : Session) (a : List ℕ)
      → s.connected ≡ false
      → Left a [] s.writes
      → (accepted v evs s ≡ []) × Left a (transmitted v evs s) (run v evs s).writes
  unfolding accepted transmitted run
  closed_run [] s a h k = (refl, k)
  closed_run (ev ∷ evs) s a h k =
      let off = (step-Settled v shut ev s h).closed in
      let first = step-Left ev s a off k in
      let later =
        closed_run evs (step v ev s) (flight (step v ev s).writes ++ first.lost) off
          (record { single = first.single; lost = first.lost; rest = refl }) in
      then-Left ev evs s a (refuses ev s h) first later

  -- An event that disconnects the session brings no bytes.
  closing_refuses :
      (ev : Event) (s : Session)
      → s.connected ≡ true
      → (step v ev s).connected ≡ false
      → accept v ev s ≡ []
  unfolding accept step
  closing_refuses (call_send inside buffer) s on off =
      absurd (ground (arith, send_async_connected v inside buffer s))
  closing_refuses (call_disconnect inside) s on off = refl
  closing_refuses call_receive s on off = refl
  closing_refuses run_posted s on off = refl
  closing_refuses (read_done c data') s on off = refl
  closing_refuses (write_done c n) s on off = refl

  left_off :
      (s : Session) (lost : List ℕ) → s.connected ≡ false → left s lost ≡ flight s.writes ++ lost
  left_off s lost off = rw off refl

  left_on : (s : Session) (lost : List ℕ) → s.connected ≡ true → left s lost ≡ unsent s
  left_on s lost on = rw on refl

  last_event :
      (ev : Event) (evs : List Event) (s : Session)
      → Inv v s
      → s.connected ≡ true
      → (step v ev s).connected ≡ false
      → (lost : List ℕ) × (unsent s ++ accepted v (ev ∷ evs) s
          ≡ transmitted v (ev ∷ evs) s ++ left (run v (ev ∷ evs) s) lost)
  unfolding accepted transmitted run
  last_event ev evs s i on off =
      let t = step v ev s in
      let first = step-Left ev s (unsent s) off (held-Left s i on) in
      let (nothing, k) = then-Left ev evs s (unsent s) (closing_refuses ev s on off) first (
        closed_run evs t (flight t.writes ++ first.lost) off
          (record { single = first.single; lost = first.lost; rest = refl })) in
      let ended = left_off (run v evs t) k.lost (run-Settled v shut evs t off).closed in
      (
        k.lost,
        ap (λ l. unsent s ++ l) nothing
            ∙ append-nil (unsent s)
            ∙ k.rest
            ∙ ap (λ l. transmitted v (ev ∷ evs) s ++ l) (sym ended),
      )

  -- From a connected state that satisfies the invariant, if `isConnectionComplete` needs a connection, whatever events
  -- come, also such that the session disconnects and those after it: the bytes that it held at the start, followed by
  -- those of each `sendAsync` that returned true, are those that asio took, followed, while the session is connected,
  -- by all that it holds, and once it is not, by those of the one write that is outstanding, if there is one, and
  -- others that are lost.
  pub run-left :
      (evs : List Event) (s : Session)
      → Inv v s
      → s.connected ≡ true
      → (lost : List ℕ) × (unsent s ++ accepted v evs s
          ≡ transmitted v evs s ++ left (run v evs s) lost)
  unfolding accepted transmitted run
  run-left [] s i on = ([], append-nil (unsent s) ∙ sym (left_on s [] on))
  run-left (ev ∷ evs) s i on =
      let t = step v ev s in
      elim (Bool-cases t.connected) [
        | inl still ↦
            let (lost, later) = run-left evs t (step-Inv v shut ev s i) still in
            (
              lost,
              append_trade (unsent s) (accept v ev s) (accepted v evs t) (transmit ev s) (unsent t)
                  (transmitted v evs t) (left (run v evs t) lost) (unsent-step v shut ev s i still)
                  later,
            )
        | inr off ↦ last_event ev evs s i on off
      ]
