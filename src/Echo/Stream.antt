-- ===== src/Echo/Stream.antt =====
-- What an echo session is sent against what it sends back.
use cxx_server.Common.{
  ℕ, ◌≡◌, refl, ◌∙◌, true, false, List, [], ◌∷◌, ◌++◌, Option, arith, if◌then◌else◌, append-nil,
  subst, append_trade, length, inl, inr, Bool-cases,
}
use cxx_server.Asio.{ErrorCode, Executor, bytes}
use cxx_server.Session.{Session, Virtuals, send_async}
use cxx_server.Session.Handlers.{received}
use cxx_server.Session.System.{
  Event, call_send, call_disconnect, call_receive, run_posted, read_done, write_done, step, fits,
}
use cxx_server.Session.Invariant.{Inv}
use cxx_server.Session.Preserve.{
  step-Inv, grow-Inv, received-Inv, read_ended-Inv, finish_receive-Inv, send_async-Inv,
}
use cxx_server.Session.Lifetime.{step-Settled}
use cxx_server.Session.Keeps.{Keeps, step-Keeps, send_async-Keeps, grow-Keeps, finish_receive-Keeps}
use cxx_server.Session.SendLimit.{append_unlimited, append_receiving}
use cxx_server.Session.Stream.{
  unsent, transmit, unsent-append, unsent-grow, unsent-finish_receive, unsent-step,
}
use cxx_server.Echo.Session.{
  on_receive, receive_handler, end_read, echo_step, echo_run, read_by, arrive, arrived, returned,
}

module _ (v : Virtuals) (shut : v.complete false ≡ false) where
  -- `onReceive` of some bytes, without a limit.
  unsent-on_receive :
      (b : ℕ) (bs : List ℕ) (s : Session)
      → v.complete s.connected ≡ true
      → s.send_limit ≡ 0
      → unsent (on_receive v (b ∷ bs) s) ≡ unsent s ++ (b ∷ bs)
  unfolding on_receive send_async
  unsent-on_receive b bs s c h =
      ground (arith, unsent-append v true (b ∷ bs) s, append_unlimited v true (b ∷ bs) s h)

  on_receive-Inv :
      (data' : List ℕ) (s : Session)
      → fits (bytes data') s ≡ true
      → Inv v s
      → Inv v (on_receive v data' s)
  unfolding on_receive step
  on_receive-Inv data' s f i =
      subst (λ b. Inv v (if b then (send_async v true (bytes data') s).0 else s)) f
        (send_async-Inv v shut true (bytes data') s i)

  on_receive_receiving :
      (data' : List ℕ) (s : Session) → (on_receive v data' s).receiving ≡ s.receiving
  unfolding on_receive send_async
  on_receive_receiving data' s = ground (arith, append_receiving v true data' s)

  receive_handler-Inv :
      (e : Option ErrorCode) (data' : List ℕ) (s : Session)
      → fits (bytes data') s ≡ true
      → Inv v (record s { receiving = false })
      → Inv v (receive_handler v e data' s)
  unfolding receive_handler received
  receive_handler-Inv e data' s f i =
      let idle : Session = record s { receiving = false } in
      let got : Session = on_receive v data' (received data' idle) in
      ground (
        arith,
        finish_receive-Inv v shut e idle i,
        grow-Inv v shut e (length data') got (on_receive_receiving data' (received data' idle))
            (on_receive-Inv data' (received data' idle) f (received-Inv v shut data' idle i)),
      )

  end_read-Inv :
      (e : Option ErrorCode) (data' : List ℕ) (rs : List (Executor × ℕ)) (s : Session)
      → s.reads ≡ rs
      → Inv v s
      → Inv v (end_read v e data' rs s)
  unfolding end_read
  end_read-Inv e data' [] s q i = i
  end_read-Inv e data' ((x, space) ∷ rest) s q i = ground (
    arith,
    receive_handler-Inv e data' (record s { reads = rest }),
    read_ended-Inv v shut s x space rest q i,
  )

  -- Only a read differs from the step of Tcp::Session.
  echo_step_rule :
      (P : Session → Type 0) (ev : Event) (s : Session)
      → P (step v ev s)
      → ((e : Option ErrorCode) (data' : List ℕ) → P (end_read v e data' s.reads s))
      → P (echo_step v ev s)
  unfolding echo_step
  echo_step_rule P (call_send inside b) s p r = p
  echo_step_rule P (call_disconnect inside) s p r = p
  echo_step_rule P call_receive s p r = p
  echo_step_rule P run_posted s p r = p
  echo_step_rule P (read_done e data') s p r = r e data'
  echo_step_rule P (write_done e n) s p r = p

  pub echo_step-Inv : (ev : Event) (s : Session) → Inv v s → Inv v (echo_step v ev s)
  echo_step-Inv ev s i =
      echo_step_rule (Inv v) ev s (step-Inv v shut ev s i)
        (λ e data'. end_read-Inv e data' s.reads s refl i)

  end_read-Keeps :
      (e : Option ErrorCode) (data' : List ℕ) (rs : List (Executor × ℕ)) (s : Session)
      → Keeps s (end_read v e data' rs s)
  unfolding end_read receive_handler received on_receive
  end_read-Keeps e data' [] s = ground arith
  end_read-Keeps e data' ((x, space) ∷ rest) s =
      let idle : Session = record s { reads = rest; receiving = false } in
      ground (
        arith,
        finish_receive-Keeps v e idle,
        grow-Keeps v e (length data') (on_receive v data' (received data' idle)),
        send_async-Keeps v true (bytes data') (received data' idle),
      )

  pub echo_step-Keeps : (ev : Event) (s : Session) → Keeps s (echo_step v ev s)
  echo_step-Keeps ev s =
      echo_step_rule (λ t. Keeps s t) ev s (step-Keeps v ev s)
        (λ e data'. end_read-Keeps e data' s.reads s)

  end_read_closed :
      (e : Option ErrorCode) (data' : List ℕ) (rs : List (Executor × ℕ)) (s : Session)
      → s.connected ≡ false
      → (end_read v e data' rs s).connected ≡ false
  unfolding end_read receive_handler
  end_read_closed e data' [] s h = h
  end_read_closed e data' ((x, space) ∷ rest) s h = ground arith

  echo_run_closed :
      (evs : List Event) (s : Session) → s.connected ≡ false → (echo_run v evs s).connected ≡ false
  unfolding echo_run
  echo_run_closed [] s h = h
  echo_run_closed (ev ∷ evs) s h = echo_run_closed evs (echo_step v ev s) (
      echo_step_rule (λ t. t.connected ≡ false) ev s (step-Settled v shut ev s h).closed
        (λ e data'. end_read_closed e data' s.reads s h))

  pub echo_run_connected :
      (evs : List Event) (s : Session) → (echo_run v evs s).connected ≡ true → s.connected ≡ true
  echo_run_connected evs s h = elim (Bool-cases s.connected) [
    | inl on ↦ on
    | inr off ↦ let q = echo_run_closed evs s off in ground arith
  ]

  unsent-receive_handler :
      (e : Option ErrorCode) (data' : List ℕ) (s : Session)
      → s.send_limit ≡ 0
      → (receive_handler v e data' s).connected ≡ true
      → unsent (receive_handler v e data' s)
        ≡ unsent s ++ (if v.complete s.connected then data' else [])
  unfolding receive_handler received
  unsent-receive_handler e [] s l h =
      ground
        (arith, append-nil (unsent s), unsent-finish_receive v e (record s { receiving = false }))
  unsent-receive_handler e (b ∷ bs) s l h =
      let got : Session = received (b ∷ bs) (record s { receiving = false }) in
      ground (
        arith,
        append-nil (unsent s),
        unsent-on_receive b bs got,
        unsent-grow v e (length (b ∷ bs)) (on_receive v (b ∷ bs) got),
      )

  unsent-end_read :
      (e : Option ErrorCode) (data' : List ℕ) (rs : List (Executor × ℕ)) (s : Session)
      → s.send_limit ≡ 0
      → (end_read v e data' rs s).connected ≡ true
      → unsent s ++ read_by v data' rs s ≡ unsent (end_read v e data' rs s)
  unfolding end_read read_by
  unsent-end_read e data' [] s l h = append-nil (unsent s)
  unsent-end_read e data' ((x, space) ∷ rest) s l h =
      ground
        (arith, append-nil (unsent s), unsent-receive_handler e data' (record s { reads = rest }))

  pub unsent-echo_step :
      (ev : Event) (s : Session)
      → Inv v s
      → s.send_limit ≡ 0
      → (echo_step v ev s).connected ≡ true
      → unsent s ++ arrive v ev s ≡ transmit ev s ++ unsent (echo_step v ev s)
  unfolding echo_step arrive transmit
  unsent-echo_step (call_send inside b) s i l h = unsent-step v shut (call_send inside b) s i h
  unsent-echo_step (call_disconnect inside) s i l h =
      unsent-step v shut (call_disconnect inside) s i h
  unsent-echo_step call_receive s i l h = unsent-step v shut call_receive s i h
  unsent-echo_step run_posted s i l h = unsent-step v shut run_posted s i h
  unsent-echo_step (read_done e data') s i l h = unsent-end_read e data' s.reads s l h
  unsent-echo_step (write_done e n) s i l h = unsent-step v shut (write_done e n) s i h

  -- An echo session without a send limit, from a state that satisfies the invariant and as long as it is
  -- connected, if `isConnectionComplete` needs a connection, whatever events come in whatever order: the
  -- bytes that were held at the start, followed by those that it reads and those of each `sendAsync` of
  -- another that returns true, are those that it writes, followed by those still held.
  arrived-returned :
      (evs : List Event) (s : Session)
      → Inv v s
      → s.send_limit ≡ 0
      → (echo_run v evs s).connected ≡ true
      → unsent s ++ arrived v evs s ≡ returned v evs s ++ unsent (echo_run v evs s)
  unfolding arrived returned echo_run
  arrived-returned [] s i l h = append-nil (unsent s)
  arrived-returned (ev ∷ evs) s i l h =
      let t = echo_step v ev s in
      append_trade (unsent s) (arrive v ev s) (arrived v evs t) (transmit ev s) (unsent t)
        (returned v evs t) (unsent (echo_run v evs t))
        (unsent-echo_step ev s i l (echo_run_connected evs t h))
        (arrived-returned evs t (echo_step-Inv ev s i) ((echo_step-Keeps ev s).limited ∙ l) h)
