-- ===== src/Client/Reconnect.antt =====
-- The wait of Tcp::Client's `reconnectAsync` for the disconnect that it has posted.
use cxx_server.Common.{
  ℕ, zero, suc, ◌≡◌, refl, ap, ◌∙◌, Bool, true, false, List, [], ◌∷◌, ◌++◌, Option, none, some,
  arith, inl, inr, Bool-cases, length,
}
use cxx_server.Asio.{Executor}
use cxx_server.Client.{
  Client, Virtuals, Task, send_task, connect_task, disconnect_task, executor, call, cancel, enqueue,
  disconnect, disconnect_async, clear_buffs, try_send, swap_buffs, start_send,
}
use cxx_server.Client.Handlers.{connect_async, connect_handler, reconnect_async, spin, perform}
use cxx_server.Client.System.{run_first}

-- The handler at the head of the executor runs.
abbrev run_one : Virtuals → Client → Client
run_one v s = run_first v s.posted s

perform_kept :
    (v : Virtuals) (t : Task) (s : Client)
    → s.connected ≡ true
    → s.connecting ≡ false
    → ((perform v t s).posted ≡ s.posted) × ((perform v t s).connecting ≡ false)
unfolding perform try_send swap_buffs start_send connect_handler disconnect clear_buffs
perform_kept v send_task s on h = ground arith
perform_kept v connect_task s on h = ground arith
perform_kept v disconnect_task s on h = ground arith

disconnect_closed : (v : Virtuals) (s : Client) → ((perform v disconnect_task s).connected ≡ false)
unfolding perform disconnect clear_buffs
disconnect_closed v s = ground arith

spin_over :
    (fuel : ℕ) (progress : Client → Client) (s : Client)
    → s.connected ≡ false
    → spin (suc fuel) progress s ≡ some s
unfolding spin
spin_over fuel progress s h = rw h refl

spin_on :
    (fuel : ℕ) (progress : Client → Client) (s : Client)
    → s.connected ≡ true
    → spin (suc fuel) progress s ≡ spin fuel progress (progress s)
unfolding spin
spin_on fuel progress s h = rw h refl

module _ (v : Virtuals) where
  run_one_of :
      (x : Executor) (t : Task) (rest : List (Executor × Task)) (s : Client)
      → s.posted ≡ (x, t) ∷ rest
      → run_one v s ≡ perform v t (record s { posted = rest })
  unfolding run_first
  run_one_of x t rest s q = ap (λ ts. run_first v ts s) q

  -- With a disconnect posted behind other handlers, the wait ends when all of them have run, if not before.
  spin_ends :
      (ts : List (Executor × Task)) (x : Executor) (s : Client)
      → s.posted ≡ ts ++ (x, disconnect_task) ∷ []
      → s.connecting ≡ false
      → (t : Client) × (spin (suc (suc (length ts))) (run_one v) s ≡ some t)
        × (t.connected ≡ false)
        × (t.connecting ≡ false)
  spin_ends [] x s q h = elim (Bool-cases s.connected) [
    | inl on ↦
        let t : Client = run_one v s in
        let same : t ≡ perform v disconnect_task (record s { posted = [] }) =
          run_one_of x disconnect_task [] s q in
        let off : t.connected ≡ false =
          ap (λ (u : Client). u.connected) same ∙ disconnect_closed v (record s { posted = [] }) in
        let kept = perform_kept v disconnect_task (record s { posted = [] }) on h in
        (
          t,
          spin_on 1 (run_one v) s on ∙ spin_over 0 (run_one v) t off,
          off,
          ap (λ (u : Client). u.connecting) same ∙ kept.1,
        )
    | inr off ↦ (s, spin_over 1 (run_one v) s off, off, h)
  ]
  spin_ends ((y, t) ∷ rest) x s q h = elim (Bool-cases s.connected) [
    | inl on ↦
        let ts : List (Executor × Task) = rest ++ (x, disconnect_task) ∷ [] in
        let same : run_one v s ≡ perform v t (record s { posted = ts }) = run_one_of y t ts s q in
        let kept = perform_kept v t (record s { posted = ts }) on h in
        let (u, ends, off, idle) =
          spin_ends rest x (run_one v s) (ap (λ (u : Client). u.posted) same ∙ kept.0)
            (ap (λ (u : Client). u.connecting) same ∙ kept.1) in
        (u, spin_on (suc (suc (length rest))) (run_one v) s on ∙ ends, off, idle)
    | inr off ↦ (s, spin_over (suc (suc (length rest))) (run_one v) s off, off, h)
  ]

  connect_async_made :
      (s : Client)
      → s.connected ≡ false
      → s.connecting ≡ false
      → connect_async s ≡ (enqueue connect_task s, true)
  unfolding connect_async
  connect_async_made s off idle = rw (off, idle) refl

  disconnect_posted :
      (inside : Bool) (s : Client)
      → s.connected ≡ true
      → s.connecting ≡ false
      → disconnect_async false inside s ≡ (enqueue disconnect_task (call cancel s), true)
  unfolding disconnect_async
  disconnect_posted inside s on idle = ground arith

  reconnect_of :
      (fuel : ℕ) (progress : Client → Client) (inside : Bool) (s : Client) (o : Option Client)
      → s.connected ≡ true
      → s.connecting ≡ false
      → spin fuel progress (enqueue disconnect_task (call cancel s)) ≡ o
      → reconnect_async fuel progress inside s
        ≡ (elim o [ none ↦ none | some t ↦ some (connect_async t) ])
  unfolding reconnect_async
  reconnect_of fuel progress inside s o on idle q =
      ap
        (λ (r : Client × Bool). elim r.1 [
          | false ↦ some (r.0, false)
          | true ↦ (elim (spin fuel progress r.0) [ none ↦ none | some u ↦ some (connect_async u) ])
        ])
        (disconnect_posted inside s on idle)
      ∙ ap (λ (r : Option Client). elim r [ none ↦ none | some u ↦ some (connect_async u) ]) q

  -- The `reconnectAsync` of a connected client that is not connecting returns true once the handlers posted before
  -- it and its disconnect have run, each in a round of its wait: the client has disconnected, and a connect is
  -- posted.
  pub reconnect_async_ends :
      (inside : Bool) (s : Client)
      → s.connected ≡ true
      → s.connecting ≡ false
      → (t : Client) × (reconnect_async (suc (suc (length s.posted))) (run_one v) inside s
          ≡ some (enqueue connect_task t, true))
        × (t.connected ≡ false)
  reconnect_async_ends inside s on idle =
      let u : Client = enqueue disconnect_task (call cancel s) in
      let (t, ends, off, quiet) = spin_ends s.posted (executor s) u refl idle in
      (
        t,
        reconnect_of (suc (suc (length s.posted))) (run_one v) inside s (some t) on idle ends
            ∙ ap some (connect_async_made t off quiet),
        off,
      )

  spin_waits : (fuel : ℕ) (s : Client) → s.connected ≡ true → spin fuel (λ u. u) s ≡ none
  unfolding spin
  spin_waits zero s on = refl
  spin_waits (suc fuel) s on = spin_on fuel (λ u. u) s on ∙ spin_waits fuel s on

  -- While no handler runs, as when `reconnectAsync` is called in the only thread of the executor, its wait does not
  -- end, however long it is.
  pub reconnect_async_waits :
      (fuel : ℕ) (inside : Bool) (s : Client)
      → s.connected ≡ true
      → s.connecting ≡ false
      → reconnect_async fuel (λ u. u) inside s ≡ none
  reconnect_async_waits fuel inside s on idle =
      reconnect_of fuel (λ u. u) inside s none on idle
        (spin_waits fuel (enqueue disconnect_task (call cancel s)) on)
