-- ===== src/Echo/Reading.antt =====
-- A read of an echo client: what it brings is answered, or waits to be.
use cxx_server.Common.{
  ℕ, suc, ◌+◌, ◌<◌, ◌≡◌, refl, ap, ◌∙◌, true, false, List, [], ◌∷◌, Option, some, arith, length,
  word, leb, if◌then◌else◌, Bool-cases, inl, inr, subst,
}
use cxx_server.Asio.{ErrorCode, Executor}
use cxx_server.Client.{tcp}
use cxx_server.Client.Handlers.{finish_receive, grow, received}
use cxx_server.Client.Whole.{received-Inv, grow-Inv, finish_receive-Inv, read_ended-Inv}
use cxx_server.Client.Stream.{unsent, grow-Keeps, finish_receive-Keeps}
use cxx_server.Echo.Client.{EchoClient, on_receive}
use cxx_server.Echo.Link.{taken_in}
use cxx_server.Client.Limit.{grow_limit, finish_receive_limit}
use cxx_server.Echo.Answers.{held, on_receive_balances}
use cxx_server.Echo.Traffic.{within, echo_receive, echo_end_read, then_grow}
use cxx_server.Echo.Balance.{Sound, Balances, within-Balances}

received-Balances :
    (e : Option ErrorCode) (b : ℕ) (bs data' : List ℕ) (s : EchoClient)
    → s.client.connected ≡ true
    → Sound s
    → held s + length data' < word
    → (t : EchoClient) × (then_grow tcp e (length data') (
          on_receive tcp
            (suc (s.received + length data'))
            (b ∷ bs)
            (length data')
            (within (received data') s))
        ≡ some t)
      × Balances s (length data') 0 t
unfolding received
received-Balances e b bs data' s c i w =
    let (t, same, open', kept, more) =
      on_receive_balances b bs (length data') (within (received data') s)
        (record { on = c; unlimited = i.unlimited }) (received-Inv data' s.client i.kept) w in
    let after : EchoClient = within (grow tcp e (length data')) t in
    (
      after,
      ap (then_grow tcp e (length data')) same,
      record {
        sound = record {
          kept = grow-Inv e (length data') t.client kept;
          unlimited = grow_limit e (length data') t.client ∙ open'.unlimited;
        };
        on = λ q. c;
        total = λ q.
            let k : length (unsent after.client) ≡ length (unsent t.client) =
              ap length ((grow-Keeps e (length data') t.client).held q) in
            omega arith;
      },
    )

abbrev idle : EchoClient → EchoClient
idle s = within (λ c. record c { receiving = false }) s

-- What a read brings to the client's `onReceive`.
abbrev brought : List ℕ → EchoClient → ℕ
brought data' s = length (if s.client.connected then data' else [])

echo_receive_off :
    (e : Option ErrorCode) (message data' : List ℕ) (s : EchoClient)
    → s.client.connected ≡ false
    → (echo_receive tcp message e data' s ≡ some (idle s)) × (brought data' s ≡ 0)
unfolding echo_receive
echo_receive_off e message data' s off = (rw off refl, rw off refl)

echo_receive_none :
    (e : Option ErrorCode) (message : List ℕ) (s : EchoClient)
    → s.client.connected ≡ true
    → echo_receive tcp message e [] s ≡ some (within (finish_receive tcp e) (idle s))
unfolding echo_receive
echo_receive_none e message s on = ground arith

echo_receive_some :
    (e : Option ErrorCode) (message : List ℕ) (d : ℕ) (ds : List ℕ) (s : EchoClient)
    → s.client.connected ≡ true
    → echo_receive tcp message e (d ∷ ds) s
      ≡ then_grow tcp e (length (d ∷ ds)) (
          on_receive tcp
            (suc (s.received + length (d ∷ ds)))
            message
            (length (d ∷ ds))
            (within (received (d ∷ ds)) (idle s)))
unfolding echo_receive
echo_receive_some e message d ds s on = ground arith

brought_on :
    (data' : List ℕ) (s : EchoClient) → s.client.connected ≡ true → length data' ≡ brought data' s
brought_on data' s on = rw on refl

finish_receive-Balances :
    (e : Option ErrorCode) (s : EchoClient)
    → Sound s
    → s.client.connected ≡ true
    → Balances s 0 0 (within (finish_receive tcp e) s)
finish_receive-Balances e s i on =
    within-Balances (finish_receive tcp e) 0 0 s (finish_receive-Inv e s.client i.kept)
      (finish_receive_limit e s.client) i.unlimited
      (λ q. let k = ap length ((finish_receive-Keeps e s.client).held q) in (on, omega arith))

echo_receive_on :
    (e : Option ErrorCode) (b : ℕ) (bs data' : List ℕ) (s : EchoClient)
    → s.client.connected ≡ true
    → Sound (idle s)
    → held s + length data' < word
    → (t : EchoClient) × (echo_receive tcp (b ∷ bs) e data' s ≡ some t)
      × Balances s (length data') 0 t
echo_receive_on e b bs [] s on i w =
    let h = finish_receive-Balances e (idle s) i on in
    (
      within (finish_receive tcp e) (idle s),
      echo_receive_none e (b ∷ bs) s on,
      record { sound = h.sound; on = h.on; total = h.total },
    )
echo_receive_on e b bs (d ∷ ds) s on i w =
    let (t, same, h) = received-Balances e b bs (d ∷ ds) (idle s) on i w in
    (
      t,
      echo_receive_some e (b ∷ bs) d ds s on ∙ same,
      record { sound = h.sound; on = h.on; total = h.total },
    )

echo_receive-Balances :
    (e : Option ErrorCode) (b : ℕ) (bs data' : List ℕ) (s : EchoClient)
    → Sound (idle s)
    → held s + length data' < word
    → (t : EchoClient) × (echo_receive tcp (b ∷ bs) e data' s ≡ some t)
      × Balances s (brought data' s) 0 t
echo_receive-Balances e b bs data' s i w = elim (Bool-cases s.client.connected) [
  | inl on ↦
      let (t, same, h) = echo_receive_on e b bs data' s on i w in
      (t, same, subst (λ n. Balances s n 0 t) (brought_on data' s on) h)
  | inr off ↦
      let (same, nothing) = echo_receive_off e (b ∷ bs) data' s off in
      (idle s, same, record { sound = i; on = λ c. ground arith; total = λ c. ground arith })
]

pub echo_end_read-Balances :
    (e : Option ErrorCode) (b : ℕ) (bs data' : List ℕ) (rs : List (Executor × ℕ)) (s : EchoClient)
    → Sound s
    → held s + length data' < word
    → (t : EchoClient) × (echo_end_read tcp (b ∷ bs) e data' rs s ≡ some t)
      × Balances s (length (taken_in data' rs s.client)) 0 t
unfolding echo_end_read taken_in
echo_end_read-Balances e b bs data' [] s i w =
    (s, refl, record { sound = i; on = λ c. c; total = λ c. omega arith })
echo_end_read-Balances e b bs data' ((x, space) ∷ rest) s i w =
    let begun : EchoClient = within (λ c. record c { reads = rest }) s in
    elim (Bool-cases (leb (length data') space)) [
      | inl fit ↦
          let (t, same, h) =
            echo_receive-Balances e b bs data' begun
              (record { kept = read_ended-Inv rest s.client i.kept; unlimited = i.unlimited }) w in
          (t, rw fit same, rw fit (record { sound = h.sound; on = h.on; total = h.total }))
      | inr big ↦
          (s, rw big refl, rw big (record { sound = i; on = λ c. c; total = λ c. omega arith }))
    ]
