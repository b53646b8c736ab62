-- ===== src/Server/Kinds.antt =====
-- What Tcp::Server uses of its sessions, which its virtual `newSession` makes: the methods that it calls, and
-- what the sessions do to the server, which is their friend.
use cxx_server.Common.{ℕ, ◌+◌, ◌≡◌, Bool, true, if◌then◌else◌}
use cxx_server.Asio.{Buffer}

-- `S` are the sessions, and `E` the events that they see.
pub record Kind (S E : Type 0) : Type 0 where
  pub id : S → ℕ
  pub connected : S → Bool
  -- `newSession`: the id, whether strands are needed, and the server's two counters
  pub make : ℕ → Bool → ℕ → ℕ → S
  -- `connect` with the server's options and SO_RCVBUF of the socket
  pub connect : Bool → Bool → ℕ → S → S
  -- `disconnect()`
  pub disconnect : S → S
  -- `sendAsync`; the flag says whether the caller is inside the session's executor
  pub send_async : Bool → Buffer → S → S
  pub fits : Buffer → S → Bool
  pub step : E → S → S
  -- the server's counters of bytes sent and received, as the session has left them, and their update before
  -- its next event
  pub bytes_sent : S → ℕ
  pub bytes_received : S → ℕ
  pub share : ℕ → ℕ → S → S
  -- how many times the session has asked the server to unregister it
  pub leaves : S → ℕ

module _ {S E : Type 0} (k : Kind S E) where
  -- How many times a session has asked to be unregistered, and will ask for.
  abbrev pub stays : S → ℕ
  stays u = k.leaves u + (if k.connected u then 1 else 0)

  -- The invariant `P` of the sessions of this kind is kept by all that a server does with them, as are the id and
  -- the number of times that a session unregisters.
  pub record IsLawful (P : S → Type 0) : Type 0 where
    pub made :
        (id : ℕ) (needed : Bool) (a b : ℕ) (alive delay : Bool) (space : ℕ)
        → P (k.connect alive delay space (k.make id needed a b))
          × (k.id (k.connect alive delay space (k.make id needed a b)) ≡ id)
          × (stays (k.connect alive delay space (k.make id needed a b)) ≡ 1)
          × (k.connected (k.connect alive delay space (k.make id needed a b)) ≡ true)
          × (k.id (k.make id needed a b) ≡ id)
    pub disconnected :
        (u : S)
        → P u
        → P (k.disconnect u)
          × (k.id (k.disconnect u) ≡ k.id u)
          × (stays (k.disconnect u) ≡ stays u)
          × (k.connected (k.disconnect u) ≡ k.connected u)
    pub sent :
        (inside : Bool) (buffer : Buffer) (u : S)
        → k.fits buffer u ≡ true
        → P u
        → P (k.send_async inside buffer u)
          × (k.id (k.send_async inside buffer u) ≡ k.id u)
          × (stays (k.send_async inside buffer u) ≡ stays u)
          × (k.connected (k.send_async inside buffer u) ≡ k.connected u)
    pub stepped :
        (ev : E) (a b : ℕ) (u : S)
        → P u
        → P (k.step ev (k.share a b u))
          × (k.id (k.step ev (k.share a b u)) ≡ k.id u)
          × (stays (k.step ev (k.share a b u)) ≡ stays u)
