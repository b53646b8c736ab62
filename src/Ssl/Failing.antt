-- ===== src/Ssl/Failing.antt =====
-- What follows a handshake of SSL::Client that fails.
use cxx_server.Common.{
  ℕ, ◌≡◌, refl, ◌∙◌, Bool, true, false, if_rule, List, [], ◌∷◌, Option, none, some, arith,
}
use cxx_server.Asio.{ErrorCode, Executor}
use cxx_server.Client.{Client, disconnect, clear_buffs, err, call, on_connect, executor, Virtuals}
use cxx_server.Client.Handlers.{set_up, refuse}
use cxx_server.Ssl.Client.{
  SslClient, virtuals, shut_down, ssl_disconnect, ssl_disconnect_async, is_engaged, finish_connect,
  ssl_connect, ssl_connect_async, handshake_handler, handshake_done, shutdown_done, end_handshake,
  end_shutdown, ssl_step,
}
use cxx_server.Ssl.Keeps.{err-Keeps}
use cxx_server.Ssl.Flags.{Flags}

connected_refuses :
    (e shaken : Option ErrorCode) (space : ℕ) (s : SslClient)
    → s.client.connected ≡ true
    → (ssl_connect e space shaken s ≡ (s, false)) × (ssl_connect_async s ≡ (s, false))
unfolding ssl_connect ssl_connect_async
connected_refuses e shaken space s h =
    let busy : is_engaged s ≡ true = ground arith in
    (
      if_rule (λ (r : SslClient × Bool). r ≡ (s, false)) (is_engaged s) _ _ (λ on. refl)
          (λ off. absurd (ground arith)),
      if_rule (λ (r : SslClient × Bool). r ≡ (s, false)) (is_engaged s) _ _ (λ on. refl)
          (λ off. absurd (ground arith)),
    )

refused_connected :
    (e : ErrorCode) (space : ℕ) (s : SslClient)
    → let r =
        finish_connect (some e) (record s { client = call on_connect (set_up space s.client) }) in
      (r.1 ≡ false) × (r.0.client.connected ≡ true)
unfolding finish_connect refuse err set_up
refused_connected e space s = ground arith

failed_connect :
    (e : ErrorCode) (space : ℕ) (s : SslClient)
    → is_engaged s ≡ false
    → let r = ssl_connect none space (some e) s in (r.1 ≡ false) × (r.0.client.connected ≡ true)
unfolding ssl_connect
failed_connect e space s h =
    if_rule (λ (r : SslClient × Bool). (r.1 ≡ false) × (r.0.client.connected ≡ true)) (is_engaged s)
      _ _ (λ busy. absurd (ground arith)) (λ free. refused_connected e space s)

-- A `connect` of a client that is not engaged, whose socket connects and whose handshake fails, returns
-- false and leaves the client connected: any further `connect` or `connectAsync` returns false at once.
pub failed_connect_sticks :
    (e : ErrorCode) (space : ℕ) (e' shaken' : Option ErrorCode) (space' : ℕ) (s : SslClient)
    → is_engaged s ≡ false
    → let r = ssl_connect none space (some e) s in
      (r.1 ≡ false)
      × (r.0.client.connected ≡ true)
      × (ssl_connect e' space' shaken' r.0 ≡ (r.0, false))
      × (ssl_connect_async r.0 ≡ (r.0, false))
failed_connect_sticks e space e' shaken' space' s h =
    let r = ssl_connect none space (some e) s in
    let stays = failed_connect e space s h in
    let refuses = connected_refuses e' shaken' space' r.0 stays.1 in
    (stays.0, stays.1, refuses.0, refuses.1)

-- A connected client that shuts its stream down.
record Stopping (s : SslClient) : Type 0 where
  connected : s.client.connected ≡ true
  connecting : s.client.connecting ≡ false
  handshaking : s.handshaking ≡ false
  shutdown_out : s.client.shutdowns ≡ executor s.client ∷ []

shut_down-Stopping :
    (s : SslClient)
    → s.client.connected ≡ true
    → s.client.connecting ≡ false
    → s.handshaking ≡ false
    → s.client.shutdowns ≡ []
    → Stopping (ssl_disconnect_async true true s).0
unfolding ssl_disconnect_async shut_down
shut_down-Stopping s c n h q = ground arith

err_shutdowns : (v : Virtuals) (e : ErrorCode) (c : Client) → (err v e c).shutdowns ≡ c.shutdowns
unfolding err
err_shutdowns v e c = ground arith

handshake_handler-Stopping :
    (e : ErrorCode) (s : SslClient)
    → s.client.connected ≡ true
    → s.client.connecting ≡ false
    → s.handshaked ≡ false
    → s.client.shutdowns ≡ []
    → Stopping (handshake_handler (some e) s)
unfolding handshake_handler
handshake_handler-Stopping e s c n h q =
    let t : SslClient = record s { handshaking = false } in
    let k = err-Keeps (virtuals t) e t.client in
    if_rule Stopping t.handshaked _ _ (λ done. absurd (ground arith))
      (λ yet.
        shut_down-Stopping (record t { client = err (virtuals t) e t.client }) (k.connected ∙ c)
          (k.connecting ∙ n) refl (err_shutdowns (virtuals t) e t.client ∙ q))

end_handshake-Stopping :
    (e : ErrorCode) (xs : List Executor) (s : SslClient)
    → s.handshakes ≡ xs
    → Flags s
    → s.handshaking ≡ true
    → s.client.shutdowns ≡ []
    → Stopping (end_handshake (some e) xs s)
unfolding end_handshake
end_handshake-Stopping e [] s x i h q = absurd (ground arith)
end_handshake-Stopping e (y ∷ rest) s x i h q =
    handshake_handler-Stopping e (record s { handshakes = rest }) (i.shaking h) (ground arith)
      (ground arith) q

ssl_disconnect_free :
    (s : SslClient)
    → s.client.connected ≡ true
    → s.client.connecting ≡ false
    → s.handshaking ≡ false
    → ((ssl_disconnect s).0.client.connected ≡ false) × (is_engaged (ssl_disconnect s).0 ≡ false)
unfolding ssl_disconnect disconnect clear_buffs
ssl_disconnect_free s c n h = ground arith

end_shutdown_free :
    (xs : List Executor) (s : SslClient)
    → s.client.shutdowns ≡ xs
    → Stopping s
    → ((end_shutdown xs s).client.connected ≡ false) × (is_engaged (end_shutdown xs s) ≡ false)
unfolding end_shutdown
end_shutdown_free [] s q i = absurd (ground arith)
end_shutdown_free (x ∷ rest) s q i = ssl_disconnect_free _ i.connected i.connecting i.handshaking

-- When an asynchronous handshake fails, with no shutdown under way, the stream is shut down, and the end of the
-- shutdown disconnects the client, which may connect again.
pub failed_handshake_disconnects :
    (e : ErrorCode) (s : SslClient)
    → Flags s
    → s.handshaking ≡ true
    → s.client.shutdowns ≡ []
    → let t = ssl_step (handshake_done (some e)) s in
      let u = ssl_step shutdown_done t in (u.client.connected ≡ false) × (is_engaged u ≡ false)
unfolding ssl_step
failed_handshake_disconnects e s i h q =
    end_shutdown_free _ _ refl (end_handshake-Stopping e s.handshakes s refl i h q)
