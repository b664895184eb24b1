-- ===== src/Session/Relaying.antt =====
-- ncx_server/nserver.cpp: the bytes of the run that go through a tunnel of the server.
use ncx_for_mall.Prelude.{
  ℕ, ◌+◌, ◌≤◌, ◌≡◌, ◌≢◌, refl, sym, ap, ◌∙◌, subst, ◌++◌, true, false, ◌||◌, length, ok,
  ne→beq_false, Bool,
}
use ncx_for_mall.Prelude.Maps.{nat_eq, text_eq, beq_self}
use ncx_for_mall.Memory.{max_size}
use ncx_for_mall.Buffer.{Buffer}
use ncx_for_mall.Buffer.Invariant.{IsValid, contents}
use ncx_for_mall.Protocol.{Wire}
use ncx_for_mall.Socket.{leaves, read_loop}
use ncx_for_mall.Connection.{forward_to, Notice}
use ncx_for_mall.Server.{Server, Text, is_alive, holds}
use ncx_for_mall.Server.Closing.{lookup-holds, channels_hold-lookup}
use ncx_for_mall.NServer.{put_input, forward_bytes, handle_data_in}
use ncx_for_mall.NServer.Arrival.{put_input-buffer}
use ncx_for_mall.NServer.Forwarding.{pending, Forwarded, forward_bytes-Forwarded}
use ncx_for_mall.NServer.Throughput.{handle_message-forward, forward-alive}
use ncx_for_mall.Session.{Transport}
use ncx_for_mall.Session.Hop.{IsIdle, text_comes}
use ncx_for_mall.Session.Bridging.{IsTunnel}

or_true : (b : Bool) → (b || true) ≡ true
or_true true = refl
or_true false = refl

-- Both ends of a tunnel are alive.
pub tunnel_alive :
    (s : Server) (n : Notice) (v o room : ℕ)
    → IsTunnel s n v o room
    → (is_alive s v ≡ true) × (is_alive s o ≡ true)
tunnel_alive s n v o room t =
    let visitor =
      channels_hold-lookup n.nonce t.channel s.sc_map v t.bridged.found
        (lookup-holds (s.conn v).conn_id v t.channel.connections t.bridged.visitor_held) in
    let origin = lookup-holds (s.conn o).conn_id o s.connections t.bridged.origin_held in
    (ap (λ x. holds s.connections v || x) visitor ∙ or_true (holds s.connections v), rw origin)

-- A text has gone from one end of a tunnel to the other, and no other connection has changed.
pub record Passed (s : Server) (p peer : ℕ) (text : Text) (s' : Server) : Type 0 where
  pub sent : s'.sends ≡ pending peer text ++ s.sends
  pub others : (q : ℕ) → q ≢ p → s'.conn q ≡ s.conn q
  pub same_connections : s'.connections ≡ s.connections
  pub same_map : s'.sc_map ≡ s.sc_map

module _ (w : Wire) (net : Transport) (fuel : ℕ) (fresh_id : Text) (s : Server) (p peer n : ℕ)
    (idle : IsIdle (s.conn p).input_buffer n) (handler : (s.conn p).on_message ≡ forward_to peer)
    (alive : is_alive s peer ≡ true) where
  event-forwards :
      (text : Text) (b : Buffer)
      → read_loop (s.conn p).input_buffer (net.split text) ≡ ok (b, leaves)
      → handle_data_in w fuel (net.split text) fresh_id p s ≡ forward_bytes p peer (put_input s p b)
  unfolding handle_data_in
  event-forwards text b e = rw e (
      handle_message-forward w fresh_id p peer (put_input s p b) (rw (beq_self p) handler)
      ∙ forward-alive p peer (put_input s p b) alive)

  Forwarded-Passed :
      (text : Text) (b : Buffer) (s' : Server)
      → contents b ≡ text
      → Forwarded p peer (put_input s p b) s'
      → Passed s p peer text s'
  Forwarded-Passed text b s' e f = record {
    sent =
        f.sent
        ∙ ap (λ x. pending peer (contents x) ++ s.sends) (put_input-buffer s p b)
        ∙ ap (λ t. pending peer t ++ s.sends) e;
    others = λ q h. ap (λ (x : Server). x.conn q) f.rest ∙ rw (ne→beq_false p q (λ k. h (sym k)));
    same_connections = ap (λ (x : Server). x.connections) f.rest;
    same_map = ap (λ (x : Server). x.sc_map) f.rest;
  }

  pub text-Passed :
      (text : Text)
      → n + length text ≤ max_size
      → (s' : Server) × (handle_data_in w fuel (net.split text) fresh_id p s ≡ ok s')
        × Passed s p peer text s'
  text-Passed text h =
      let (b, c) = text_comes net (s.conn p).input_buffer n idle text h in
      let valid : IsValid ((put_input s p b).conn p).input_buffer =
        subst IsValid (sym (put_input-buffer s p b)) c.valid in
      let (s', e, f) = forward_bytes-Forwarded p peer (put_input s p b) valid in
      (s', event-forwards text b c.read ∙ e, Forwarded-Passed text b s' c.holds f)
