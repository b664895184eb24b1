-- ===== src/Server/Closing.antt =====
-- network/server.cpp and network/connection.cpp: what `disconnectHandle` and the closing of one
-- connection do to the server.
use ncx_for_mall.Prelude.{
  ℕ, suc, ◌≡◌, ◌≢◌, refl, ap, inl, inr, List, [], ◌∷◌, some, true, ◌==◌, arith, Bool-cases, ==_iff,
  Result, ok,
}
use ncx_for_mall.Prelude.Maps.{lookup, insert, erase, nat_eq, text_eq, beq_self}
use ncx_for_mall.Connection.{
  ConnectionState, connected, connecting, disconnecting, disconnected, Owner, main_server,
  proxy_server,
}
use ncx_for_mall.Connection.Life.{TornDown, connection_constructor-TornDown}
use ncx_for_mall.Server.{
  Server, SControlChannel, Text, set_state, holds, channels_hold, is_alive, erase_connection,
  disconnect_handle, force_close, close_open, handle_close,
}

erase_connection-conn : (s : Server) (o : Owner) (id : ℕ) → (erase_connection s o id).conn ≡ s.conn
unfolding erase_connection
erase_connection-conn s main_server id = refl
erase_connection-conn s (proxy_server nonce) id = ground arith

-- What `disconnectHandle` of connection `p` leaves of the connections.
pub disconnect_handle-other :
    (s : Server) (p q : ℕ) → p ≢ q → (disconnect_handle s p).conn q ≡ s.conn q
unfolding disconnect_handle
disconnect_handle-other s p q h = elim (Bool-cases (p == q)) [
  | inl same ↦ absurd (h ((==_iff p q).0 same))
  | inr other ↦
      rw other (ap (λ f. f q) (erase_connection-conn s (s.conn p).on_close (s.conn p).conn_id))
]

pub disconnect_handle_self :
    (s : Server) (p : ℕ) → TornDown (s.conn p) ((disconnect_handle s p).conn p)
unfolding disconnect_handle
disconnect_handle_self s p =
    rw (beq_self p, erase_connection-conn s (s.conn p).on_close (s.conn p).conn_id)
      (connection_constructor-TornDown (s.conn p) _)

pub disconnect_handle-main :
    (s : Server) (p : ℕ)
    → (s.conn p).on_close ≡ main_server
    → ((disconnect_handle s p).connections ≡ erase (s.conn p).conn_id s.connections)
      × ((disconnect_handle s p).sc_map ≡ s.sc_map)
unfolding disconnect_handle erase_connection
disconnect_handle-main s p e = (rw (e, erase_connection), rw (e, erase_connection))

pub disconnect_handle-proxy :
    (s : Server) (p : ℕ) (nonce : Text) (sc : SControlChannel)
    → (s.conn p).on_close ≡ proxy_server nonce
    → lookup nonce s.sc_map ≡ some sc
    → ((disconnect_handle s p).connections ≡ s.connections)
      × ((disconnect_handle s p).sc_map
          ≡ insert nonce
              (record sc { connections = erase (s.conn p).conn_id sc.connections })
              s.sc_map)
unfolding disconnect_handle erase_connection
disconnect_handle-proxy s p nonce sc e f =
    (rw (e, f, erase_connection), rw (e, f, erase_connection))

-- A connection that its server holds is alive.
pub lookup-holds : (id q : ℕ) (m : List (ℕ × ℕ)) → lookup id m ≡ some q → holds m q ≡ true
lookup-holds id q [] h = cc
lookup-holds id q ((j, u) ∷ m) h = ground (arith, lookup-holds id q m)

pub channels_hold-lookup :
    (nonce : Text) (sc : SControlChannel) (m : List (Text × SControlChannel)) (q : ℕ)
    → lookup nonce m ≡ some sc
    → holds sc.connections q ≡ true
    → channels_hold m q ≡ true
channels_hold-lookup nonce sc [] q e h = cc
channels_hold-lookup nonce sc ((j, u) ∷ m) q e h = ground (arith, channels_hold-lookup nonce sc m q)

pub channels_hold-insert :
    (nonce : Text) (sc : SControlChannel) (m : List (Text × SControlChannel)) (q : ℕ)
    → holds sc.connections q ≡ true
    → channels_hold (insert nonce sc m) q ≡ true
channels_hold-insert nonce sc [] q h = ground arith
channels_hold-insert nonce sc ((j, u) ∷ m) q h = ground (arith, channels_hold-insert nonce sc m q h)

pub handle_close-open :
    (fuel p : ℕ) (s : Server) (st : ConnectionState)
    → (s.conn p).state ≡ st
    → st ≢ disconnected
    → handle_close (suc fuel) p s ≡ close_open (handle_close fuel) p s
unfolding handle_close
handle_close-open fuel p s connecting e h = rw (e, handle_close)
handle_close-open fuel p s connected e h = rw (e, handle_close)
handle_close-open fuel p s disconnecting e h = rw (e, handle_close)
handle_close-open fuel p s disconnected e h = absurd (h refl)

-- A closed connection is not closed again.
pub force_close-closed :
    (close : ℕ → Server → Result Server) (p : ℕ) (s : Server)
    → (s.conn p).state ≡ disconnected
    → force_close close p s ≡ ok s
unfolding force_close
force_close-closed close p s e = rw (e, force_close) (ground arith)

pub force_close-connected :
    (close : ℕ → Server → Result Server) (p : ℕ) (s : Server)
    → (s.conn p).state ≡ connected
    → is_alive s p ≡ true
    → force_close close p s ≡ close p (set_state s p disconnecting)
unfolding force_close
force_close-connected close p s e a = rw (a, e, force_close)
