-- ===== src/Server/Bridges.antt =====
-- ncx_server/bridgecloser.cpp with network/server.cpp: the two ends of a bridge, and what is left
-- when one of them closes.
pub mod Origin
pub mod Visitor
use ncx_for_mall.Prelude.{
  ℕ, suc, zero, ◌≡◌, ◌≢◌, refl, sym, ap, ◌∙◌, inl, inr, List, [], ◌∷◌, Option, none, some, Bool,
  true, false, ◌||◌, ◌==◌, if◌then◌else◌, arith, Bool-cases, ==_iff, Result, ok, ◌>>=◌,
}
use ncx_for_mall.Prelude.Maps.{
  lookup, insert, erase, nat_eq, text_eq, lookup-insert, lookup-erase, beq_self,
}
use ncx_for_mall.Connection.{
  Connection, ConnectionState, connected, connecting, disconnecting, disconnected, Owner,
  main_server, proxy_server, Notice,
}
use ncx_for_mall.Connection.Life.{TornDown, torn_down}
use ncx_for_mall.Server.{
  Server, SControlChannel, Bridge, Text, put_conn, put_channel, set_state, holds, channels_hold,
  is_alive, disconnect_handle, force_close, cut_off_bridge, notice_close, close_open, handle_close,
}
use ncx_for_mall.Server.Closing.{
  disconnect_handle-other, disconnect_handle_self, disconnect_handle-main, disconnect_handle-proxy,
  lookup-holds, channels_hold-insert, handle_close-open, force_close-closed, force_close-connected,
}

-- What is left when `p` has been disconnected and nothing else.
abbrev pub closed : Server → ℕ → Server
closed s p = set_state (disconnect_handle s p) p disconnected

-- The control channel without the bridge of a notice.
abbrev pub cut : SControlChannel → Notice → SControlChannel
cut sc n = record sc { bridge_closers = erase n.bridge_id sc.bridge_closers }

notice_close-gone :
    (close : ℕ → Server → Result Server) (entry : Option Notice) (s : Server) (n : Notice)
    (sc : SControlChannel)
    → entry ≡ some n
    → lookup n.nonce s.sc_map ≡ some sc
    → lookup n.bridge_id sc.bridge_closers ≡ none
    → notice_close close entry s ≡ ok s
unfolding notice_close cut_off_bridge
notice_close-gone close entry s n sc e f g = rw (e, notice_close, f, cut_off_bridge, g)

notice_close-found :
    (close : ℕ → Server → Result Server) (entry : Option Notice) (s : Server) (n : Notice)
    (sc : SControlChannel) (br : Bridge)
    → entry ≡ some n
    → lookup n.nonce s.sc_map ≡ some sc
    → lookup n.bridge_id sc.bridge_closers ≡ some br
    → notice_close close entry s ≡ (
        force_close close br.inside (put_channel s n.nonce (cut sc n))
        >>= force_close close br.outside)
unfolding notice_close cut_off_bridge
notice_close-found close entry s n sc br e f g = rw (e, notice_close, f, cut_off_bridge, g)

-- Closing a connection whose bridge is gone closes that connection alone.
pub close_last :
    (fuel p : ℕ) (s : Server) (st : ConnectionState) (n : Notice) (sc : SControlChannel)
    → (s.conn p).state ≡ st
    → st ≢ disconnected
    → (s.conn p).notice_on_close ≡ some n
    → lookup n.nonce (disconnect_handle s p).sc_map ≡ some sc
    → lookup n.bridge_id sc.bridge_closers ≡ none
    → handle_close (suc fuel) p s ≡ ok (closed s p)
unfolding close_open
close_last fuel p s st n sc e h ne f g =
    handle_close-open fuel p s st e h
    ∙ ap (λ r. r >>= λ noticed. ok (set_state noticed p disconnected))
        (notice_close-gone (handle_close fuel) _ (disconnect_handle s p) n sc
          ((disconnect_handle_self s p).same_notice ∙ ne) f g)

-- Closing a connection whose bridge is there goes on with the two ends of it.
pub close_first :
    (fuel p : ℕ) (s : Server) (n : Notice) (sc : SControlChannel) (br : Bridge)
    → (s.conn p).state ≡ connected
    → (s.conn p).notice_on_close ≡ some n
    → lookup n.nonce (disconnect_handle s p).sc_map ≡ some sc
    → lookup n.bridge_id sc.bridge_closers ≡ some br
    → handle_close (suc fuel) p s
      ≡ (force_close
            (handle_close fuel)
            br.inside
            (put_channel (disconnect_handle s p) n.nonce (cut sc n))
          >>= force_close (handle_close fuel) br.outside)
        >>= λ noticed. ok (set_state noticed p disconnected)
unfolding close_open
close_first fuel p s n sc br e ne f g =
    handle_close-open fuel p s connected e (λ q. cc)
    ∙ ap (λ r. r >>= λ noticed. ok (set_state noticed p disconnected))
        (notice_close-found (handle_close fuel) _ (disconnect_handle s p) n sc br
          ((disconnect_handle_self s p).same_notice ∙ ne) f g)

-- The two ends of a bridge as `handle_data_channel_hello` leaves them: the visitor, accepted by the
-- proxy server of the control channel, and the data channel, accepted by the main server.
pub record Bridged (s : Server) (n : Notice) (sc : SControlChannel) (v o : ℕ) : Type 0 where
  pub found : lookup n.nonce s.sc_map ≡ some sc
  pub bridge : lookup n.bridge_id sc.bridge_closers ≡ some (record { inside = v; outside = o })
  pub distinct : v ≢ o
  pub visitor_state : (s.conn v).state ≡ connected
  pub visitor_notice : (s.conn v).notice_on_close ≡ some n
  pub visitor_owner : (s.conn v).on_close ≡ proxy_server n.nonce
  pub visitor_held : lookup (s.conn v).conn_id sc.connections ≡ some v
  pub origin_state : (s.conn o).state ≡ connected
  pub origin_notice : (s.conn o).notice_on_close ≡ some n
  pub origin_owner : (s.conn o).on_close ≡ main_server
  pub origin_held : lookup (s.conn o).conn_id s.connections ≡ some o

-- Both ends are closed and no longer held under their ids, the bridge is gone from its control
-- channel, and no other connection has changed.
pub record BothClosed (s : Server) (n : Notice) (v o : ℕ) (s' : Server) : Type 0 where
  pub visitor_closed : (s'.conn v).state ≡ disconnected
  pub origin_closed : (s'.conn o).state ≡ disconnected
  pub others : (q : ℕ) → q ≢ v → q ≢ o → s'.conn q ≡ s.conn q
  pub origin_gone : lookup (s.conn o).conn_id s'.connections ≡ none
  pub channel : SControlChannel
  pub channel_found : lookup n.nonce s'.sc_map ≡ some channel
  pub visitor_gone : lookup (s.conn v).conn_id channel.connections ≡ none
  pub bridge_gone : lookup n.bridge_id channel.bridge_closers ≡ none

pub set_state-other :
    (s : Server) (p q : ℕ) (st : ConnectionState) → p ≢ q → (set_state s p st).conn q ≡ s.conn q
set_state-other s p q st h = ground arith

pub set_state_self :
    (s : Server) (p : ℕ) (st : ConnectionState)
    → (set_state s p st).conn p ≡ record (s.conn p) { state = st }
set_state_self s p st = rw (beq_self p)

pub bridge-erased :
    (sc : SControlChannel) (n : Notice) → lookup n.bridge_id (cut sc n).bridge_closers ≡ none
bridge-erased sc n =
    rw (lookup-erase n.bridge_id n.bridge_id sc.bridge_closers, beq_self n.bridge_id)
