-- ===== src/Server/Waiting.antt =====
-- network/server.cpp and ncx_server/scontrolchannel.cpp: a visitor that closes before a data channel
-- comes for it.
use ncx_for_mall.Prelude.{ℕ, ◌≡◌, refl, ap, ◌∙◌, Option, none, some, Result, ok}
use ncx_for_mall.Prelude.Maps.{lookup, erase, nat_eq, text_eq, lookup-insert, beq_self}
use ncx_for_mall.Connection.{connected, disconnected, proxy_server, Notice}
use ncx_for_mall.Server.{
  Server, SControlChannel, Text, set_state, disconnect_handle, notice_close, close_open,
  handle_close,
}
use ncx_for_mall.Server.Closing.{disconnect_handle_self, disconnect_handle-proxy, handle_close-open}

notice_close-none :
    (close : ℕ → Server → Result Server) (entry : Option Notice) (s : Server)
    → entry ≡ none
    → notice_close close entry s ≡ ok s
unfolding notice_close
notice_close-none close entry s e = rw (e, notice_close)

module _ (s : Server) (nonce : Text) (sc : SControlChannel) (v : ℕ)
    (found : lookup nonce s.sc_map ≡ some sc) (visitor_state : (s.conn v).state ≡ connected)
    (visitor_owner : (s.conn v).on_close ≡ proxy_server nonce)
    (no_notice : (s.conn v).notice_on_close ≡ none) where
  abbrev left : Server
  left = disconnect_handle s v

  no_notice_left : (left.conn v).notice_on_close ≡ none
  no_notice_left = (disconnect_handle_self s v).same_notice ∙ no_notice

  close_open-quiet :
      (close : ℕ → Server → Result Server)
      → close_open close v s ≡ ok (set_state left v disconnected)
  unfolding close_open
  close_open-quiet close =
      rw (notice_close-none close (left.conn v).notice_on_close left no_notice_left)

  -- When a connected visitor without a bridge closes, it is disconnected and the entry of its id is
  -- erased at its server; but the queue of its control channel is as before, with the visitor in
  -- its place if it was waiting.
  pub waiting_closed :
      (s' : Server) × (channel : SControlChannel) × (handle_close 1 v s ≡ ok s')
      × ((s'.conn v).state ≡ disconnected)
      × (lookup nonce s'.sc_map ≡ some channel)
      × (channel.connections ≡ erase (s.conn v).conn_id sc.connections)
      × (channel.wait_handle_visitors ≡ sc.wait_handle_visitors)
  waiting_closed = (
    set_state left v disconnected,
    record sc { connections = erase (s.conn v).conn_id sc.connections },
    handle_close-open 0 v s connected visitor_state (λ e. absurd cc)
        ∙ close_open-quiet (handle_close 0),
    rw (beq_self v),
    ap (lookup nonce) (disconnect_handle-proxy s v nonce sc visitor_owner found).1
        ∙ rw (
          lookup-insert nonce nonce
              (record sc { connections = erase (s.conn v).conn_id sc.connections }) s.sc_map,
          beq_self nonce,
        ),
    refl,
    refl,
  )
