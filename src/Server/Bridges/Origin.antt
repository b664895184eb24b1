-- ===== src/Server/Bridges/Origin.antt =====
-- ncx_server/bridgecloser.cpp: the data channel's end of a bridge closes first.
use ncx_for_mall.Prelude.{ℕ, ◌≡◌, ◌≢◌, sym, ap, ◌∙◌, some, true, arith, ok}
use ncx_for_mall.Prelude.Maps.{
  lookup, insert, erase, nat_eq, text_eq, lookup-insert, lookup-erase, beq_self,
}
use ncx_for_mall.Connection.{Connection, connected, disconnecting, disconnected, Notice}
use ncx_for_mall.Connection.Life.{torn_down}
use ncx_for_mall.Server.{
  Server, SControlChannel, put_channel, set_state, is_alive, disconnect_handle, handle_close,
}
use ncx_for_mall.Server.Closing.{
  disconnect_handle-other, disconnect_handle_self, disconnect_handle-main, disconnect_handle-proxy,
  lookup-holds, channels_hold-insert, force_close-closed, force_close-connected,
}
use ncx_for_mall.Server.Bridges.{
  closed, cut, close_last, close_first, Bridged, BothClosed, set_state-other, set_state_self,
  bridge-erased,
}

module _ (s : Server) (n : Notice) (sc : SControlChannel) (v o : ℕ) (b : Bridged s n sc v o) where
  -- The server behind the closing of the origin, up to the visitor's turn.
  abbrev origin_left : Server
  origin_left = put_channel (disconnect_handle s o) n.nonce (cut sc n)

  abbrev visitor_turn : Server
  visitor_turn = set_state origin_left v disconnecting

  visitor-visitor_turn : visitor_turn.conn v ≡ record (s.conn v) { state = disconnecting }
  visitor-visitor_turn = rw (
    set_state_self origin_left v disconnecting,
    disconnect_handle-other s o v (λ e. b.distinct (sym e)),
  )

  visitor-alive : is_alive origin_left v ≡ true
  visitor-alive =
      rw
        (channels_hold-insert n.nonce (cut sc n) (disconnect_handle s o).sc_map v
          (lookup-holds _ v sc.connections b.visitor_held))
        (ground arith)

  visitor_turn-channel : lookup n.nonce visitor_turn.sc_map ≡ some (cut sc n)
  visitor_turn-channel =
      rw (lookup-insert n.nonce n.nonce (cut sc n) (disconnect_handle s o).sc_map, beq_self n.nonce)

  -- The visitor's own disconnection finds its control channel without the bridge.
  visitor_turn-proxy :
      ((disconnect_handle visitor_turn v).connections ≡ visitor_turn.connections)
      × ((disconnect_handle visitor_turn v).sc_map
          ≡ insert n.nonce
              (record (cut sc n) {
                connections = erase (visitor_turn.conn v).conn_id sc.connections;
              })
              visitor_turn.sc_map)
  visitor_turn-proxy =
      disconnect_handle-proxy visitor_turn v n.nonce (cut sc n)
        (ap (λ (c : Connection). c.on_close) visitor-visitor_turn ∙ b.visitor_owner)
        visitor_turn-channel

  abbrev last_channel : SControlChannel
  last_channel = record (cut sc n) {
    connections = erase (visitor_turn.conn v).conn_id sc.connections;
  }

  last_channel-found : lookup n.nonce (disconnect_handle visitor_turn v).sc_map ≡ some last_channel
  last_channel-found = rw (
    visitor_turn-proxy.1,
    lookup-insert n.nonce n.nonce last_channel visitor_turn.sc_map,
    beq_self n.nonce,
  )

  visitor_turn-closed : handle_close 1 v visitor_turn ≡ ok (closed visitor_turn v)
  visitor_turn-closed =
      close_last 0 v visitor_turn disconnecting n last_channel
        (ap (λ (c : Connection). c.state) visitor-visitor_turn) (λ e. cc)
        (ap (λ (c : Connection). c.notice_on_close) visitor-visitor_turn ∙ b.visitor_notice)
        last_channel-found (bridge-erased sc n)

  origin-visitor_turn : (closed visitor_turn v).conn o ≡ (disconnect_handle s o).conn o
  origin-visitor_turn =
      set_state-other (disconnect_handle visitor_turn v) v o disconnected b.distinct
      ∙ disconnect_handle-other visitor_turn v o b.distinct
      ∙ set_state-other origin_left v o disconnecting b.distinct

  origin-closed : ((closed visitor_turn v).conn o).state ≡ disconnected
  origin-closed =
      ap (λ (c : Connection). c.state) origin-visitor_turn
      ∙ (disconnect_handle_self s o).state
      ∙ ap torn_down b.origin_state

  visitor-connected : (origin_left.conn v).state ≡ connected
  visitor-connected =
      ap (λ (c : Connection). c.state) (disconnect_handle-other s o v (λ e. b.distinct (sym e)))
      ∙ b.visitor_state

  abbrev origin_result : Server
  origin_result = set_state (closed visitor_turn v) o disconnected

  origin_closes-result : handle_close 2 o s ≡ ok origin_result
  origin_closes-result =
      close_first 1 o s n sc (record { inside = v; outside = o }) b.origin_state b.origin_notice
        (ap (lookup n.nonce) (disconnect_handle-main s o b.origin_owner).1 ∙ b.found) b.bridge
      ∙ rw (
        force_close-connected (handle_close 1) v origin_left visitor-connected visitor-alive,
        visitor_turn-closed,
        force_close-closed (handle_close 1) o (closed visitor_turn v) origin-closed,
      )

  id-visitor_turn : (visitor_turn.conn v).conn_id ≡ (s.conn v).conn_id
  id-visitor_turn = ap (λ (c : Connection). c.conn_id) visitor-visitor_turn

  origin_result-others : (q : ℕ) → q ≢ v → q ≢ o → origin_result.conn q ≡ s.conn q
  origin_result-others q hv ho =
      set_state-other (closed visitor_turn v) o q disconnected (λ e. ho (sym e))
      ∙ set_state-other (disconnect_handle visitor_turn v) v q disconnected (λ e. hv (sym e))
      ∙ disconnect_handle-other visitor_turn v q (λ e. hv (sym e))
      ∙ set_state-other origin_left v q disconnecting (λ e. hv (sym e))
      ∙ disconnect_handle-other s o q (λ e. ho (sym e))

  origin_result-BothClosed : BothClosed s n v o origin_result
  origin_result-BothClosed = record {
    visitor_closed =
        ap (λ (c : Connection). c.state)
          (set_state-other (closed visitor_turn v) o v disconnected (λ e. b.distinct (sym e))
            ∙ set_state_self (disconnect_handle visitor_turn v) v disconnected);
    origin_closed =
        ap (λ (c : Connection). c.state) (set_state_self (closed visitor_turn v) o disconnected);
    others = origin_result-others;
    origin_gone =
        ap (lookup (s.conn o).conn_id)
          (visitor_turn-proxy.0 ∙ (disconnect_handle-main s o b.origin_owner).0)
        ∙ rw (
          lookup-erase (s.conn o).conn_id (s.conn o).conn_id s.connections,
          beq_self (s.conn o).conn_id,
        );
    channel = last_channel;
    channel_found = last_channel-found;
    visitor_gone = rw (
      id-visitor_turn,
      lookup-erase (s.conn v).conn_id (s.conn v).conn_id sc.connections,
      beq_self (s.conn v).conn_id,
    );
    bridge_gone = bridge-erased sc n;
  }

-- When the data channel's end of a bridge closes, the visitor is closed as well: the call returns,
-- both are disconnected and no longer held under their ids, the bridge is gone, and no other
-- connection has changed.
pub origin_closes :
    (s : Server) (n : Notice) (sc : SControlChannel) (v o : ℕ)
    → Bridged s n sc v o
    → (s' : Server) × (handle_close 2 o s ≡ ok s') × BothClosed s n v o s'
origin_closes s n sc v o b = (
  origin_result s n sc v o b,
  origin_closes-result s n sc v o b,
  origin_result-BothClosed s n sc v o b,
)
