-- ===== src/Server/Bridges/Visitor.antt =====
-- ncx_server/bridgecloser.cpp: the visitor's end of a bridge closes first.
use ncx_for_mall.Prelude.{ℕ, ◌≡◌, ◌≢◌, sym, ap, ◌∙◌, some, true, ok}
use ncx_for_mall.Prelude.Maps.{
  lookup, insert, erase, nat_eq, text_eq, lookup-insert, lookup-erase, beq_self,
}
use ncx_for_mall.Connection.{Connection, disconnecting, disconnected, Notice}
use ncx_for_mall.Connection.Life.{torn_down}
use ncx_for_mall.Server.{
  Server, SControlChannel, put_channel, set_state, is_alive, disconnect_handle, handle_close,
}
use ncx_for_mall.Server.Closing.{
  disconnect_handle-other, disconnect_handle_self, disconnect_handle-main, disconnect_handle-proxy,
  lookup-holds, force_close-closed, force_close-connected,
}
use ncx_for_mall.Server.Bridges.{
  closed, cut, close_last, close_first, Bridged, BothClosed, set_state-other, set_state_self,
  bridge-erased,
}

module _ (s : Server) (n : Notice) (sc : SControlChannel) (v o : ℕ) (b : Bridged s n sc v o) where
  -- The control channel without the visitor, and then without the bridge.
  abbrev left_channel : SControlChannel
  left_channel = record sc { connections = erase (s.conn v).conn_id sc.connections }

  left-proxy :
      ((disconnect_handle s v).connections ≡ s.connections)
      × ((disconnect_handle s v).sc_map ≡ insert n.nonce left_channel s.sc_map)
  left-proxy = disconnect_handle-proxy s v n.nonce sc b.visitor_owner b.found

  left_channel-found : lookup n.nonce (disconnect_handle s v).sc_map ≡ some left_channel
  left_channel-found =
      rw (left-proxy.1, lookup-insert n.nonce n.nonce left_channel s.sc_map, beq_self n.nonce)

  abbrev visitor_left : Server
  visitor_left = put_channel (disconnect_handle s v) n.nonce (cut left_channel n)

  visitor-closed : (visitor_left.conn v).state ≡ disconnected
  visitor-closed = (disconnect_handle_self s v).state ∙ ap torn_down b.visitor_state

  origin-visitor_left : visitor_left.conn o ≡ s.conn o
  origin-visitor_left = disconnect_handle-other s v o b.distinct

  origin-alive : is_alive visitor_left o ≡ true
  origin-alive = rw (left-proxy.0, lookup-holds (s.conn o).conn_id o s.connections b.origin_held)

  abbrev origin_turn : Server
  origin_turn = set_state visitor_left o disconnecting

  origin-origin_turn : origin_turn.conn o ≡ record (s.conn o) { state = disconnecting }
  origin-origin_turn =
      rw (set_state_self visitor_left o disconnecting, disconnect_handle-other s v o b.distinct)

  origin_turn-main :
      ((disconnect_handle origin_turn o).connections
        ≡ erase (origin_turn.conn o).conn_id origin_turn.connections)
      × ((disconnect_handle origin_turn o).sc_map ≡ origin_turn.sc_map)
  origin_turn-main =
      disconnect_handle-main origin_turn o
        (ap (λ (c : Connection). c.on_close) origin-origin_turn ∙ b.origin_owner)

  cut_channel-found :
      lookup n.nonce (disconnect_handle origin_turn o).sc_map ≡ some (cut left_channel n)
  cut_channel-found = rw (
    origin_turn-main.1,
    lookup-insert n.nonce n.nonce (cut left_channel n) (disconnect_handle s v).sc_map,
    beq_self n.nonce,
  )

  origin_turn-closed : handle_close 1 o origin_turn ≡ ok (closed origin_turn o)
  origin_turn-closed =
      close_last 0 o origin_turn disconnecting n (cut left_channel n)
        (ap (λ (c : Connection). c.state) origin-origin_turn) (λ e. cc)
        (ap (λ (c : Connection). c.notice_on_close) origin-origin_turn ∙ b.origin_notice)
        cut_channel-found (bridge-erased left_channel n)

  abbrev visitor_result : Server
  visitor_result = set_state (closed origin_turn o) v disconnected

  visitor_closes-result : handle_close 2 v s ≡ ok visitor_result
  visitor_closes-result =
      close_first 1 v s n left_channel (record { inside = v; outside = o }) b.visitor_state
        b.visitor_notice left_channel-found b.bridge
      ∙ rw (
        force_close-closed (handle_close 1) v visitor_left visitor-closed,
        force_close-connected (handle_close 1) o visitor_left
            (ap (λ (c : Connection). c.state) origin-visitor_left ∙ b.origin_state) origin-alive,
        origin_turn-closed,
      )

  visitor_result-others : (q : ℕ) → q ≢ v → q ≢ o → visitor_result.conn q ≡ s.conn q
  visitor_result-others q hv ho =
      set_state-other (closed origin_turn o) v q disconnected (λ e. hv (sym e))
      ∙ set_state-other (disconnect_handle origin_turn o) o q disconnected (λ e. ho (sym e))
      ∙ disconnect_handle-other origin_turn o q (λ e. ho (sym e))
      ∙ set_state-other visitor_left o q disconnecting (λ e. ho (sym e))
      ∙ disconnect_handle-other s v q (λ e. hv (sym e))

  id-origin_turn : (origin_turn.conn o).conn_id ≡ (s.conn o).conn_id
  id-origin_turn = ap (λ (c : Connection). c.conn_id) origin-origin_turn

  visitor_result-BothClosed : BothClosed s n v o visitor_result
  visitor_result-BothClosed = record {
    visitor_closed =
        ap (λ (c : Connection). c.state) (set_state_self (closed origin_turn o) v disconnected);
    origin_closed =
        ap (λ (c : Connection). c.state)
          (set_state-other (closed origin_turn o) v o disconnected b.distinct
            ∙ set_state_self (disconnect_handle origin_turn o) o disconnected);
    others = visitor_result-others;
    origin_gone =
        ap (lookup (s.conn o).conn_id) origin_turn-main.0
        ∙ rw (
          id-origin_turn,
          lookup-erase (s.conn o).conn_id (s.conn o).conn_id (disconnect_handle s v).connections,
          beq_self (s.conn o).conn_id,
        );
    channel = cut left_channel n;
    channel_found = cut_channel-found;
    visitor_gone = rw (
      lookup-erase (s.conn v).conn_id (s.conn v).conn_id sc.connections,
      beq_self (s.conn v).conn_id,
    );
    bridge_gone = bridge-erased left_channel n;
  }

-- When the visitor's end of a bridge closes, the data channel is closed as well: the call returns,
-- both are disconnected and no longer held under their ids, the bridge is gone, and no other
-- connection has changed.
pub visitor_closes :
    (s : Server) (n : Notice) (sc : SControlChannel) (v o : ℕ)
    → Bridged s n sc v o
    → (s' : Server) × (handle_close 2 v s ≡ ok s') × BothClosed s n v o s'
visitor_closes s n sc v o b = (
  visitor_result s n sc v o b,
  visitor_closes-result s n sc v o b,
  visitor_result-BothClosed s n sc v o b,
)
