-- ===== src/Tests/Reconnects.antt =====
-- A client that connects, loses its connection, and connects again.
use ncx_for_mall.Prelude.{◌≤◌, ◌≡◌, refl, List, [], ◌∷◌, true, false, some, err, assertion}
use ncx_for_mall.Connector.{
  NetClient, new_client, k_connected, Event, connects, removes, stops, on_event, on_events,
  client_connect, client_stop, start, start_in_loop, take_connection, remove_connection,
  stop_in_loop,
}
use ncx_for_mall.Connector.Once.{connects_once, reconnect-assertion}

abbrev sample_events : List Event
sample_events = connects 4 ∷ connects 5 ∷ removes 4 ∷ stops ∷ []

abbrev ended_client : NetClient
ended_client = record new_client {
  connector = record { connect = false; state = k_connected };
  next_conn_id = 1;
  disconnects = 1;
}

connects_once_example : ended_client.next_conn_id ≤ 1
unfolding on_events on_event client_connect start start_in_loop take_connection remove_connection
    client_stop stop_in_loop
connects_once_example = connects_once sample_events ended_client refl

abbrev connected_client : NetClient
connected_client = record new_client {
  connector = record { connect = true; state = k_connected };
  connected = true;
  conn = some 4;
  next_conn_id = 1;
}

reconnect-assertion_example :
    on_events connected_client (removes 4 ∷ connects 5 ∷ []) ≡ err assertion
reconnect-assertion_example = reconnect-assertion connected_client 4 5 refl refl
