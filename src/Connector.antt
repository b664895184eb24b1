-- ===== src/Connector.antt =====
-- network/client.h, network/client.cpp, network/connector.h and network/connector.cpp: how a client
-- takes up its connection and loses it. All calls are made on the loop's thread, where
-- `run_on_onwer_thread` calls its task at once; connections are numbers.
pub mod Once
use ncx_for_mall.Prelude.{
  ℕ, suc, ◌+◌, List, [], ◌∷◌, Option, none, some, Bool, true, false, ◌==◌, if◌then◌else◌, Result,
  ok, err, ◌>>=◌, ◌>>◌, check, assertion,
}

pub data ConnectorState : Type 0 where
  k_disconnected k_connecting k_connected : ConnectorState

abbrev pub is_k_disconnected : ConnectorState → Bool
is_k_disconnected k_disconnected = true
is_k_disconnected _ = false

pub record Connector : Type 0 where
  pub connect : Bool
  pub state : ConnectorState

-- `Client`, with the number of times that `on_disconnect_` was called.
pub record NetClient : Type 0 where
  pub connector : Connector
  pub connected : Bool
  pub conn : Option ℕ
  pub next_conn_id : ℕ
  pub disconnects : ℕ

-- The constructors of `Client` and `Connector`.
abbrev pub new_client : NetClient
new_client = record {
  connector = record { connect = false; state = k_disconnected };
  connected = false;
  conn = none;
  next_conn_id = 0;
  disconnects = 0;
}

-- `Client::newConnection`, given the new connection.
unfoldable pub take_connection : ℕ → NetClient → NetClient
take_connection p c = record c { conn = some p; next_conn_id = suc c.next_conn_id }

-- `Connector::startInLoop`, with its callback.
unfoldable pub start_in_loop : ℕ → NetClient → Result NetClient
unfolding take_connection
start_in_loop p c = do
  check (is_k_disconnected c.connector.state) assertion
  ok (
      if c.connector.connect
      then take_connection p (record c { connector = record c.connector { state = k_connected } })
      else c)

-- `Connector::start`
unfoldable pub start : ℕ → NetClient → Result NetClient
unfolding start_in_loop
start p c = start_in_loop p (record c { connector = record c.connector { connect = true } })

-- `Client::connect`
unfoldable pub client_connect : ℕ → NetClient → Result NetClient
unfolding start
client_connect p c = if c.connected then ok c else start p (record c { connected = true })

-- `assert(conn == conn_)`
abbrev pub is_current : Option ℕ → ℕ → Bool
is_current none p = false
is_current (some q) p = q == p

-- `Client::removeConnection`
unfoldable pub remove_connection : ℕ → NetClient → Result NetClient
remove_connection p c = do
  check (is_current c.conn p) assertion
  ok (record c { conn = none; connected = false; disconnects = suc c.disconnects })

-- `Connector::stopInLoop`
unfoldable pub stop_in_loop : ConnectorState → Connector → Connector
stop_in_loop k_connecting k = record k { state = k_disconnected }
stop_in_loop _ k = k

-- `Client::stop` with `Connector::stop`
unfoldable pub client_stop : NetClient → NetClient
unfolding stop_in_loop
client_stop c = record c {
  connected = false;
  connector = stop_in_loop c.connector.state (record c.connector { connect = false });
}

-- What can happen to a client.
pub data Event : Type 0 where
  connects removes : ℕ → Event
  stops : Event

unfoldable pub on_event : NetClient → Event → Result NetClient
unfolding client_connect remove_connection client_stop
on_event c (connects p) = client_connect p c
on_event c (removes p) = remove_connection p c
on_event c stops = ok (client_stop c)

unfoldable pub on_events : NetClient → List Event → Result NetClient
on_events c [] = ok c
on_events c (e ∷ es) = do c' ← on_event c e; on_events c' es
