-- ===== src/Server.antt =====
-- network/server.cpp, ncx_server/bridgecloser.cpp, the data of ncx_server/scontrolchannel.h and the
-- closing of connections in network/connection.cpp: the state of the server, and how a connection
-- is closed. All of it runs on the loop's thread, where `run_on_onwer_thread` calls its task at
-- once.
pub mod Closing
pub mod Bridges
pub mod Kept
pub mod Fuel
pub mod Waiting
use ncx_for_mall.Prelude.{
  ℕ, suc, zero, List, [], ◌∷◌, ◌++◌, Option, none, some, Bool, true, false, ◌||◌, ◌==◌,
  if◌then◌else◌, Result, ok, err, ◌>>=◌, out_of_fuel,
}
use ncx_for_mall.Prelude.Maps.{lookup, insert, emplace, erase, nat_eq, text_eq}
use ncx_for_mall.Channel.{Ctl}
use ncx_for_mall.Connection.{
  Connection, ConnectionState, connecting, connected, disconnecting, disconnected, Owner,
  main_server, proxy_server, Notice, connection_constructor, Handler, set_message_handle,
}

abbrev pub Text : Type 0
Text = List ℕ

-- `BridgeCloser`: its two ends, by number; it holds them weakly.
pub record Bridge : Type 0 where
  pub inside : ℕ
  pub outside : ℕ

-- `SControlChannel` with its proxy server's connections. Connections are named by numbers.
pub record SControlChannel : Type 0 where
  pub ncx_client_conn : ℕ
  pub proxy_port : ℕ
  pub connections : List (ℕ × ℕ)
  pub wait_handle_visitors : List ℕ
  pub bridge_closers : List (Text × Bridge)

pub record Server : Type 0 where
  pub conn : ℕ → Connection
  -- the number of the next connection
  pub fresh : ℕ
  -- the connections of the main server, by `conn_id`, and `sc_map_`
  pub connections : List (ℕ × ℕ)
  pub sc_map : List (Text × SControlChannel)
  -- the `epoll_ctl` calls and the calls of `Send`, the last one first
  pub calls : List Ctl
  pub sends : List (ℕ × Text)

abbrev pub put_conn : Server → ℕ → Connection → Server
put_conn s p c = record s { conn = λ q. if p == q then c else s.conn q }

abbrev pub set_state : Server → ℕ → ConnectionState → Server
set_state s p st = put_conn s p (record (s.conn p) { state = st })

abbrev pub put_channel : Server → Text → SControlChannel → Server
put_channel s nonce sc = record s { sc_map = insert nonce sc s.sc_map }

-- A connection is alive while a server, a queue or a control channel holds it.
abbrev pub holds : List (ℕ × ℕ) → ℕ → Bool
holds [] p = false
holds ((id, q) ∷ m) p = q == p || holds m p

abbrev pub waits : List ℕ → ℕ → Bool
waits [] p = false
waits (q ∷ qs) p = q == p || waits qs p

abbrev pub channels_hold : List (Text × SControlChannel) → ℕ → Bool
channels_hold [] p = false
channels_hold ((nonce, sc) ∷ m) p =
    sc.ncx_client_conn == p
    || (holds sc.connections p || (waits sc.wait_handle_visitors p || channels_hold m p))

abbrev pub is_alive : Server → ℕ → Bool
is_alive s p = holds s.connections p || channels_hold s.sc_map p

-- `connections.find(conn_id)` and `connections.erase(conn_id)` of the connection's own server.
unfoldable pub erase_connection : Server → Owner → ℕ → Server
erase_connection s main_server conn_id = record s { connections = erase conn_id s.connections }
erase_connection s (proxy_server nonce) conn_id = elim (lookup nonce s.sc_map) [
  | none ↦ s
  | some sc ↦ put_channel s nonce (record sc { connections = erase conn_id sc.connections })
]

-- `Server::disconnectHandleInLoop`
unfoldable pub disconnect_handle : Server → ℕ → Server
unfolding erase_connection
disconnect_handle s p =
    let s' = erase_connection s (s.conn p).on_close (s.conn p).conn_id in
    let (c, calls') = connection_constructor (s'.conn p) s'.calls in
    record (put_conn s' p c) { calls = calls' }

-- `Connection::force_close`, given `handle_close`; in `~BridgeCloser` it is called on a connection
-- that is still alive. One that only the call in progress holds is left as it is: `disconnectHandle`
-- has made it disconnected, or its bridge was cut off before.
force_in_state : (ℕ → Server → Result Server) → ℕ → ConnectionState → Server → Result Server
force_in_state close p connected s = close p (set_state s p disconnecting)
force_in_state close p disconnecting s = close p (set_state s p disconnecting)
force_in_state close p _ s = ok s

unfoldable pub force_close : (ℕ → Server → Result Server) → ℕ → Server → Result Server
unfolding force_in_state
force_close close p s = if is_alive s p then force_in_state close p (s.conn p).state s else ok s

-- `BridgeCloser::cut_off_bridge`, which erases the closer from its control channel and so ends its
-- life, unless it is over already.
unfoldable pub cut_off_bridge : (ℕ → Server → Result Server) → Notice → Server → Result Server
cut_off_bridge close n s = elim (lookup n.nonce s.sc_map) [
  | none ↦ ok s
  | some sc ↦ elim (lookup n.bridge_id sc.bridge_closers) [
    | none ↦ ok s
    | some bridge ↦ do
      let erased =
          put_channel s n.nonce (record sc { bridge_closers = erase n.bridge_id sc.bridge_closers })
      inside_closed ← force_close close bridge.inside erased
      force_close close bridge.outside inside_closed
  ]
]

unfoldable pub notice_close : (ℕ → Server → Result Server) → Option Notice → Server → Result Server
notice_close close none s = ok s
notice_close close (some n) s = cut_off_bridge close n s

-- The body of `Connection::handle_close`: `on_close_`, `notice_on_close_`, and the new state.
unfoldable pub close_open : (ℕ → Server → Result Server) → ℕ → Server → Result Server
close_open close p s = do
  let left = disconnect_handle s p
  noticed ← notice_close close (left.conn p).notice_on_close left
  ok (set_state noticed p disconnected)

-- `Connection::handle_close`; it can call itself through the bridge that it cuts off.
unfoldable pub handle_close : ℕ → ℕ → Server → Result Server
handle_close zero p s = err out_of_fuel
handle_close (suc fuel) p s = elim (s.conn p).state [
  | disconnected ↦ ok s
  | _ ↦ close_open (handle_close fuel) p s
]

-- `Server::getConnection`, where a null pointer is `none`, and `Server::update_on_message`.
unfoldable pub get_connection : Server → ℕ → Option ℕ
get_connection s conn_id = lookup conn_id s.connections

unfoldable pub update_on_message : Server → ℕ → Handler → Server
unfolding set_message_handle
update_on_message s p on_message = put_conn s p (set_message_handle on_message (s.conn p))
