-- ===== src/NServer.antt =====
-- ncx_server/nserver.cpp, ncx_server/scontrolchannel.cpp, and `newConnectionHandle` of
-- network/server.cpp: how the server takes connections, shakes hands and forwards. `Send` is
-- recorded with the text that it is given (Socket has its loop); a `write` that fails and so closes
-- the connection inside `Send` is not modelled here. Ids that the UUID generator makes are arguments.
pub mod Arrival
pub mod Forwarding
pub mod Tunnel
pub mod Handshake
pub mod Opening
pub mod Throughput
pub mod Sound
use ncx_for_mall.Prelude.{
  ℕ, suc, ◌%◌, ◌^◌, List, [], ◌∷◌, ◌++◌, Option, none, some, ltb, ◌==◌, if◌then◌else◌, Result, ok,
  err, ◌>>=◌, out_of_range, out_of_bounds,
}
use ncx_for_mall.Prelude.Maps.{lookup, insert, emplace, nat_eq, text_eq}
use ncx_for_mall.Buffer.{Buffer, readable_bytes, retrieve_all_as_string}
use ncx_for_mall.Protocol.{
  Wire, Hello, Content, get_field, control_channel_hello, data_channel_hello, create_data_channel,
  start_forward_tcp, serialize_hello, serialize_command,
}
use ncx_for_mall.Framing.{header_installer, read_msg}
use ncx_for_mall.Socket.{ReadResult, Exit, leaves, closes, loops, read_loop}
use ncx_for_mall.Connection.{
  Connection, Handler, no_handler, hello_handler, forward_to, Owner, main_server, proxy_server,
  Notice, new_connection, connection_established,
}
use ncx_for_mall.Server.{
  Server, SControlChannel, Bridge, Text, put_conn, put_channel, is_alive, handle_close,
}

unfoldable pub log_send : ℕ → Text → Server → Server
log_send p msg s = record s { sends = (p, msg) ∷ s.sends }

abbrev pub put_input : Server → ℕ → Buffer → Server
put_input s p b = put_conn s p (record (s.conn p) { input_buffer = b })

-- Both λs of `handle_data_channel_hello`, behind their weak pointer: all that is there is sent on.
unfoldable pub send_all : ℕ → ℕ → Server → Result Server
send_all p peer s = do
  (text, rest) ← retrieve_all_as_string (s.conn p).input_buffer
  ok (log_send peer text (put_input s p rest))

unfoldable pub forward_bytes : ℕ → ℕ → Server → Result Server
unfolding send_all
forward_bytes p peer s =
    if ltb 0 (readable_bytes (s.conn p).input_buffer) then send_all p peer s else ok s

unfoldable pub forward : ℕ → ℕ → Server → Result Server
unfolding forward_bytes
forward p peer s = if is_alive s peer then forward_bytes p peer s else ok s

-- `SControlChannel::pop_visitor`: `front` of an empty queue is an access outside it.
unfoldable pub pop_visitor : List ℕ → Result (ℕ × List ℕ)
pop_visitor [] = err out_of_bounds
pop_visitor (visitor ∷ rest) = ok (visitor, rest)

-- `sc_map_->at(nonce)`
unfoldable pub find_channel : Server → Text → Result SControlChannel
find_channel s nonce = elim (lookup nonce s.sc_map) [ none ↦ err out_of_range | some sc ↦ ok sc ]

-- The two ends get their handlers and their notices.
unfoldable pub join_ends : ℕ → ℕ → Notice → Server → Server
join_ends visitor origin notice s =
    let inside = record (s.conn visitor) {
      on_message = forward_to origin;
      notice_on_close = some notice;
    } in
    let s' = put_conn s visitor inside in
    put_conn s' origin
      (record (s'.conn origin) { on_message = forward_to visitor; notice_on_close = some notice })

-- The control channel after `pop_visitor` and `register_bridge_closer`.
unfoldable pub open_bridge : Text → ℕ → ℕ → List ℕ → SControlChannel → SControlChannel
open_bridge bridge_id visitor origin rest sc = record sc {
  wait_handle_visitors = rest;
  bridge_closers =
      emplace bridge_id (record { inside = visitor; outside = origin }) sc.bridge_closers;
}

-- `connections[newConn->get_conn_id()] = …`
unfoldable pub add_connection : Owner → ℕ → ℕ → Server → Server
add_connection main_server conn_id p s = record s { connections = insert conn_id p s.connections }
add_connection (proxy_server nonce) conn_id p s = elim (lookup nonce s.sc_map) [
  | none ↦ s
  | some sc ↦ put_channel s nonce (record sc { connections = insert conn_id p sc.connections })
]

-- `on_message_` as the server that accepts the connection sets it: `bind_on_message` is called on the
-- main server only.
abbrev first_handler : Owner → Handler
first_handler main_server = hello_handler
first_handler (proxy_server nonce) = no_handler

module _ (w : Wire) where
  -- `SControlChannel::handle_new_outside_connection`
  unfoldable pub handle_new_outside_connection : Text → ℕ → Server → Server
  handle_new_outside_connection nonce p s = elim (lookup nonce s.sc_map) [
    | none ↦ s
    | some sc ↦
        log_send sc.ncx_client_conn
          (header_installer w (serialize_command w (record { cmd = some create_data_channel })))
          (put_channel s nonce
            (record sc { wait_handle_visitors = sc.wait_handle_visitors ++ p ∷ [] }))
  ]

  -- `on_conn_` of the accepting server.
  unfoldable pub on_conn : Owner → ℕ → Server → Server
  on_conn main_server p s = s
  on_conn (proxy_server nonce) p s = handle_new_outside_connection nonce p s

  -- `Server::newConnectionHandle`
  unfoldable pub new_connection_handle : Owner → ℕ → ℕ → Server → Server
  unfolding on_conn add_connection
  new_connection_handle owner conn_id client_fd s =
      let p = s.fresh in
      let (c, calls) = new_connection conn_id client_fd owner (first_handler owner) s.calls in
      let (c', calls') = connection_established c calls in
      let s' = record (put_conn s p c') { fresh = suc p; calls = calls' } in
      add_connection owner conn_id p (on_conn owner p s')

  unfoldable pub handle_control_channel_hello : Text → ℕ → ℕ → Server → Server
  handle_control_channel_hello nonce proxy_port origin s =
      let hello : Hello = record {
        hello_type = some control_channel_hello;
        digest = some nonce;
        content = none;
      } in
      let s' = log_send origin (header_installer w (serialize_hello w hello)) s in
      record s' {
        sc_map =
            emplace nonce
              (record {
                ncx_client_conn = origin;
                proxy_port = proxy_port % 2 ^ 16;
                connections = [];
                wait_handle_visitors = [];
                bridge_closers = [];
              })
              s'.sc_map;
      }

  unfoldable pub handle_data_channel_hello : Text → Text → ℕ → Server → Result Server
  unfolding find_channel pop_visitor
  handle_data_channel_hello nonce bridge_id origin s = do
    sc ← find_channel s nonce
    (visitor, rest) ← pop_visitor sc.wait_handle_visitors
    let notice : Notice = record { nonce = nonce; bridge_id = bridge_id }
    let joined =
        join_ends visitor origin notice
          (put_channel s nonce (open_bridge bridge_id visitor origin rest sc))
    forward_bytes visitor origin (
        log_send origin
          (header_installer w (serialize_command w (record { cmd = some start_forward_tcp })))
          joined)

  -- The `switch` on the type of a hello; another number than the two does nothing.
  unfoldable pub handle_hello : Hello → Text → ℕ → Server → Result Server
  handle_hello hello fresh_id origin s =
      let hello_type : ℕ = get_field hello.hello_type 0 in
      let content = get_field hello.content (record { service_name = none; proxy_port = none }) in
      if hello_type == control_channel_hello
      then ok (handle_control_channel_hello fresh_id (get_field content.proxy_port 0) origin s)
      else if hello_type == data_channel_hello
      then handle_data_channel_hello (get_field hello.digest []) fresh_id origin s
      else ok s

  -- `NServer::handle_new_connection`; a failed parse is reported, and the switch is made all the same.
  unfoldable pub handle_new_connection : Text → ℕ → Server → Result Server
  handle_new_connection fresh_id origin s = do
    (msg, rest) ← read_msg w (s.conn origin).input_buffer
    let s' = put_input s origin rest
    elim msg [ none ↦ ok s' | some text ↦ handle_hello (w.parse_hello text).1 fresh_id origin s' ]

  -- `Connection::handle_message`
  unfoldable pub handle_message : Text → ℕ → Server → Result Server
  handle_message fresh_id p s = elim (s.conn p).on_message [
    | no_handler ↦ ok s
    | hello_handler ↦ handle_new_connection fresh_id p s
    | forward_to peer ↦ forward p peer s
  ]

  -- `Connection::handle_data_in`: read, close if the loop says so, and then handle what was read.
  unfoldable pub handle_data_in : ℕ → List ReadResult → Text → ℕ → Server → Result Server
  handle_data_in fuel results fresh_id p s = do
    (input, exit) ← read_loop (s.conn p).input_buffer results
    let filled = put_input s p input
    closed ← elim exit [ closes ↦ handle_close fuel p filled | _ ↦ ok filled ]
    handle_message fresh_id p closed
