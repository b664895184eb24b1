-- ===== src/Connection.antt =====
-- network/connection.h and network/connection.cpp: a connection, its state and its channel. A
-- callback is named by a constructor; what it does is in NServer, whose handlers are set on the
-- connections of the server.
pub mod Life
use ncx_for_mall.Prelude.{ℕ, List, Option, none, some, Bool, true, false, Result, ok, ◌>>=◌, length}
use ncx_for_mall.Buffer.{Buffer, new_buffer, retrieve_as_string}
use ncx_for_mall.Channel.{Channel, Ctl, new_channel, ask, enable_read, disable_all, remove}

pub data ConnectionState : Type 0 where
  connecting connected disconnecting disconnected : ConnectionState

-- `on_message_`: none is set, `NServer::handle_new_connection`, or the λ that forwards to a weakly
-- held connection, by its number.
pub data Handler : Type 0 where
  no_handler hello_handler : Handler
  forward_to : ℕ → Handler

-- `on_close_`, which is `Server::disconnectHandle` of the server that accepted the connection: the
-- main one, or that of the control channel with the given nonce.
pub data Owner : Type 0 where
  main_server : Owner
  proxy_server : List ℕ → Owner

-- `notice_on_close_`: the control channel's nonce and the id of the bridge to cut off.
pub record Notice : Type 0 where
  pub nonce : List ℕ
  pub bridge_id : List ℕ

pub record Connection : Type 0 where
  pub conn_id : ℕ
  pub state : ConnectionState
  pub channel : Channel
  pub input_buffer : Buffer
  pub on_message : Handler
  pub on_close : Owner
  pub notice_on_close : Option Notice

-- The constructor, with `set_read_callback` and its `enableRead`. The number is drawn at random.
unfoldable pub new_connection : ℕ → ℕ → Owner → Handler → List Ctl → Connection × List Ctl
new_connection conn_id client_fd owner on_message calls =
    let (channel, calls') = ask (new_channel client_fd) enable_read calls in
    (
      record {
        conn_id = conn_id;
        state = connecting;
        channel = channel;
        input_buffer = new_buffer;
        on_message = on_message;
        on_close = owner;
        notice_on_close = none;
      },
      calls',
    )

-- `ConnectionEstablished`, up to `handle_conn`.
unfoldable pub connection_established : Connection → List Ctl → Connection × List Ctl
connection_established c calls =
    let (channel, calls') = ask c.channel enable_read calls in
    (record c { state = connected; channel = channel }, calls')

-- The first statement of `ConnectionConstructor`, by the state.
disable_if_connected : Connection → ConnectionState → List Ctl → Connection × List Ctl
disable_if_connected c connected calls =
    let (channel, calls') = ask c.channel disable_all calls in
    (record c { state = disconnected; channel = channel }, calls')
disable_if_connected c _ calls = (c, calls)

-- `ConnectionConstructor`
unfoldable pub connection_constructor : Connection → List Ctl → Connection × List Ctl
unfolding disable_if_connected
connection_constructor c calls =
    let (c', calls') = disable_if_connected c c.state calls in
    let (channel, calls'') = ask c'.channel remove calls' in
    (record c' { channel = channel }, calls'')

-- The setters that change a connection.
unfoldable pub set_message_handle : Handler → Connection → Connection
set_message_handle on_message c = record c { on_message = on_message }

unfoldable pub set_close_handle : Owner → Connection → Connection
set_close_handle on_close c = record c { on_close = on_close }

unfoldable pub set_close_notice : Notice → Connection → Connection
set_close_notice notice c = record c { notice_on_close = some notice }

-- `Recv` with a length, and with that of the text it is given.
unfoldable pub recv : ℕ → Connection → Result (List ℕ × Connection)
recv len c = do
  (msg, rest) ← retrieve_as_string c.input_buffer len
  ok (msg, record c { input_buffer = rest })

unfoldable pub recv_into : List ℕ → Connection → Result (List ℕ × Connection)
unfolding recv
recv_into msg c = recv (length msg) c
