-- ===== src/Client.antt =====
-- ncx_client/datachannel.h, ncx_client/datachannel.cpp, ncx_client/ccontrolchannel.cpp and
-- ncx_client/nclient.cpp: the client's control channel and its data channels. `Client::connect` ends
-- with the connection established, as `Connector::startInLoop` does on the loop's thread. Ids that the
-- UUID generator makes are arguments.
pub mod Control
pub mod Duplex
pub mod Relay
pub mod Registration
pub mod Startup
use ncx_for_mall.Prelude.{
  ℕ, List, [], ◌∷◌, Option, none, some, Bool, true, false, ltb, ◌==◌, if◌then◌else◌, Result, ok,
  check, null_pointer, ◌>>◌, ◌>>=◌,
}
use ncx_for_mall.Prelude.Maps.{lookup, insert, emplace, erase, text_eq}
use ncx_for_mall.Buffer.{Buffer, new_buffer, readable_bytes, retrieve_all_as_string}
use ncx_for_mall.Protocol.{
  Wire, Hello, Command, get_field, control_channel_hello, data_channel_hello, create_data_channel,
  start_forward_tcp, serialize_hello,
}
use ncx_for_mall.Framing.{header_installer, read_msg}

-- `DataChannel` with its two connections: what has come in from the server and from the service,
-- whether the service's client has a connection, and what was sent to the server and to the service,
-- the last text first.
pub record DataChannel : Type 0 where
  pub channel_id : List ℕ
  pub nonce : List ℕ
  pub forwards : Bool
  pub server_input : Buffer
  pub service_input : Buffer
  pub service_open : Bool
  pub to_server : List (List ℕ)
  pub to_service : List (List ℕ)

-- The λ that `do_data_channel_transforward` sets on the server's connection; `get_connection` of a
-- client that has none is a null pointer.
unfoldable pub send_to_service : DataChannel → Result DataChannel
send_to_service d = do
  check d.service_open null_pointer
  (text, rest) ← retrieve_all_as_string d.server_input
  ok (record d { server_input = rest; to_service = text ∷ d.to_service })

unfoldable pub forward_to_service : DataChannel → Result DataChannel
unfolding send_to_service
forward_to_service d = if ltb 0 (readable_bytes d.server_input) then send_to_service d else ok d

-- `do_data_channel_transforward`, which connects to the service and forwards at once what is there
-- already.
unfoldable pub do_data_channel_transforward : DataChannel → Result DataChannel
unfolding forward_to_service
do_data_channel_transforward d =
    forward_to_service (record d { forwards = true; service_open = true })

-- The stages of `CControlChannel`, by the handler of its connection.
pub data Stage : Type 0 where
  connects waits_hello waits_cmd : Stage

pub record CControlChannel : Type 0 where
  pub id : List ℕ
  pub service_name : List ℕ
  pub proxy_port : ℕ
  pub stage : Stage
  pub input : Buffer
  pub data_pool : List (List ℕ × DataChannel)
  pub to_server : List (List ℕ)

-- `cc_map_` of `NClient`: a channel by its number, or an empty `unique_ptr`.
abbrev pub CControlChannelMap : Type 0
CControlChannelMap = List (List ℕ × Option ℕ)

-- `cc_map_[old_id]`, which makes an entry if there is none.
abbrev pub entry : CControlChannelMap → List ℕ → Option ℕ
entry m id = elim (lookup id m) [ none ↦ none | some channel ↦ channel ]

-- `register_control_channel_`: `emplace` moves the pointer out of the old entry, and drops it if the
-- new id is there already; the old entry is erased.
unfoldable pub register_control_channel : List ℕ → List ℕ → CControlChannelMap → CControlChannelMap
register_control_channel old_id new_id m =
    erase old_id (emplace new_id (entry m old_id) (insert old_id none m))

-- `CControlChannel::handle_control_channel_hello`
unfoldable pub handle_server_nonce :
    List ℕ → CControlChannel → CControlChannelMap → CControlChannel × CControlChannelMap
unfolding register_control_channel
handle_server_nonce nonce c m = (record c { id = nonce }, register_control_channel c.id nonce m)

module _ (w : Wire) where
  -- `do_data_channel_handshake`
  unfoldable pub do_data_channel_handshake : DataChannel → DataChannel
  do_data_channel_handshake d =
      let hello : Hello = record {
        hello_type = some data_channel_hello;
        digest = some d.nonce;
        content = none;
      } in
      record d { to_server = header_installer w (serialize_hello w hello) ∷ d.to_server }

  -- The constructor, which connects to the server and so shakes hands.
  unfoldable pub new_data_channel : List ℕ → List ℕ → DataChannel
  unfolding do_data_channel_handshake
  new_data_channel channel_id nonce = do_data_channel_handshake (record {
    channel_id = channel_id;
    nonce = nonce;
    forwards = false;
    server_input = new_buffer;
    service_input = new_buffer;
    service_open = false;
    to_server = [];
    to_service = [];
  })

  -- The `switch` of `wait_data_channel_start_cmd`
  unfoldable pub handle_start_cmd : Command → DataChannel → Result DataChannel
  unfolding do_data_channel_transforward
  handle_start_cmd command d =
      if get_field command.cmd 0 == start_forward_tcp then do_data_channel_transforward d else ok d

  unfoldable pub wait_data_channel_start_cmd : DataChannel → Result DataChannel
  unfolding handle_start_cmd
  wait_data_channel_start_cmd d = do
    (msg, rest) ← read_msg w d.server_input
    let d' = record d { server_input = rest }
    elim msg [ none ↦ ok d' | some text ↦ handle_start_cmd (w.parse_command text).1 d' ]

  -- `do_control_channel_handshake`
  unfoldable pub do_control_channel_handshake : CControlChannel → CControlChannel
  do_control_channel_handshake c =
      let hello : Hello = record {
        hello_type = some control_channel_hello;
        digest = none;
        content =
            some (record { service_name = some c.service_name; proxy_port = some c.proxy_port });
      } in
      record c {
        stage = waits_hello;
        to_server = header_installer w (serialize_hello w hello) ∷ c.to_server;
      }

  -- `wait_control_channel_hello`; after any message the channel waits for commands.
  unfoldable pub handle_hello_back :
      Hello → CControlChannel → CControlChannelMap → CControlChannel × CControlChannelMap
  unfolding handle_server_nonce
  handle_hello_back hello c m =
      let (c', m') : CControlChannel × CControlChannelMap =
        if get_field hello.hello_type 0 == control_channel_hello
        then handle_server_nonce (get_field hello.digest []) c m
        else (c, m) in
      (record c' { stage = waits_cmd }, m')

  unfoldable pub wait_control_channel_hello :
      CControlChannel → CControlChannelMap → Result (CControlChannel × CControlChannelMap)
  unfolding handle_hello_back
  wait_control_channel_hello c m = do
    (msg, rest) ← read_msg w c.input
    let c' = record c { input = rest }
    elim msg [ none ↦ ok (c', m) | some text ↦ ok (handle_hello_back (w.parse_hello text).1 c' m) ]

  -- `handle_cmd_create_datachannel`
  unfoldable pub handle_cmd_create_datachannel : List ℕ → CControlChannel → CControlChannel
  unfolding new_data_channel
  handle_cmd_create_datachannel channel_id c = record c {
    data_pool = emplace channel_id (new_data_channel channel_id c.id) c.data_pool;
  }

  -- `wait_server_cmd`
  unfoldable pub handle_server_cmd : Command → List ℕ → CControlChannel → CControlChannel
  unfolding handle_cmd_create_datachannel
  handle_server_cmd command channel_id c =
      if get_field command.cmd 0 == create_data_channel
      then handle_cmd_create_datachannel channel_id c
      else c

  unfoldable pub wait_server_cmd : List ℕ → CControlChannel → Result CControlChannel
  unfolding handle_server_cmd
  wait_server_cmd channel_id c = do
    (msg, rest) ← read_msg w c.input
    let c' = record c { input = rest }
    elim msg [
      | none ↦ ok c'
      | some text ↦ ok (handle_server_cmd (w.parse_command text).1 channel_id c')
    ]
