-- ===== src/Tests/Bridges.antt =====
-- A server with one tunnel.
use ncx_for_mall.Prelude.{
  ℕ, ◌≡◌, refl, List, [], ◌∷◌, Option, none, some, true, arith, ◌==◌, if◌then◌else◌, ok,
}
use ncx_for_mall.Prelude.Maps.{lookup, nat_eq, text_eq}
use ncx_for_mall.Buffer.{Buffer}
use ncx_for_mall.Buffer.Invariant.{IsValid, contents}
use ncx_for_mall.Protocol.{create_data_channel, start_forward_tcp}
use ncx_for_mall.Socket.{ReadResult, bytes, would_block, interrupted}
use ncx_for_mall.Connection.{
  Connection, connected, disconnected, Handler, hello_handler, forward_to, Owner, main_server,
  proxy_server, Notice,
}
use ncx_for_mall.Server.{Server, SControlChannel, Text, handle_close}
use ncx_for_mall.Server.Bridges.{Bridged, BothClosed}
use ncx_for_mall.Server.Bridges.Origin.{origin_closes}
use ncx_for_mall.Server.Bridges.Visitor.{visitor_closes}
use ncx_for_mall.Server.Fuel.{Ends, handle_close-Ends}
use ncx_for_mall.Server.Waiting.{waiting_closed}
use ncx_for_mall.NServer.{forward_bytes, handle_data_in, handle_data_channel_hello}
use ncx_for_mall.NServer.Forwarding.{Forwarded, forward_bytes-Forwarded}
use ncx_for_mall.NServer.Tunnel.{Ready, Joined, join_lem}
use ncx_for_mall.NServer.Handshake.{command_frame, hello_frame}
use ncx_for_mall.NServer.Opening.{open_tunnel, open_tunnel_lem}
use ncx_for_mall.NServer.Throughput.{data_through}
use ncx_for_mall.Tests.Samples.{sample_wire, sample_buffer, sample_buffer-IsValid, empty_buffer}

abbrev pub connection_of : ℕ → Buffer → Handler → Owner → Option Notice → Connection
connection_of id input handler owner notice = record {
  conn_id = id;
  state = connected;
  channel = record { fd = id; listen_events = 3; ready_events = 0; is_epolled = true };
  input_buffer = input;
  on_message = handler;
  on_close = owner;
  notice_on_close = notice;
}

abbrev nonce_a : Text
nonce_a = 97 ∷ []

abbrev notice_b : Notice
notice_b = record { nonce = nonce_a; bridge_id = 98 ∷ [] }

-- Two connections of the main server; the visitor will be the third.
abbrev pub fresh_server : Server
fresh_server = record {
  conn = λ p. connection_of p empty_buffer hello_handler main_server none;
  fresh = 2;
  connections = (0, 0) ∷ (1, 1) ∷ [];
  sc_map = [];
  calls = [];
  sends = [];
}

open_tunnel_lem_example :
    (s' : Server) × (channel : SControlChannel) × (open_tunnel sample_wire fresh_server nonce_a
        (98 ∷ [])
        8080
        5
        9
        0
        1
      ≡ ok s')
    × Bridged s' notice_b channel 2 1
    × (channel.wait_handle_visitors ≡ [])
    × (s'.sends
        ≡ (1, command_frame sample_wire start_forward_tcp)
          ∷ (0, command_frame sample_wire create_data_channel)
          ∷ (0, hello_frame sample_wire nonce_a)
          ∷ [])
open_tunnel_lem_example =
    open_tunnel_lem sample_wire fresh_server nonce_a (98 ∷ []) 8080 5 9 0 1 refl (λ e. omega arith)
      refl refl refl

-- The visitors 2 and 3 wait, and the first has sent three bytes.
abbrev waiting_channel : SControlChannel
waiting_channel = record {
  ncx_client_conn = 0;
  proxy_port = 8080;
  connections = (5, 2) ∷ (6, 3) ∷ [];
  wait_handle_visitors = 2 ∷ 3 ∷ [];
  bridge_closers = [];
}

abbrev waiting_conn : ℕ → Connection
waiting_conn p =
    if p == 2
    then connection_of 5 sample_buffer hello_handler (proxy_server nonce_a) none
    else connection_of p empty_buffer hello_handler main_server none

abbrev waiting_server : Server
waiting_server = record fresh_server {
  conn = waiting_conn;
  fresh = 4;
  sc_map = (nonce_a, waiting_channel) ∷ [];
}

waiting_server-Ready : Ready waiting_server notice_b waiting_channel 2 1 (3 ∷ [])
waiting_server-Ready = record {
  found = refl;
  queue = refl;
  new_id = refl;
  distinct = λ e. omega arith;
  visitor_state = refl;
  visitor_owner = refl;
  visitor_held = refl;
  visitor_input = sample_buffer-IsValid;
  origin_state = refl;
  origin_owner = refl;
  origin_held = refl;
}

join_lem_example :
    (s' : Server) × (handle_data_channel_hello sample_wire nonce_a (98 ∷ []) 1 waiting_server
      ≡ ok s')
    × Joined sample_wire waiting_server notice_b 2 1 (3 ∷ []) s'
join_lem_example =
    join_lem sample_wire waiting_server notice_b waiting_channel 2 1 (3 ∷ []) waiting_server-Ready

forward_bytes-Forwarded_example :
    (s' : Server) × (forward_bytes 2 1 waiting_server ≡ ok s') × Forwarded 2 1 waiting_server s'
forward_bytes-Forwarded_example = forward_bytes-Forwarded 2 1 waiting_server sample_buffer-IsValid

-- The visitor 2 and the data channel 1 are the ends of a bridge.
abbrev bridged_channel : SControlChannel
bridged_channel = record {
  ncx_client_conn = 0;
  proxy_port = 8080;
  connections = (5, 2) ∷ [];
  wait_handle_visitors = [];
  bridge_closers = (98 ∷ [], record { inside = 2; outside = 1 }) ∷ [];
}

abbrev bridged_conn : ℕ → Connection
bridged_conn p =
    if p == 2
    then connection_of 5 sample_buffer (forward_to 1) (proxy_server nonce_a) (some notice_b)
    else connection_of p empty_buffer (forward_to 2) main_server (some notice_b)

abbrev bridged_server : Server
bridged_server = record fresh_server {
  conn = bridged_conn;
  fresh = 3;
  sc_map = (nonce_a, bridged_channel) ∷ [];
}

bridged_server-Bridged : Bridged bridged_server notice_b bridged_channel 2 1
bridged_server-Bridged = record {
  found = refl;
  bridge = refl;
  distinct = λ e. omega arith;
  visitor_state = refl;
  visitor_notice = refl;
  visitor_owner = refl;
  visitor_held = refl;
  origin_state = refl;
  origin_notice = refl;
  origin_owner = refl;
  origin_held = refl;
}

origin_closes_example :
    (s' : Server) × (handle_close 2 1 bridged_server ≡ ok s')
    × BothClosed bridged_server notice_b 2 1 s'
origin_closes_example =
    origin_closes bridged_server notice_b bridged_channel 2 1 bridged_server-Bridged

visitor_closes_example :
    (s' : Server) × (handle_close 2 2 bridged_server ≡ ok s')
    × BothClosed bridged_server notice_b 2 1 s'
visitor_closes_example =
    visitor_closes bridged_server notice_b bridged_channel 2 1 bridged_server-Bridged

abbrev sample_calls : List ReadResult
sample_calls = bytes (4 ∷ 5 ∷ []) ∷ interrupted ∷ bytes (6 ∷ []) ∷ would_block ∷ []

data_through_example :
    (s' : Server) × (handle_data_in sample_wire 0 sample_calls [] 2 bridged_server ≡ ok s')
    × (s'.sends ≡ (1, 1 ∷ 2 ∷ 3 ∷ 4 ∷ 5 ∷ 6 ∷ []) ∷ [])
    × IsValid (s'.conn 2).input_buffer
    × (contents (s'.conn 2).input_buffer ≡ [])
data_through_example =
    data_through sample_wire 0 sample_calls [] 2 1 bridged_server sample_buffer-IsValid
      (omega arith) refl refl refl

handle_close-Ends_example : Ends bridged_server (handle_close 2 0 bridged_server)
handle_close-Ends_example = handle_close-Ends 2 0 bridged_server (omega arith)

waiting_closed_example :
    (s' : Server) × (channel : SControlChannel) × (handle_close 1 2 waiting_server ≡ ok s')
    × ((s'.conn 2).state ≡ disconnected)
    × (lookup nonce_a s'.sc_map ≡ some channel)
    × (channel.connections ≡ (6, 3) ∷ [])
    × (channel.wait_handle_visitors ≡ 2 ∷ 3 ∷ [])
waiting_closed_example = waiting_closed waiting_server nonce_a waiting_channel 2 refl refl refl refl
