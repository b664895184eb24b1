-- ===== src/Tests/Runs.antt =====
-- A server from its starts to its first tunnel, event by event.
use ncx_for_mall.Prelude.{
  ℕ, ◌+◌, ◌<◌, ◌≤◌, ◌≡◌, refl, inl, inr, List, [], ◌∷◌, ◌++◌, drop, get_or, none, some, true, arith,
  Result, ok, err,
}
use ncx_for_mall.Prelude.Maps.{nat_eq, text_eq}
use ncx_for_mall.Memory.{max_size, copy_into, write_loop, read_range}
use ncx_for_mall.Buffer.{
  append, new_buffer, ensure_writeable_bytes, readable_bytes, writeable_bytes, peek_as_string,
  retrieve, retrieve_as_string, retrieve_all,
}
use ncx_for_mall.Buffer.Invariant.{IsValid, contents}
use ncx_for_mall.Protocol.{Wire, HeaderLaws, serialize_hello, serialize_header, serialize_command}
use ncx_for_mall.Framing.{header_installer, take_header, take_msg, can_read_msg, read_msg}
use ncx_for_mall.Socket.{ReadResult, bytes, would_block, interrupted, read_loop}
use ncx_for_mall.Connection.{
  hello_handler, main_server, proxy_server, Notice, new_connection, connection_established,
}
use ncx_for_mall.Server.{Server, Bridge, Text, is_alive}
use ncx_for_mall.NServer.{
  new_connection_handle, handle_data_in, add_connection, on_conn, handle_new_outside_connection,
  log_send, handle_hello, handle_control_channel_hello, handle_new_connection, handle_message,
  find_channel, pop_visitor, join_ends, open_bridge, handle_data_channel_hello, forward_bytes,
}
use ncx_for_mall.NServer.Forwarding.{pending}
use ncx_for_mall.NServer.Sound.{IsSound}
use ncx_for_mall.NServer.Sound.Reads.{IsHandled}
use ncx_for_mall.NServer.Sound.Reach.{
  enough, first_server, Reach, starts, later, accepts, reads, handle_data_in-IsHandled,
  Reach-IsSound,
}
use ncx_for_mall.NServer.Sound.Apart.{HasBridge, bridges_apart, tunnel_through}
use ncx_for_mall.Tests.Samples.{sample_wire, sample_laws, empty_buffer}
use ncx_for_mall.Tests.Bridges.{connection_of}

-- The wire of the samples, with the hellos of clients: the type and, behind four bytes, the nonce.
abbrev run_wire : Wire
run_wire = record sample_wire {
  parse_hello = λ text. (
    true,
    record { hello_type = some (get_or text 1 0); digest = some (drop 4 text); content = none },
  );
}

run_laws : HeaderLaws run_wire
run_laws = record {
  fixed32_length = sample_laws.fixed32_length;
  header_back = sample_laws.header_back;
  header_bound = sample_laws.header_bound;
}

-- The frames of a control channel's hello, and of a data channel's with the nonce 97.
abbrev control_hello_frame : Text
control_hello_frame = 13 ∷ 4 ∷ 0 ∷ 0 ∷ 0 ∷ 8 ∷ 0 ∷ 18 ∷ 0 ∷ []

abbrev data_hello_frame : Text
data_hello_frame = 13 ∷ 5 ∷ 0 ∷ 0 ∷ 0 ∷ 8 ∷ 1 ∷ 18 ∷ 1 ∷ 97 ∷ []

abbrev value_or : Server → Result Server → Server
value_or s (ok t) = t
value_or s (err fault) = s

abbrev first : Server
first = first_server (λ q. connection_of q empty_buffer hello_handler main_server none)

-- The client's control connection is 0, the visitor 1 and the data channel 2.
abbrev accepted : Server
accepted = new_connection_handle run_wire main_server 5 9 first

abbrev greeted_event : Result Server
greeted_event =
    handle_data_in run_wire (enough accepted) (bytes control_hello_frame ∷ would_block ∷ [])
      (97 ∷ []) 0 accepted

abbrev greeted : Server
greeted = value_or accepted greeted_event

abbrev visited : Server
visited = new_connection_handle run_wire (proxy_server (97 ∷ [])) 6 10 greeted

abbrev dialled : Server
dialled = new_connection_handle run_wire main_server 7 11 visited

abbrev joined_event : Result Server
joined_event =
    handle_data_in run_wire (enough dialled) (bytes data_hello_frame ∷ would_block ∷ []) (98 ∷ []) 2
      dialled

abbrev joined : Server
joined = value_or dialled joined_event

greeted_event-ok : greeted_event ≡ ok greeted
unfolding append new_buffer ensure_writeable_bytes readable_bytes writeable_bytes peek_as_string
    retrieve retrieve_as_string retrieve_all copy_into write_loop read_range take_header take_msg
    can_read_msg read_msg read_loop new_connection connection_established add_connection on_conn
    handle_new_outside_connection log_send handle_hello handle_control_channel_hello
    handle_new_connection handle_message handle_data_in new_connection_handle
greeted_event-ok = refl

joined_event-ok : joined_event ≡ ok joined
unfolding append new_buffer ensure_writeable_bytes readable_bytes writeable_bytes peek_as_string
    retrieve retrieve_as_string retrieve_all copy_into write_loop read_range take_header take_msg
    can_read_msg read_msg read_loop new_connection connection_established add_connection on_conn
    handle_new_outside_connection log_send handle_hello handle_control_channel_hello
    handle_new_connection handle_message handle_data_in new_connection_handle find_channel
    pop_visitor join_ends open_bridge handle_data_channel_hello forward_bytes header_installer
    serialize_command serialize_hello serialize_header
joined_event-ok = refl

accepted-fits : (accepted.conn 0).input_buffer.write_index + 9 ≤ max_size
unfolding new_buffer new_connection connection_established add_connection on_conn
    new_connection_handle
accepted-fits = omega arith

dialled-fits : (dialled.conn 2).input_buffer.write_index + 10 ≤ max_size
unfolding append new_buffer ensure_writeable_bytes readable_bytes writeable_bytes peek_as_string
    retrieve retrieve_as_string retrieve_all copy_into write_loop read_range take_header take_msg
    can_read_msg read_msg read_loop new_connection connection_established add_connection on_conn
    handle_new_outside_connection log_send handle_hello handle_control_channel_hello
    handle_new_connection handle_message handle_data_in new_connection_handle
dialled-fits = omega arith

dialled-old : 2 < dialled.fresh
unfolding append new_buffer ensure_writeable_bytes readable_bytes writeable_bytes peek_as_string
    retrieve retrieve_as_string retrieve_all copy_into write_loop read_range take_header take_msg
    can_read_msg read_msg read_loop new_connection connection_established add_connection on_conn
    handle_new_outside_connection log_send handle_hello handle_control_channel_hello
    handle_new_connection handle_message handle_data_in new_connection_handle
dialled-old = omega arith

accepted-old : 0 < accepted.fresh
unfolding add_connection on_conn new_connection_handle
accepted-old = omega arith

dialled-Reach : Reach run_wire dialled
dialled-Reach =
    later
      (later
        (later
          (later (starts (λ q. connection_of q empty_buffer hello_handler main_server none))
            (accepts main_server 5 9))
          (reads 0 (bytes control_hello_frame ∷ would_block ∷ []) (97 ∷ []) greeted accepted-old
            accepted-fits greeted_event-ok))
        (accepts (proxy_server (97 ∷ [])) 6 10))
      (accepts main_server 7 11)

joined-Reach : Reach run_wire joined
joined-Reach = later dialled-Reach (
    reads 2 (bytes data_hello_frame ∷ would_block ∷ []) (98 ∷ []) joined dialled-old dialled-fits
      joined_event-ok)

Reach-IsSound_example : IsSound joined
Reach-IsSound_example = Reach-IsSound run_wire run_laws joined joined-Reach

abbrev tunnel : Notice
tunnel = record { nonce = 97 ∷ []; bridge_id = 98 ∷ [] }

abbrev tunnel_bridge : Bridge
tunnel_bridge = record { inside = 1; outside = 2 }

joined-HasBridge : HasBridge joined tunnel tunnel_bridge
unfolding append new_buffer ensure_writeable_bytes readable_bytes writeable_bytes peek_as_string
    retrieve retrieve_as_string retrieve_all copy_into write_loop read_range take_header take_msg
    can_read_msg read_msg read_loop new_connection connection_established add_connection on_conn
    handle_new_outside_connection log_send handle_hello handle_control_channel_hello
    handle_new_connection handle_message handle_data_in new_connection_handle find_channel
    pop_visitor join_ends open_bridge handle_data_channel_hello forward_bytes header_installer
    serialize_command serialize_hello serialize_header
joined-HasBridge = record {
  channel = record {
    ncx_client_conn = 0;
    proxy_port = 0;
    connections = (6, 1) ∷ [];
    wait_handle_visitors = [];
    bridge_closers = (98 ∷ [], tunnel_bridge) ∷ [];
  };
  found = refl;
  bridge = refl;
}

bridges_apart_example : (tunnel ≡ tunnel) × (tunnel_bridge ≡ tunnel_bridge) × (◌≡◌ {A = ℕ} 1 1)
bridges_apart_example =
    bridges_apart run_wire run_laws joined joined-Reach tunnel tunnel tunnel_bridge tunnel_bridge 2
      1 1 joined-HasBridge joined-HasBridge (inr (refl, refl)) (inr (refl, refl))

abbrev visitor_calls : List ReadResult
visitor_calls = bytes (1 ∷ 2 ∷ []) ∷ interrupted ∷ bytes (3 ∷ []) ∷ would_block ∷ []

joined-fits : (joined.conn 1).input_buffer.write_index + 3 ≤ max_size
unfolding append new_buffer ensure_writeable_bytes readable_bytes writeable_bytes peek_as_string
    retrieve retrieve_as_string retrieve_all copy_into write_loop read_range take_header take_msg
    can_read_msg read_msg read_loop new_connection connection_established add_connection on_conn
    handle_new_outside_connection log_send handle_hello handle_control_channel_hello
    handle_new_connection handle_message handle_data_in new_connection_handle find_channel
    pop_visitor join_ends open_bridge handle_data_channel_hello forward_bytes header_installer
    serialize_command serialize_hello serialize_header
joined-fits = omega arith

joined-alive : is_alive joined 2 ≡ true
unfolding append new_buffer ensure_writeable_bytes readable_bytes writeable_bytes peek_as_string
    retrieve retrieve_as_string retrieve_all copy_into write_loop read_range take_header take_msg
    can_read_msg read_msg read_loop new_connection connection_established add_connection on_conn
    handle_new_outside_connection log_send handle_hello handle_control_channel_hello
    handle_new_connection handle_message handle_data_in new_connection_handle find_channel
    pop_visitor join_ends open_bridge handle_data_channel_hello forward_bytes header_installer
    serialize_command serialize_hello serialize_header
joined-alive = refl

tunnel_through_example :
    (s' : Server) × (handle_data_in run_wire (enough joined) visitor_calls [] 1 joined ≡ ok s')
    × (s'.sends
        ≡ pending 2 (contents (joined.conn 1).input_buffer ++ 1 ∷ 2 ∷ 3 ∷ []) ++ joined.sends)
    × IsValid (s'.conn 1).input_buffer
    × (contents (s'.conn 1).input_buffer ≡ [])
tunnel_through_example =
    tunnel_through run_wire run_laws joined joined-Reach tunnel tunnel_bridge 1 2 visitor_calls []
      joined-HasBridge (inl (refl, refl)) joined-fits refl joined-alive

handle_data_in-IsHandled_example :
    IsHandled run_wire 2 dialled
      (contents (dialled.conn 2).input_buffer ++ data_hello_frame)
      joined_event
handle_data_in-IsHandled_example =
    handle_data_in-IsHandled run_wire run_laws 2 (bytes data_hello_frame ∷ would_block ∷ [])
      (98 ∷ []) dialled (Reach-IsSound run_wire run_laws dialled dialled-Reach) dialled-old
      dialled-fits
