-- ===== src/NServer/Opening.antt =====
-- ncx_server/nserver.cpp, ncx_server/scontrolchannel.cpp and network/server.cpp: the way from a
-- client's hello to a bridge.
use ncx_for_mall.Prelude.{ℕ, ◌≡◌, ◌≢◌, refl, sym, ap, ◌∙◌, [], ◌∷◌, ◌++◌, none, some, Result, ok}
use ncx_for_mall.Prelude.Maps.{lookup, nat_eq, text_eq, beq_self}
use mathlib.Core.Path.{subst}
use ncx_for_mall.Buffer.Invariant.{IsValid, contents, new_buffer-IsValid}
use ncx_for_mall.Protocol.{Wire, create_data_channel, start_forward_tcp}
use ncx_for_mall.Connection.{
  Connection, connected, main_server, proxy_server, Notice, new_connection, connection_established,
}
use ncx_for_mall.Server.{Server, SControlChannel, Text}
use ncx_for_mall.NServer.{
  log_send, handle_control_channel_hello, new_connection_handle, handle_data_channel_hello,
}
use ncx_for_mall.Server.Bridges.{Bridged}
use ncx_for_mall.NServer.Forwarding.{pending}
use ncx_for_mall.NServer.Tunnel.{Ready, join_lem}
use ncx_for_mall.NServer.Handshake.{
  new_channel_of, hello_frame, command_frame, greeted-found, queued, visitor, visited-found,
  visited-other, visited-visitor, visited-connections, visited-sends,
}

-- What the server does from a control channel's hello to the bridge: the answer, one visitor on the
-- proxy's port, and the hello of the data channel `o` that the client opens for it.
abbrev pub open_tunnel : Wire → Server → Text → Text → ℕ → ℕ → ℕ → ℕ → ℕ → Result Server
open_tunnel w s nonce bridge_id proxy_port conn_id client_fd c o =
    handle_data_channel_hello w nonce bridge_id o (
      new_connection_handle w (proxy_server nonce) conn_id client_fd
        (handle_control_channel_hello w nonce proxy_port c s))

module _ (w : Wire) (s : Server) (nonce bridge_id : Text) (proxy_port conn_id client_fd c o : ℕ)
    (unused : lookup nonce s.sc_map ≡ none) (older : o ≢ s.fresh)
    (open_origin : (s.conn o).state ≡ connected) (main_origin : (s.conn o).on_close ≡ main_server)
    (held : lookup (s.conn o).conn_id s.connections ≡ some o) where
  abbrev hello_done : Server
  hello_done = handle_control_channel_hello w nonce proxy_port c s

  abbrev visit_done : Server
  visit_done = new_connection_handle w (proxy_server nonce) conn_id client_fd hello_done

  abbrev notice_of : Notice
  notice_of = record { nonce = nonce; bridge_id = bridge_id }

  hello_found : lookup nonce hello_done.sc_map ≡ some (new_channel_of proxy_port c)
  hello_found = greeted-found w s nonce proxy_port c unused

  abbrev channel_of : SControlChannel
  channel_of = queued w hello_done nonce conn_id client_fd (new_channel_of proxy_port c) hello_found

  origin_kept : visit_done.conn o ≡ s.conn o
  unfolding handle_control_channel_hello log_send
  origin_kept =
      visited-other w hello_done nonce conn_id client_fd (new_channel_of proxy_port c) hello_found o
        older

  visitor_new :
      visit_done.conn s.fresh
      ≡ (visitor w hello_done nonce conn_id client_fd (new_channel_of proxy_port c) hello_found).0
  unfolding handle_control_channel_hello log_send
  visitor_new =
      visited-visitor w hello_done nonce conn_id client_fd (new_channel_of proxy_port c) hello_found

  visit-Ready : Ready visit_done notice_of channel_of s.fresh o []
  unfolding handle_control_channel_hello log_send new_connection connection_established
  visit-Ready = record {
    found =
        visited-found w hello_done nonce conn_id client_fd (new_channel_of proxy_port c)
          hello_found;
    queue = refl;
    new_id = refl;
    distinct = λ e. older (sym e);
    visitor_state = ap (λ (x : Connection). x.state) visitor_new;
    visitor_owner = ap (λ (x : Connection). x.on_close) visitor_new;
    visitor_held =
        ap (λ (x : Connection). lookup x.conn_id channel_of.connections) visitor_new
        ∙ rw (beq_self conn_id);
    visitor_input =
        subst (λ (x : Connection). IsValid x.input_buffer) (sym visitor_new) new_buffer-IsValid.0;
    origin_state = ap (λ (x : Connection). x.state) origin_kept ∙ open_origin;
    origin_owner = ap (λ (x : Connection). x.on_close) origin_kept ∙ main_origin;
    origin_held =
        ap (λ (x : Connection). lookup x.conn_id visit_done.connections) origin_kept
        ∙ ap (λ m. lookup (s.conn o).conn_id m)
            (visited-connections w hello_done nonce conn_id client_fd (new_channel_of proxy_port c)
              hello_found)
        ∙ held;
  }

  -- The server, given a client's hello under a new nonce, one visitor on the proxy's port and the
  -- hello of the client's data channel, an open connection of the main server, returns without a
  -- fault: visitor and data channel are the ends of a bridge, no visitor waits, and exactly three
  -- texts were sent, which are the answer to the hello, the command that asks the client for a data
  -- channel and, on that channel, the start command, in this order.
  pub open_tunnel_lem :
      (s' : Server) × (channel : SControlChannel) × (open_tunnel w s nonce bridge_id proxy_port
          conn_id client_fd c o
        ≡ ok s')
      × Bridged s' notice_of channel s.fresh o
      × (channel.wait_handle_visitors ≡ [])
      × (s'.sends
          ≡ (o, command_frame w start_forward_tcp)
            ∷ (c, command_frame w create_data_channel)
            ∷ (c, hello_frame w nonce)
            ∷ s.sends)
  unfolding handle_control_channel_hello log_send new_connection connection_established
  open_tunnel_lem =
      let (s', e, j) = join_lem w visit_done notice_of channel_of s.fresh o [] visit-Ready in
      let quiet : pending o (contents (visit_done.conn s.fresh).input_buffer) ≡ [] =
        ap (λ (x : Connection). pending o (contents x.input_buffer)) visitor_new
        ∙ ap (λ t. pending o t) new_buffer-IsValid.1 in
      let sends =
        visited-sends w hello_done nonce conn_id client_fd (new_channel_of proxy_port c)
          hello_found in
      (
        s',
        j.channel,
        e,
        j.bridged,
        j.queue,
        j.sent
            ∙ ap (λ l. l ++ (o, command_frame w start_forward_tcp) ∷ visit_done.sends) quiet
            ∙ ap (λ l. (o, command_frame w start_forward_tcp) ∷ l) sends,
      )
