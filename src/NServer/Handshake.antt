-- ===== src/NServer/Handshake.antt =====
-- ncx_server/nserver.cpp and ncx_server/scontrolchannel.cpp: what a control channel's hello
-- and a new visitor do to the server.
use ncx_for_mall.Prelude.{
  ℕ, suc, ◌≡◌, ◌≢◌, refl, sym, ap, ◌∙◌, List, [], ◌∷◌, ◌++◌, none, some, ◌%◌, ◌^◌, ne→beq_false,
}
use ncx_for_mall.Prelude.Maps.{
  lookup, insert, nat_eq, text_eq, lookup-insert, lookup-emplace, beq_self,
}
use ncx_for_mall.Protocol.{
  Wire, control_channel_hello, serialize_hello, serialize_command, create_data_channel,
}
use ncx_for_mall.Framing.{header_installer}
use ncx_for_mall.Connection.{
  Connection, no_handler, proxy_server, new_connection, connection_established,
}
use ncx_for_mall.Channel.{Ctl}
use ncx_for_mall.Server.{Server, SControlChannel, Text, put_conn, put_channel}
use ncx_for_mall.NServer.{
  log_send, add_connection, on_conn, handle_new_outside_connection, handle_control_channel_hello,
  new_connection_handle,
}

-- A control channel as its hello creates it.
abbrev pub new_channel_of : ℕ → ℕ → SControlChannel
new_channel_of proxy_port c = record {
  ncx_client_conn = c;
  proxy_port = proxy_port % 2 ^ 16;
  connections = [];
  wait_handle_visitors = [];
  bridge_closers = [];
}

-- The text of the answer to a control channel's hello, and of a command, with their headers.
abbrev pub hello_frame : Wire → Text → Text
hello_frame w nonce = header_installer w (
    serialize_hello w
      (record { hello_type = some control_channel_hello; digest = some nonce; content = none }))

abbrev pub command_frame : Wire → ℕ → Text
command_frame w code = header_installer w (serialize_command w (record { cmd = some code }))

module _ (w : Wire) (s : Server) (nonce : Text) (proxy_port c : ℕ)
    (unused : lookup nonce s.sc_map ≡ none) where
  abbrev greeted : Server
  greeted = handle_control_channel_hello w nonce proxy_port c s

  pub greeted-found : lookup nonce greeted.sc_map ≡ some (new_channel_of proxy_port c)
  unfolding handle_control_channel_hello log_send
  greeted-found =
      rw (lookup-emplace nonce nonce (new_channel_of proxy_port c) s.sc_map unused, beq_self nonce)

  -- The answer is sent, and no connection changes.
  pub greeted-rest :
      (greeted.sends ≡ (c, hello_frame w nonce) ∷ s.sends)
      × (greeted.conn ≡ s.conn)
      × (greeted.connections ≡ s.connections)
      × (greeted.fresh ≡ s.fresh)
  unfolding handle_control_channel_hello log_send
  greeted-rest = (refl, refl, refl, refl)

module _ (w : Wire) (s : Server) (nonce : Text) (conn_id client_fd : ℕ) (sc : SControlChannel)
    (found : lookup nonce s.sc_map ≡ some sc) where
  abbrev visited : Server
  visited = new_connection_handle w (proxy_server nonce) conn_id client_fd s

  -- The control channel behind the visitor.
  abbrev pub queued : SControlChannel
  queued = record sc {
    connections = insert conn_id s.fresh sc.connections;
    wait_handle_visitors = sc.wait_handle_visitors ++ s.fresh ∷ [];
  }

  -- The visitor's connection, as its constructor and `ConnectionEstablished` leave it.
  abbrev pub visitor : Connection × List Ctl
  visitor =
      let (c, calls) = new_connection conn_id client_fd (proxy_server nonce) no_handler s.calls in
      connection_established c calls

  abbrev base : Server
  base = record (put_conn s s.fresh visitor.0) { fresh = suc s.fresh; calls = visitor.1 }

  abbrev waiting : SControlChannel
  waiting = record sc { wait_handle_visitors = sc.wait_handle_visitors ++ s.fresh ∷ [] }

  abbrev asked : Server
  asked =
      log_send sc.ncx_client_conn (command_frame w create_data_channel)
        (put_channel base nonce waiting)

  on_conn-found : on_conn w (proxy_server nonce) s.fresh base ≡ asked
  unfolding on_conn handle_new_outside_connection
  on_conn-found = rw (handle_new_outside_connection, found)

  asked-found : lookup nonce asked.sc_map ≡ some waiting
  unfolding log_send
  asked-found = rw (lookup-insert nonce nonce waiting s.sc_map, beq_self nonce)

  added : add_connection (proxy_server nonce) conn_id s.fresh asked ≡ put_channel asked nonce queued
  unfolding add_connection
  added = rw (add_connection, asked-found)

  visited-is : visited ≡ put_channel asked nonce queued
  unfolding new_connection_handle add_connection
  visited-is = ap (λ x. add_connection (proxy_server nonce) conn_id s.fresh x) on_conn-found ∙ added

  pub visited-found : lookup nonce visited.sc_map ≡ some queued
  visited-found =
      ap (λ (x : Server). lookup nonce x.sc_map) visited-is
      ∙ rw (lookup-insert nonce nonce queued asked.sc_map, beq_self nonce)

  -- One command is sent, to the client of the control channel.
  pub visited-sends :
      visited.sends ≡ (sc.ncx_client_conn, command_frame w create_data_channel) ∷ s.sends
  unfolding log_send
  visited-sends = ap (λ (x : Server). x.sends) visited-is

  pub visited-connections : visited.connections ≡ s.connections
  unfolding log_send
  visited-connections = ap (λ (x : Server). x.connections) visited-is

  pub visited-visitor : visited.conn s.fresh ≡ visitor.0
  unfolding log_send
  visited-visitor = ap (λ (x : Server). x.conn s.fresh) visited-is ∙ rw (beq_self s.fresh)

  pub visited-other : (q : ℕ) → q ≢ s.fresh → visited.conn q ≡ s.conn q
  unfolding log_send
  visited-other q h =
      ap (λ (x : Server). x.conn q) visited-is ∙ rw (ne→beq_false s.fresh q (λ e. h (sym e)))

  pub visited-fresh : visited.fresh ≡ suc s.fresh
  unfolding log_send
  visited-fresh = ap (λ (x : Server). x.fresh) visited-is
