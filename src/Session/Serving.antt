-- ===== src/Session/Serving.antt =====
-- ncx_server/nserver.cpp, network/server.cpp: the server's events of the run, from new connections on.
use ncx_for_mall.Prelude.{
  ℕ, suc, ◌+◌, ◌≤◌, ◌≡◌, ◌≢◌, refl, sym, ap, ◌∙◌, [], ◌∷◌, ◌++◌, none, some, ok, ne→beq_false,
}
use ncx_for_mall.Prelude.Maps.{lookup, insert, nat_eq, text_eq, beq_self, lookup-insert}
use ncx_for_mall.Memory.{max_size}
use ncx_for_mall.Buffer.{Buffer, new_buffer}
use ncx_for_mall.Protocol.{
  Wire, HeaderLaws, Hello, Content, get_field, control_channel_hello, serialize_hello,
  create_data_channel,
}
use ncx_for_mall.Framing.{header_installer}
use ncx_for_mall.Connection.{
  Connection, connected, hello_handler, main_server, proxy_server, new_connection,
  connection_established,
}
use ncx_for_mall.Server.{Server, SControlChannel, Text}
use ncx_for_mall.NServer.{
  put_input, on_conn, add_connection, new_connection_handle, handle_hello,
  handle_control_channel_hello, handle_data_in,
}
use ncx_for_mall.NServer.Arrival.{message-hello, handle_hello-control}
use ncx_for_mall.NServer.Handshake.{
  new_channel_of, hello_frame, command_frame, greeted-found, greeted-rest, visited-found,
  visited-visitor, visited-sends, visited-fresh,
}
use ncx_for_mall.Session.{Transport}
use ncx_for_mall.Session.Hop.{HelloLaw, IsIdle, frame_room, Taken, frame_comes}

-- A connection of the main server that was just taken.
pub record IsTaken (s : Server) (conn_id : ℕ) (t : Server) : Type 0 where
  pub handler : (t.conn s.fresh).on_message ≡ hello_handler
  pub state : (t.conn s.fresh).state ≡ connected
  pub owner : (t.conn s.fresh).on_close ≡ main_server
  pub same_id : (t.conn s.fresh).conn_id ≡ conn_id
  pub input : (t.conn s.fresh).input_buffer ≡ new_buffer
  pub others : (q : ℕ) → q ≢ s.fresh → t.conn q ≡ s.conn q
  pub same_map : t.sc_map ≡ s.sc_map
  pub same_sends : t.sends ≡ s.sends
  pub held : lookup conn_id t.connections ≡ some s.fresh
  pub next : t.fresh ≡ suc s.fresh

pub new_connection-IsTaken :
    (w : Wire) (conn_id client_fd : ℕ) (s : Server)
    → IsTaken s conn_id (new_connection_handle w main_server conn_id client_fd s)
unfolding new_connection_handle on_conn add_connection new_connection connection_established
new_connection-IsTaken w conn_id client_fd s = record {
  handler = rw (beq_self s.fresh);
  state = rw (beq_self s.fresh);
  owner = rw (beq_self s.fresh);
  same_id = rw (beq_self s.fresh);
  input = rw (beq_self s.fresh);
  others = λ q h. rw (ne→beq_false s.fresh q (λ e. h (sym e)));
  same_map = refl;
  same_sends = refl;
  held = lookup-insert conn_id conn_id s.fresh s.connections ∙ rw (beq_self conn_id);
  next = refl;
}

module _ (w : Wire) (laws : HeaderLaws w) (net : Transport) (fuel p n : ℕ) (s : Server)
    (idle : IsIdle (s.conn p).input_buffer n) (room : n + frame_room ≤ max_size)
    (handler : (s.conn p).on_message ≡ hello_handler) where
  -- The event in which a hello comes as a whole, before it is handled.
  pub hello_event :
      (h : Hello) (fresh_id : Text)
      → HelloLaw w h
      → (b1 b2 : Buffer) × Taken net
          (s.conn p).input_buffer
          n
          idle
          w
          laws
          (serialize_hello w h)
          b1
          b2
        × (handle_data_in w fuel (net.split (header_installer w (serialize_hello w h))) fresh_id p s
            ≡ handle_hello w h fresh_id p (put_input (put_input s p b1) p b2))
  hello_event h fresh_id law =
      let m = serialize_hello w h in
      let (b1, b2, t) =
        frame_comes net (s.conn p).input_buffer n idle w laws m law.pos law.small room in
      (
        b1,
        b2,
        t,
        message-hello w fuel (net.split (header_installer w m)) fresh_id p s m b1 b2 handler
              t.came.read t.takes
            ∙ ap (λ x. handle_hello w x fresh_id p (put_input (put_input s p b1) p b2)) law.parses,
      )

  -- What a control channel's hello leaves.
  pub record IsGreeted (nonce : Text) (proxy_port : ℕ) (s' : Server) : Type 0 where
    pub found : lookup nonce s'.sc_map ≡ some (new_channel_of proxy_port p)
    pub sent : s'.sends ≡ (p, hello_frame w nonce) ∷ s.sends
    pub same_next : s'.fresh ≡ s.fresh

  pub control_hello-IsGreeted :
      (h : Hello) (content : Content) (nonce : Text)
      → HelloLaw w h
      → h.hello_type ≡ some control_channel_hello
      → h.content ≡ some content
      → lookup nonce s.sc_map ≡ none
      → (s' : Server) × (handle_data_in w fuel
            (net.split (header_installer w (serialize_hello w h)))
            nonce
            p
            s
          ≡ ok s')
        × IsGreeted nonce (get_field content.proxy_port 0) s'
  control_hello-IsGreeted h content nonce law type content_of unused =
      let (b1, b2, t, e) = hello_event h nonce law in
      let port = get_field content.proxy_port 0 in
      let x = put_input (put_input s p b1) p b2 in
      let (sent, kept, held, next) = greeted-rest w x nonce port p unused in
      (
        handle_control_channel_hello w nonce port p x,
        e ∙ handle_hello-control w h content nonce p x type content_of,
        record { found = greeted-found w x nonce port p unused; sent = sent; same_next = next },
      )

-- What a visitor leaves that comes to a control channel's proxy.
pub record IsVisited (w : Wire) (s : Server) (nonce : Text) (conn_id : ℕ) (sc : SControlChannel)
    (t : Server) : Type 0 where
  pub channel : SControlChannel
  pub found : lookup nonce t.sc_map ≡ some channel
  pub held : lookup conn_id channel.connections ≡ some s.fresh
  pub queue : channel.wait_handle_visitors ≡ sc.wait_handle_visitors ++ s.fresh ∷ []
  pub bridges : channel.bridge_closers ≡ sc.bridge_closers
  pub state : (t.conn s.fresh).state ≡ connected
  pub owner : (t.conn s.fresh).on_close ≡ proxy_server nonce
  pub same_id : (t.conn s.fresh).conn_id ≡ conn_id
  pub input : (t.conn s.fresh).input_buffer ≡ new_buffer
  pub sent : t.sends ≡ (sc.ncx_client_conn, command_frame w create_data_channel) ∷ s.sends
  pub next : t.fresh ≡ suc s.fresh

pub visitor-IsVisited :
    (w : Wire) (nonce : Text) (conn_id client_fd : ℕ) (s : Server) (sc : SControlChannel)
    → lookup nonce s.sc_map ≡ some sc
    → IsVisited w s nonce conn_id sc
        (new_connection_handle w (proxy_server nonce) conn_id client_fd s)
unfolding new_connection connection_established
visitor-IsVisited w nonce conn_id client_fd s sc e =
    let v = visited-visitor w s nonce conn_id client_fd sc e in
    record {
      channel = record sc {
        connections = insert conn_id s.fresh sc.connections;
        wait_handle_visitors = sc.wait_handle_visitors ++ s.fresh ∷ [];
      };
      found = visited-found w s nonce conn_id client_fd sc e;
      held = lookup-insert conn_id conn_id s.fresh sc.connections ∙ rw (beq_self conn_id);
      queue = refl;
      bridges = refl;
      state = ap (λ (c : Connection). c.state) v;
      owner = ap (λ (c : Connection). c.on_close) v;
      same_id = ap (λ (c : Connection). c.conn_id) v;
      input = ap (λ (c : Connection). c.input_buffer) v;
      sent = visited-sends w s nonce conn_id client_fd sc e;
      next = visited-fresh w s nonce conn_id client_fd sc e;
    }
