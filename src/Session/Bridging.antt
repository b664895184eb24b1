-- ===== src/Session/Bridging.antt =====
-- ncx_server/nserver.cpp: the hello of a data channel in the run, and the bytes behind it.
use ncx_for_mall.Prelude.{
  ℕ, ◌+◌, ◌≡◌, ◌≢◌, refl, sym, ap, ◌∙◌, subst, [], ◌∷◌, ◌++◌, none, some, arith, ok, ne→beq_false,
}
use ncx_for_mall.Prelude.Maps.{lookup, nat_eq, text_eq, beq_self}
use ncx_for_mall.Buffer.{Buffer, new_buffer}
use ncx_for_mall.Buffer.Invariant.{IsValid, contents}
use ncx_for_mall.Protocol.{Wire, HeaderLaws, serialize_hello, start_forward_tcp}
use ncx_for_mall.Framing.{header_installer}
use ncx_for_mall.Connection.{
  Connection, connected, hello_handler, forward_to, main_server, proxy_server, Notice,
}
use ncx_for_mall.Server.{Server, SControlChannel, Text}
use ncx_for_mall.Server.Bridges.{Bridged}
use ncx_for_mall.NServer.{put_input, handle_hello, handle_data_channel_hello, handle_data_in}
use ncx_for_mall.NServer.Forwarding.{pending}
use ncx_for_mall.NServer.Handshake.{command_frame}
use ncx_for_mall.NServer.Tunnel.{Ready, join_lem}
use ncx_for_mall.Client.Relay.{data_hello}
use ncx_for_mall.Session.{Transport}
use ncx_for_mall.Session.Hop.{HelloLaw, IsIdle, new_buffer-IsIdle, frame_room}
use ncx_for_mall.Session.Serving.{hello_event}

handle_hello-data :
    (w : Wire) (nonce bridge_id : Text) (o : ℕ) (s : Server)
    → handle_hello w (data_hello nonce) bridge_id o s
      ≡ handle_data_channel_hello w nonce bridge_id o s
unfolding handle_hello
handle_hello-data w nonce bridge_id o s = refl

-- A connection other than the one whose buffer is put.
put_input-other :
    (s : Server) (o q : ℕ) (b1 b2 : Buffer)
    → q ≢ o
    → (put_input (put_input s o b1) o b2).conn q ≡ s.conn q
put_input-other s o q b1 b2 h = rw (ne→beq_false o q (λ e. h (sym e)))

put_input_self :
    (s : Server) (o : ℕ) (b1 b2 : Buffer)
    → (put_input (put_input s o b1) o b2).conn o ≡ record (s.conn o) { input_buffer = b2 }
put_input_self s o b1 b2 = rw (beq_self o)

-- The state that a data channel's hello finds: a visitor waits, and the data channel was just taken.
pub record IsWaiting (s : Server) (n : Notice) (sc : SControlChannel) (v o : ℕ) : Type 0 where
  pub found : lookup n.nonce s.sc_map ≡ some sc
  pub queue : sc.wait_handle_visitors ≡ v ∷ []
  pub new_id : lookup n.bridge_id sc.bridge_closers ≡ none
  pub distinct : v ≢ o
  pub silent : s.sends ≡ []
  pub visitor_state : (s.conn v).state ≡ connected
  pub visitor_owner : (s.conn v).on_close ≡ proxy_server n.nonce
  pub visitor_held : lookup (s.conn v).conn_id sc.connections ≡ some v
  pub visitor_input : (s.conn v).input_buffer ≡ new_buffer
  pub origin_state : (s.conn o).state ≡ connected
  pub origin_owner : (s.conn o).on_close ≡ main_server
  pub origin_handler : (s.conn o).on_message ≡ hello_handler
  pub origin_held : lookup (s.conn o).conn_id s.connections ≡ some o
  pub origin_input : (s.conn o).input_buffer ≡ new_buffer

-- A tunnel that is open in both directions, with what was sent last.
pub record IsTunnel (s : Server) (n : Notice) (v o room : ℕ) : Type 0 where
  pub channel : SControlChannel
  pub bridged : Bridged s n channel v o
  pub visitor_handler : (s.conn v).on_message ≡ forward_to o
  pub origin_handler : (s.conn o).on_message ≡ forward_to v
  pub visitor_idle : IsIdle (s.conn v).input_buffer room
  pub origin_idle : IsIdle (s.conn o).input_buffer room

module _ (w : Wire) (laws : HeaderLaws w) (net : Transport) (fuel : ℕ) (s : Server) (n : Notice)
    (sc : SControlChannel) (v o : ℕ) (r : IsWaiting s n sc v o) where
  filled-Ready : (b1 b2 : Buffer) → Ready (put_input (put_input s o b1) o b2) n sc v o []
  filled-Ready b1 b2 =
      let other = put_input-other s o v b1 b2 r.distinct in
      let same = put_input_self s o b1 b2 in
      record {
        found = r.found;
        queue = r.queue;
        new_id = r.new_id;
        distinct = r.distinct;
        visitor_state = ap (λ (c : Connection). c.state) other ∙ r.visitor_state;
        visitor_owner = ap (λ (c : Connection). c.on_close) other ∙ r.visitor_owner;
        visitor_held =
            ap (λ (c : Connection). lookup c.conn_id sc.connections) other ∙ r.visitor_held;
        visitor_input =
            subst IsValid (sym (ap (λ (c : Connection). c.input_buffer) other ∙ r.visitor_input))
              new_buffer-IsIdle.valid;
        origin_state = ap (λ (c : Connection). c.state) same ∙ r.origin_state;
        origin_owner = ap (λ (c : Connection). c.on_close) same ∙ r.origin_owner;
        origin_held = ap (λ (c : Connection). lookup c.conn_id s.connections) same ∙ r.origin_held;
      }

  -- The data channel's hello opens a tunnel, and the start command is all that is sent.
  pub data_hello-IsTunnel :
      HelloLaw w (data_hello n.nonce)
      → (s' : Server) × (handle_data_in w fuel
            (net.split (header_installer w (serialize_hello w (data_hello n.nonce))))
            n.bridge_id
            o
            s
          ≡ ok s')
        × IsTunnel s' n v o (8 + frame_room)
        × (s'.sends ≡ (o, command_frame w start_forward_tcp) ∷ [])
  data_hello-IsTunnel law =
      let idle = subst (λ b. IsIdle b 8) (sym r.origin_input) new_buffer-IsIdle in
      let (b1, b2, t, e) =
        hello_event w laws net fuel o 8 s idle (omega arith) r.origin_handler (data_hello n.nonce)
          n.bridge_id law in
      let x = put_input (put_input s o b1) o b2 in
      let other = put_input-other s o v b1 b2 r.distinct in
      let before = ap (λ (c : Connection). c.input_buffer) other ∙ r.visitor_input in
      let (s', q, j) = join_lem w x n sc v o [] (filled-Ready b1 b2) in
      (
        s',
        e ∙ handle_hello-data w n.nonce n.bridge_id o x ∙ q,
        record {
          channel = j.channel;
          bridged = j.bridged;
          visitor_handler = j.visitor_handler;
          origin_handler = j.origin_handler;
          visitor_idle = record {
            valid = j.visitor_valid;
            empty = j.visitor_emptied;
            bound = omega (
              arith,
              j.visitor_back,
              ap (λ (b : Buffer). b.write_index) before,
              new_buffer-IsIdle.bound,
            );
          };
          origin_idle =
              subst (λ b. IsIdle b (8 + frame_room))
                (sym (
                  j.origin_input
                  ∙ ap (λ (c : Connection). c.input_buffer) (put_input_self s o b1 b2)))
                t.left;
        },
        j.sent
            ∙ ap (λ b. pending o (contents b) ++ (o, command_frame w start_forward_tcp) ∷ s.sends)
                before
            ∙ ap (λ c. pending o c ++ (o, command_frame w start_forward_tcp) ∷ s.sends)
                new_buffer-IsIdle.empty
            ∙ ap (λ l. (o, command_frame w start_forward_tcp) ∷ l) r.silent,
      )
