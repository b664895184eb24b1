-- ===== src/NServer/Tunnel.antt =====
-- ncx_server/nserver.cpp: a data channel is joined with the visitor that has waited longest.
use ncx_for_mall.Prelude.{
  ℕ, ◌≡◌, ◌≤◌, arith, ◌≢◌, refl, sym, ap, ◌∙◌, List, [], ◌∷◌, ◌++◌, none, some, ok, err,
  ne→beq_false, out_of_range, out_of_bounds,
}
use mathlib.Core.Path.{subst}
use ncx_for_mall.Prelude.Maps.{lookup, nat_eq, text_eq, lookup-insert, lookup-emplace, beq_self}
use ncx_for_mall.Buffer.Invariant.{IsValid, contents}
use ncx_for_mall.Protocol.{Wire, serialize_command, start_forward_tcp}
use ncx_for_mall.Framing.{header_installer}
use ncx_for_mall.Connection.{Connection, connected, forward_to, main_server, proxy_server, Notice}
use ncx_for_mall.Server.{Server, SControlChannel, Text, put_channel}
use ncx_for_mall.Server.Bridges.{Bridged}
use ncx_for_mall.NServer.{
  log_send, forward_bytes, pop_visitor, find_channel, join_ends, open_bridge,
  handle_data_channel_hello,
}
use ncx_for_mall.NServer.Forwarding.{pending, Forwarded, forward_bytes-Forwarded}

-- The state that `handle_data_channel_hello` starts from: a visitor waits at the front of the queue,
-- both connections are open and held by their servers, and the id of the bridge is new.
pub record Ready (s : Server) (n : Notice) (sc : SControlChannel) (v o : ℕ) (rest : List ℕ)
    : Type 0 where
  pub found : lookup n.nonce s.sc_map ≡ some sc
  pub queue : sc.wait_handle_visitors ≡ v ∷ rest
  pub new_id : lookup n.bridge_id sc.bridge_closers ≡ none
  pub distinct : v ≢ o
  pub visitor_state : (s.conn v).state ≡ connected
  pub visitor_owner : (s.conn v).on_close ≡ proxy_server n.nonce
  pub visitor_held : lookup (s.conn v).conn_id sc.connections ≡ some v
  pub visitor_input : IsValid (s.conn v).input_buffer
  pub origin_state : (s.conn o).state ≡ connected
  pub origin_owner : (s.conn o).on_close ≡ main_server
  pub origin_held : lookup (s.conn o).conn_id s.connections ≡ some o

-- What joining them leaves: a bridge whose ends forward to each other, the other visitors waiting in
-- their order, and the start command sent on the data channel before any text of the visitor.
pub record Joined (w : Wire) (s : Server) (n : Notice) (v o : ℕ) (rest : List ℕ) (s' : Server)
    : Type 0 where
  pub channel : SControlChannel
  pub bridged : Bridged s' n channel v o
  pub queue : channel.wait_handle_visitors ≡ rest
  pub visitor_handler : (s'.conn v).on_message ≡ forward_to o
  pub origin_handler : (s'.conn o).on_message ≡ forward_to v
  pub visitor_valid : IsValid (s'.conn v).input_buffer
  pub visitor_back : (s'.conn v).input_buffer.write_index ≤ (s.conn v).input_buffer.write_index
  pub visitor_emptied : contents (s'.conn v).input_buffer ≡ []
  pub origin_input : (s'.conn o).input_buffer ≡ (s.conn o).input_buffer
  pub sent :
      s'.sends
      ≡ pending o (contents (s.conn v).input_buffer)
        ++ (o, header_installer w (serialize_command w (record { cmd = some start_forward_tcp })))
          ∷ s.sends

module _ (w : Wire) (s : Server) (n : Notice) (sc : SControlChannel) (v o : ℕ) (rest : List ℕ)
    (r : Ready s n sc v o rest) where
  abbrev opened : SControlChannel
  opened = open_bridge n.bridge_id v o rest sc

  -- The server behind the start command.
  abbrev started : Server
  started =
      log_send o
        (header_installer w (serialize_command w (record { cmd = some start_forward_tcp })))
        (join_ends v o n (put_channel s n.nonce opened))

  found_channel : find_channel s n.nonce ≡ ok sc
  unfolding find_channel
  found_channel = rw (find_channel, r.found)

  first_visitor : pop_visitor sc.wait_handle_visitors ≡ ok (v, rest)
  unfolding pop_visitor
  first_visitor = rw (pop_visitor, r.queue)

  hello-started : handle_data_channel_hello w n.nonce n.bridge_id o s ≡ forward_bytes v o started
  unfolding handle_data_channel_hello
  hello-started = rw (found_channel, first_visitor)

  visitor-started :
      started.conn v ≡ record (s.conn v) { on_message = forward_to o; notice_on_close = some n }
  unfolding log_send join_ends
  visitor-started = rw (ne→beq_false o v (λ e. r.distinct (sym e)), beq_self v)

  origin-started :
      started.conn o ≡ record (s.conn o) { on_message = forward_to v; notice_on_close = some n }
  unfolding log_send join_ends
  origin-started = rw (beq_self o, ne→beq_false v o r.distinct)

  opened-found : lookup n.nonce started.sc_map ≡ some opened
  unfolding log_send join_ends
  opened-found = rw (lookup-insert n.nonce n.nonce opened s.sc_map, beq_self n.nonce)

  opened-bridge :
      lookup n.bridge_id opened.bridge_closers ≡ some (record { inside = v; outside = o })
  unfolding open_bridge
  opened-bridge = rw (
    lookup-emplace n.bridge_id n.bridge_id (record { inside = v; outside = o }) sc.bridge_closers
        r.new_id,
    beq_self n.bridge_id,
  )

  same_maps :
      (started.connections ≡ s.connections)
      × (opened.connections ≡ sc.connections)
      × (opened.wait_handle_visitors ≡ rest)
  unfolding log_send join_ends open_bridge
  same_maps = (refl, refl, refl)

  started_sends :
      started.sends
      ≡ (o, header_installer w (serialize_command w (record { cmd = some start_forward_tcp })))
        ∷ s.sends
  unfolding log_send join_ends
  started_sends = refl

  module _ (s' : Server) (f : Forwarded v o started s') where
    visitor-after : s'.conn v ≡ record (s.conn v) {
      on_message = forward_to o;
      notice_on_close = some n;
      input_buffer = f.input;
    }
    visitor-after = ap (λ (x : Server). x.conn v) f.rest ∙ rw (beq_self v, visitor-started)

    origin-after :
        s'.conn o ≡ record (s.conn o) { on_message = forward_to v; notice_on_close = some n }
    origin-after =
        ap (λ (x : Server). x.conn o) f.rest ∙ rw (ne→beq_false v o r.distinct, origin-started)

    join-Bridged : Bridged s' n opened v o
    unfolding open_bridge
    join-Bridged = record {
      found = ap (λ (x : Server). lookup n.nonce x.sc_map) f.rest ∙ opened-found;
      bridge = opened-bridge;
      distinct = r.distinct;
      visitor_state = ap (λ (c : Connection). c.state) visitor-after ∙ r.visitor_state;
      visitor_notice = ap (λ (c : Connection). c.notice_on_close) visitor-after;
      visitor_owner = ap (λ (c : Connection). c.on_close) visitor-after ∙ r.visitor_owner;
      visitor_held =
          ap (λ (c : Connection). lookup c.conn_id opened.connections) visitor-after
          ∙ r.visitor_held;
      origin_state = ap (λ (c : Connection). c.state) origin-after ∙ r.origin_state;
      origin_notice = ap (λ (c : Connection). c.notice_on_close) origin-after;
      origin_owner = ap (λ (c : Connection). c.on_close) origin-after ∙ r.origin_owner;
      origin_held =
          ap (λ (c : Connection). lookup c.conn_id s'.connections) origin-after
          ∙ ap (λ (x : Server). lookup (s.conn o).conn_id x.connections) f.rest
          ∙ ap (λ m. lookup (s.conn o).conn_id m) same_maps.0
          ∙ r.origin_held;
    }

    join-Joined : Joined w s n v o rest s'
    unfolding open_bridge
    join-Joined = record {
      channel = opened;
      bridged = join-Bridged;
      queue = refl;
      visitor_handler = ap (λ (c : Connection). c.on_message) visitor-after;
      origin_handler = ap (λ (c : Connection). c.on_message) origin-after;
      visitor_valid = f.valid;
      visitor_back = omega (
        arith,
        f.back,
        ap (λ (c : Connection). c.input_buffer.write_index) visitor-after,
        ap (λ (c : Connection). c.input_buffer.write_index) visitor-started,
      );
      visitor_emptied = f.emptied;
      origin_input = ap (λ (c : Connection). c.input_buffer) origin-after;
      sent =
          f.sent
          ∙ ap (λ (c : Connection). pending o (contents c.input_buffer) ++ started.sends)
              visitor-started
          ∙ ap (λ l. pending o (contents (s.conn v).input_buffer) ++ l) started_sends;
    }

  -- Where a visitor waits, both connections are open and held and the id of the bridge is new, a
  -- data channel's hello joins it with the visitor at the front of the queue: the call returns, the
  -- two are the ends of a new bridge, each forwards to the other, the other visitors keep their
  -- places, and the data channel is sent the start command first and then what the visitor has sent
  -- so far.
  pub join_lem :
      (s' : Server) × (handle_data_channel_hello w n.nonce n.bridge_id o s ≡ ok s')
      × Joined w s n v o rest s'
  join_lem =
      let valid =
        subst (λ (c : Connection). IsValid c.input_buffer) (sym visitor-started) r.visitor_input in
      let (s', e, f) = forward_bytes-Forwarded v o started valid in
      (s', hello-started ∙ e, join-Joined s' f)

-- A hello with a nonce that no control channel has makes `at` throw, and one that no visitor waits for
-- takes the front of an empty queue.
pub hello-refused :
    (w : Wire) (s : Server) (nonce bridge_id : Text) (o : ℕ)
    → (lookup nonce s.sc_map ≡ none
        → handle_data_channel_hello w nonce bridge_id o s ≡ err out_of_range)
      × ((sc : SControlChannel)
          → lookup nonce s.sc_map ≡ some sc
          → sc.wait_handle_visitors ≡ []
          → handle_data_channel_hello w nonce bridge_id o s ≡ err out_of_bounds)
unfolding handle_data_channel_hello
hello-refused w s nonce bridge_id o =
    ((λ e. rw (find_channel, e)), (λ sc e q. rw (find_channel, e, pop_visitor, q)))
