-- ===== src/Session/Opened.antt =====
-- ncx_server and ncx_client: from the client's start to a tunnel, step by step of the run.
use ncx_for_mall.Prelude.{
  ℕ, suc, ◌+◌, ◌≡◌, ◌≢◌, refl, sym, ap, ◌∙◌, subst, [], ◌∷◌, none, some, true, arith, ok,
}
use ncx_for_mall.Prelude.Maps.{lookup, emplace, text_eq, nat_eq, beq_self}
use ncx_for_mall.Protocol.{
  Wire, HeaderLaws, Hello, control_channel_hello, create_data_channel, start_forward_tcp,
  serialize_hello,
}
use ncx_for_mall.Framing.{header_installer}
use ncx_for_mall.Connection.{Connection, main_server, proxy_server, Notice}
use ncx_for_mall.Config.{CControlChannelArgs}
use ncx_for_mall.Server.{Server, Text}
use ncx_for_mall.NServer.{new_connection_handle}
use ncx_for_mall.NServer.Handshake.{new_channel_of, hello_frame, command_frame}
use ncx_for_mall.Client.{
  DataChannel, CControlChannel, CControlChannelMap, waits_cmd, new_data_channel,
  do_data_channel_handshake, do_control_channel_handshake, register_control_channel,
}
use ncx_for_mall.Client.Relay.{server_hello, data_hello, command_of}
use ncx_for_mall.Client.Startup.{start_channel, new_control_channel}
use ncx_for_mall.Session.{
  Transport, TakesWhole, Draws, wire_to, quiet, fuel_of, introduce, visit, dial,
}
use ncx_for_mall.Session.Hop.{
  HelloLaw, CommandLaw, IsIdle, new_buffer-IsIdle, frame_room, wire_to-one, said-one,
}
use ncx_for_mall.Session.Serving.{
  IsTaken, new_connection-IsTaken, control_hello-IsGreeted, IsVisited, visitor-IsVisited,
}
use ncx_for_mall.Session.Bridging.{IsWaiting, IsTunnel, data_hello-IsTunnel}
use ncx_for_mall.Session.Dialling.{nonce_event, create_event, start_event}

-- The hello of a control channel for a service.
abbrev pub client_hello : CControlChannelArgs → Hello
client_hello args = record {
  hello_type = some control_channel_hello;
  digest = none;
  content =
      some (record { service_name = some args.service_name; proxy_port = some args.proxy_port });
}

-- The messages of the run.
pub record SessionLaws (w : Wire) (args : CControlChannelArgs) (nonce : Text) : Type 0 where
  pub header : HeaderLaws w
  pub hello : HelloLaw w (client_hello args)
  pub back : HelloLaw w (server_hello nonce)
  pub data_channel : HelloLaw w (data_hello nonce)
  pub create_channel : CommandLaw w (command_of create_data_channel)
  pub start_forward : CommandLaw w (command_of start_forward_tcp)

module _ (w : Wire) (net : Transport) (takes : TakesWhole net) (k : Draws)
    (args : CControlChannelArgs) (laws : SessionLaws w args k.nonce) where
  -- The control channel on both sides.
  pub record IsIntroduced (p : ℕ) (s : Server) (c : CControlChannel) : Type 0 where
    pub found : lookup k.nonce s.sc_map ≡ some (new_channel_of args.proxy_port p)
    pub same_id : c.id ≡ k.nonce
    pub stage : c.stage ≡ waits_cmd
    pub pool : c.data_pool ≡ []
    pub idle : IsIdle c.input (8 + frame_room)
    pub next : s.fresh ≡ suc p

  pub introduce-IsIntroduced :
      (s : Server) (m : CControlChannelMap)
      → lookup k.nonce s.sc_map ≡ none
      → (s' : Server) × (c : CControlChannel) × (m' : CControlChannelMap) × (introduce w net k args
            s m
          ≡ ok (s', c, m'))
        × IsIntroduced s.fresh s' c
  unfolding introduce start_channel new_control_channel do_control_channel_handshake
  introduce-IsIntroduced s m unused =
      let taken = new_connection_handle w main_server k.control_id k.control_fd (quiet s) in
      let t = new_connection-IsTaken w k.control_id k.control_fd (quiet s) in
      let idle = subst (λ b. IsIdle b 8) (sym t.input) new_buffer-IsIdle in
      let (s', e, g) =
        control_hello-IsGreeted w laws.header net (fuel_of taken) s.fresh 8 taken idle (omega arith)
          t.handler (client_hello args)
          (record { service_name = some args.service_name; proxy_port = some args.proxy_port })
          k.nonce laws.hello refl refl (ap (lookup k.nonce) t.same_map ∙ unused) in
      let wire : wire_to net s.fresh s'.sends ≡ hello_frame w k.nonce =
        ap (wire_to net s.fresh)
          (g.sent ∙ ap (λ l. (s.fresh, hello_frame w k.nonce) ∷ l) t.same_sends)
        ∙ wire_to-one net takes s.fresh (hello_frame w k.nonce) in
      let c = start_channel w k.client_id args in
      let (b, i, f) =
        nonce_event w laws.header net 8 (omega arith) (record c { to_server = [] }) m k.nonce
          new_buffer-IsIdle refl laws.back in
      (
        s',
        record c { id = k.nonce; stage = waits_cmd; input = b; to_server = [] },
        register_control_channel c.id k.nonce m,
        rw (
          said-one net takes (header_installer w (serialize_hello w (client_hello args))),
          e,
          wire,
          f,
        ),
        record {
          found = g.found;
          same_id = refl;
          stage = refl;
          pool = refl;
          idle = i;
          next = g.same_next ∙ t.next;
        },
      )

  -- A visitor that waits, and a data channel in the client's pool.
  pub record IsAwaited (p : ℕ) (s : Server) (s' : Server) (c : CControlChannel) : Type 0 where
    pub visited : IsVisited w (quiet s) k.nonce k.visitor_id (new_channel_of args.proxy_port p) s'
    pub pooled : lookup k.channel_id c.data_pool ≡ some (new_data_channel w k.channel_id k.nonce)

  pub visit-IsAwaited :
      (p : ℕ) (s : Server) (c : CControlChannel) (m : CControlChannelMap)
      → IsIntroduced p s c
      → (s' : Server) × (c' : CControlChannel) × (m' : CControlChannelMap) × (visit w net k p s c m
          ≡ ok (s', c', m'))
        × IsAwaited p s s' c'
  unfolding visit
  visit-IsAwaited p s c m i =
      let v =
        visitor-IsVisited w k.nonce k.visitor_id k.visitor_fd (quiet s)
          (new_channel_of args.proxy_port p) i.found in
      let (b, f) =
        create_event w laws.header net (8 + frame_room) (omega arith) c m k.channel_id i.idle
          i.stage laws.create_channel in
      let wire =
        ap (wire_to net p) v.sent ∙ wire_to-one net takes p (command_frame w create_data_channel) in
      (
        new_connection_handle w (proxy_server k.nonce) k.visitor_id k.visitor_fd (quiet s),
        record c {
          input = b;
          data_pool = emplace k.channel_id (new_data_channel w k.channel_id c.id) c.data_pool;
        },
        m,
        rw (wire, f),
        record {
          visited = v;
          pooled =
              ap
                (λ pool.
                  lookup k.channel_id
                    (emplace k.channel_id (new_data_channel w k.channel_id c.id) pool))
                i.pool
              ∙ rw (beq_self k.channel_id, i.same_id);
        },
      )

  -- The name of the tunnel.
  abbrev pub name_of : Notice
  name_of = record { nonce = k.nonce; bridge_id = k.bridge_id }

  taken-IsWaiting :
      (p : ℕ) (s0 s : Server) (c : CControlChannel) (u : Server) (a : IsAwaited p s0 s c)
      → IsTaken (quiet s) k.data_id u
      → IsWaiting u name_of a.visited.channel s0.fresh s.fresh
  taken-IsWaiting p s0 s c u a t =
      let v = a.visited in
      let apart : s0.fresh ≢ s.fresh = λ e. absurd (omega (arith, v.next, e)) in
      let same = t.others s0.fresh apart in
      record {
        found = ap (lookup k.nonce) t.same_map ∙ v.found;
        queue = v.queue;
        new_id = ap (lookup k.bridge_id) v.bridges;
        distinct = apart;
        silent = t.same_sends;
        visitor_state = ap (λ (x : Connection). x.state) same ∙ v.state;
        visitor_owner = ap (λ (x : Connection). x.on_close) same ∙ v.owner;
        visitor_held =
            ap (λ (x : Connection). lookup x.conn_id v.channel.connections) same
            ∙ ap (λ i. lookup i v.channel.connections) v.same_id
            ∙ v.held;
        visitor_input = ap (λ (x : Connection). x.input_buffer) same ∙ v.input;
        origin_state = t.state;
        origin_owner = t.owner;
        origin_handler = t.handler;
        origin_held = ap (λ i. lookup i u.connections) t.same_id ∙ t.held;
        origin_input = t.input;
      }

  -- A tunnel, and a data channel that forwards.
  pub record IsOpened (v o : ℕ) (s : Server) (d : DataChannel) : Type 0 where
    pub tunnel : IsTunnel s name_of v o (8 + frame_room)
    pub forwards : d.forwards ≡ true
    pub service_there : d.service_open ≡ true
    pub none_sent : d.to_service ≡ []
    pub server_idle : IsIdle d.server_input (8 + frame_room)
    pub service_idle : IsIdle d.service_input 8

  pub dial-IsOpened :
      (p : ℕ) (s0 s : Server) (c : CControlChannel)
      → IsAwaited p s0 s c
      → (s' : Server) × (d : DataChannel) × (dial w net k s c ≡ ok (s', d))
        × IsOpened s0.fresh s.fresh s' d
  unfolding dial new_data_channel do_data_channel_handshake
  dial-IsOpened p s0 s c a =
      let u = new_connection_handle w main_server k.data_id k.data_fd (quiet s) in
      let t = new_connection-IsTaken w k.data_id k.data_fd (quiet s) in
      let d = new_data_channel w k.channel_id k.nonce in
      let (s', e, tunnel, sent) =
        data_hello-IsTunnel w laws.header net (fuel_of u) u name_of a.visited.channel s0.fresh
          s.fresh (taken-IsWaiting p s0 s c u a t) laws.data_channel in
      let wire =
        ap (wire_to net s.fresh) sent
        ∙ wire_to-one net takes s.fresh (command_frame w start_forward_tcp) in
      let (b, i, f) =
        start_event w laws.header net 8 (omega arith) (record d { to_server = [] })
          new_buffer-IsIdle refl laws.start_forward in
      (
        s',
        record d { to_server = []; forwards = true; server_input = b; service_open = true },
        rw (
          a.pooled,
          said-one net takes (header_installer w (serialize_hello w (data_hello k.nonce))),
          e,
          wire,
          f,
        ),
        record {
          tunnel = tunnel;
          forwards = refl;
          service_there = refl;
          none_sent = refl;
          server_idle = i;
          service_idle = new_buffer-IsIdle;
        },
      )
