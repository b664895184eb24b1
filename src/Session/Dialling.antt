-- ===== src/Session/Dialling.antt =====
-- ncx_client/ccontrolchannel.cpp and ncx_client/datachannel.cpp: the client's events of the run.
use ncx_for_mall.Prelude.{
  ℕ, ◌+◌, ◌≤◌, ◌≡◌, ap, ◌∙◌, List, [], ◌++◌, some, true, false, arith, length, ok, if◌then◌else◌,
  le→ltb_false, ◌>>=◌,
}
use ncx_for_mall.Prelude.Maps.{emplace, text_eq}
use ncx_for_mall.Memory.{max_size}
use ncx_for_mall.Buffer.{Buffer, readable_bytes}
use ncx_for_mall.Buffer.Reads.{readable_bytes-length}
use ncx_for_mall.Buffer.Invariant.{IsValid, contents}
use ncx_for_mall.Protocol.{
  Wire, HeaderLaws, create_data_channel, start_forward_tcp, serialize_hello, serialize_command,
}
use ncx_for_mall.Framing.{header_installer}
use ncx_for_mall.Socket.{leaves, read_loop}
use ncx_for_mall.Client.{
  DataChannel, CControlChannel, CControlChannelMap, waits_hello, waits_cmd,
  wait_control_channel_hello, handle_hello_back, handle_server_nonce, register_control_channel,
  wait_server_cmd, handle_server_cmd, handle_cmd_create_datachannel, new_data_channel,
  do_data_channel_transforward, wait_data_channel_start_cmd, forward_to_service,
}
use ncx_for_mall.Client.Relay.{
  server_hello, command_of, sent_text, Relayed, forward_to_service-Relayed,
}
use ncx_for_mall.Client.Control.{control_message, control_data_in}
use ncx_for_mall.Client.Duplex.{
  server_data_in, server_message, server_handler, wait_handler, service_data_in,
}
use ncx_for_mall.Client.Duplex.Handlers.{server_data_in-there}
use ncx_for_mall.Client.Duplex.Backward.{service_data_in-Returned}
use ncx_for_mall.Socket.Reading.{arrived}
use ncx_for_mall.Session.{Transport}
use ncx_for_mall.Session.Hop.{
  HelloLaw, CommandLaw, IsIdle, fits, frame_room, frame_comes, text_comes,
}

-- With nothing to read nothing is forwarded.
forward-quiet :
    (d : DataChannel)
    → IsValid d.server_input
    → contents d.server_input ≡ []
    → forward_to_service d ≡ ok d
unfolding forward_to_service
forward-quiet d v e = rw (
    le→ltb_false 0 (readable_bytes d.server_input)
      (omega (arith, readable_bytes-length d.server_input v, ap length e)))

start-quiet :
    (d : DataChannel)
    → IsValid d.server_input
    → contents d.server_input ≡ []
    → do_data_channel_transforward d ≡ ok (record d { forwards = true; service_open = true })
unfolding do_data_channel_transforward
start-quiet d v e = forward-quiet (record d { forwards = true; service_open = true }) v e

module _ (w : Wire) (laws : HeaderLaws w) (net : Transport) (n : ℕ)
    (room : n + frame_room ≤ max_size) where
  -- The answer to the hello: the channel takes the nonce.
  pub nonce_event :
      (c : CControlChannel) (m : CControlChannelMap) (nonce : List ℕ)
      → IsIdle c.input n
      → c.stage ≡ waits_hello
      → HelloLaw w (server_hello nonce)
      → (b : Buffer) × IsIdle b (n + frame_room)
        × (control_data_in w
              (net.split (header_installer w (serialize_hello w (server_hello nonce))))
              []
              c
              m
            ≡ ok (
              record c { id = nonce; stage = waits_cmd; input = b },
              register_control_channel c.id nonce m,
            ))
  unfolding control_data_in control_message wait_control_channel_hello handle_hello_back
      handle_server_nonce
  nonce_event c m nonce idle stage law =
      let text = serialize_hello w (server_hello nonce) in
      let (b1, b2, t) = frame_comes net c.input n idle w laws text law.pos law.small room in
      (b2, t.left, rw (t.came.read, stage, control_message, t.takes, law.parses))

  -- The command to create a data channel.
  pub create_event :
      (c : CControlChannel) (m : CControlChannelMap) (channel_id : List ℕ)
      → IsIdle c.input n
      → c.stage ≡ waits_cmd
      → CommandLaw w (command_of create_data_channel)
      → (b : Buffer) × (control_data_in w
            (net.split (header_installer w (serialize_command w (command_of create_data_channel))))
            channel_id
            c
            m
          ≡ ok (
            record c {
              input = b;
              data_pool = emplace channel_id (new_data_channel w channel_id c.id) c.data_pool;
            },
            m,
          ))
  unfolding control_data_in control_message wait_server_cmd handle_server_cmd
      handle_cmd_create_datachannel
  create_event c m channel_id idle stage law =
      let text = serialize_command w (command_of create_data_channel) in
      let (b1, b2, t) = frame_comes net c.input n idle w laws text law.pos law.small room in
      (b2, rw (t.came.read, stage, control_message, t.takes, law.parses))

  -- The start command on a data channel.
  pub start_event :
      (d : DataChannel)
      → IsIdle d.server_input n
      → d.forwards ≡ false
      → CommandLaw w (command_of start_forward_tcp)
      → (b : Buffer) × IsIdle b (n + frame_room)
        × (server_data_in w
              (net.split (header_installer w (serialize_command w (command_of start_forward_tcp))))
              d
            ≡ ok (some (record d { forwards = true; server_input = b; service_open = true })))
  unfolding server_data_in server_handler wait_handler do_data_channel_transforward
  start_event d idle waiting law =
      let text = serialize_command w (command_of start_forward_tcp) in
      let (b1, b2, t) = frame_comes net d.server_input n idle w laws text law.pos law.small room in
      (
        b2,
        t.left,
        rw (t.came.read, waiting, t.takes, law.parses)
            (ap (λ r. r >>= λ d'. ok (some d'))
              (start-quiet (record d { server_input = b2 }) t.left.valid t.left.empty)),
      )

message-forwards :
    (w : Wire) (d : DataChannel) → d.forwards ≡ true → server_message w d ≡ forward_to_service d
unfolding server_message
message-forwards w d on =
    ap (λ x. if x then forward_to_service d else wait_data_channel_start_cmd w d) on

event-message :
    (w : Wire) (net : Transport) (d : DataChannel) (text : List ℕ) (b : Buffer)
    → read_loop d.server_input (net.split text) ≡ ok (b, leaves)
    → server_data_in w (net.split text) d
      ≡ server_message w (record d { server_input = b }) >>= λ d'. ok (some d')
event-message w net d text b e = server_data_in-there w d (net.split text) b e

-- Bytes on a data channel that forwards.
pub request_event :
    (w : Wire) (net : Transport) (n : ℕ) (d : DataChannel) (text : List ℕ)
    → IsIdle d.server_input n
    → d.forwards ≡ true
    → d.service_open ≡ true
    → n + length text ≤ max_size
    → (d' : DataChannel) × (server_data_in w (net.split text) d ≡ ok (some d')) × Relayed d text d'
request_event w net n d text idle on there h =
    let (b, c) = text_comes net d.server_input n idle text h in
    let (d', e, r) = forward_to_service-Relayed (record d { server_input = b }) c.valid on there in
    (
      d',
      event-message w net d text b c.read
          ∙ ap (λ x. x >>= λ y. ok (some y))
              (message-forwards w (record d { server_input = b }) on ∙ e),
      record {
        forwards = r.forwards;
        sent = r.sent ∙ ap (λ t. sent_text t ++ d.to_service) c.holds;
        valid = r.valid;
        emptied = r.emptied;
        same_input = r.same_input;
      },
    )

-- Bytes of the service.
pub reply_event :
    (net : Transport) (n : ℕ) (d : DataChannel) (text : List ℕ)
    → IsIdle d.service_input n
    → n + length text ≤ max_size
    → (d' : DataChannel) × (service_data_in (net.split text) d ≡ ok d')
      × (d'.to_server ≡ sent_text text ++ d.to_server)
      × (d'.to_service ≡ d.to_service)
reply_event net n d text idle h =
    let (d', e, r, o) =
      service_data_in-Returned (net.split text) d idle.valid
        (fits net d.service_input n idle text h) in
    (
      d',
      e,
      r.sent
          ∙ ap (λ t. sent_text t ++ d.to_server)
              (ap (λ x. x ++ arrived (net.split text)) idle.empty ∙ net.whole text),
      r.same_service,
    )
