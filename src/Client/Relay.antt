-- ===== src/Client/Relay.antt =====
-- ncx_client/ccontrolchannel.cpp and ncx_client/datachannel.cpp: what the client does with the frames
-- that the server sends.
use ncx_for_mall.Prelude.{
  ℕ, ◌^◌, ◌<◌, ◌≡◌, ◌≢◌, refl, subst, inl, inr, List, [], ◌∷◌, ◌++◌, Option, none, some, true,
  false, ltb, arith, Bool-cases, length, ok, lt→ltb, le→ltb_false,
}
use ncx_for_mall.Prelude.Maps.{lookup, text_eq, lookup-emplace, beq_self}
use ncx_for_mall.Buffer.{readable_bytes, retrieve_all}
use ncx_for_mall.Buffer.Invariant.{IsValid, contents}
use ncx_for_mall.Buffer.Reads.{
  readable_bytes-length, retrieve_all_as_string_lem, retrieve_all-IsValid,
}
use ncx_for_mall.Protocol.{
  Wire, HeaderLaws, Hello, Command, data_channel_hello, control_channel_hello, create_data_channel,
  start_forward_tcp, serialize_hello, serialize_command,
}
use ncx_for_mall.Framing.{header_installer}
use ncx_for_mall.Framing.Frames.{read_msg-frame}
use ncx_for_mall.Client.{
  DataChannel, CControlChannel, CControlChannelMap, waits_cmd, register_control_channel,
  wait_control_channel_hello, wait_server_cmd, wait_data_channel_start_cmd, handle_hello_back,
  handle_server_nonce, handle_server_cmd, handle_cmd_create_datachannel, new_data_channel,
  do_data_channel_handshake, handle_start_cmd, do_data_channel_transforward, forward_to_service,
  send_to_service,
}
use ncx_for_mall.Client.Registration.{register-found, register-gone}

-- The hello with which a server answers, and the one of a data channel.
abbrev pub server_hello : List ℕ → Hello
server_hello nonce = record {
  hello_type = some control_channel_hello;
  digest = some nonce;
  content = none;
}

abbrev pub data_hello : List ℕ → Hello
data_hello nonce = record {
  hello_type = some data_channel_hello;
  digest = some nonce;
  content = none;
}

abbrev pub command_of : ℕ → Command
command_of code = record { cmd = some code }

-- What a row of texts sent grows by, if there is any text.
abbrev pub sent_text : List ℕ → List (List ℕ)
sent_text [] = []
sent_text (x ∷ xs) = (x ∷ xs) ∷ []

module _ (w : Wire) (laws : HeaderLaws w) (nonce : List ℕ)
    (pos : 0 < length (serialize_hello w (server_hello nonce)))
    (small : length (serialize_hello w (server_hello nonce)) < 2 ^ 32)
    (parses : (w.parse_hello (serialize_hello w (server_hello nonce))).1 ≡ server_hello nonce) where
  -- Where a message that is not empty and shorter than 2^32 and that protobuf reads back is the
  -- server's hello, and its frame is at the front of the valid input buffer of a control channel
  -- that is registered under another id, with the nonce in the hello not in use: the channel takes
  -- the nonce for its id, waits for commands, is found under the nonce and no longer under its old
  -- id, and the bytes behind the frame stay.
  pub hello_arrives :
      (c : CControlChannel) (m : CControlChannelMap) (channel : Option ℕ) (rest : List ℕ)
      → IsValid c.input
      → contents c.input ≡ header_installer w (serialize_hello w (server_hello nonce)) ++ rest
      → lookup c.id m ≡ some channel
      → lookup nonce m ≡ none
      → c.id ≢ nonce
      → (c' : CControlChannel) × (m' : CControlChannelMap) × (wait_control_channel_hello w c m
          ≡ ok (c', m'))
        × (c'.id ≡ nonce)
        × (c'.stage ≡ waits_cmd)
        × (contents c'.input ≡ rest)
        × (lookup nonce m' ≡ some channel)
        × (lookup c.id m' ≡ none)
  unfolding wait_control_channel_hello handle_hello_back handle_server_nonce
  hello_arrives c m channel rest v e found unused differ =
      let (b', r, v', left, u) = read_msg-frame w laws c.input _ rest v pos small e in
      (
        record c { id = nonce; stage = waits_cmd; input = b' },
        register_control_channel c.id nonce m,
        rw (r, parses),
        refl,
        refl,
        left,
        register-found c.id nonce channel m found unused differ,
        register-gone c.id nonce channel m found unused differ,
      )

module _ (w : Wire) (laws : HeaderLaws w)
    (pos : 0 < length (serialize_command w (command_of create_data_channel)))
    (small : length (serialize_command w (command_of create_data_channel)) < 2 ^ 32)
    (parses : (w.parse_command (serialize_command w (command_of create_data_channel))).1
      ≡ command_of create_data_channel) where
  -- Where the frame of the command to create a data channel, a message that is not empty and
  -- shorter than 2^32 and that protobuf reads back, is at the front of the valid input buffer of a
  -- control channel, the client has a data channel under its fresh id, which has sent a hello with
  -- the id of the control channel, and only that, and does not forward yet; the bytes behind the
  -- frame stay.
  pub create_arrives :
      (c : CControlChannel) (channel_id rest : List ℕ)
      → IsValid c.input
      → contents c.input
        ≡ header_installer w (serialize_command w (command_of create_data_channel)) ++ rest
      → lookup channel_id c.data_pool ≡ none
      → (c' : CControlChannel) × (d : DataChannel) × (wait_server_cmd w channel_id c ≡ ok c')
        × (lookup channel_id c'.data_pool ≡ some d)
        × (d.to_server ≡ header_installer w (serialize_hello w (data_hello c.id)) ∷ [])
        × (d.forwards ≡ false)
        × (contents c'.input ≡ rest)
  unfolding wait_server_cmd handle_server_cmd handle_cmd_create_datachannel new_data_channel
      do_data_channel_handshake
  create_arrives c channel_id rest v e unused =
      let (b', r, v', left, u) = read_msg-frame w laws c.input _ rest v pos small e in
      let d = new_data_channel w channel_id c.id in
      (
        handle_cmd_create_datachannel w channel_id (record c { input = b' }),
        d,
        rw (r, parses),
        rw (lookup-emplace channel_id channel_id d c.data_pool unused, beq_self channel_id),
        refl,
        refl,
        left,
      )

pub sent_text-cons : (t : List ℕ) → 0 < length t → sent_text t ≡ t ∷ []
sent_text-cons [] h = absurd (omega arith)
sent_text-cons (x ∷ xs) h = refl

pub sent_text-nil : (t : List ℕ) → length t ≡ 0 → (sent_text t ≡ []) × (t ≡ [])
sent_text-nil [] h = (refl, refl)
sent_text-nil (x ∷ xs) h = absurd (omega arith)

send_to_service-ok :
    (d : DataChannel)
    → IsValid d.server_input
    → d.service_open ≡ true
    → send_to_service d
      ≡ ok (record d {
        server_input = retrieve_all d.server_input;
        to_service = contents d.server_input ∷ d.to_service;
      })
unfolding send_to_service
send_to_service-ok d v there = rw (there, retrieve_all_as_string_lem d.server_input v)

-- What a call has done that sends all of `text` to the service.
pub record Relayed (d : DataChannel) (text : List ℕ) (d' : DataChannel) : Type 0 where
  pub forwards : d'.forwards ≡ true
  pub sent : d'.to_service ≡ sent_text text ++ d.to_service
  pub valid : IsValid d'.server_input
  pub emptied : contents d'.server_input ≡ []
  pub same_input : d'.service_input ≡ d.service_input

pub forward_to_service-Relayed :
    (d : DataChannel)
    → IsValid d.server_input
    → d.forwards ≡ true
    → d.service_open ≡ true
    → (d' : DataChannel) × (forward_to_service d ≡ ok d') × Relayed d (contents d.server_input) d'
unfolding forward_to_service
forward_to_service-Relayed d v on there =
    let text = contents d.server_input in
    let l = readable_bytes-length d.server_input v in
    elim (Bool-cases (ltb 0 (length text))) [
      | inl more ↦ (
        record d {
          server_input = retrieve_all d.server_input;
          to_service = contents d.server_input ∷ d.to_service;
        },
        rw (lt→ltb 0 (readable_bytes d.server_input) (ground (arith, l)))
            (send_to_service-ok d v there),
        record {
          forwards = on;
          sent = rw (sent_text-cons text (ground arith));
          valid = (retrieve_all-IsValid d.server_input v).0;
          emptied = (retrieve_all-IsValid d.server_input v).1;
          same_input = refl;
        },
      )
      | inr no_more ↦
          let z : length text ≡ 0 = ground arith in
          (
            d,
            rw (le→ltb_false 0 (readable_bytes d.server_input) (omega (arith, l, z))),
            record {
              forwards = on;
              sent = rw ((sent_text-nil text z).0);
              valid = v;
              emptied = (sent_text-nil text z).1;
              same_input = refl;
            },
          )
    ]

module _ (w : Wire) (laws : HeaderLaws w)
    (pos : 0 < length (serialize_command w (command_of start_forward_tcp)))
    (small : length (serialize_command w (command_of start_forward_tcp)) < 2 ^ 32)
    (parses : (w.parse_command (serialize_command w (command_of start_forward_tcp))).1
      ≡ command_of start_forward_tcp) where
  -- Where the frame of the start command, a message that is not empty and shorter than 2^32 and
  -- that protobuf reads back, is at the front of the valid input buffer of a data channel, the
  -- channel forwards, and the bytes behind the frame are sent to the service at once, in one text
  -- if there are any; the buffer is valid and empty.
  pub start_arrives :
      (d : DataChannel) (text : List ℕ)
      → IsValid d.server_input
      → contents d.server_input
        ≡ header_installer w (serialize_command w (command_of start_forward_tcp)) ++ text
      → (d' : DataChannel) × (wait_data_channel_start_cmd w d ≡ ok d') × Relayed d text d'
  unfolding wait_data_channel_start_cmd handle_start_cmd do_data_channel_transforward
  start_arrives d text v e =
      let (b', r, v', left, u) = read_msg-frame w laws d.server_input _ text v pos small e in
      let (d', q, relayed) =
        forward_to_service-Relayed
          (record d { server_input = b'; forwards = true; service_open = true }) v' refl refl in
      (
        d',
        rw (r, parses) q,
        subst (λ t. Relayed d t d') left
            record {
              forwards = relayed.forwards;
              sent = relayed.sent;
              valid = relayed.valid;
              emptied = relayed.emptied;
              same_input = relayed.same_input;
            },
      )
