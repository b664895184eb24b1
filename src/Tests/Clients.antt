-- ===== src/Tests/Clients.antt =====
-- A client that gets the frames of the server.
use ncx_for_mall.Prelude.{
  ℕ, ◌≡◌, ◌≢◌, refl, ap, List, [], ◌∷◌, ◌++◌, none, some, false, get_or, replicate, arith, ok,
}
use ncx_for_mall.Prelude.Maps.{lookup, text_eq}
use ncx_for_mall.Buffer.{Buffer}
use ncx_for_mall.Buffer.Invariant.{contents}
use ncx_for_mall.Protocol.{serialize_header, serialize_hello, serialize_command}
use ncx_for_mall.Framing.{header_installer}
use ncx_for_mall.Client.{
  DataChannel, CControlChannel, CControlChannelMap, waits_hello, waits_cmd,
  register_control_channel, wait_control_channel_hello, wait_server_cmd,
  wait_data_channel_start_cmd,
}
use ncx_for_mall.Client.Registration.{lookup-register}
use ncx_for_mall.Client.Relay.{data_hello, hello_arrives, create_arrives, Relayed, start_arrives}
use ncx_for_mall.Tests.Samples.{sample_wire, sample_laws, empty_buffer}

-- A frame of a hello with the nonce 97, and of a command with the code 0.
abbrev hello_buffer : Buffer
hello_buffer = record {
  buffer = replicate 8 0 ++ 13 ∷ 5 ∷ 0 ∷ 0 ∷ 0 ∷ 8 ∷ 0 ∷ 18 ∷ 1 ∷ 97 ∷ 13 ∷ [];
  read_index = 8;
  write_index = 19;
}

abbrev pub command_buffer : Buffer
command_buffer = record {
  buffer = replicate 8 0 ++ 13 ∷ 2 ∷ 0 ∷ 0 ∷ 0 ∷ 8 ∷ 0 ∷ 71 ∷ 69 ∷ [];
  read_index = 8;
  write_index = 17;
}

abbrev channel_with : List ℕ → Buffer → CControlChannel
channel_with id input = record {
  id = id;
  service_name = 115 ∷ [];
  proxy_port = 8080;
  stage = waits_hello;
  input = input;
  data_pool = [];
  to_server = [];
}

abbrev sample_map : CControlChannelMap
sample_map = (1 ∷ [], some 0) ∷ (2 ∷ [], some 1) ∷ []

one_ne_97 : (let one : List ℕ = 1 ∷ [] in one) ≢ 97 ∷ []
one_ne_97 e = omega (arith, ap (λ t. get_or t 0 0) e)

lookup-register_example :
    lookup (97 ∷ []) (register_control_channel (1 ∷ []) (97 ∷ []) sample_map) ≡ some (some 0)
lookup-register_example =
    lookup-register (1 ∷ []) (97 ∷ []) (some 0) sample_map refl refl one_ne_97 (97 ∷ [])

hello_arrives_example :
    (c' : CControlChannel) × (m' : CControlChannelMap) × (wait_control_channel_hello sample_wire
        (channel_with (1 ∷ []) hello_buffer)
        sample_map
      ≡ ok (c', m'))
    × (c'.id ≡ 97 ∷ [])
    × (c'.stage ≡ waits_cmd)
    × (contents c'.input ≡ 13 ∷ [])
    × (lookup (97 ∷ []) m' ≡ some (some 0))
    × (lookup (1 ∷ []) m' ≡ none)
unfolding header_installer serialize_header serialize_hello
hello_arrives_example =
    hello_arrives sample_wire sample_laws (97 ∷ []) (omega arith) (omega arith) refl
      (channel_with (1 ∷ []) hello_buffer) sample_map (some 0) (13 ∷ []) (omega arith) refl refl
      refl one_ne_97

create_arrives_example :
    (c' : CControlChannel) × (d : DataChannel) × (wait_server_cmd sample_wire
        (5 ∷ [])
        (channel_with (97 ∷ []) command_buffer)
      ≡ ok c')
    × (lookup (5 ∷ []) c'.data_pool ≡ some d)
    × (d.to_server
        ≡ header_installer sample_wire (serialize_hello sample_wire (data_hello (97 ∷ []))) ∷ [])
    × (d.forwards ≡ false)
    × (contents c'.input ≡ 71 ∷ 69 ∷ [])
unfolding header_installer serialize_header serialize_command
create_arrives_example =
    create_arrives sample_wire sample_laws (omega arith) (omega arith) refl
      (channel_with (97 ∷ []) command_buffer) (5 ∷ []) (71 ∷ 69 ∷ []) (omega arith) refl refl

abbrev pub sample_data_channel : DataChannel
sample_data_channel = record {
  channel_id = 5 ∷ [];
  nonce = 97 ∷ [];
  forwards = false;
  server_input = command_buffer;
  service_input = empty_buffer;
  service_open = false;
  to_server = [];
  to_service = [];
}

start_arrives_example :
    (d' : DataChannel) × (wait_data_channel_start_cmd sample_wire sample_data_channel ≡ ok d')
    × Relayed sample_data_channel (71 ∷ 69 ∷ []) d'
unfolding header_installer serialize_header serialize_command
start_arrives_example =
    start_arrives sample_wire sample_laws (omega arith) (omega arith) refl sample_data_channel
      (71 ∷ 69 ∷ []) (omega arith) refl
