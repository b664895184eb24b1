-- ===== src/Tests/Sessions.antt =====
-- One run of server and client, with a request and a reply.
use ncx_for_mall.Prelude.{
  ◌≡◌, refl, List, [], ◌∷◌, append-nil, ap, drop, take, get_or, none, some, true, arith, ok, codes,
  ◌==◌, if◌then◌else◌, ◌+◌, length,
}
use ncx_for_mall.Prelude.Maps.{text_eq}
use ncx_for_mall.Protocol.{
  Wire, Hello, serialize_hello, serialize_content, serialize_command, create_data_channel,
}
use ncx_for_mall.Socket.{ReadResult, accepted, interrupts, bytes, would_block, interrupted, leaves}
use ncx_for_mall.Socket.Reading.{arrived, read_exit}
use ncx_for_mall.Config.{CControlChannelArgs}
use ncx_for_mall.Server.{Server, Text}
use ncx_for_mall.Client.{DataChannel}
use ncx_for_mall.Client.Relay.{server_hello, data_hello, command_of}
use ncx_for_mall.Session.{Transport, TakesWhole, Draws, wire_to, said, session}
use ncx_for_mall.Session.Hop.{HelloLaw, CommandLaw}
use ncx_for_mall.Session.Opened.{client_hello, SessionLaws}
use ncx_for_mall.Session.Whole.{session-whole}
use ncx_for_mall.Tests.Samples.{sample_wire, sample_laws}
use ncx_for_mall.Tests.Startups.{service_args}
use ncx_for_mall.Tests.Bridges.{fresh_server}

-- The content of a control channel's hello: a name behind its length, and a port.
abbrev read_content : Text → Hello
read_content content = record {
  hello_type = some 0;
  digest = none;
  content = some (record {
    service_name = some (take (get_or content 1 0) (drop 2 content));
    proxy_port = some (get_or content (3 + get_or content 1 0) 0);
  });
}

-- The third byte of a hello is the tag of its digest, or of its content.
abbrev read_hello : Text → Hello
read_hello text =
    if get_or text 2 0 == 26
    then read_content (drop 4 text)
    else record { hello_type = some (get_or text 1 0); digest = some (drop 4 text); content = none }

abbrev session_wire : Wire
session_wire = record sample_wire { parse_hello = λ text. (true, read_hello text) }

-- A text comes in two pieces, the first of one byte.
abbrev cut : Text → List ReadResult
cut [] = would_block ∷ []
cut (x ∷ xs) = bytes (x ∷ []) ∷ interrupted ∷ bytes xs ∷ would_block ∷ []

cut-arrived : (text : Text) → arrived (cut text) ≡ text
cut-arrived [] = refl
cut-arrived (x ∷ xs) = ap (λ t. x ∷ t) (append-nil xs)

cut-exit : (text : Text) → read_exit (cut text) ≡ leaves
cut-exit [] = refl
cut-exit (x ∷ xs) = refl

abbrev sample_transport : Transport
sample_transport = record {
  writes = λ text. interrupts ∷ accepted (length text) ∷ [];
  split = cut;
  whole = cut-arrived;
  stays = cut-exit;
}

sample-TakesWhole : TakesWhole sample_transport
sample-TakesWhole text pos = (1, [], refl)

abbrev sample_draws : Draws
sample_draws = record {
  control_id = 11;
  control_fd = 21;
  visitor_id = 12;
  visitor_fd = 22;
  data_id = 13;
  data_fd = 23;
  client_id = 100 ∷ [];
  nonce = 97 ∷ [];
  channel_id = 99 ∷ [];
  bridge_id = 98 ∷ [];
}

abbrev sample_args : CControlChannelArgs
sample_args = service_args (codes "ssh") 80

client_law : HelloLaw session_wire (client_hello sample_args)
unfolding serialize_hello serialize_content
client_law = record { pos = omega arith; small = omega arith; parses = refl }

back_law : HelloLaw session_wire (server_hello (97 ∷ []))
unfolding serialize_hello
back_law = record { pos = omega arith; small = omega arith; parses = refl }

data_law : HelloLaw session_wire (data_hello (97 ∷ []))
unfolding serialize_hello
data_law = record { pos = omega arith; small = omega arith; parses = refl }

command_law : CommandLaw session_wire (command_of create_data_channel)
unfolding serialize_command
command_law = record { pos = omega arith; small = omega arith; parses = refl }

sample-SessionLaws : SessionLaws session_wire sample_args (97 ∷ [])
sample-SessionLaws = record {
  header = record {
    fixed32_length = sample_laws.fixed32_length;
    header_back = sample_laws.header_back;
    header_bound = sample_laws.header_bound;
  };
  hello = client_law;
  back = back_law;
  data_channel = data_law;
  create_channel = command_law;
  start_forward = command_law;
}

session-whole_example :
    (s' : Server) × (d : DataChannel) × (session session_wire sample_transport sample_draws
        sample_args
        (codes "ping")
        (codes "pong")
        fresh_server
        []
      ≡ ok (s', d))
    × (d.to_service ≡ codes "ping" ∷ [])
    × (said sample_transport d.to_service ≡ codes "ping")
    × (s'.sends ≡ (3, codes "pong") ∷ [])
    × (wire_to sample_transport 3 s'.sends ≡ codes "pong")
session-whole_example =
    session-whole session_wire sample_transport sample-TakesWhole sample_draws sample_args
      sample-SessionLaws (codes "ping") (codes "pong") fresh_server [] refl (omega arith)
      (omega arith)
