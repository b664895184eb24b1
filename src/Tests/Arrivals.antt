-- ===== src/Tests/Arrivals.antt =====
-- A server that gets the hello of a client in two pieces.
use ncx_for_mall.Prelude.{◌≡◌, refl, List, [], ◌∷◌, none, some, true, arith, ok}
use ncx_for_mall.Prelude.Maps.{lookup, text_eq}
use ncx_for_mall.Buffer.Invariant.{IsValid, contents}
use ncx_for_mall.Protocol.{Wire, HeaderLaws, serialize_header}
use ncx_for_mall.Framing.{header_installer}
use ncx_for_mall.Socket.{ReadResult, bytes, would_block, interrupted}
use ncx_for_mall.Server.{Server}
use ncx_for_mall.NServer.{handle_data_in}
use ncx_for_mall.NServer.Handshake.{new_channel_of, hello_frame}
use ncx_for_mall.NServer.Arrival.{control_hello_arrives}
use ncx_for_mall.Tests.Samples.{sample_wire, sample_laws, empty_buffer-IsValid}
use ncx_for_mall.Tests.Bridges.{fresh_server}

-- A hello whose third byte is the port of the proxy.
abbrev hello_wire : Wire
hello_wire = record sample_wire {
  parse_hello = λ text. (
    true,
    record {
      hello_type = some 0;
      digest = none;
      content = some (record { service_name = none; proxy_port = some 81 });
    },
  );
}

hello_laws : HeaderLaws hello_wire
hello_laws = record {
  fixed32_length = sample_laws.fixed32_length;
  header_back = sample_laws.header_back;
  header_bound = sample_laws.header_bound;
}

abbrev hello_calls : List ReadResult
hello_calls =
    bytes (13 ∷ 3 ∷ 0 ∷ []) ∷ interrupted ∷ bytes (0 ∷ 0 ∷ 8 ∷ 0 ∷ 81 ∷ 77 ∷ []) ∷ would_block ∷ []

control_hello_arrives_example :
    (s' : Server) × (handle_data_in hello_wire 0 hello_calls (99 ∷ []) 1 fresh_server ≡ ok s')
    × (lookup (99 ∷ []) s'.sc_map ≡ some (new_channel_of 81 1))
    × (s'.sends ≡ (1, hello_frame hello_wire (99 ∷ [])) ∷ [])
    × IsValid (s'.conn 1).input_buffer
    × (contents (s'.conn 1).input_buffer ≡ 77 ∷ [])
unfolding header_installer serialize_header
control_hello_arrives_example =
    control_hello_arrives hello_wire hello_laws 0 hello_calls (99 ∷ []) 1 fresh_server
      empty_buffer-IsValid (omega arith) refl refl (8 ∷ 0 ∷ 81 ∷ []) (77 ∷ []) (omega arith)
      (omega arith) refl (record { service_name = none; proxy_port = some 81 }) refl refl refl
