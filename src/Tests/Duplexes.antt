-- ===== src/Tests/Duplexes.antt =====
-- A data channel that forwards, and whose connections close.
use ncx_for_mall.Prelude.{
  ◌≡◌, refl, List, [], ◌∷◌, true, false, arith, ok, err, dangling, null_pointer,
}
use ncx_for_mall.Socket.{ReadResult, bytes, would_block, interrupted, end_of_file}
use ncx_for_mall.Client.{DataChannel}
use ncx_for_mall.Client.Duplex.{service_data_in, server_data_in}
use ncx_for_mall.Client.Duplex.Backward.{
  Returned, service_data_in-Returned, server_data_in-closing, service_closes-null_pointer,
}
use ncx_for_mall.Tests.Samples.{
  sample_wire, sample_buffer, sample_buffer-IsValid, empty_buffer, empty_buffer-IsValid,
}
use ncx_for_mall.Tests.Clients.{sample_data_channel}

abbrev open_channel : DataChannel
open_channel = record sample_data_channel {
  forwards = true;
  service_open = true;
  server_input = empty_buffer;
  service_input = sample_buffer;
}

abbrev last_calls : List ReadResult
last_calls = bytes (4 ∷ []) ∷ interrupted ∷ bytes (5 ∷ []) ∷ end_of_file ∷ []

abbrev more_calls : List ReadResult
more_calls = bytes (6 ∷ []) ∷ would_block ∷ []

service_data_in-Returned_example :
    (d' : DataChannel) × (service_data_in last_calls open_channel ≡ ok d')
    × Returned open_channel (1 ∷ 2 ∷ 3 ∷ 4 ∷ 5 ∷ []) d'
    × (d'.service_open ≡ false)
service_data_in-Returned_example =
    service_data_in-Returned last_calls open_channel sample_buffer-IsValid (omega arith)

server_data_in-closing_example : server_data_in sample_wire last_calls open_channel ≡ err dangling
server_data_in-closing_example =
    server_data_in-closing sample_wire last_calls open_channel empty_buffer-IsValid (omega arith)
      refl refl

service_closes-null_pointer_example :
    (d' : DataChannel) × (service_data_in last_calls open_channel ≡ ok d')
    × (d'.to_server ≡ (1 ∷ 2 ∷ 3 ∷ 4 ∷ 5 ∷ []) ∷ open_channel.to_server)
    × (server_data_in sample_wire more_calls d' ≡ err null_pointer)
service_closes-null_pointer_example =
    service_closes-null_pointer sample_wire last_calls more_calls open_channel sample_buffer-IsValid
      (omega arith) refl empty_buffer-IsValid (omega arith) refl refl (omega arith)
