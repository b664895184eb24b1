-- ===== src/Client/Duplex.antt =====
-- ncx_client/datachannel.cpp with ncx_client/ccontrolchannel.cpp and `handle_data_in` of
-- network/connection.cpp: the read events of a data channel's two connections, and its deletion.
pub mod Backward
pub mod Handlers
use ncx_for_mall.Prelude.{
  ℕ, List, [], ◌∷◌, Option, none, some, Bool, true, false, ltb, ◌==◌, if◌then◌else◌, Result, ok,
  err, dangling, ◌>>=◌,
}
use ncx_for_mall.Prelude.Maps.{lookup, insert, erase, text_eq}
use ncx_for_mall.Buffer.{Buffer, readable_bytes, retrieve_all_as_string}
use ncx_for_mall.Protocol.{Wire, get_field, start_forward_tcp}
use ncx_for_mall.Framing.{read_msg}
use ncx_for_mall.Socket.{ReadResult, Exit, leaves, closes, loops, read_loop}
use ncx_for_mall.Client.{
  DataChannel, CControlChannel, send_to_service, forward_to_service, do_data_channel_transforward,
  wait_data_channel_start_cmd,
}

-- The λ on the service's connection. The server's connection is there as long as the channel is.
unfoldable pub send_to_server : DataChannel → Result DataChannel
send_to_server d = do
  (text, rest) ← retrieve_all_as_string d.service_input
  ok (record d { service_input = rest; to_server = text ∷ d.to_server })

unfoldable pub forward_to_server : DataChannel → Result DataChannel
unfolding send_to_server
forward_to_server d = if ltb 0 (readable_bytes d.service_input) then send_to_server d else ok d

-- A connection that closes is taken from its client by `removeConnection`; the service's client has
-- nothing else to do then.
abbrev pub still_open : Exit → Bool → Bool
still_open closes opened = false
still_open _ opened = opened

-- `handle_data_in` on the service's connection.
unfoldable pub service_data_in : List ReadResult → DataChannel → Result DataChannel
unfolding forward_to_server
service_data_in results d = do
  (input, exit) ← read_loop d.service_input results
  forward_to_server
      (record d { service_input = input; service_open = still_open exit d.service_open })

-- An object that is there, or was deleted, and what a use of it gives.
abbrev pub with_this :
    Option DataChannel → (DataChannel → Result DataChannel) → Result (Option DataChannel)
with_this none f = err dangling
with_this (some d) f = f d >>= λ d'. ok (some d')

-- The buffer as a read leaves it.
abbrev pub after_read : Buffer → Option DataChannel → Option DataChannel
after_read rest none = none
after_read rest (some d) = some (record d { server_input = rest })

module _ (w : Wire) where
  -- The handler of the server's connection while the channel is there.
  unfoldable pub server_message : DataChannel → Result DataChannel
  server_message d = if d.forwards then forward_to_service d else wait_data_channel_start_cmd w d

  -- The two handlers with their `this`, which is looked up only where the code uses it. The connection's
  -- buffer, and which handler is set on it, are the connection's own: `d` has them as they are.
  unfoldable pub forward_handler : DataChannel → Option DataChannel → Result (Option DataChannel)
  forward_handler d this =
      if ltb 0 (readable_bytes d.server_input) then with_this this send_to_service else ok this

  unfoldable pub wait_handler : DataChannel → Option DataChannel → Result (Option DataChannel)
  wait_handler d this = do
    (msg, rest) ← read_msg w d.server_input
    elim msg [
      | none ↦ ok (after_read rest this)
      | some text ↦
          if get_field (w.parse_command text).1.cmd 0 == start_forward_tcp
          then with_this (after_read rest this) do_data_channel_transforward
          else ok (after_read rest this)
    ]

  unfoldable pub server_handler : DataChannel → Option DataChannel → Result (Option DataChannel)
  unfolding forward_handler wait_handler
  server_handler d this = if d.forwards then forward_handler d this else wait_handler d this

  -- `handle_data_in` on the server's connection: where the loop closes it, `delete_data_channel` has taken
  -- the channel from the pool before the handler is called.
  unfoldable pub server_data_in : List ReadResult → DataChannel → Result (Option DataChannel)
  unfolding server_handler
  server_data_in results d = do
    (input, exit) ← read_loop d.server_input results
    let d' = record d { server_input = input }
    server_handler d' (elim exit [ closes ↦ none | _ ↦ some d' ])

  -- The channel in `data_pool_`, whose entry `data_channel_delete_` erases.
  unfoldable pub pool_data_in : List ReadResult → List ℕ → CControlChannel → Result CControlChannel
  unfolding server_data_in
  pool_data_in results channel_id c = elim (lookup channel_id c.data_pool) [
    | none ↦ ok c
    | some d ↦ do
      left ← server_data_in results d
      ok (record c {
        data_pool = elim left [
          | none ↦ erase channel_id c.data_pool
          | some d' ↦ insert channel_id d' c.data_pool
        ];
      })
  ]
