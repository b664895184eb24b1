-- ===== src/Client/Control.antt =====
-- ncx_client/ccontrolchannel.cpp with `handle_data_in` of network/connection.cpp: the read events of the
-- client's control connection.
use ncx_for_mall.Prelude.{List, Result, ok, ◌>>=◌, ℕ}
use ncx_for_mall.Protocol.{Wire}
use ncx_for_mall.Framing.{read_msg}
use ncx_for_mall.Socket.{ReadResult, read_loop}
use ncx_for_mall.Client.{
  CControlChannel, CControlChannelMap, Stage, connects, waits_hello, waits_cmd,
  wait_control_channel_hello, wait_server_cmd,
}

module _ (w : Wire) where
  -- `Connection::handle_message`, with the handler of the stage; before it has shaken hands a channel
  -- has none.
  unfoldable pub control_message :
      List ℕ
      → Stage
      → CControlChannel
      → CControlChannelMap
      → Result (CControlChannel × CControlChannelMap)
  control_message channel_id connects c m = ok (c, m)
  control_message channel_id waits_hello c m = wait_control_channel_hello w c m
  control_message channel_id waits_cmd c m = do c' ← wait_server_cmd w channel_id c; ok (c', m)

  -- `handle_data_in`. The closing of the connection takes it from its client, and no callback of the
  -- channel is called; what was read is handled all the same.
  unfoldable pub control_data_in :
      List ReadResult
      → List ℕ
      → CControlChannel
      → CControlChannelMap
      → Result (CControlChannel × CControlChannelMap)
  unfolding control_message
  control_data_in results channel_id c m = do
    (input, exit) ← read_loop c.input results
    control_message channel_id c.stage (record c { input = input }) m

  -- `wait_ack`, whose two cases do nothing; it is set as a handler nowhere.
  unfoldable pub wait_ack : CControlChannel → Result CControlChannel
  wait_ack c = do (msg, rest) ← read_msg w c.input; ok (record c { input = rest })
