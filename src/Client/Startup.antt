-- ===== src/Client/Startup.antt =====
-- ncx_client/nclient.cpp: the client makes a control channel for each service of its configuration. The
-- loop has no thread before it runs, so that each `start` puts `Connector::startInLoop` into the loop's
-- queue; ids that the UUID generator makes are arguments.
pub mod Registered
use ncx_for_mall.Prelude.{ℕ, zero, suc, List, [], ◌∷◌, ◌++◌, some, length}
use ncx_for_mall.Prelude.Maps.{emplace, text_eq}
use ncx_for_mall.Buffer.{new_buffer}
use ncx_for_mall.Protocol.{Wire}
use ncx_for_mall.Config.{CControlChannelArgs}
use ncx_for_mall.Client.{
  CControlChannel, CControlChannelMap, connects, do_control_channel_handshake,
}

-- `NClient`, its channels by their numbers, with the channels whose start is in the loop's queue.
pub record NClient : Type 0 where
  pub channels : List CControlChannel
  pub cc_map : CControlChannelMap
  pub to_do : List ℕ

-- The constructor of `CControlChannel`.
unfoldable pub new_control_channel : List ℕ → CControlChannelArgs → CControlChannel
new_control_channel id args = record {
  id = id;
  service_name = args.service_name;
  proxy_port = args.proxy_port;
  stage = connects;
  input = new_buffer;
  data_pool = [];
  to_server = [];
}

-- `NClient::parse_args`: each channel is made, its start is queued, and it goes into the map.
unfoldable pub parse_args : List (List ℕ × CControlChannelArgs) → NClient → NClient
unfolding new_control_channel
parse_args [] n = n
parse_args ((id, args) ∷ rest) n = parse_args rest (record {
  channels = n.channels ++ new_control_channel id args ∷ [];
  cc_map = emplace id (some (length n.channels)) n.cc_map;
  to_do = n.to_do ++ length n.channels ∷ [];
})

-- `NClient::NClient`
abbrev pub new_nclient : List (List ℕ × CControlChannelArgs) → NClient
new_nclient cc_set = parse_args cc_set (record { channels = []; cc_map = []; to_do = [] })

-- One channel of a list changes.
abbrev pub change :
    (CControlChannel → CControlChannel) → ℕ → List CControlChannel → List CControlChannel
change f p [] = []
change f zero (c ∷ cs) = f c ∷ cs
change f (suc p) (c ∷ cs) = c ∷ change f p cs

module _ (w : Wire) where
  -- A channel whose start the loop has made: its connection shakes hands.
  unfoldable pub start_channel : List ℕ → CControlChannelArgs → CControlChannel
  unfolding new_control_channel
  start_channel id args = do_control_channel_handshake w (new_control_channel id args)

  -- The starts of a row of channels, each of which connects and then shakes hands.
  unfoldable pub make_starts : List ℕ → List CControlChannel → List CControlChannel
  make_starts [] cs = cs
  make_starts (p ∷ rest) cs = make_starts rest (change (do_control_channel_handshake w) p cs)

  -- `NClient::run_client` up to the point where the loop has made the starts in its queue.
  unfoldable pub run_client : NClient → NClient
  unfolding make_starts
  run_client n = record n { channels = make_starts n.to_do n.channels; to_do = [] }
