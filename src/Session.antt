-- ===== src/Session.antt =====
-- ncx_server and ncx_client together: a client's control channel, one visitor, and the data channel that
-- is opened for it, with the bytes that either side sends as the other's read events.
pub mod Hop
pub mod Serving
pub mod Bridging
pub mod Relaying
pub mod Dialling
pub mod Opened
pub mod Whole
use ncx_for_mall.Prelude.{
  ℕ, suc, ◌<◌, length, replicate, ◌≡◌, List, [], ◌∷◌, ◌++◌, Option, none, some, ◌==◌, if◌then◌else◌,
  Result, ok, err, ◌>>=◌, null_pointer, dangling,
}
use ncx_for_mall.Prelude.Maps.{lookup, text_eq}
use ncx_for_mall.Protocol.{Wire}
use ncx_for_mall.Socket.{ReadResult, WriteResult, accepted, interrupts, leaves, write_loop}
use ncx_for_mall.Socket.Reading.{arrived, read_exit}
use ncx_for_mall.Connection.{main_server, proxy_server}
use ncx_for_mall.Config.{CControlChannelArgs}
use ncx_for_mall.Server.{Server, Text}
use ncx_for_mall.Server.Fuel.{bridge_count}
use ncx_for_mall.NServer.{new_connection_handle, handle_data_in}
use ncx_for_mall.Client.{DataChannel, CControlChannel, CControlChannelMap}
use ncx_for_mall.Client.Control.{control_data_in}
use ncx_for_mall.Client.Duplex.{server_data_in, service_data_in}
use ncx_for_mall.Client.Startup.{start_channel}

-- The network between the two: how the kernel answers the calls of `write` for a text that is sent, and
-- how a text comes in, cut into pieces and with interrupted calls, in one read event.
pub record Transport : Type 0 where
  pub writes : Text → List WriteResult
  pub split : Text → List ReadResult
  pub whole : (text : Text) → arrived (split text) ≡ text
  pub stays : (text : Text) → read_exit (split text) ≡ leaves

-- The kernel takes each text that is not empty in one piece, be it after some interrupted calls.
abbrev pub TakesWhole : Transport → Type 0
TakesWhole net =
    (text : Text)
    → 0 < length text
    → (k : ℕ) × (calls : List WriteResult) × (net.writes text
        ≡ replicate k interrupts ++ accepted (length text) ∷ calls)

-- What the loop of `Send` puts on the wire for a text. The output buffer is empty before it, and again
-- behind it, as `send_lem` shows.
abbrev pub on_wire : Transport → Text → Text
on_wire net text = (write_loop text (length text) (net.writes text)).0

-- The numbers, descriptors and ids that the run draws.
pub record Draws : Type 0 where
  pub control_id : ℕ
  pub control_fd : ℕ
  pub visitor_id : ℕ
  pub visitor_fd : ℕ
  pub data_id : ℕ
  pub data_fd : ℕ
  pub client_id : Text
  pub nonce : Text
  pub channel_id : Text
  pub bridge_id : Text

-- What goes over the wire of one connection, of the texts in a log with the last one first.
abbrev pub wire_to : Transport → ℕ → List (ℕ × Text) → Text
wire_to net p [] = []
wire_to net p ((q, text) ∷ log) = wire_to net p log ++ (if q == p then on_wire net text else [])

abbrev pub said : Transport → List Text → Text
said net [] = []
said net (text ∷ log) = said net log ++ on_wire net text

-- The same with an empty log, so that an event's own texts are seen.
abbrev pub quiet : Server → Server
quiet s = record s { sends = [] }

abbrev pub fuel_of : Server → ℕ
fuel_of s = suc (bridge_count s.sc_map)

-- A channel that the pool or an event has left, or none.
abbrev pub pooled : Option DataChannel → Result DataChannel
pooled none = err null_pointer
pooled (some d) = ok d

abbrev pub left_over : Option DataChannel → Result DataChannel
left_over none = err dangling
left_over (some d) = ok d

module _ (w : Wire) (net : Transport) (k : Draws) where
  -- The client connects and says hello, the server answers, and the client takes the nonce.
  unfoldable pub introduce :
      CControlChannelArgs
      → Server
      → CControlChannelMap
      → Result (Server × CControlChannel × CControlChannelMap)
  introduce args s m = do
    let taken = new_connection_handle w main_server k.control_id k.control_fd (quiet s)
    let c = start_channel w k.client_id args
    s' ← handle_data_in w (fuel_of taken) (net.split (said net c.to_server)) k.nonce s.fresh taken
    (c', m') ←
        control_data_in w (net.split (wire_to net s.fresh s'.sends)) []
          (record c { to_server = [] }) m
    ok (s', c', m')

  -- A visitor comes, and the client makes a data channel.
  unfoldable pub visit :
      ℕ
      → Server
      → CControlChannel
      → CControlChannelMap
      → Result (Server × CControlChannel × CControlChannelMap)
  visit control s c m = do
    let s' = new_connection_handle w (proxy_server k.nonce) k.visitor_id k.visitor_fd (quiet s)
    (c', m') ← control_data_in w (net.split (wire_to net control s'.sends)) k.channel_id c m
    ok (s', c', m')

  -- The data channel connects and says hello, the server joins it with the visitor, and the data
  -- channel is told to start.
  unfoldable pub dial : Server → CControlChannel → Result (Server × DataChannel)
  dial s c = do
    d ← pooled (lookup k.channel_id c.data_pool)
    let taken = new_connection_handle w main_server k.data_id k.data_fd (quiet s)
    s' ←
        handle_data_in w (fuel_of taken) (net.split (said net d.to_server)) k.bridge_id s.fresh
          taken
    left ← server_data_in w (net.split (wire_to net s.fresh s'.sends)) (record d { to_server = [] })
    d' ← left_over left
    ok (s', d')

  -- Bytes of the visitor go to the service.
  unfoldable pub relay : ℕ → ℕ → Text → Server → DataChannel → Result (Server × DataChannel)
  relay visitor origin request s d = do
    s' ← handle_data_in w (fuel_of s) (net.split request) [] visitor (quiet s)
    left ← server_data_in w (net.split (wire_to net origin s'.sends)) d
    d' ← left_over left
    ok (s', d')

  -- Bytes of the service go to the visitor.
  unfoldable pub reply_back : ℕ → Text → Server → DataChannel → Result (Server × DataChannel)
  reply_back origin reply s d = do
    d' ← service_data_in (net.split reply) (record d { to_server = [] })
    s' ← handle_data_in w (fuel_of s) (net.split (said net d'.to_server)) [] origin (quiet s)
    ok (s', d')

  -- All of it, for a request of the visitor and the service's reply.
  unfoldable pub session :
      CControlChannelArgs
      → Text
      → Text
      → Server
      → CControlChannelMap
      → Result (Server × DataChannel)
  unfolding introduce visit dial relay reply_back
  session args request reply s m = do
    (s1, c1, m1) ← introduce args s m
    (s2, c2, m2) ← visit s.fresh s1 c1 m1
    (s3, d3) ← dial s2 c2
    (s4, d4) ← relay s1.fresh s2.fresh request s3 d3
    reply_back s2.fresh reply s4 d4
