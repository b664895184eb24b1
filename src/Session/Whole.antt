-- ===== src/Session/Whole.antt =====
-- ncx_server and ncx_client: the whole run, from the client's start to a request of the visitor and the
-- reply of the service.
use ncx_for_mall.Prelude.{
  ℕ, suc, ◌+◌, ◌^◌, ◌≤◌, ◌≡◌, refl, sym, ap, ◌∙◌, subst, [], ◌∷◌, ◌++◌, none, true, ◌||◌, arith,
  length, ok, append-nil,
}
use ncx_for_mall.Prelude.Maps.{lookup, text_eq, nat_eq, beq_self}
use ncx_for_mall.Protocol.{Wire}
use ncx_for_mall.Connection.{Connection, forward_to}
use ncx_for_mall.Config.{CControlChannelArgs}
use ncx_for_mall.Server.{Server, Text, is_alive, holds, channels_hold}
use ncx_for_mall.NServer.Forwarding.{pending}
use ncx_for_mall.Client.{DataChannel, CControlChannelMap}
use ncx_for_mall.Client.Relay.{sent_text}
use ncx_for_mall.Session.{
  Transport, TakesWhole, Draws, wire_to, said, quiet, fuel_of, relay, reply_back, session,
}
use ncx_for_mall.Session.Hop.{IsIdle, frame_room, on_wire-whole}
use ncx_for_mall.Session.Relaying.{tunnel_alive, text-Passed}
use ncx_for_mall.Session.Dialling.{request_event, reply_event}
use ncx_for_mall.Session.Opened.{
  SessionLaws, introduce-IsIntroduced, visit-IsAwaited, IsOpened, dial-IsOpened,
}

-- A text that is sent on is what goes over the wire, be it empty.
wire_to-pending :
    (net : Transport)
    → TakesWhole net
    → (p : ℕ) (text : Text) → wire_to net p (pending p text) ≡ text
wire_to-pending net takes p [] = refl
wire_to-pending net takes p (x ∷ xs) = rw (beq_self p, on_wire-whole net takes (x ∷ xs))

said-sent : (net : Transport) → TakesWhole net → (text : Text) → said net (sent_text text) ≡ text
said-sent net takes [] = refl
said-sent net takes (x ∷ xs) = on_wire-whole net takes (x ∷ xs)

module _ (w : Wire) (net : Transport) (takes : TakesWhole net) (k : Draws)
    (args : CControlChannelArgs) (laws : SessionLaws w args k.nonce) where
  -- What the request leaves: the service has got it, and the way back is as it was.
  record IsRelayed (v o : ℕ) (request : Text) (s : Server) (d : DataChannel) : Type 0 where
    got : d.to_service ≡ sent_text request
    handler : (s.conn o).on_message ≡ forward_to v
    idle : IsIdle (s.conn o).input_buffer (8 + frame_room)
    alive : is_alive s v ≡ true
    service_idle : IsIdle d.service_input 8

  relay-IsRelayed :
      (v o : ℕ) (request : Text) (s : Server) (d : DataChannel)
      → length request ≤ 2 ^ 62
      → IsOpened w net takes k args laws v o s d
      → (s' : Server) × (d' : DataChannel) × (relay w net k v o request s d ≡ ok (s', d'))
        × IsRelayed v o request s' d'
  unfolding relay
  relay-IsRelayed v o request s d short p =
      let alive = tunnel_alive s _ v o _ p.tunnel in
      let (s', e, q) =
        text-Passed w net (fuel_of s) [] (quiet s) v o (8 + frame_room) p.tunnel.visitor_idle
          p.tunnel.visitor_handler alive.1 request (omega arith) in
      let wire =
        ap (wire_to net o) (q.sent ∙ append-nil (pending o request))
        ∙ wire_to-pending net takes o request in
      let (d', f, r) =
        request_event w net (8 + frame_room) d request p.server_idle p.forwards p.service_there
          (omega arith) in
      let other = q.others o (λ h. p.tunnel.bridged.distinct (sym h)) in
      (
        s',
        d',
        rw (e, wire, f),
        record {
          got =
              r.sent
              ∙ ap (λ l. sent_text request ++ l) p.none_sent
              ∙ append-nil (sent_text request);
          handler = ap (λ (c : Connection). c.on_message) other ∙ p.tunnel.origin_handler;
          idle =
              subst (λ (c : Connection). IsIdle c.input_buffer (8 + frame_room)) (sym other)
                p.tunnel.origin_idle;
          alive =
              ap (λ m. holds m v || channels_hold s'.sc_map v) q.same_connections
              ∙ ap (λ m. holds s.connections v || channels_hold m v) q.same_map
              ∙ alive.0;
          service_idle = subst (λ b. IsIdle b 8) (sym r.same_input) p.service_idle;
        },
      )

  reply_back-whole :
      (v o : ℕ) (request reply : Text) (s : Server) (d : DataChannel)
      → length reply ≤ 2 ^ 62
      → IsRelayed v o request s d
      → (s' : Server) × (d' : DataChannel) × (reply_back w net k o reply s d ≡ ok (s', d'))
        × (d'.to_service ≡ sent_text request)
        × (s'.sends ≡ pending v reply)
  unfolding reply_back
  reply_back-whole v o request reply s d short p =
      let (d', e, sent, same) =
        reply_event net 8 (record d { to_server = [] }) reply p.service_idle (omega arith) in
      let wire = ap (said net) (sent ∙ append-nil (sent_text reply)) ∙ said-sent net takes reply in
      let (s', f, q) =
        text-Passed w net (fuel_of s) [] (quiet s) o v (8 + frame_room) p.idle p.handler p.alive
          reply (omega arith) in
      (s', d', rw (e, wire, f), same ∙ p.got, q.sent ∙ append-nil (pending v reply))

  -- Server and client together, from a server with any connections and control channels that does
  -- not use the drawn nonce: the client says hello, the server answers, a visitor comes, the client
  -- dials a data channel, the server joins the two, the visitor sends a request and the service a
  -- reply. Where the kernel takes each text that is sent in one call of `write`, be it after
  -- interrupted calls, however the network cuts each text within its read event, and given that
  -- protobuf writes the five messages of the run as between one and 2^32 - 1 bytes and reads them
  -- back, with a request and a reply of no more than 2^62 bytes: all calls return without a fault,
  -- exactly the request was sent to the service and is on its wire, and the last event sent exactly
  -- the reply, which is on the visitor's wire, to the visitor and to no one else, each as one text,
  -- or not at all if it is empty.
  pub session-whole :
      (request reply : Text) (s : Server) (m : CControlChannelMap)
      → lookup k.nonce s.sc_map ≡ none
      → length request ≤ 2 ^ 62
      → length reply ≤ 2 ^ 62
      → (s' : Server) × (d : DataChannel) × (session w net k args request reply s m ≡ ok (s', d))
        × (d.to_service ≡ sent_text request)
        × (said net d.to_service ≡ request)
        × (s'.sends ≡ pending (suc s.fresh) reply)
        × (wire_to net (suc s.fresh) s'.sends ≡ reply)
  unfolding session
  session-whole request reply s m unused short short' =
      let (s1, c1, m1, e1, i) = introduce-IsIntroduced w net takes k args laws s m unused in
      let (s2, c2, m2, e2, a) = visit-IsAwaited w net takes k args laws s.fresh s1 c1 m1 i in
      let (s3, d3, e3, p) = dial-IsOpened w net takes k args laws s.fresh s1 s2 c2 a in
      let (s4, d4, e4, r) = relay-IsRelayed s1.fresh s2.fresh request s3 d3 short p in
      let (s5, d5, e5, got, sent) =
        reply_back-whole s1.fresh s2.fresh request reply s4 d4 short' r in
      let replied = sent ∙ ap (λ v. pending v reply) i.next in
      (
        s5,
        d5,
        rw (e1, e2, e3, e4, e5),
        got,
        ap (said net) got ∙ said-sent net takes request,
        replied,
        ap (wire_to net (suc s.fresh)) replied ∙ wire_to-pending net takes (suc s.fresh) reply,
      )
