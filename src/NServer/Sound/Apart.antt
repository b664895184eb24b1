-- ===== src/NServer/Sound/Apart.antt =====
-- ncx_server/nserver.cpp and ncx_server/bridgecloser.cpp: the tunnels of a server that has come about by
-- its own events are kept apart.
use ncx_for_mall.Prelude.{
  ℕ, ◌+◌, ◌<◌, ◌≤◌, ◌≡◌, sym, ap, ◌∙◌, subst, ◌⊎◌, inl, inr, List, [], ◌++◌, some, true, length, ok,
}
use ncx_for_mall.Prelude.Maps.{lookup, nat_eq, text_eq}
use ncx_for_mall.Memory.{max_size}
use ncx_for_mall.Buffer.Invariant.{IsValid, contents}
use ncx_for_mall.Protocol.{Wire, HeaderLaws}
use ncx_for_mall.Socket.{ReadResult, leaves}
use ncx_for_mall.Socket.Reading.{arrived, read_exit}
use ncx_for_mall.Connection.{forward_to, Notice}
use ncx_for_mall.Server.{Server, SControlChannel, Bridge, Text, is_alive}
use ncx_for_mall.NServer.{handle_data_in}
use ncx_for_mall.NServer.Forwarding.{pending}
use ncx_for_mall.NServer.Throughput.{data_through}
use ncx_for_mall.NServer.Sound.{IsLinked}
use ncx_for_mall.NServer.Sound.Reach.{Reach, Reach-IsSound, enough}

-- The server has a bridge of this name.
pub record HasBridge (s : Server) (n : Notice) (br : Bridge) : Type 0 where
  pub channel : SControlChannel
  pub found : lookup n.nonce s.sc_map ≡ some channel
  pub bridge : lookup n.bridge_id channel.bridge_closers ≡ some br

-- The two ends of a bridge, one way round or the other.
abbrev pub AreEnds : Bridge → ℕ → ℕ → Type 0
AreEnds br p peer =
    ((p ≡ br.inside) × (peer ≡ br.outside)) ⊎ ((p ≡ br.outside) × (peer ≡ br.inside))

-- What is known of one end.
record Facts (s : Server) (n : Notice) (p peer : ℕ) : Type 0 where
  old : p < s.fresh
  forwards : (s.conn p).on_message ≡ forward_to peer
  notice : (s.conn p).notice_on_close ≡ some n

linked-Facts :
    (s : Server) (n : Notice) (br : Bridge) (p peer : ℕ)
    → IsLinked s n br
    → AreEnds br p peer
    → Facts s n p peer
linked-Facts s n br p peer l (inl (e, f)) =
    subst (λ x. Facts s n x peer) (sym e)
      (subst (Facts s n br.inside) (sym f) record {
        old = l.inside_old;
        forwards = l.inside_end.forwards;
        notice = l.inside_end.notice;
      })
linked-Facts s n br p peer l (inr (e, f)) =
    subst (λ x. Facts s n x peer) (sym e)
      (subst (Facts s n br.outside) (sym f) record {
        old = l.outside_old;
        forwards = l.outside_end.forwards;
        notice = l.outside_end.notice;
      })

module _ (w : Wire) (laws : HeaderLaws w) (s : Server) (reached : Reach w s) where
  bridge-Facts :
      (n : Notice) (br : Bridge) (p peer : ℕ)
      → HasBridge s n br
      → AreEnds br p peer
      → Facts s n p peer
  bridge-Facts n br p peer h a =
      linked-Facts s n br p peer
        ((Reach-IsSound w laws s reached).bridges n.nonce h.channel h.found n.bridge_id br h.bridge)
        a

  -- In every state that the server comes to from its start, tunnels are kept apart: two bridges
  -- that share a connection, on whichever side, are the same bridge under the same name, and the
  -- other end is the same.
  pub bridges_apart :
      (n m : Notice) (br br' : Bridge) (p peer peer' : ℕ)
      → HasBridge s n br
      → HasBridge s m br'
      → AreEnds br p peer
      → AreEnds br' p peer'
      → (n ≡ m) × (br ≡ br') × (peer ≡ peer')
  bridges_apart n m br br' p peer peer' h k a b =
      let f = bridge-Facts n br p peer h a in
      let g = bridge-Facts m br' p peer' k b in
      let named : some n ≡ some m = sym f.notice ∙ g.notice in
      let same : n ≡ m = cc in
      let to : forward_to peer ≡ forward_to peer' = sym f.forwards ∙ g.forwards in
      let there : some h.channel ≡ some k.channel =
        sym h.found ∙ ap (λ (x : Notice). lookup x.nonce s.sc_map) same ∙ k.found in
      let channel : h.channel ≡ k.channel = cc in
      let bridge : some br ≡ some br' =
        sym h.bridge
        ∙ ap (λ (x : Notice). lookup x.bridge_id h.channel.bridge_closers) same
        ∙ ap (λ (x : SControlChannel). lookup m.bridge_id x.bridge_closers) channel
        ∙ k.bridge in
      (same, cc, cc)

  -- In every state that the server comes to from its start, a read event on either end of any
  -- bridge, with data that the input buffer has room for, a loop that ends because a call would
  -- block and the other end alive, returns without a fault: what was in the buffer and then all
  -- that arrived is sent to the other end, in one text if there was any and to no one else, and the
  -- buffer is valid and empty.
  pub tunnel_through :
      (n : Notice) (br : Bridge) (p peer : ℕ) (calls : List ReadResult) (fresh_id : Text)
      → HasBridge s n br
      → AreEnds br p peer
      → (s.conn p).input_buffer.write_index + length (arrived calls) ≤ max_size
      → read_exit calls ≡ leaves
      → is_alive s peer ≡ true
      → (s' : Server) × (handle_data_in w (enough s) calls fresh_id p s ≡ ok s')
        × (s'.sends ≡ pending peer (contents (s.conn p).input_buffer ++ arrived calls) ++ s.sends)
        × IsValid (s'.conn p).input_buffer
        × (contents (s'.conn p).input_buffer ≡ [])
  tunnel_through n br p peer calls fresh_id h a fits stays alive =
      let f = bridge-Facts n br p peer h a in
      data_through w (enough s) calls fresh_id p peer s
        ((Reach-IsSound w laws s reached).buffers p f.old) fits stays f.forwards alive
