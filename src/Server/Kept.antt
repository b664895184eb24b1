-- ===== src/Server/Kept.antt =====
-- network/connection.cpp, network/server.cpp and ncx_server/bridgecloser.cpp: what the steps of closing
-- leave as it is.
use ncx_for_mall.Prelude.{
  ℕ, ◌≡◌, refl, sym, ap, ◌∙◌, subst, inl, inr, some, Bool, true, false, ◌==◌, arith, Option-cases,
  Bool-cases, Option, none, List, ==_iff,
}
use ncx_for_mall.Prelude.Maps.{
  lookup, insert, erase, nat_eq, text_eq, insert-cases, erase-kept, lookup-insert,
}
use ncx_for_mall.Connection.{Connection, ConnectionState, Owner, main_server, proxy_server}
use ncx_for_mall.Server.{
  Server, SControlChannel, Bridge, Text, put_channel, set_state, erase_connection,
  disconnect_handle,
}
use ncx_for_mall.Server.Closing.{disconnect_handle-other, disconnect_handle_self}

-- A connection with the same input buffer, callbacks and owner.
pub record SameEnd (c c' : Connection) : Type 0 where
  pub same_input : c'.input_buffer ≡ c.input_buffer
  pub same_handler : c'.on_message ≡ c.on_message
  pub same_notice : c'.notice_on_close ≡ c.notice_on_close
  pub same_owner : c'.on_close ≡ c.on_close

-- A control channel with the same queue and without a new bridge.
pub record Fewer (sc sc' : SControlChannel) : Type 0 where
  pub queue : sc'.wait_handle_visitors ≡ sc.wait_handle_visitors
  pub bridges :
      (id : Text) (br : Bridge)
      → lookup id sc'.bridge_closers ≡ some br
      → lookup id sc.bridge_closers ≡ some br

-- The control channel that one found afterwards has come from.
pub record CameFrom (s : Server) (nonce : Text) (sc' : SControlChannel) : Type 0 where
  pub channel : SControlChannel
  pub found : lookup nonce s.sc_map ≡ some channel
  pub fewer : Fewer channel sc'

-- The visitors that wait for data channels, where there is the control channel.
abbrev pub waiting_of : Option SControlChannel → Option (List ℕ)
waiting_of none = none
waiting_of (some sc) = some sc.wait_handle_visitors

-- A server whose connections differ in state and channel alone, with no connection taken, no
-- visitor queued or taken off a queue, and no bridge added.
pub record Kept (s s' : Server) : Type 0 where
  pub ends : (q : ℕ) → SameEnd (s.conn q) (s'.conn q)
  pub channels :
      (nonce : Text) (sc' : SControlChannel)
      → lookup nonce s'.sc_map ≡ some sc'
      → CameFrom s nonce sc'
  pub same_fresh : s'.fresh ≡ s.fresh
  pub same_waiting :
      (nonce : Text) → waiting_of (lookup nonce s'.sc_map) ≡ waiting_of (lookup nonce s.sc_map)

pub SameEnd-refl : (c : Connection) → SameEnd c c
SameEnd-refl c = record {
  same_input = refl;
  same_handler = refl;
  same_notice = refl;
  same_owner = refl;
}

equal-SameEnd : (c c' : Connection) → c' ≡ c → SameEnd c c'
equal-SameEnd c c' e = subst (SameEnd c) (sym e) (SameEnd-refl c)

SameEnd-trans : (a b c : Connection) → SameEnd a b → SameEnd b c → SameEnd a c
SameEnd-trans a b c p q = record {
  same_input = q.same_input ∙ p.same_input;
  same_handler = q.same_handler ∙ p.same_handler;
  same_notice = q.same_notice ∙ p.same_notice;
  same_owner = q.same_owner ∙ p.same_owner;
}

pub Fewer-refl : (sc : SControlChannel) → Fewer sc sc
Fewer-refl sc = record { queue = refl; bridges = λ id br e. e }

Fewer-trans : (a b c : SControlChannel) → Fewer a b → Fewer b c → Fewer a c
Fewer-trans a b c p q = record {
  queue = q.queue ∙ p.queue;
  bridges = λ id br e. p.bridges id br (q.bridges id br e);
}

pub same-CameFrom :
    (s : Server) (nonce : Text) (sc : SControlChannel)
    → lookup nonce s.sc_map ≡ some sc
    → CameFrom s nonce sc
same-CameFrom s nonce sc e = record { channel = sc; found = e; fewer = Fewer-refl sc }

pub Kept-refl : (s : Server) → Kept s s
Kept-refl s = record {
  ends = λ q. SameEnd-refl (s.conn q);
  channels = same-CameFrom s;
  same_fresh = refl;
  same_waiting = λ nonce. refl;
}

pub Kept-trans : (r s t : Server) → Kept r s → Kept s t → Kept r t
Kept-trans r s t p q = record {
  ends = λ x. SameEnd-trans (r.conn x) (s.conn x) (t.conn x) (p.ends x) (q.ends x);
  channels = λ nonce sc e.
      let mid = q.channels nonce sc e in
      let first = p.channels nonce mid.channel mid.found in
      record {
        channel = first.channel;
        found = first.found;
        fewer = Fewer-trans first.channel mid.channel sc first.fewer mid.fewer;
      };
  same_fresh = q.same_fresh ∙ p.same_fresh;
  same_waiting = λ nonce. q.same_waiting nonce ∙ p.same_waiting nonce;
}

set_state-SameEnd :
    (s : Server) (p : ℕ) (st : ConnectionState) (q : ℕ) (same : Bool)
    → (p == q) ≡ same
    → SameEnd (s.conn q) ((set_state s p st).conn q)
set_state-SameEnd s p st q true e = rw e (
    subst (λ x. SameEnd (s.conn x) (record (s.conn p) { state = st })) ((==_iff p q).0 e)
      record { same_input = refl; same_handler = refl; same_notice = refl; same_owner = refl })
set_state-SameEnd s p st q false e = rw e (SameEnd-refl (s.conn q))

pub set_state-Kept : (s : Server) (p : ℕ) (st : ConnectionState) → Kept s (set_state s p st)
set_state-Kept s p st = record {
  ends = λ q. set_state-SameEnd s p st q (p == q) refl;
  channels = same-CameFrom s;
  same_fresh = refl;
  same_waiting = λ nonce. refl;
}

put_channel-CameFrom :
    (s : Server) (nonce : Text) (sc sc' : SControlChannel)
    → lookup nonce s.sc_map ≡ some sc
    → Fewer sc sc'
    → (other : Text) (x : SControlChannel) → lookup other (insert nonce sc' s.sc_map) ≡ some x
    → CameFrom s other x
put_channel-CameFrom s nonce sc sc' f few other x e =
    elim (insert-cases nonce other sc' x s.sc_map e) [
      | inl (here, same) ↦ record {
        channel = sc;
        found = ap (λ k. lookup k s.sc_map) (sym here) ∙ f;
        fewer = subst (Fewer sc) same few;
      }
      | inr (apart, old) ↦ same-CameFrom s other x old
    ]

put_channel-waiting :
    (s : Server) (nonce : Text) (sc sc' : SControlChannel)
    → lookup nonce s.sc_map ≡ some sc
    → Fewer sc sc'
    → (other : Text)
    → waiting_of (lookup other (insert nonce sc' s.sc_map)) ≡ waiting_of (lookup other s.sc_map)
put_channel-waiting s nonce sc sc' f few other = elim (Bool-cases (text_eq.beq nonce other)) [
  | inl here ↦
      rw (lookup-insert nonce other sc' s.sc_map, here)
        (ap some few.queue
          ∙ ap waiting_of
              (sym f ∙ ap (λ k. lookup k s.sc_map) ((text_eq.beq_iff nonce other).0 here)))
  | inr apart ↦ rw (lookup-insert nonce other sc' s.sc_map, apart) refl
]

pub put_channel-Kept :
    (s : Server) (nonce : Text) (sc sc' : SControlChannel)
    → lookup nonce s.sc_map ≡ some sc
    → Fewer sc sc'
    → Kept s (put_channel s nonce sc')
put_channel-Kept s nonce sc sc' f few = record {
  ends = λ q. SameEnd-refl (s.conn q);
  channels = put_channel-CameFrom s nonce sc sc' f few;
  same_fresh = refl;
  same_waiting = λ other. put_channel-waiting s nonce sc sc' f few other;
}

erase_connection-Kept : (s : Server) (o : Owner) (id : ℕ) → Kept s (erase_connection s o id)
unfolding erase_connection
erase_connection-Kept s main_server id = record {
  ends = λ q. SameEnd-refl (s.conn q);
  channels = same-CameFrom s;
  same_fresh = refl;
  same_waiting = λ nonce. refl;
}
erase_connection-Kept s (proxy_server nonce) id = elim (Option-cases (lookup nonce s.sc_map)) [
  | inl e ↦ rw (erase_connection, e) (Kept-refl s)
  | inr (sc, e) ↦
      rw (erase_connection, e)
        (put_channel-Kept s nonce sc (record sc { connections = erase id sc.connections }) e
          (record { queue = refl; bridges = λ i br h. h }))
]

disconnect_handle-SameEnd :
    (s : Server) (p q : ℕ) (same : Bool)
    → (p == q) ≡ same
    → SameEnd (s.conn q) ((disconnect_handle s p).conn q)
disconnect_handle-SameEnd s p q true e =
    let t = disconnect_handle_self s p in
    subst (λ x. SameEnd (s.conn x) ((disconnect_handle s p).conn x)) ((==_iff p q).0 e)
      record {
        same_input = t.same_input;
        same_handler = t.same_handler;
        same_notice = t.same_notice;
        same_owner = t.same_owner;
      }
disconnect_handle-SameEnd s p q false e =
    equal-SameEnd (s.conn q) _ (disconnect_handle-other s p q (λ h. absurd (ground (arith, h))))

pub disconnect_handle-Kept : (s : Server) (p : ℕ) → Kept s (disconnect_handle s p)
unfolding disconnect_handle
disconnect_handle-Kept s p =
    let k = erase_connection-Kept s (s.conn p).on_close (s.conn p).conn_id in
    record {
      ends = λ q. disconnect_handle-SameEnd s p q (p == q) refl;
      channels = k.channels;
      same_fresh = k.same_fresh;
      same_waiting = k.same_waiting;
    }

-- A bridge taken off a control channel.
pub erase-Fewer :
    (sc : SControlChannel) (id : Text)
    → Fewer sc (record sc { bridge_closers = erase id sc.bridge_closers })
erase-Fewer sc id = record {
  queue = refl;
  bridges = λ other br e. erase-kept id other br sc.bridge_closers e;
}

-- Nor is anything sent.
erase_connection-sends :
    (s : Server) (o : Owner) (id : ℕ) → (erase_connection s o id).sends ≡ s.sends
unfolding erase_connection
erase_connection-sends s main_server id = refl
erase_connection-sends s (proxy_server nonce) id = ground arith

pub disconnect_handle-sends : (s : Server) (p : ℕ) → (disconnect_handle s p).sends ≡ s.sends
unfolding disconnect_handle
disconnect_handle-sends s p = erase_connection-sends s (s.conn p).on_close (s.conn p).conn_id
