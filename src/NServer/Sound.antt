-- ===== src/NServer/Sound.antt =====
-- ncx_server/nserver.cpp, ncx_server/scontrolchannel.cpp, ncx_server/bridgecloser.cpp and
-- network/server.cpp: the invariant of the whole server, over its connections, its queues of visitors
-- and its bridges.
pub mod Events
pub mod Queues
pub mod Arriving
pub mod Joining
pub mod Reads
pub mod Reach
pub mod Apart
use ncx_for_mall.Prelude.{
  ℕ, suc, ◌<◌, ◌≤◌, ◌≡◌, refl, sym, ap, ◌∙◌, subst, List, [], ◌∷◌, none, some, Bool, true, false,
  ◌||◌, ◌==◌, arith,
}
use ncx_for_mall.Prelude.Maps.{lookup, nat_eq, text_eq}
use ncx_for_mall.Buffer.Invariant.{IsValid}
use ncx_for_mall.Connection.{
  Connection, Handler, no_handler, hello_handler, forward_to, Owner, main_server, proxy_server,
  Notice,
}
use ncx_for_mall.Server.{Server, SControlChannel, Bridge, Text, waits}
use ncx_for_mall.Server.Kept.{SameEnd, CameFrom, Kept}

-- The same callbacks and the same owner.
pub record SameRole (c c' : Connection) : Type 0 where
  pub same_handler : c'.on_message ≡ c.on_message
  pub same_notice : c'.notice_on_close ≡ c.notice_on_close
  pub same_owner : c'.on_close ≡ c.on_close

pub same-SameRole : (c c' : Connection) → c' ≡ c → SameRole c c'
same-SameRole c c' e =
    subst (SameRole c) (sym e) record { same_handler = refl; same_notice = refl; same_owner = refl }

-- A visitor that waits: the proxy server of the control channel has it, and nothing reads it.
pub record IsVisitor (nonce : Text) (c : Connection) : Type 0 where
  pub quiet : c.on_message ≡ no_handler
  pub owner : c.on_close ≡ proxy_server nonce

-- One end of a bridge: it forwards to the other end, and its close cuts off this bridge.
pub record IsEnd (n : Notice) (peer : ℕ) (o : Owner) (c : Connection) : Type 0 where
  pub forwards : c.on_message ≡ forward_to peer
  pub notice : c.notice_on_close ≡ some n
  pub owner : c.on_close ≡ o

pub record IsLinked (s : Server) (n : Notice) (br : Bridge) : Type 0 where
  pub inside_old : br.inside < s.fresh
  pub outside_old : br.outside < s.fresh
  pub inside_end : IsEnd n br.outside (proxy_server n.nonce) (s.conn br.inside)
  pub outside_end : IsEnd n br.inside main_server (s.conn br.outside)

-- A queue of visitors, each of them in it once.
abbrev pub IsQueue : Server → Text → List ℕ → Type 0
IsQueue s nonce [] = Unit
IsQueue s nonce (v ∷ vs) =
    (v < s.fresh) × IsVisitor nonce (s.conn v) × (waits vs v ≡ false) × IsQueue s nonce vs

-- Of the connections taken so far, the input buffers are valid and those that wait for a hello are
-- the main server's; every queue is of visitors of its own proxy server, and every bridge is between
-- such a visitor and a connection of the main server that forward to each other.
pub record IsSound (s : Server) : Type 0 where
  pub buffers : (q : ℕ) → q < s.fresh → IsValid (s.conn q).input_buffer
  pub greeters :
      (q : ℕ)
      → q < s.fresh
      → (s.conn q).on_message ≡ hello_handler
      → (s.conn q).on_close ≡ main_server
  pub queues :
      (nonce : Text) (sc : SControlChannel)
      → lookup nonce s.sc_map ≡ some sc
      → IsQueue s nonce sc.wait_handle_visitors
  pub bridges :
      (nonce : Text) (sc : SControlChannel)
      → lookup nonce s.sc_map ≡ some sc
      → (id : Text) (br : Bridge) → lookup id sc.bridge_closers ≡ some br
      → IsLinked s (record { nonce = nonce; bridge_id = id }) br

SameRole-IsVisitor :
    (nonce : Text) (c c' : Connection) → SameRole c c' → IsVisitor nonce c → IsVisitor nonce c'
SameRole-IsVisitor nonce c c' r v = record {
  quiet = r.same_handler ∙ v.quiet;
  owner = r.same_owner ∙ v.owner;
}

SameRole-IsEnd :
    (n : Notice) (peer : ℕ) (o : Owner) (c c' : Connection)
    → SameRole c c'
    → IsEnd n peer o c
    → IsEnd n peer o c'
SameRole-IsEnd n peer o c c' r e = record {
  forwards = r.same_handler ∙ e.forwards;
  notice = r.same_notice ∙ e.notice;
  owner = r.same_owner ∙ e.owner;
}

module _ (s s' : Server) (older : s.fresh ≤ s'.fresh) where
  -- A bridge whose two ends have kept their roles, and a queue whose visitors have.
  pub SameRole-IsLinked :
      (n : Notice) (br : Bridge)
      → SameRole (s.conn br.inside) (s'.conn br.inside)
      → SameRole (s.conn br.outside) (s'.conn br.outside)
      → IsLinked s n br
      → IsLinked s' n br
  SameRole-IsLinked n br i o l = record {
    inside_old = omega (arith, l.inside_old);
    outside_old = omega (arith, l.outside_old);
    inside_end = SameRole-IsEnd n br.outside (proxy_server n.nonce) _ _ i l.inside_end;
    outside_end = SameRole-IsEnd n br.inside main_server _ _ o l.outside_end;
  }

  pub SameRole-IsQueue :
      (nonce : Text) (vs : List ℕ)
      → ((v : ℕ) → v < s.fresh → waits vs v ≡ true → SameRole (s.conn v) (s'.conn v))
      → IsQueue s nonce vs
      → IsQueue s' nonce vs
  SameRole-IsQueue nonce [] same q = tt
  SameRole-IsQueue nonce (v ∷ vs) same (old, visitor, once, rest) = (
    omega (arith, old),
    SameRole-IsVisitor nonce (s.conn v) (s'.conn v) (same v old (ground arith)) visitor,
    once,
    SameRole-IsQueue nonce vs (λ u l h. same u l (ground arith)) rest,
  )

-- The invariant is kept where all connections keep their roles and have valid buffers, and no
-- control channel has a new visitor or bridge.
pub roles-IsSound :
    (s s' : Server)
    → ((q : ℕ) → SameRole (s.conn q) (s'.conn q))
    → ((nonce : Text) (sc' : SControlChannel)
        → lookup nonce s'.sc_map ≡ some sc'
        → CameFrom s nonce sc')
    → s'.fresh ≡ s.fresh
    → ((q : ℕ) → q < s.fresh → IsValid (s'.conn q).input_buffer)
    → IsSound s
    → IsSound s'
roles-IsSound s s' role channels same valid v = record {
  buffers = λ q l. valid q (omega (arith, same));
  greeters = λ q l h.
      (role q).same_owner ∙ v.greeters q (omega (arith, same)) (sym (role q).same_handler ∙ h);
  queues = λ nonce sc' f.
      let from = channels nonce sc' f in
      subst (IsQueue s' nonce) (sym from.fewer.queue) (
        SameRole-IsQueue s s' (omega (arith, same)) nonce from.channel.wait_handle_visitors
          (λ u l w. role u) (v.queues nonce from.channel from.found));
  bridges = λ nonce sc' f id br g.
      let from = channels nonce sc' f in
      SameRole-IsLinked s s' (omega (arith, same)) _ br (role br.inside) (role br.outside)
        (v.bridges nonce from.channel from.found id br (from.fewer.bridges id br g));
}

pub Kept-IsSound : (s s' : Server) → Kept s s' → IsSound s → IsSound s'
Kept-IsSound s s' k v =
    roles-IsSound s s'
      (λ q. record {
        same_handler = (k.ends q).same_handler;
        same_notice = (k.ends q).same_notice;
        same_owner = (k.ends q).same_owner;
      })
      k.channels k.same_fresh (λ q l. subst IsValid (sym (k.ends q).same_input) (v.buffers q l)) v
