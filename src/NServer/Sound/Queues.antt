-- ===== src/NServer/Sound/Queues.antt =====
-- ncx_server/scontrolchannel.cpp and network/server.cpp: what a queue of visitors holds, and how a
-- control channel or a new connection is added to the state.
use ncx_for_mall.Prelude.{
  ℕ, suc, ◌<◌, ◌≡◌, ◌≢◌, refl, sym, ap, ◌∙◌, subst, inl, inr, List, [], ◌∷◌, ◌++◌, some, true,
  false, ◌==◌, arith, Bool-cases, ==_iff,
}
use ncx_for_mall.Prelude.Maps.{lookup, nat_eq, text_eq, insert-cases}
use ncx_for_mall.Buffer.Invariant.{IsValid}
use ncx_for_mall.Channel.{Ctl}
use ncx_for_mall.Connection.{Connection, hello_handler, main_server, Notice}
use ncx_for_mall.Server.{Server, SControlChannel, Bridge, Text, put_conn, put_channel, waits}
use ncx_for_mall.NServer.Sound.{
  SameRole, same-SameRole, IsVisitor, IsQueue, IsLinked, IsSound, SameRole-IsLinked,
  SameRole-IsQueue,
}
use ncx_for_mall.NServer.Sound.Events.{put_conn-cases}

-- What is known of a number in a queue.
pub IsQueue-waits :
    (s : Server) (nonce : Text) (vs : List ℕ) (u : ℕ)
    → IsQueue s nonce vs
    → waits vs u ≡ true
    → (u < s.fresh) × IsVisitor nonce (s.conn u)
IsQueue-waits s nonce [] u q h = cc
IsQueue-waits s nonce (v ∷ vs) u (old, visitor, once, rest) h = elim (Bool-cases (v == u)) [
  | inl e ↦
      subst (λ x. (x < s.fresh) × IsVisitor nonce (s.conn x)) ((==_iff v u).0 e) (old, visitor)
  | inr e ↦ IsQueue-waits s nonce vs u rest (ground arith)
]

pub IsQueue-fresh :
    (s : Server) (nonce : Text) (vs : List ℕ) → IsQueue s nonce vs → waits vs s.fresh ≡ false
IsQueue-fresh s nonce vs q = elim (Bool-cases (waits vs s.fresh)) [
  | inl h ↦ absurd (omega (arith, (IsQueue-waits s nonce vs s.fresh q h).0))
  | inr h ↦ h
]

waits-snoc : (vs : List ℕ) (u v : ℕ) → waits vs u ≡ false → v ≢ u → waits (vs ++ v ∷ []) u ≡ false
waits-snoc [] u v h apart = ground arith
waits-snoc (x ∷ vs) u v h apart = ground (arith, waits-snoc vs u v)

pub IsQueue-snoc :
    (s : Server) (nonce : Text) (vs : List ℕ) (v : ℕ)
    → IsQueue s nonce vs
    → v < s.fresh
    → IsVisitor nonce (s.conn v)
    → waits vs v ≡ false
    → IsQueue s nonce (vs ++ v ∷ [])
IsQueue-snoc s nonce [] v q old visitor new = (old, visitor, refl, tt)
IsQueue-snoc s nonce (x ∷ vs) v (l, y, once, rest) old visitor new = (
  l,
  y,
  waits-snoc vs x v once (λ e. absurd (ground arith)),
  IsQueue-snoc s nonce vs v rest old visitor (ground arith),
)

-- A control channel with a queue and bridges that are right may be put.
pub put_channel-IsSound :
    (s : Server) (nonce : Text) (sc : SControlChannel)
    → IsSound s
    → IsQueue s nonce sc.wait_handle_visitors
    → ((id : Text) (br : Bridge)
        → lookup id sc.bridge_closers ≡ some br
        → IsLinked s (record { nonce = nonce; bridge_id = id }) br)
    → IsSound (put_channel s nonce sc)
put_channel-IsSound s nonce sc v queue links =
    let s' = put_channel s nonce sc in
    let queue_kept : (n : Text) (vs : List ℕ) → IsQueue s n vs → IsQueue s' n vs =
      λ n vs q. SameRole-IsQueue s s' (omega arith) n vs (λ u l h. same-SameRole _ _ refl) q in
    let link_kept : (n : Notice) (br : Bridge) → IsLinked s n br → IsLinked s' n br = λ n br l.
      SameRole-IsLinked s s' (omega arith) n br (same-SameRole _ _ refl) (same-SameRole _ _ refl)
        l in
    record {
      buffers = v.buffers;
      greeters = v.greeters;
      queues = λ n x f. elim (insert-cases nonce n sc x s.sc_map f) [
        | inl (here, e) ↦
            subst (λ k. IsQueue s' k x.wait_handle_visitors) here
              (subst (λ (y : SControlChannel). IsQueue s' nonce y.wait_handle_visitors) e
                (queue_kept nonce sc.wait_handle_visitors queue))
        | inr (apart, old) ↦ queue_kept n x.wait_handle_visitors (v.queues n x old)
      ];
      bridges = λ n x f id br g. elim (insert-cases nonce n sc x s.sc_map f) [
        | inl (here, e) ↦
            subst (λ k. IsLinked s' (record { nonce = k; bridge_id = id }) br) here
              (link_kept _ br
                (links id br (ap (λ (y : SControlChannel). lookup id y.bridge_closers) e ∙ g)))
        | inr (apart, old) ↦ link_kept _ br (v.bridges n x old id br g)
      ];
    }

-- The server behind a new connection, before the callback of the accepting server.
abbrev pub with_new : Server → Connection → List Ctl → Server
with_new s c calls = record (put_conn s s.fresh c) { fresh = suc s.fresh; calls = calls }

pub with_new-old :
    (s : Server) (c : Connection) (calls : List Ctl) (q : ℕ)
    → q < s.fresh
    → (with_new s c calls).conn q ≡ s.conn q
with_new-old s c calls q l = elim (put_conn-cases s s.fresh c q) [
  | inl (same, e) ↦ absurd (omega arith)
  | inr (apart, e) ↦ e
]

pub with_new-IsSound :
    (s : Server) (c : Connection) (calls : List Ctl)
    → IsSound s
    → IsValid c.input_buffer
    → (c.on_message ≡ hello_handler → c.on_close ≡ main_server)
    → IsSound (with_new s c calls)
with_new-IsSound s c calls v valid greets =
    let s' = with_new s c calls in
    let role : (q : ℕ) → q < s.fresh → SameRole (s.conn q) (s'.conn q) =
      λ q l. same-SameRole _ _ (with_new-old s c calls q l) in
    record {
      buffers = λ q l. elim (put_conn-cases s s.fresh c q) [
        | inl (same, e) ↦ subst (λ (x : Connection). IsValid x.input_buffer) (sym e) valid
        | inr (apart, e) ↦
            subst (λ (x : Connection). IsValid x.input_buffer) (sym e) (v.buffers q (ground arith))
      ];
      greeters = λ q l h. elim (put_conn-cases s s.fresh c q) [
        | inl (same, e) ↦
            ap (λ (x : Connection). x.on_close) e
            ∙ greets (sym (ap (λ (x : Connection). x.on_message) e) ∙ h)
        | inr (apart, e) ↦
            ap (λ (x : Connection). x.on_close) e
            ∙ v.greeters q (ground arith) (sym (ap (λ (x : Connection). x.on_message) e) ∙ h)
      ];
      queues = λ n sc f.
          SameRole-IsQueue s s' (omega arith) n sc.wait_handle_visitors (λ u l h. role u l)
            (v.queues n sc f);
      bridges = λ n sc f id br g.
          let l = v.bridges n sc f id br g in
          SameRole-IsLinked s s' (omega arith) _ br (role br.inside l.inside_old)
            (role br.outside l.outside_old) l;
    }
