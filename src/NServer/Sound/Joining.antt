-- ===== src/NServer/Sound/Joining.antt =====
-- ncx_server/nserver.cpp, `handle_data_channel_hello`: a visitor and a data channel that are joined keep
-- the server's invariant.
use ncx_for_mall.Prelude.{
  ℕ, ◌<◌, ◌≡◌, ◌≢◌, refl, sym, ap, ◌∙◌, subst, inl, inr, List, ◌∷◌, some, false, arith,
  ne→beq_false, ◌⊎◌,
}
use ncx_for_mall.Prelude.Maps.{
  lookup, insert, nat_eq, text_eq, insert-cases, emplace-cases, beq_self,
}
use ncx_for_mall.Buffer.Invariant.{IsValid}
use ncx_for_mall.Connection.{
  Connection, no_handler, hello_handler, forward_to, main_server, proxy_server, Notice,
}
use ncx_for_mall.Server.{Server, SControlChannel, Bridge, Text, put_channel, waits}
use ncx_for_mall.NServer.{join_ends, open_bridge}
use ncx_for_mall.NServer.Sound.{
  SameRole, same-SameRole, IsVisitor, IsEnd, IsQueue, IsLinked, IsSound, SameRole-IsLinked,
  SameRole-IsQueue,
}
use ncx_for_mall.NServer.Sound.Queues.{IsQueue-waits}
use ncx_for_mall.NServer.Sound.Events.{put_conn-cases}

module _ (s : Server) (n : Notice) (sc : SControlChannel) (v o : ℕ) (rest : List ℕ)
    (sound : IsSound s) (found : lookup n.nonce s.sc_map ≡ some sc)
    (queue : sc.wait_handle_visitors ≡ v ∷ rest) (old : o < s.fresh)
    (greeter : (s.conn o).on_message ≡ hello_handler) where
  abbrev opened : SControlChannel
  opened = open_bridge n.bridge_id v o rest sc

  abbrev joined : Server
  joined = join_ends v o n (put_channel s n.nonce opened)

  front :
      (v < s.fresh) × IsVisitor n.nonce (s.conn v) × (waits rest v ≡ false) × IsQueue s n.nonce rest
  front = subst (IsQueue s n.nonce) queue (sound.queues n.nonce sc found)

  apart : v ≢ o
  apart e =
      let h = front.1.quiet in
      let g : (s.conn v).on_message ≡ hello_handler = ap (λ x. (s.conn x).on_message) e ∙ greeter in
      absurd (cc)

  joined-visitor :
      joined.conn v ≡ record (s.conn v) { on_message = forward_to o; notice_on_close = some n }
  unfolding join_ends
  joined-visitor = rw (ne→beq_false o v (λ e. apart (sym e)), beq_self v)

  joined-origin :
      joined.conn o ≡ record (s.conn o) { on_message = forward_to v; notice_on_close = some n }
  unfolding join_ends
  joined-origin = rw (beq_self o, ne→beq_false v o apart)

  joined-other : (q : ℕ) → q ≢ v → q ≢ o → joined.conn q ≡ s.conn q
  unfolding join_ends
  joined-other q h k = rw (ne→beq_false o q (λ e. k (sym e)), ne→beq_false v q (λ e. h (sym e)))

  joined-fresh : joined.fresh ≡ s.fresh
  unfolding join_ends
  joined-fresh = refl

  joined-sc_map : joined.sc_map ≡ insert n.nonce opened s.sc_map
  unfolding join_ends
  joined-sc_map = refl

  -- A connection with another handler than a visitor's and a greeter's, and a visitor of another
  -- place in the queues, is not one of the two.
  other_role :
      (q : ℕ) → q ≢ v → (s.conn q).on_message ≢ hello_handler → SameRole (s.conn q) (joined.conn q)
  other_role q h k =
      same-SameRole _ _ (joined-other q h (λ e. k (ap (λ x. (s.conn x).on_message) e ∙ greeter)))

  end_role :
      (q peer : ℕ) → (s.conn q).on_message ≡ forward_to peer → SameRole (s.conn q) (joined.conn q)
  end_role q peer h =
      other_role q
        (λ e.
          let g : forward_to peer ≡ no_handler =
            sym h ∙ ap (λ x. (s.conn x).on_message) e ∙ front.1.quiet in
          absurd (cc))
        (λ e. let g : forward_to peer ≡ hello_handler = sym h ∙ e in absurd (cc))

  visitor_role :
      (q : ℕ) (nonce : Text)
      → q ≢ v
      → IsVisitor nonce (s.conn q)
      → SameRole (s.conn q) (joined.conn q)
  visitor_role q nonce h visitor =
      other_role q h
        (λ e. let g : no_handler ≡ hello_handler = sym visitor.quiet ∙ e in absurd (cc))

  kept-IsLinked : (m : Notice) (br : Bridge) → IsLinked s m br → IsLinked joined m br
  kept-IsLinked m br l =
      SameRole-IsLinked s joined (omega (arith, joined-fresh)) m br
        (end_role br.inside br.outside l.inside_end.forwards)
        (end_role br.outside br.inside l.outside_end.forwards) l

  -- The queue of another control channel does not hold the visitor, whose server is this one's.
  kept-IsQueue :
      (nonce : Text) (vs : List ℕ)
      → IsQueue s nonce vs
      → (nonce ≡ n.nonce → waits vs v ≡ false)
      → IsQueue joined nonce vs
  kept-IsQueue nonce vs q new =
      SameRole-IsQueue s joined (omega (arith, joined-fresh)) nonce vs
        (λ u l h.
          let visitor = (IsQueue-waits s nonce vs u q h).1 in
          visitor_role u nonce
            (λ e.
              let same : proxy_server nonce ≡ proxy_server n.nonce =
                sym visitor.owner ∙ ap (λ x. (s.conn x).on_close) e ∙ front.1.owner in
              let here : nonce ≡ n.nonce = cc in
              let gone : waits vs u ≡ false = ap (waits vs) e ∙ new here in absurd (cc))
            visitor)
        q

  new-IsLinked : IsLinked joined n (record { inside = v; outside = o })
  new-IsLinked = record {
    inside_old = omega (arith, front.0, joined-fresh);
    outside_old = omega (arith, old, joined-fresh);
    inside_end =
        subst (IsEnd n o (proxy_server n.nonce)) (sym joined-visitor)
          record { forwards = refl; notice = refl; owner = front.1.owner };
    outside_end =
        subst (IsEnd n v main_server) (sym joined-origin)
          record { forwards = refl; notice = refl; owner = sound.greeters o old greeter };
  }

  opened-IsLinked :
      (id : Text) (br : Bridge)
      → lookup id opened.bridge_closers ≡ some br
      → IsLinked joined (record { nonce = n.nonce; bridge_id = id }) br
  unfolding open_bridge
  opened-IsLinked id br g =
      elim (emplace-cases n.bridge_id id (record { inside = v; outside = o }) br sc.bridge_closers
        g) [
          | inl (here, e) ↦
              subst (λ k. IsLinked joined (record { nonce = n.nonce; bridge_id = k }) br) here
                (subst (IsLinked joined n) e new-IsLinked)
          | inr was ↦ kept-IsLinked _ br (sound.bridges n.nonce sc found id br was)
        ]

  opened-queue : opened.wait_handle_visitors ≡ rest
  unfolding open_bridge
  opened-queue = refl

  -- Every connection afterwards: one of the two ends, or as it was.
  joined-cases :
      (q : ℕ)
      → ((joined.conn q).input_buffer ≡ (s.conn q).input_buffer)
        × (((joined.conn q).on_message ≡ hello_handler) → (joined.conn q) ≡ s.conn q)
  unfolding join_ends
  joined-cases q =
      elim (put_conn-cases s v
        (record (s.conn v) { on_message = forward_to o; notice_on_close = some n }) q) [
          | inl (same, e) ↦ (
            subst (λ x. (joined.conn x).input_buffer ≡ (s.conn x).input_buffer) same
                (ap (λ (c : Connection). c.input_buffer) joined-visitor),
            λ h.
                let g : forward_to o ≡ hello_handler =
                  sym (ap (λ (c : Connection). c.on_message) joined-visitor)
                  ∙ ap (λ x. (joined.conn x).on_message) same
                  ∙ h in
                absurd (cc),
          )
          | inr (other, e) ↦
              elim (put_conn-cases s o
                (record (s.conn o) { on_message = forward_to v; notice_on_close = some n }) q) [
                  | inl (same, f) ↦ (
                    subst (λ x. (joined.conn x).input_buffer ≡ (s.conn x).input_buffer) same
                        (ap (λ (c : Connection). c.input_buffer) joined-origin),
                    λ h.
                        let g : forward_to v ≡ hello_handler =
                          sym (ap (λ (c : Connection). c.on_message) joined-origin)
                          ∙ ap (λ x. (joined.conn x).on_message) same
                          ∙ h in
                        absurd (cc),
                  )
                  | inr (apart', f) ↦
                      let e' = joined-other q (λ k. other (sym k)) (λ k. apart' (sym k)) in
                      (ap (λ (c : Connection). c.input_buffer) e', λ h. e')
                ]
        ]

  found_in :
      (n' : Text) (x : SControlChannel)
      → lookup n' joined.sc_map ≡ some x
      → ((n.nonce ≡ n') × (opened ≡ x)) ⊎ ((n.nonce ≢ n') × (lookup n' s.sc_map ≡ some x))
  found_in n' x f =
      insert-cases n.nonce n' opened x s.sc_map (sym (ap (lookup n') joined-sc_map) ∙ f)

  pub joined-IsSound : IsSound joined
  joined-IsSound = record {
    buffers = λ q l.
        subst IsValid (sym (joined-cases q).0) (sound.buffers q (omega (arith, joined-fresh)));
    greeters = λ q l h.
        let e = (joined-cases q).1 h in
        ap (λ (c : Connection). c.on_close) e
        ∙ sound.greeters q (omega (arith, joined-fresh))
            (sym (ap (λ (c : Connection). c.on_message) e) ∙ h);
    queues = λ n' x f. elim (found_in n' x f) [
      | inl (here, e) ↦
          subst (IsQueue joined n')
            (sym opened-queue ∙ ap (λ (y : SControlChannel). y.wait_handle_visitors) e)
            (subst (λ k. IsQueue joined k rest) here
              (kept-IsQueue n.nonce rest front.3 (λ k. front.2)))
      | inr (other, old_one) ↦
          kept-IsQueue n' x.wait_handle_visitors (sound.queues n' x old_one)
            (λ k. absurd (other (sym k)))
    ];
    bridges = λ n' x f id br g. elim (found_in n' x f) [
      | inl (here, e) ↦
          subst (λ k. IsLinked joined (record { nonce = k; bridge_id = id }) br) here
            (opened-IsLinked id br (ap (λ (y : SControlChannel). lookup id y.bridge_closers) e ∙ g))
      | inr (other, old_one) ↦ kept-IsLinked _ br (sound.bridges n' x old_one id br g)
    ];
  }
