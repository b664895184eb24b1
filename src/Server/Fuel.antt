-- ===== src/Server/Fuel.antt =====
-- network/connection.cpp, `handle_close`, with ncx_server/bridgecloser.cpp: the calls nest no deeper
-- than there are bridges.
use ncx_for_mall.Prelude.{
  ℕ, zero, suc, ◌+◌, ◌≤◌, ◌<◌, ◌≡◌, refl, ◌∙◌, ◌⊎◌, ◌≢◌, inl, inr, List, [], ◌∷◌, Option, none,
  some, arith, length, Bool-cases, Option-cases, Result, ok, ◌>>=◌,
}
use ncx_for_mall.Prelude.Maps.{lookup, insert, erase, nat_eq, text_eq, Eq}
use ncx_for_mall.Connection.{
  ConnectionState, connected, connecting, disconnecting, disconnected, Owner, main_server,
  proxy_server, Notice,
}
use ncx_for_mall.Server.Closing.{handle_close-open}
use ncx_for_mall.Server.Kept.{
  Kept, Kept-refl, Kept-trans, set_state-Kept, put_channel-Kept, erase-Fewer,
  disconnect_handle-Kept, disconnect_handle-sends,
}
use ncx_for_mall.Server.{
  Server, SControlChannel, Bridge, Text, put_channel, set_state, is_alive, erase_connection,
  disconnect_handle, force_in_state, force_close, cut_off_bridge, notice_close, close_open,
  handle_close,
}

-- The number of the bridges of all the control channels.
abbrev pub bridge_count : List (Text × SControlChannel) → ℕ
bridge_count [] = 0
bridge_count ((nonce, sc) ∷ m) = length sc.bridge_closers + bridge_count m

-- A call that returns, with no more bridges than before and all kept that `Kept` names.
pub record Ends (s : Server) (r : Result Server) : Type 0 where
  pub state : Server
  pub returns : r ≡ ok state
  pub fewer : bridge_count state.sc_map ≤ bridge_count s.sc_map
  pub kept : Kept s state
  pub silent : state.sends ≡ s.sends

stays-Ends : (s : Server) → Ends s (ok s)
stays-Ends s = record {
  state = s;
  returns = refl;
  fewer = omega arith;
  kept = Kept-refl s;
  silent = refl;
}

-- What is left after a first step that keeps all, and does not add a bridge.
after-Ends :
    (s t : Server) (r : Result Server)
    → Kept s t
    → bridge_count t.sc_map ≤ bridge_count s.sc_map
    → t.sends ≡ s.sends
    → Ends t r
    → Ends s r
after-Ends s t r k l m e = record {
  state = e.state;
  returns = e.returns;
  fewer = omega (arith, e.fewer);
  kept = Kept-trans s t e.state k e.kept;
  silent = e.silent ∙ m;
}

length-erase {ℓ κ} :
    {K : Type ℓ} {V : Type κ} ⦃e : Eq K⦄ (k : K) (m : List (K × V)) → length (erase k m) ≤ length m
length-erase k [] = omega arith
length-erase ⦃e⦄ k ((j, u) ∷ m) = ground (arith, length-erase k m)

erase_shorter {ℓ κ} :
    {K : Type ℓ} {V : Type κ} ⦃e : Eq K⦄ (k : K) (v : V) (m : List (K × V))
    → lookup k m ≡ some v
    → length (erase k m) < length m
erase_shorter k v [] h = cc
erase_shorter ⦃e⦄ k v ((j, u) ∷ m) h = ground (arith, length-erase k m, erase_shorter k v m)

count-insert :
    (nonce : Text) (sc sc' : SControlChannel) (m : List (Text × SControlChannel))
    → lookup nonce m ≡ some sc
    → bridge_count (insert nonce sc' m) + length sc.bridge_closers
      ≡ bridge_count m + length sc'.bridge_closers
count-insert nonce sc sc' [] h = cc
count-insert nonce sc sc' ((j, u) ∷ m) h = grind (arith, count-insert nonce sc sc' m)

erase_connection-count :
    (s : Server) (o : Owner) (id : ℕ)
    → bridge_count (erase_connection s o id).sc_map ≡ bridge_count s.sc_map
unfolding erase_connection
erase_connection-count s main_server id = refl
erase_connection-count s (proxy_server nonce) id = elim (Option-cases (lookup nonce s.sc_map)) [
  | inl e ↦ rw (e, bridge_count, erase_connection)
  | inr (sc, e) ↦
      rw (e, erase_connection, bridge_count)
        (omega (
          arith,
          count-insert nonce sc (record sc { connections = erase id sc.connections }) s.sc_map e,
        ))
]

disconnect_handle-count :
    (s : Server) (p : ℕ) → bridge_count (disconnect_handle s p).sc_map ≡ bridge_count s.sc_map
unfolding disconnect_handle
disconnect_handle-count s p = erase_connection-count s (s.conn p).on_close (s.conn p).conn_id

module _ (close : ℕ → Server → Result Server) (bound : ℕ)
    (total : (p : ℕ) (s : Server) → bridge_count s.sc_map < bound → Ends s (close p s)) where
  disconnecting-Ends :
      (p : ℕ) (s : Server)
      → bridge_count s.sc_map < bound
      → Ends s (close p (set_state s p disconnecting))
  disconnecting-Ends p s h =
      let t = set_state s p disconnecting in
      after-Ends s t (close p t) (set_state-Kept s p disconnecting) (omega arith) refl (total p t h)

  force_in_state-Ends :
      (p : ℕ) (st : ConnectionState) (s : Server)
      → bridge_count s.sc_map < bound
      → Ends s (force_in_state close p st s)
  unfolding force_in_state
  force_in_state-Ends p connected s h = disconnecting-Ends p s h
  force_in_state-Ends p disconnecting s h = disconnecting-Ends p s h
  force_in_state-Ends p _ s h = stays-Ends s

  force_close-Ends :
      (p : ℕ) (s : Server) → bridge_count s.sc_map < bound → Ends s (force_close close p s)
  unfolding force_close
  force_close-Ends p s h = elim (Bool-cases (is_alive s p)) [
    | inl a ↦ rw a (force_in_state-Ends p (s.conn p).state s h)
    | inr a ↦ rw a (stays-Ends s)
  ]

  erased-Ends :
      (br : Bridge) (s : Server)
      → bridge_count s.sc_map < bound
      → Ends s (do s' ← force_close close br.inside s; force_close close br.outside s')
  erased-Ends br s h =
      let first = force_close-Ends br.inside s h in
      let second = force_close-Ends br.outside first.state (omega (arith, first.fewer)) in
      rw first.returns (
        after-Ends s first.state (force_close close br.outside first.state) first.kept first.fewer
          first.silent second)

  cut_off_bridge-Ends :
      (n : Notice) (s : Server) → bridge_count s.sc_map ≤ bound → Ends s (cut_off_bridge close n s)
  unfolding cut_off_bridge
  cut_off_bridge-Ends n s h = elim (Option-cases (lookup n.nonce s.sc_map)) [
    | inl e ↦ rw (cut_off_bridge, e) (stays-Ends s)
    | inr (sc, e) ↦ elim (Option-cases (lookup n.bridge_id sc.bridge_closers)) [
      | inl f ↦ rw (cut_off_bridge, e, f) (stays-Ends s)
      | inr (br, f) ↦
          let cut = record sc { bridge_closers = erase n.bridge_id sc.bridge_closers } in
          let less : bridge_count (insert n.nonce cut s.sc_map) < bridge_count s.sc_map = omega (
            arith,
            count-insert n.nonce sc cut s.sc_map e,
            erase_shorter n.bridge_id br sc.bridge_closers f,
          ) in
          rw (cut_off_bridge, e, f)
            (after-Ends s (put_channel s n.nonce cut) _
              (put_channel-Kept s n.nonce sc cut e (erase-Fewer sc n.bridge_id)) (omega arith) refl
              (erased-Ends br (put_channel s n.nonce cut) (omega arith)))
    ]
  ]

  notice_close-Ends :
      (entry : Option Notice) (s : Server)
      → bridge_count s.sc_map ≤ bound
      → Ends s (notice_close close entry s)
  unfolding notice_close
  notice_close-Ends none s h = stays-Ends s
  notice_close-Ends (some n) s h = cut_off_bridge-Ends n s h

  close_open-Ends :
      (p : ℕ) (s : Server) → bridge_count s.sc_map ≤ bound → Ends s (close_open close p s)
  unfolding close_open
  close_open-Ends p s h =
      let left = disconnect_handle s p in
      let c = disconnect_handle-count s p in
      let noticed = notice_close-Ends (left.conn p).notice_on_close left (omega arith) in
      let last = set_state noticed.state p disconnected in
      record {
        state = last;
        returns = rw noticed.returns;
        fewer = omega (arith, noticed.fewer);
        kept = Kept-trans s left last (disconnect_handle-Kept s p) (
            Kept-trans left noticed.state last noticed.kept
              (set_state-Kept noticed.state p disconnected));
        silent = noticed.silent ∙ disconnect_handle-sends s p;
      }

state-cases : (st : ConnectionState) → (st ≡ disconnected) ⊎ (st ≢ disconnected)
state-cases connecting = inr (λ e. absurd (cc))
state-cases connected = inr (λ e. absurd (cc))
state-cases disconnecting = inr (λ e. absurd (cc))
state-cases disconnected = inl refl

handle_close-closed :
    (fuel p : ℕ) (s : Server) → (s.conn p).state ≡ disconnected → handle_close (suc fuel) p s ≡ ok s
unfolding handle_close
handle_close-closed fuel p s e = rw (e, handle_close)

handle_close-state :
    (fuel p : ℕ) (s : Server)
    → ((s.conn p).state ≡ disconnected)
      ⊎ (handle_close (suc fuel) p s ≡ close_open (handle_close fuel) p s)
handle_close-state fuel p s = elim (state-cases (s.conn p).state) [
  | inl e ↦ inl e
  | inr h ↦ inr (handle_close-open fuel p s (s.conn p).state refl h)
]

-- From any state, closing any connection returns, with more fuel than there are bridges: there are
-- no more bridges than before and none that was not there, no text has been sent, and the input
-- buffers, callbacks and owners of all connections and the queues of visitors are as before.
pub handle_close-Ends :
    (fuel p : ℕ) (s : Server) → bridge_count s.sc_map < fuel → Ends s (handle_close fuel p s)
handle_close-Ends zero p s h = absurd (omega arith)
handle_close-Ends (suc fuel) p s h = elim (handle_close-state fuel p s) [
  | inl e ↦ rw (handle_close-closed fuel p s e) (stays-Ends s)
  | inr e ↦
      rw e (close_open-Ends (handle_close fuel) fuel (handle_close-Ends fuel) p s (omega arith))
]
