-- ===== src/NServer/Sound/Events.antt =====
-- ncx_server/nserver.cpp and network/server.cpp: a new connection, a control channel's hello and the
-- forwarding of bytes keep the server's invariant.
use ncx_for_mall.Prelude.{
  ℕ, ◌≡◌, ◌≢◌, refl, sym, ap, ◌∙◌, subst, ◌⊎◌, inl, inr, none, some, ◌==◌, arith, Bool-cases,
  ==_iff,
}
use ncx_for_mall.Prelude.Maps.{lookup, nat_eq, text_eq, beq_self, emplace-cases}
use ncx_for_mall.Buffer.{Buffer}
use ncx_for_mall.Buffer.Invariant.{IsValid}
use ncx_for_mall.Protocol.{Wire}
use ncx_for_mall.Connection.{Connection}
use ncx_for_mall.Server.{Server, SControlChannel, Text, put_conn}
use ncx_for_mall.Server.Kept.{same-CameFrom, SameEnd-refl}
use ncx_for_mall.NServer.{log_send, put_input, handle_control_channel_hello}
use ncx_for_mall.NServer.Forwarding.{Forwarded}
use ncx_for_mall.NServer.Sound.{
  SameRole, same-SameRole, IsQueue, IsSound, SameRole-IsLinked, SameRole-IsQueue, roles-IsSound,
  Kept-IsSound,
}

-- A text sent is no part of the invariant.
pub log_send-IsSound : (p : ℕ) (text : Text) (s : Server) → IsSound s → IsSound (log_send p text s)
unfolding log_send
log_send-IsSound p text s v =
    Kept-IsSound s (log_send p text s)
      (record {
        ends = λ q. SameEnd-refl (s.conn q);
        channels = same-CameFrom s;
        same_fresh = refl;
        same_waiting = λ nonce. refl;
      })
      v

-- The connections after one of them is put.
pub put_conn-cases :
    (s : Server) (p : ℕ) (c : Connection) (q : ℕ)
    → ((p ≡ q) × ((put_conn s p c).conn q ≡ c)) ⊎ ((p ≢ q) × ((put_conn s p c).conn q ≡ s.conn q))
put_conn-cases s p c q = elim (Bool-cases (p == q)) [
  | inl e ↦ inl ((==_iff p q).0 e, rw e)
  | inr e ↦ inr (λ h. absurd (ground (arith, h)), rw e)
]

put_input-SameRole :
    (s : Server) (p : ℕ) (b : Buffer) (q : ℕ) → SameRole (s.conn q) ((put_input s p b).conn q)
put_input-SameRole s p b q = elim (put_conn-cases s p (record (s.conn p) { input_buffer = b }) q) [
  | inl (same, e) ↦ subst (SameRole (s.conn q)) (sym e) (
      subst (λ x. SameRole (s.conn x) (record (s.conn p) { input_buffer = b })) same
        record { same_handler = refl; same_notice = refl; same_owner = refl })
  | inr (apart, e) ↦ same-SameRole (s.conn q) _ e
]

put_input-IsValid :
    (s : Server) (p : ℕ) (b : Buffer) (q : ℕ)
    → IsValid b
    → IsValid (s.conn q).input_buffer
    → IsValid ((put_input s p b).conn q).input_buffer
put_input-IsValid s p b q v w =
    elim (put_conn-cases s p (record (s.conn p) { input_buffer = b }) q) [
      | inl (same, e) ↦ subst (λ (c : Connection). IsValid c.input_buffer) (sym e) v
      | inr (apart, e) ↦ subst (λ (c : Connection). IsValid c.input_buffer) (sym e) w
    ]

-- A valid input buffer may take the place of another.
pub put_input-IsSound :
    (s : Server) (p : ℕ) (b : Buffer) → IsValid b → IsSound s → IsSound (put_input s p b)
put_input-IsSound s p b valid v =
    roles-IsSound s (put_input s p b) (put_input-SameRole s p b) (same-CameFrom s) refl
      (λ q l. put_input-IsValid s p b q valid (v.buffers q l)) v

-- What forwarding does to the server is a buffer and a text.
pub Forwarded-IsSound :
    (p peer : ℕ) (s s' : Server) → Forwarded p peer s s' → IsSound s → IsSound s'
Forwarded-IsSound p peer s s' f v =
    let valid : IsValid f.input =
      subst IsValid (ap (λ (x : Server). (x.conn p).input_buffer) f.rest ∙ rw (beq_self p))
        f.valid in
    let filled = put_input-IsSound s p f.input valid v in
    subst IsSound (sym f.rest) (
      Kept-IsSound (put_input s p f.input) (record (put_input s p f.input) { sends = s'.sends })
        (record {
          ends = λ q. SameEnd-refl ((put_input s p f.input).conn q);
          channels = same-CameFrom (put_input s p f.input);
          same_fresh = refl;
          same_waiting = λ nonce. refl;
        })
        filled)

-- A control channel's hello brings a control channel without visitors and bridges, or none where the
-- nonce is in use.
pub greeted-IsSound :
    (w : Wire) (nonce : Text) (proxy_port p : ℕ) (s : Server)
    → IsSound s
    → IsSound (handle_control_channel_hello w nonce proxy_port p s)
unfolding handle_control_channel_hello log_send
greeted-IsSound w nonce proxy_port p s v =
    let s' = handle_control_channel_hello w nonce proxy_port p s in
    record {
      buffers = v.buffers;
      greeters = v.greeters;
      queues = λ n sc f. elim (emplace-cases nonce n _ sc s.sc_map f) [
        | inl (here, e) ↦ subst (λ (x : SControlChannel). IsQueue s' n x.wait_handle_visitors) e tt
        | inr old ↦
            SameRole-IsQueue s s' (omega arith) n sc.wait_handle_visitors
              (λ u l h. same-SameRole _ _ refl) (v.queues n sc old)
      ];
      bridges = λ n sc f id br g. elim (emplace-cases nonce n _ sc s.sc_map f) [
        | inl (here, e) ↦
            let empty : none ≡ some br =
              ap (λ (x : SControlChannel). lookup id x.bridge_closers) e ∙ g in
            cc
        | inr old ↦
            SameRole-IsLinked s s' (omega arith) _ br (same-SameRole _ _ refl)
              (same-SameRole _ _ refl) (v.bridges n sc old id br g)
      ];
    }
