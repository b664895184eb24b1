-- ===== src/NServer/Forwarding.antt =====
-- ncx_server/nserver.cpp and ncx_server/scontrolchannel.cpp: what one end of a bridge receives goes to
-- the other.
use ncx_for_mall.Prelude.{
  ℕ, ◌<◌, ◌≤◌, ◌≡◌, refl, sym, ap, inl, inr, List, [], ◌∷◌, ◌++◌, false, ◌==◌, ltb, arith,
  Bool-cases, ==_iff, length, ok, lt→ltb, le→ltb_false,
}
use mathlib.Core.Path.{fun_ext}
use ncx_for_mall.Prelude.Maps.{nat_eq, text_eq, beq_self}
use ncx_for_mall.Buffer.{Buffer, readable_bytes, retrieve_all}
use ncx_for_mall.Buffer.Invariant.{IsValid, contents}
use ncx_for_mall.Buffer.Reads.{
  readable_bytes-length, retrieve_all_as_string_lem, retrieve_all-IsValid, retrieve_all_back,
}
use ncx_for_mall.Server.{Server, Text, is_alive}
use ncx_for_mall.NServer.{log_send, put_input, send_all, forward_bytes, forward}

-- The sends of a text, if there is any text.
abbrev pub pending : ℕ → Text → List (ℕ × Text)
pending peer [] = []
pending peer (x ∷ xs) = (peer, x ∷ xs) ∷ []

-- What forwarding has done: the text of the input buffer was sent, and nothing else changed but
-- that buffer, which is empty now.
pub record Forwarded (p peer : ℕ) (s s' : Server) : Type 0 where
  pub sent : s'.sends ≡ pending peer (contents (s.conn p).input_buffer) ++ s.sends
  pub valid : IsValid (s'.conn p).input_buffer
  pub emptied : contents (s'.conn p).input_buffer ≡ []
  pub input : Buffer
  pub back : input.write_index ≤ (s.conn p).input_buffer.write_index
  pub rest : s' ≡ record (put_input s p input) { sends = s'.sends }

send_all-ok :
    (p peer : ℕ) (s : Server)
    → IsValid (s.conn p).input_buffer
    → send_all p peer s
      ≡ ok (
          log_send peer
            (contents (s.conn p).input_buffer)
            (put_input s p (retrieve_all (s.conn p).input_buffer)))
unfolding send_all
send_all-ok p peer s v = rw (retrieve_all_as_string_lem (s.conn p).input_buffer v)

forward_bytes-some :
    (p peer : ℕ) (s : Server)
    → IsValid (s.conn p).input_buffer
    → 0 < length (contents (s.conn p).input_buffer)
    → forward_bytes p peer s
      ≡ ok (
          log_send peer
            (contents (s.conn p).input_buffer)
            (put_input s p (retrieve_all (s.conn p).input_buffer)))
unfolding forward_bytes
forward_bytes-some p peer s v h =
    rw
      (lt→ltb 0 (readable_bytes (s.conn p).input_buffer)
        (omega (arith, readable_bytes-length (s.conn p).input_buffer v)))
      (send_all-ok p peer s v)

forward_bytes-none :
    (p peer : ℕ) (s : Server)
    → IsValid (s.conn p).input_buffer
    → length (contents (s.conn p).input_buffer) ≡ 0
    → forward_bytes p peer s ≡ ok s
unfolding forward_bytes
forward_bytes-none p peer s v h = rw (
    le→ltb_false 0 (readable_bytes (s.conn p).input_buffer)
      (omega (arith, readable_bytes-length (s.conn p).input_buffer v)))

pending-cons : (peer : ℕ) (t : Text) → 0 < length t → pending peer t ≡ (peer, t) ∷ []
pending-cons peer [] h = absurd (omega arith)
pending-cons peer (x ∷ xs) h = refl

pending-nil : (peer : ℕ) (t : Text) → length t ≡ 0 → (pending peer t ≡ []) × (t ≡ [])
pending-nil peer [] h = (refl, refl)
pending-nil peer (x ∷ xs) h = absurd (omega arith)

same_input : (s : Server) (p q : ℕ) → s.conn q ≡ (put_input s p (s.conn p).input_buffer).conn q
same_input s p q = elim (Bool-cases (p == q)) [
  | inl e ↦ rw e (ap s.conn (sym ((==_iff p q).0 e)))
  | inr e ↦ rw e
]

-- On a valid input buffer, the λs that a bridge sets return without a fault and send on exactly the
-- bytes held, in one text, or nothing if there are none; the buffer is then valid and empty, and
-- nothing else of the server has changed.
pub forward_bytes-Forwarded :
    (p peer : ℕ) (s : Server)
    → IsValid (s.conn p).input_buffer
    → (s' : Server) × (forward_bytes p peer s ≡ ok s') × Forwarded p peer s s'
unfolding log_send
forward_bytes-Forwarded p peer s v =
    let text = contents (s.conn p).input_buffer in
    let rest = retrieve_all (s.conn p).input_buffer in
    elim (Bool-cases (ltb 0 (length text))) [
      | inl more ↦ (
        log_send peer text (put_input s p rest),
        forward_bytes-some p peer s v (ground arith),
        record {
          sent = rw (pending-cons peer text (ground arith));
          valid = rw (beq_self p) (retrieve_all-IsValid _ v).0;
          emptied = rw (beq_self p) (retrieve_all-IsValid _ v).1;
          input = rest;
          back = retrieve_all_back (s.conn p).input_buffer v;
          rest = refl;
        },
      )
      | inr no_more ↦
          let z : length text ≡ 0 = ground arith in
          (
            s,
            forward_bytes-none p peer s v z,
            record {
              sent = rw ((pending-nil peer text z).0);
              valid = v;
              emptied = (pending-nil peer text z).1;
              input = (s.conn p).input_buffer;
              back = omega arith;
              rest = ap (λ f. record s { conn = f }) (fun_ext λ q. same_input s p q);
            },
          )
    ]

-- Where the other end is no longer alive, nothing is sent and nothing is taken out of the buffer.
pub forward-dead : (p peer : ℕ) (s : Server) → is_alive s peer ≡ false → forward p peer s ≡ ok s
unfolding forward
forward-dead p peer s h = rw h
