-- ===== src/Framing/Receive.antt =====
-- protocol/protoMsgUtil.h: one call of `canReadMsg`, on every kind of buffer.
use ncx_for_mall.Prelude.{
  List, Option, none, some, ◌==◌, ℕ, ◌+◌, ◌^◌, ◌≤◌, ◌<◌, ◌≡◌, refl, sym, ap, ◌∙◌, ◌⊎◌, inl, inr,
  ◌++◌, arith, length, take, drop, ltb, false, length-take, drop_prefix, length-append, Bool-cases,
  ok, add_size, lt→ltb, le→ltb_false, length-drop, take-append-drop,
}
use ncx_for_mall.Buffer.{Buffer, readable_bytes}
use ncx_for_mall.Buffer.Invariant.{IsValid, contents}
use ncx_for_mall.Buffer.Reads.{
  Took, readable_bytes-length, peek_as_string_lem, retrieve_lem, retrieve_as_string_lem,
}
use ncx_for_mall.Protocol.{Wire, HeaderLaws}
use ncx_for_mall.Framing.{msg_header_length, take_header, can_read_msg, take_msg, read_msg}

-- The message behind the header at the front of a text.
abbrev pub first_message : Wire → List ℕ → List ℕ
first_message w text =
    take (w.parse_header (take msg_header_length text)) (drop msg_header_length text)

module _ (w : Wire) (laws : HeaderLaws w) where
  -- With less than a header in the buffer nothing is read and nothing changes.
  pub can_read_msg-short :
      (b : Buffer)
      → IsValid b
      → length (contents b) < msg_header_length
      → can_read_msg w b ≡ ok (0, b)
  unfolding can_read_msg
  can_read_msg-short b v h =
      rw (lt→ltb (readable_bytes b) 5 (omega (arith, readable_bytes-length b v)))

  pub can_read_msg-header :
      (b : Buffer)
      → IsValid b
      → msg_header_length ≤ length (contents b)
      → can_read_msg w b ≡ take_header w b (w.parse_header (take msg_header_length (contents b)))
  unfolding can_read_msg
  can_read_msg-header b v h = rw (
    le→ltb_false (readable_bytes b) 5 (omega (arith, readable_bytes-length b v)),
    peek_as_string_lem b 5 v h,
  )

  pub take_header-short :
      (b : Buffer) (n : ℕ)
      → IsValid b
      → n < 2 ^ 32
      → length (contents b) < n + msg_header_length
      → take_header w b n ≡ ok (0, b)
  unfolding take_header
  take_header-short b n v bound h =
      rw (lt→ltb (readable_bytes b) (add_size n 5) (omega (arith, readable_bytes-length b v)))

  pub take_header-whole :
      (b : Buffer) (n : ℕ)
      → IsValid b
      → n < 2 ^ 32
      → n + msg_header_length ≤ length (contents b)
      → (rest : Buffer) × (take_header w b n ≡ ok (n, rest)) × Took b msg_header_length rest
  unfolding take_header
  take_header-whole b n v bound h =
      let (rest, e, t) = retrieve_lem b 5 v (omega arith) in
      (
        rest,
        rw (
          le→ltb_false (readable_bytes b) (add_size n 5) (omega (arith, readable_bytes-length b v)),
          e,
        ),
        t,
      )

  -- What `canReadMsg` returns, on any bytes: 0 with the buffer unchanged, where a header or the
  -- message behind it is not there as a whole; else the length in the header, with the header taken
  -- off and at least so many bytes left.
  pub record Answer (b : Buffer) (n : ℕ) (rest : Buffer) : Type 0 where
    pub valid : IsValid rest
    pub enough : n ≤ length (contents rest)
    pub back : rest.write_index ≤ b.write_index
    pub cause :
        ((n ≡ 0) × (rest ≡ b))
        ⊎ ((n ≡ w.parse_header (take msg_header_length (contents b)))
            × (contents b ≡ take msg_header_length (contents b) ++ contents rest))

  Took-Answer :
      (b : Buffer) (n : ℕ) (rest : Buffer)
      → n ≡ w.parse_header (take msg_header_length (contents b))
      → n + msg_header_length ≤ length (contents b)
      → Took b msg_header_length rest
      → Answer b n rest
  Took-Answer b n rest e h t = record {
    valid = t.valid;
    enough = omega (arith, ap length t.left, length-drop msg_header_length (contents b));
    back = t.back;
    cause = inr (
      e,
      sym (
          ap (◌++◌ (take msg_header_length (contents b))) t.left
          ∙ take-append-drop msg_header_length (contents b)),
    );
  }

  unchanged-Answer : (b : Buffer) → IsValid b → Answer b 0 b
  unchanged-Answer b v = record {
    valid = v;
    enough = omega arith;
    back = omega arith;
    cause = inl (refl, refl);
  }

  take_header-Answer :
      (b : Buffer) (n : ℕ)
      → IsValid b
      → n ≡ w.parse_header (take msg_header_length (contents b))
      → (k : ℕ) × (rest : Buffer) × (take_header w b n ≡ ok (k, rest)) × Answer b k rest
  take_header-Answer b n v e =
      let bound : n < 2 ^ 32 = rw e (laws.header_bound _) in
      elim (Bool-cases (ltb (length (contents b)) (n + msg_header_length))) [
        | inl short ↦ (0, b, take_header-short b n v bound (ground arith), unchanged-Answer b v)
        | inr whole ↦
            let h : n + msg_header_length ≤ length (contents b) = ground arith in
            let (rest, r, t) = take_header-whole b n v bound h in
            (n, rest, r, Took-Answer b n rest e h t)
      ]

  -- On a valid buffer with any bytes, `canReadMsg` returns without a failed assertion and leaves a
  -- valid buffer with at least as many bytes as it answers: either it answers 0 and the buffer is
  -- unchanged, or it answers the length in the header and has taken exactly the header off.
  pub can_read_msg_lem :
      (b : Buffer)
      → IsValid b
      → (n : ℕ) × (rest : Buffer) × (can_read_msg w b ≡ ok (n, rest)) × Answer b n rest
  can_read_msg_lem b v = elim (Bool-cases (ltb (length (contents b)) msg_header_length)) [
    | inl short ↦ (0, b, can_read_msg-short b v (ground arith), unchanged-Answer b v)
    | inr whole ↦ rw (can_read_msg-header b v (ground arith)) (take_header-Answer b _ v refl)
  ]

  Answer-first_message :
      (b : Buffer) (n : ℕ) (mid : Buffer)
      → (n == 0) ≡ false
      → Answer b n mid
      → take n (contents mid) ≡ first_message w (contents b)
  Answer-first_message b n mid more a =
      let ne : 0 < n = ground (arith, more) in
      elim a.cause [
        | inl (zero, same) ↦ absurd (omega (arith, zero, ne))
        | inr (announced, split) ↦
            let l : length (take 5 (contents b)) ≡ 5 = omega (
              arith,
              ap length split,
              length-append (take 5 (contents b)) (contents mid),
              length-take 5 (contents b),
              a.enough,
              ne,
            ) in
            ap (take n)
              (sym (ap (drop 5) split ∙ drop_prefix 5 (take 5 (contents b)) (contents mid) l))
            ∙ ap (λ k. take k (drop msg_header_length (contents b))) announced
      ]

  -- A handler's read of any bytes returns and leaves a valid buffer; a message that it takes is the
  -- one behind the header at the front.
  pub read_msg-any :
      (b : Buffer)
      → IsValid b
      → (msg : Option (List ℕ)) × (rest : Buffer) × (read_msg w b ≡ ok (msg, rest))
        × IsValid rest
        × ((msg ≡ none) ⊎ (msg ≡ some (first_message w (contents b))))
  unfolding read_msg take_msg
  read_msg-any b v =
      let (n, mid, e, a) = can_read_msg_lem b v in
      elim (Bool-cases (n == 0)) [
        | inl zero ↦ (none, mid, rw (e, zero), a.valid, inl refl)
        | inr more ↦
            let (rest, r, t) = retrieve_as_string_lem mid n a.valid a.enough in
            (
              some (take n (contents mid)),
              rest,
              rw (e, more, r),
              t.valid,
              inr (ap some (Answer-first_message b n mid more a)),
            )
      ]
