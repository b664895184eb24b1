-- ===== src/Framing/Frames.antt =====
-- protocol/protoMsgUtil.h: whole frames and parts of frames are told apart.
use ncx_for_mall.Prelude.{
  ℕ, ◌+◌, ◌%◌, ◌^◌, ◌≤◌, ◌<◌, ◌≡◌, sym, ap, ◌∙◌, inl, inr, List, [], ◌++◌, arith, length, take,
  drop, ltb, ◌==◌, false, Bool-cases, none, some, ok, length-append, take-append, drop-append,
  take-append_le, append_assoc, append-nil, take_prefix, drop_prefix,
}
use ncx_for_mall.Buffer.{Buffer}
use ncx_for_mall.Buffer.Invariant.{IsValid, contents}
use ncx_for_mall.Buffer.Reads.{retrieve_as_string_lem}
use ncx_for_mall.Protocol.{Wire, HeaderLaws, serialize_header}
use ncx_for_mall.Framing.{msg_header_length, header_installer, can_read_msg, take_msg, read_msg}
use ncx_for_mall.Framing.Receive.{
  can_read_msg-short, can_read_msg-header, take_header-short, take_header-whole,
}

module _ (w : Wire) (laws : HeaderLaws w) where
  pub header_installer_lem :
      (m : List ℕ)
      → 0 < length m
      → length m < 2 ^ 32
      → header_installer w m ≡ w.write_fixed32 1 (length m) ++ m
  unfolding header_installer serialize_header
  header_installer_lem m h k =
      let e : length m % 2 ^ 32 ≡ length m = omega arith in
      let z : (length m == 0) ≡ false = ground arith in rw (e, z)

  frame_split :
      (m rest : List ℕ)
      → 0 < length m
      → length m < 2 ^ 32
      → header_installer w m ++ rest ≡ w.write_fixed32 1 (length m) ++ (m ++ rest)
  frame_split m rest pos small = rw (header_installer_lem m pos small, append_assoc)

  -- The header of a frame is parsed as the length of its message.
  parse-frame :
      (bytes m more : List ℕ)
      → 0 < length m
      → length m < 2 ^ 32
      → bytes ≡ header_installer w m ++ more
      → w.parse_header (take msg_header_length bytes) ≡ length m
  parse-frame bytes m more pos small e =
      ap (λ l. w.parse_header (take 5 l)) (e ∙ frame_split m more pos small)
      ∙ ap w.parse_header (
          take_prefix 5 (w.write_fixed32 1 (length m)) (m ++ more) (laws.fixed32_length (length m)))
      ∙ laws.header_back (length m) small

  pub length-frame :
      (m : List ℕ) → 0 < length m → length m < 2 ^ 32 → length (header_installer w m) ≡ 5 + length m
  length-frame m pos small = omega (
    arith,
    ap length (header_installer_lem m pos small),
    length-append (w.write_fixed32 1 (length m)) m,
    laws.fixed32_length (length m),
  )

  pub can_read_msg-frame :
      (b : Buffer) (m rest : List ℕ)
      → IsValid b
      → 0 < length m
      → length m < 2 ^ 32
      → contents b ≡ header_installer w m ++ rest
      → (b' : Buffer) × (can_read_msg w b ≡ ok (length m, b'))
        × IsValid b'
        × (contents b' ≡ m ++ rest)
        × (b'.write_index ≤ b.write_index)
  can_read_msg-frame b m rest v pos small e =
      let l : length (contents b) ≡ 5 + length m + length rest =
        omega (
          arith,
          ap length e,
          length-append (header_installer w m) rest,
          length-frame m pos small,
        ) in
      let (b', r, t) = take_header-whole w laws b (length m) v small (omega (arith, l)) in
      let c : drop 5 (contents b) ≡ m ++ rest =
        ap (drop 5) (e ∙ frame_split m rest pos small)
        ∙ drop_prefix 5 (w.write_fixed32 1 (length m)) (m ++ rest)
            (laws.fixed32_length (length m)) in
      (
        b',
        rw
            (
              can_read_msg-header w laws b v (omega (arith, l)),
              parse-frame (contents b) m rest pos small e,
            )
            r,
        t.valid,
        t.left ∙ c,
        t.back,
      )

  can_read_msg-partial :
      (b : Buffer) (m more : List ℕ)
      → IsValid b
      → 0 < length m
      → length m < 2 ^ 32
      → 0 < length more
      → header_installer w m ≡ contents b ++ more
      → can_read_msg w b ≡ ok (0, b)
  can_read_msg-partial b m more v pos small left e =
      let l : length (contents b) + length more ≡ 5 + length m =
        omega (arith, ap length e, length-append (contents b) more, length-frame m pos small) in
      elim (Bool-cases (ltb (length (contents b)) msg_header_length)) [
        | inl short ↦ can_read_msg-short w laws b v (ground arith)
        | inr header ↦
            let h : 5 ≤ length (contents b) = ground arith in
            let p : w.parse_header (take 5 (contents b)) ≡ length m =
              ap w.parse_header (sym (take-append_le 5 (contents b) more h))
              ∙ parse-frame (contents b ++ more) m [] pos small
                  (sym e ∙ sym (append-nil (header_installer w m))) in
            rw (can_read_msg-header w laws b v h, p)
              (take_header-short w laws b (length m) v small (omega (arith, l)))
      ]

  -- A whole frame at the front of a valid buffer, of a message that is not empty and shorter than
  -- 2^32, is read as its message, and exactly the bytes behind it stay in the buffer, which is
  -- valid.
  pub read_msg-frame :
      (b : Buffer) (m rest : List ℕ)
      → IsValid b
      → 0 < length m
      → length m < 2 ^ 32
      → contents b ≡ header_installer w m ++ rest
      → (b' : Buffer) × (read_msg w b ≡ ok (some m, b'))
        × IsValid b'
        × (contents b' ≡ rest)
        × (b'.write_index ≤ b.write_index)
  unfolding read_msg
  read_msg-frame b m rest v pos small e =
      let (b', r, v', c, u) = can_read_msg-frame b m rest v pos small e in
      let z : (length m == 0) ≡ false = ground arith in
      let h : length m ≤ length (contents b') = omega (arith, ap length c, length-append m rest) in
      let (b'', q, t) = retrieve_as_string_lem b' (length m) v' h in
      let text : take (length m) (contents b') ≡ m = ap (take (length m)) c ∙ take-append m rest in
      (
        b'',
        rw (r, take_msg, z, q, text),
        t.valid,
        t.left ∙ ap (drop (length m)) c ∙ drop-append m rest,
        omega (arith, t.back, u),
      )

  -- Of a frame of which a valid buffer holds only a proper beginning, its message not empty and
  -- shorter than 2^32, nothing is read, and the buffer does not change.
  pub read_msg-partial :
      (b : Buffer) (m more : List ℕ)
      → IsValid b
      → 0 < length m
      → length m < 2 ^ 32
      → 0 < length more
      → header_installer w m ≡ contents b ++ more
      → read_msg w b ≡ ok (none, b)
  unfolding read_msg
  read_msg-partial b m more v pos small left e =
      rw (can_read_msg-partial b m more v pos small left e)
