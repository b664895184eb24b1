-- ===== src/Session/Hop.antt =====
-- network/connection.cpp and protocol/protoMsgUtil.h: a text, or the frame of a message, on its way into
-- an empty input buffer.
use ncx_for_mall.Prelude.{
  refl, ℕ, ◌+◌, ◌^◌, ◌≤◌, ◌<◌, ◌≡◌, sym, ap, ◌∙◌, [], ◌∷◌, ◌++◌, some, arith, length, ok,
  append-nil,
}
use ncx_for_mall.Prelude.Maps.{nat_eq, beq_self}
use ncx_for_mall.Memory.{max_size}
use ncx_for_mall.Buffer.{Buffer, new_buffer}
use ncx_for_mall.Buffer.Invariant.{IsValid, contents, new_buffer-IsValid}
use ncx_for_mall.Protocol.{Wire, HeaderLaws, Hello, Command, serialize_hello, serialize_command}
use ncx_for_mall.Framing.{header_installer, read_msg}
use ncx_for_mall.Framing.Frames.{read_msg-frame, length-frame}
use ncx_for_mall.Socket.{accepted, leaves, read_loop, write_loop}
use ncx_for_mall.Socket.Writing.{write_loop-done, write_loop-interrupts, write_loop-whole}
use ncx_for_mall.Socket.Reading.{arrived, read_loop_lem, read_loop-back}
use ncx_for_mall.Server.{Text}
use ncx_for_mall.Session.{Transport, TakesWhole, on_wire, wire_to, said}

-- A message that protobuf writes as between one and 2^32 - 1 bytes and reads back.
pub record HelloLaw (w : Wire) (h : Hello) : Type 0 where
  pub pos : 0 < length (serialize_hello w h)
  pub small : length (serialize_hello w h) < 2 ^ 32
  pub parses : (w.parse_hello (serialize_hello w h)).1 ≡ h

pub record CommandLaw (w : Wire) (c : Command) : Type 0 where
  pub pos : 0 < length (serialize_command w c)
  pub small : length (serialize_command w c) < 2 ^ 32
  pub parses : (w.parse_command (serialize_command w c)).1 ≡ c

-- An input buffer with nothing to read, whose write index is no further than `n`.
pub record IsIdle (b : Buffer) (n : ℕ) : Type 0 where
  pub valid : IsValid b
  pub empty : contents b ≡ []
  pub bound : b.write_index ≤ n

-- What a frame can take.
abbrev pub frame_room : ℕ
frame_room = 2 ^ 33

pub new_buffer-IsIdle : IsIdle new_buffer 8
unfolding new_buffer
new_buffer-IsIdle = record {
  valid = new_buffer-IsValid.0;
  empty = new_buffer-IsValid.1;
  bound = omega arith;
}

-- Where the kernel takes each text in one piece, the text is what goes over the wire.
pub on_wire-whole : (net : Transport) → TakesWhole net → (text : Text) → on_wire net text ≡ text
on_wire-whole net takes [] = ap (λ r. r.0) (write_loop-done [] 0 (net.writes []) refl)
on_wire-whole net takes (x ∷ xs) =
    let text = x ∷ xs in
    let (k, calls, e) = takes text (omega arith) in
    ap (λ r. (write_loop text (length text) r).0) e
    ∙ ap (λ r. r.0)
        (write_loop-interrupts k text (length text) (accepted (length text) ∷ calls) (omega arith)
          ∙ write_loop-whole text (length text) calls (omega arith) (omega arith))

-- A single text in a log.
pub said-one : (net : Transport) → TakesWhole net → (text : Text) → said net (text ∷ []) ≡ text
said-one net takes text = on_wire-whole net takes text

pub wire_to-one :
    (net : Transport)
    → TakesWhole net
    → (p : ℕ) (text : Text) → wire_to net p ((p, text) ∷ []) ≡ text
wire_to-one net takes p text = rw (beq_self p, on_wire-whole net takes text)

module _ (net : Transport) (b : Buffer) (n : ℕ) (idle : IsIdle b n) where
  -- A text has come in.
  pub record Came (text : Text) (b1 : Buffer) : Type 0 where
    pub read : read_loop b (net.split text) ≡ ok (b1, leaves)
    pub valid : IsValid b1
    pub holds : contents b1 ≡ text
    pub bound : b1.write_index ≤ n + length text

  pub fits :
      (text : Text)
      → n + length text ≤ max_size
      → b.write_index + length (arrived (net.split text)) ≤ max_size
  fits text h = omega (arith, ap length (net.whole text), idle.bound)

  pub text_comes : (text : Text) → n + length text ≤ max_size → (b1 : Buffer) × Came text b1
  text_comes text h =
      let (b1, e, v, c) = read_loop_lem (net.split text) b idle.valid (fits text h) in
      let e' = e ∙ ap (λ x. ok (b1, x)) (net.stays text) in
      (
        b1,
        record {
          read = e';
          valid = v;
          holds = c ∙ ap (λ x. x ++ arrived (net.split text)) idle.empty ∙ net.whole text;
          bound =
              let far = read_loop-back (net.split text) b b1 leaves idle.valid (fits text h) e' in
              omega (arith, far, ap length (net.whole text), idle.bound);
        },
      )

  module _ (w : Wire) (laws : HeaderLaws w) where
    -- The frame of a message has come in, and the message has been taken off.
    pub record Taken (m : Text) (b1 b2 : Buffer) : Type 0 where
      pub came : Came (header_installer w m) b1
      pub takes : read_msg w b1 ≡ ok (some m, b2)
      pub left : IsIdle b2 (n + frame_room)

    pub frame_comes :
        (m : Text)
        → 0 < length m
        → length m < 2 ^ 32
        → n + frame_room ≤ max_size
        → (b1 : Buffer) × (b2 : Buffer) × Taken m b1 b2
    frame_comes m pos small h =
        let l = length-frame w laws m pos small in
        let (b1, c) = text_comes (header_installer w m) (omega (arith, l)) in
        let (b2, r, v, e, u) =
          read_msg-frame w laws b1 m [] c.valid pos small
            (c.holds ∙ sym (append-nil (header_installer w m))) in
        (
          b1,
          b2,
          record {
            came = c;
            takes = r;
            left = record { valid = v; empty = e; bound = omega (arith, u, c.bound, l) };
          },
        )
