-- ===== src/Framing/Stream.antt =====
-- protocol/protoMsgUtil.h and the message handlers: a stream of frames, cut anywhere, is received as
-- its messages in order, at most one to a read event.
use ncx_for_mall.Prelude.{
  ℕ, ◌+◌, ◌^◌, ◌≤◌, ◌<◌, ◌≡◌, refl, sym, ap, ◌∙◌, subst, inl, inr, List, [], ◌∷◌, ◌++◌, ◌-◌,
  if◌then◌else◌, true, false, arith, length, drop, leb, concat, Bool-cases, Option, none, some, ok,
  length-append, append_assoc, append_split,
}
use ncx_for_mall.Memory.{max_size}
use ncx_for_mall.Buffer.{Buffer}
use ncx_for_mall.Buffer.Invariant.{IsValid, contents, append_lem}
use ncx_for_mall.Protocol.{Wire, HeaderLaws}
use ncx_for_mall.Framing.{header_installer, read_msg, take_msg, receive, receive_all, frames}
use ncx_for_mall.Framing.Receive.{can_read_msg-short}
use ncx_for_mall.Framing.Frames.{length-frame, read_msg-frame, read_msg-partial}

-- Messages that a header can announce: not empty, and shorter than 2^32.
abbrev pub Sendable : List (List ℕ) → Type 0
Sendable [] = Unit {0}
Sendable (m ∷ ms) = ((0 < length m) × (length m < 2 ^ 32)) × Sendable ms

abbrev pub opt_list : Option (List ℕ) → List (List ℕ)
opt_list none = []
opt_list (some m) = m ∷ []

-- One call of a handler with so many bytes in its buffer: it takes the next message just where its
-- whole frame is there, and what follows goes on with the bytes behind it.
abbrev turn : (ℕ → List (List ℕ) → List (List ℕ)) → ℕ → List (List ℕ) → List (List ℕ)
turn rest now [] = rest now []
turn rest now (m ∷ ms) =
    if leb (5 + length m) now then m ∷ rest (now - (5 + length m)) ms else rest now (m ∷ ms)

-- The messages that are due after these chunks, one at most to a chunk, where the buffer has so many
-- bytes before.
abbrev pub due : List (List ℕ) → ℕ → List (List ℕ) → List (List ℕ)
due [] now todo = []
due (chunk ∷ chunks) now todo = turn (due chunks) (now + length chunk) todo

module _ (w : Wire) (laws : HeaderLaws w) where
  -- What a call has done that leaves `later` still to come: it got the front of `todo`.
  pub record Delivered (later : List ℕ) (todo got : List (List ℕ)) (b : Buffer) : Type 0 where
    pub valid : IsValid b
    pub left : List (List ℕ)
    pub sendable : Sendable left
    pub in_order : todo ≡ got ++ left
    pub rest : contents b ++ later ≡ frames w left

  took_turn :
      (b b' : Buffer) (m : List ℕ) (ms : List (List ℕ)) (behind : List ℕ)
      (rest : ℕ → List (List ℕ) → List (List ℕ))
      → (0 < length m) × (length m < 2 ^ 32)
      → contents b ≡ header_installer w m ++ behind
      → contents b' ≡ behind
      → leb (length (header_installer w m)) (length (contents b)) ≡ true
      → m ∷ rest (length (contents b')) ms ≡ turn rest (length (contents b)) (m ∷ ms)
  took_turn b b' m ms behind rest s split c whole =
      let f = length-frame w laws m s.0 s.1 in
      let l : length (contents b') ≡ length (contents b) - (5 + length m) =
        omega
          (arith, ap length split, ap length c, length-append (header_installer w m) behind, f) in
      let t : leb (5 + length m) (length (contents b)) ≡ true =
        subst (λ k. leb k (length (contents b)) ≡ true) f whole in
      rw (t, l) refl

  waits_turn :
      (b : Buffer) (m : List ℕ) (ms : List (List ℕ)) (rest : ℕ → List (List ℕ) → List (List ℕ))
      → (0 < length m) × (length m < 2 ^ 32)
      → leb (length (header_installer w m)) (length (contents b)) ≡ false
      → rest (length (contents b)) (m ∷ ms) ≡ turn rest (length (contents b)) (m ∷ ms)
  waits_turn b m ms rest s part =
      let t : leb (5 + length m) (length (contents b)) ≡ false =
        subst (λ k. leb k (length (contents b)) ≡ false) (length-frame w laws m s.0 s.1) part in
      rw t refl

  read_msg-Delivered :
      (b : Buffer) (later : List ℕ) (todo : List (List ℕ))
      → IsValid b
      → Sendable todo
      → contents b ++ later ≡ frames w todo
      → (got : Option (List ℕ)) × (b' : Buffer) × (read_msg w b ≡ ok (got, b'))
        × (b'.write_index ≤ b.write_index)
        × (d : Delivered later todo (opt_list got) b') × ((rest : ℕ → List (List ℕ) → List (List ℕ))
            → opt_list got ++ rest (length (contents b')) d.left
              ≡ turn rest (length (contents b)) todo)
  unfolding read_msg
  read_msg-Delivered b later [] v s e =
      let short : length (contents b) < 5 =
        omega (arith, ap length e, length-append (contents b) later) in
      (
        none,
        b,
        rw (can_read_msg-short w laws b v short, take_msg),
        omega arith,
        record { valid = v; left = []; sendable = tt; in_order = refl; rest = e },
        λ rest. refl,
      )
  read_msg-Delivered b later (m ∷ ms) v s e =
      elim (Bool-cases (leb (length (header_installer w m)) (length (contents b)))) [
        | inl whole ↦
            let (split, rest) =
              append_split (contents b) later (header_installer w m) (frames w ms) e
                (ground arith) in
            let (b', r, v', c, u) = read_msg-frame w laws b m _ v s.0.0 s.0.1 split in
            (
              some m,
              b',
              r,
              u,
              record {
                valid = v';
                left = ms;
                sendable = s.1;
                in_order = refl;
                rest = ap (λ l. l ++ later) c ∙ rest;
              },
              λ more. took_turn b b' m ms _ more s.0 split c whole,
            )
        | inr part ↦
            let (split, rest) =
              append_split (header_installer w m) (frames w ms) (contents b) later (sym e)
                (ground arith) in
            let missing : 0 < length (drop (length (contents b)) (header_installer w m)) = ground (
              arith,
              ap length split,
              length-append (contents b) (drop (length (contents b)) (header_installer w m)),
            ) in
            (
              none,
              b,
              read_msg-partial w laws b m _ v s.0.0 s.0.1 missing split,
              omega arith,
              record { valid = v; left = m ∷ ms; sendable = s; in_order = refl; rest = e },
              λ more. waits_turn b m ms more s.0 part,
            )
      ]

  receive-Delivered :
      (b : Buffer) (chunk later : List ℕ) (todo : List (List ℕ))
      → IsValid b
      → b.write_index + length chunk ≤ max_size
      → Sendable todo
      → contents b ++ (chunk ++ later) ≡ frames w todo
      → (got : Option (List ℕ)) × (b' : Buffer) × (receive w b chunk ≡ ok (got, b'))
        × (b'.write_index ≤ b.write_index + length chunk)
        × (d : Delivered later todo (opt_list got) b') × ((rest : ℕ → List (List ℕ) → List (List ℕ))
            → opt_list got ++ rest (length (contents b')) d.left
              ≡ turn rest (length (contents b) + length chunk) todo)
  unfolding receive
  receive-Delivered b chunk later todo v h s e =
      let (filled, r, v', c, u) = append_lem b chunk v h in
      let e' : contents filled ++ later ≡ frames w todo =
        ap (λ l. l ++ later) c ∙ append_assoc (contents b) chunk later ∙ e in
      let (got, b', q, u', d, t) = read_msg-Delivered filled later todo v' s e' in
      let l : length (contents filled) ≡ length (contents b) + length chunk =
        ap length c ∙ length-append (contents b) chunk in
      (got, b', rw (r, q), omega arith, d, λ rest. t rest ∙ ap (λ n. turn rest n todo) l)

  join-Delivered :
      (later : List ℕ) (todo got more : List (List ℕ)) (b b' : Buffer) (mid : List ℕ)
      → (d : Delivered mid todo got b) → Delivered later d.left more b'
      → Delivered later todo (got ++ more) b'
  join-Delivered later todo got more b b' mid d d' = record {
    valid = d'.valid;
    left = d'.left;
    sendable = d'.sendable;
    in_order = d.in_order ∙ ap (◌++◌ got) d'.in_order ∙ sym (append_assoc got more d'.left);
    rest = d'.rest;
  }

  collect :
      (got : Option (List ℕ)) (more : List (List ℕ))
      → elim got [ none ↦ more | some msg ↦ msg ∷ more ] ≡ opt_list got ++ more
  collect none more = refl
  collect (some msg) more = refl

  -- A stream of frames of sendable messages that arrives in chunks cut anywhere, on a valid buffer
  -- that it fits, is received without a fault. The handler gets exactly the messages that are due,
  -- each once and in order: with each chunk the next one, if its whole frame, 5 bytes and the
  -- message, is among the bytes that came in and were not taken, and none otherwise. What the
  -- buffer holds then goes on, with the bytes still to come, as the frames of the other messages.
  pub receive_all-Delivered :
      (chunks : List (List ℕ)) (b : Buffer) (later : List ℕ) (todo : List (List ℕ))
      → IsValid b
      → b.write_index + length (concat chunks) ≤ max_size
      → Sendable todo
      → contents b ++ (concat chunks ++ later) ≡ frames w todo
      → (b' : Buffer) × (receive_all w b chunks ≡ ok (due chunks (length (contents b)) todo, b'))
        × Delivered later todo (due chunks (length (contents b)) todo) b'
  unfolding receive_all
  receive_all-Delivered [] b later todo v h s e =
      (b, refl, record { valid = v; left = todo; sendable = s; in_order = refl; rest = e })
  receive_all-Delivered (chunk ∷ chunks) b later todo v h s e =
      let l = length-append chunk (concat chunks) in
      let (got, b', r, u, d, t) =
        receive-Delivered b chunk (concat chunks ++ later) todo v (omega arith) s
          (ap (◌++◌ (contents b)) (sym (append_assoc chunk (concat chunks) later)) ∙ e) in
      let (b'', q, d') =
        receive_all-Delivered chunks b' later d.left d.valid (omega arith) d.sendable d.rest in
      let more = due chunks (length (contents b')) d.left in
      (
        b'',
        rw (r, q, collect got more) (ap (λ l. ok (l, b'')) (t (due chunks))),
        subst (λ l. Delivered later todo l b'') (t (due chunks))
            (join-Delivered later todo (opt_list got) more b' b'' _ d d'),
      )

  -- Where a chunk completes at least the first of several frames of sendable messages at once, on a
  -- valid buffer that it fits, the call of the handler takes the first message, and the frames of
  -- the others stay in the buffer.
  pub receive_one :
      (b : Buffer) (chunk m : List ℕ) (ms : List (List ℕ))
      → IsValid b
      → b.write_index + length chunk ≤ max_size
      → Sendable (m ∷ ms)
      → contents b ++ chunk ≡ frames w (m ∷ ms)
      → (b' : Buffer) × (receive w b chunk ≡ ok (some m, b'))
        × IsValid b'
        × (contents b' ≡ frames w ms)
  unfolding receive
  receive_one b chunk m ms v h s e =
      let (filled, r, v', c, u) = append_lem b chunk v h in
      let (b', q, v'', c', u') =
        read_msg-frame w laws filled m (frames w ms) v' s.0.0 s.0.1 (c ∙ e) in
      (b', rw (r, q), v'', c')
