-- ===== src/Buffer/Invariant.antt =====
-- network/buffer.cpp: the indices stay in order and in bounds, and what the buffer holds.
use ncx_for_mall.Prelude.{
  ℕ, ◌+◌, ◌-◌, ◌≤◌, ◌<◌, ◌≡◌, refl, ap, ap₂, ◌∙◌, inl, inr, List, [], ◌++◌, arith, length, leb,
  Bool-cases, ok, add_size, sub_size,
}
use ncx_for_mall.Memory.{slice, max_size}
use ncx_for_mall.Memory.Laws.{copy_within_lem, copy_into_lem, resize_lem, slice-split}
use ncx_for_mall.Buffer.{
  Buffer, prepend_index, writeable_bytes, prependable_bytes, compact, grow, ensure_writeable_bytes,
  append, new_buffer,
}

pub record IsValid (b : Buffer) : Type 0 where
  pub prepended : prepend_index ≤ b.read_index
  pub ordered : b.read_index ≤ b.write_index
  pub in_bounds : b.write_index ≤ length b.buffer
  pub small : length b.buffer ≤ max_size

-- The bytes that were appended and not yet retrieved.
abbrev pub contents : Buffer → List ℕ
contents b = slice b.buffer b.read_index (b.write_index - b.read_index)

-- What a call that makes room for `n` bytes returns.
pub record HasRoom (b : Buffer) (n : ℕ) (room : Buffer) : Type 0 where
  pub valid : IsValid room
  pub same : contents room ≡ contents b
  pub fits : room.write_index + n ≤ length room.buffer
  pub back : room.write_index ≤ b.write_index

-- The move to the front is only made where its source starts behind its target.
compact_lem :
    (b : Buffer) (n : ℕ)
    → IsValid b
    → length b.buffer < b.write_index + n
    → prepend_index + n ≤ length b.buffer - b.write_index + b.read_index
    → (room : Buffer) × (compact b ≡ ok room) × HasRoom b n room
unfolding compact
compact_lem b n v short room =
    let (moved, e, l, s) =
      copy_within_lem b.buffer b.read_index b.write_index prepend_index (omega arith) v.ordered
        v.in_bounds in
    let w : add_size prepend_index (sub_size b.write_index b.read_index)
        ≡ prepend_index + (b.write_index - b.read_index) =
      omega arith in
    (
      record b {
        buffer = moved;
        write_index = prepend_index + (b.write_index - b.read_index);
        read_index = prepend_index;
      },
      rw (e, w),
      record {
        valid = omega arith;
        same = ap (slice moved prepend_index) (omega arith) ∙ s;
        fits = omega arith;
        back = omega arith;
      },
    )

grow_lem :
    (b : Buffer) (n : ℕ)
    → IsValid b
    → length b.buffer < b.write_index + n
    → b.write_index + n ≤ max_size
    → (room : Buffer) × (grow b n ≡ ok room) × HasRoom b n room
unfolding grow
grow_lem b n v short h =
    let (grown, e, l, s) = resize_lem b.buffer (b.write_index + n) short h in
    let w : add_size b.write_index n ≡ b.write_index + n = omega arith in
    (
      record b { buffer = grown },
      rw (w, e),
      record {
        valid = omega arith;
        same = s b.read_index (b.write_index - b.read_index) (omega arith);
        fits = omega arith;
        back = omega arith;
      },
    )

ensure_lem :
    (b : Buffer) (n : ℕ)
    → IsValid b
    → b.write_index + n ≤ max_size
    → (room : Buffer) × (ensure_writeable_bytes b n ≡ ok room) × HasRoom b n room
unfolding ensure_writeable_bytes
ensure_lem b n v h = elim (Bool-cases (leb n (writeable_bytes b))) [
  | inl enough ↦
      (b, rw enough, record { valid = v; same = refl; fits = ground arith; back = omega arith })
  | inr short ↦
      elim (Bool-cases
        (leb (add_size prepend_index n) (add_size (writeable_bytes b) (prependable_bytes b)))) [
          | inl room ↦ rw (short, room) (compact_lem b n v (ground arith) (ground arith))
          | inr full ↦ rw (short, full) (grow_lem b n v (ground arith) h)
        ]
]

-- On a valid buffer, as long as the end of the message stays within the largest vector, `Append`
-- returns without a fault: the bytes follow those held before, the buffer is valid again, and its
-- data ends no later than the message needs.
pub append_lem :
    (b : Buffer) (m : List ℕ)
    → IsValid b
    → b.write_index + length m ≤ max_size
    → (b' : Buffer) × (append b m ≡ ok b')
      × IsValid b'
      × (contents b' ≡ contents b ++ m)
      × (b'.write_index ≤ b.write_index + length m)
unfolding append
append_lem b m v h =
    let (room, e, r) = ensure_lem b (length m) v h in
    let (written, f, l, new, old) = copy_into_lem room.buffer room.write_index m r.fits in
    let w : add_size room.write_index (length m) ≡ room.write_index + length m =
      omega (arith, r.valid.small, r.fits, r.back) in
    (
      record room { buffer = written; write_index = room.write_index + length m },
      rw (e, f, w),
      omega (arith, r.valid, r.fits),
      slice-split written room.read_index room.write_index (length m) r.valid.ordered
          ∙ ap₂ ◌++◌
              (old room.read_index (room.write_index - room.read_index)
                  (omega (arith, r.valid.ordered))
                ∙ r.same)
              new,
      omega (arith, r.back),
    )

-- A new buffer is empty.
pub new_buffer-IsValid : IsValid new_buffer × (contents new_buffer ≡ [])
unfolding new_buffer
new_buffer-IsValid = (
  record {
    prepended = omega arith;
    ordered = omega arith;
    in_bounds = omega arith;
    small = omega arith;
  },
  refl,
)
