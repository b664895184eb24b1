-- ===== src/Buffer/Reads.antt =====
-- network/buffer.cpp: what the calls that look at a buffer or take bytes out of it return and leave.
use ncx_for_mall.Prelude.{
  ℕ, ◌+◌, ◌-◌, ◌≤◌, ◌≡◌, refl, sym, ap, ◌∙◌, [], arith, length, take, drop, leb, ltb, Bool-cases,
  ok, err, add_size, inl, inr, assertion, true, le→leb, lt→leb_false, sub_size, ◌<◌,
}
use ncx_for_mall.Memory.{slice, max_size, read_range}
use ncx_for_mall.Memory.Laws.{length-slice, take-slice, drop-slice}
use ncx_for_mall.Buffer.{
  Buffer, retrieve, retrieve_all, retrieve_as_string, retrieve_all_as_string, readable_bytes,
  peek_as_string, retrieve_until,
}
use ncx_for_mall.Buffer.Invariant.{IsValid, contents}

pub length-contents : (b : Buffer) → length (contents b) ≡ b.write_index - b.read_index
length-contents b = length-slice b.buffer b.read_index (b.write_index - b.read_index)

-- `readAbleBytes` is the number of bytes held.
pub readable_bytes-length : (b : Buffer) → IsValid b → readable_bytes b ≡ length (contents b)
unfolding readable_bytes
readable_bytes-length b v = omega (arith, length-contents b)

-- `PeekAsString` of no more than the bytes held reads them from the front.
pub peek_as_string_lem :
    (b : Buffer) (n : ℕ)
    → IsValid b
    → n ≤ length (contents b)
    → peek_as_string b n ≡ ok (take n (contents b))
unfolding peek_as_string read_range
peek_as_string_lem b n v h =
    let l = length-contents b in
    let e : add_size b.read_index n ≡ b.read_index + n = omega arith in
    let k : b.read_index + n - b.read_index ≡ n = omega arith in
    let p : leb b.read_index (b.read_index + n) ≡ true = ground arith in
    let q : leb (b.read_index + n) (length b.buffer) ≡ true = ground arith in
    rw (e, p, q, k) (ap ok (sym (take-slice b.buffer b.read_index n _ (omega arith))))

-- `RetrieveAll` leaves a valid, empty buffer.
pub retrieve_all-IsValid :
    (b : Buffer) → IsValid b → IsValid (retrieve_all b) × (contents (retrieve_all b) ≡ [])
unfolding retrieve_all
retrieve_all-IsValid b v = (omega arith, refl)

pub retrieve_all_back : (b : Buffer) → IsValid b → (retrieve_all b).write_index ≤ b.write_index
unfolding retrieve_all
retrieve_all_back b v = omega arith

-- What a call leaves that took `n` bytes off the front of `b`.
pub record Took (b : Buffer) (n : ℕ) (rest : Buffer) : Type 0 where
  pub valid : IsValid rest
  pub left : contents rest ≡ drop n (contents b)
  pub back : rest.write_index ≤ b.write_index

retrieve_all-Took :
    (b : Buffer) (n : ℕ) → IsValid b → n ≡ length (contents b) → Took b n (retrieve_all b)
unfolding retrieve_all
retrieve_all-Took b n v h = record {
  valid = omega arith;
  left =
      let e : b.write_index - b.read_index - n ≡ 0 = omega (arith, length-contents b) in
      sym (drop-slice b.buffer b.read_index n _ (omega (arith, length-contents b)) ∙ rw e);
  back = omega arith;
}

moved-Took :
    (b : Buffer) (n : ℕ)
    → IsValid b
    → n ≤ length (contents b)
    → Took b n (record b { read_index = b.read_index + n })
moved-Took b n v h =
    let l = length-contents b in
    record {
      valid = omega arith;
      left =
          ap (slice b.buffer (b.read_index + n)) (omega arith)
          ∙ sym (drop-slice b.buffer b.read_index n _ (omega arith));
      back = omega arith;
    }

-- `Retrieve` takes exactly `n` bytes off the front of a buffer that holds so many.
pub retrieve_lem :
    (b : Buffer) (n : ℕ)
    → IsValid b
    → n ≤ length (contents b)
    → (rest : Buffer) × (retrieve b n ≡ ok rest) × Took b n rest
unfolding retrieve
retrieve_lem b n v h =
    let l = length-contents b in
    let t : leb n (readable_bytes b) ≡ true =
      le→leb _ _ (omega (arith, readable_bytes-length b v)) in
    elim (Bool-cases (ltb (add_size n b.read_index) b.write_index)) [
      | inl more ↦
          let e : add_size b.read_index n ≡ b.read_index + n = omega arith in
          (record b { read_index = b.read_index + n }, rw (t, more, e), moved-Took b n v h)
      | inr done ↦ (retrieve_all b, rw (t, done), retrieve_all-Took b n v (ground (arith, l)))
    ]

-- `RetrieveAsString` returns the first `n` bytes held, and takes them off the front.
pub retrieve_as_string_lem :
    (b : Buffer) (n : ℕ)
    → IsValid b
    → n ≤ length (contents b)
    → (rest : Buffer) × (retrieve_as_string b n ≡ ok (take n (contents b), rest)) × Took b n rest
unfolding retrieve_as_string
retrieve_as_string_lem b n v h =
    let (rest, e, t) = retrieve_lem b n v h in
    let a : leb (add_size b.read_index n) b.write_index ≡ true =
      le→leb _ _ (omega (arith, length-contents b)) in
    (rest, rw (a, peek_as_string_lem b n v h, e), t)

-- Of more bytes than are held, `Retrieve` fails by its assertion.
pub retrieve_short :
    (b : Buffer) (n : ℕ) → IsValid b → length (contents b) < n → retrieve b n ≡ err assertion
unfolding retrieve
retrieve_short b n v s =
    rw (lt→leb_false n (readable_bytes b) (omega (arith, readable_bytes-length b v)))

-- So does `RetrieveAsString`, for a length that does not wrap around.
pub retrieve_as_string_short :
    (b : Buffer) (n : ℕ)
    → IsValid b
    → length (contents b) < n
    → n ≤ max_size
    → retrieve_as_string b n ≡ err assertion
unfolding retrieve_as_string
retrieve_as_string_short b n v s h =
    rw (lt→leb_false (add_size b.read_index n) b.write_index (omega (arith, length-contents b)))

-- `RetrieveAllAsString` returns all the bytes held.
pub retrieve_all_as_string_lem :
    (b : Buffer) → IsValid b → retrieve_all_as_string b ≡ ok (contents b, retrieve_all b)
unfolding retrieve_all_as_string read_range
retrieve_all_as_string_lem b v = rw (le→leb _ _ v.ordered, le→leb _ _ v.in_bounds)

-- `RetrieveUntil` moves the read index to the given place: behind the read index it gives back the
-- bytes from there on, and in front of it, it takes bytes off.
pub retrieve_until_lem :
    (b : Buffer) (end : ℕ)
    → IsValid b
    → end ≤ b.write_index
    → retrieve_until b end ≡ ok (record b { read_index = end })
unfolding retrieve_until
retrieve_until_lem b end v h =
    let e : add_size b.read_index (sub_size end b.read_index) ≡ end = omega arith in
    rw (le→leb _ _ h, e)
