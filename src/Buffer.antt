-- ===== src/Buffer.antt =====
-- network/buffer.h and network/buffer.cpp: the byte buffer of a connection. A `char*` into the
-- buffer is its index from `begin()`; `size_t` arithmetic wraps; a failed `assert` is a fault.
pub mod Invariant
pub mod Queue
pub mod Reads
pub mod Refine
use ncx_for_mall.Prelude.{
  ℕ, List, length, replicate, Result, ok, check, ◌>>=◌, ◌>>◌, assertion, leb, ltb, if◌then◌else◌,
  add_size, sub_size,
}
use ncx_for_mall.Memory.{read_range, copy_within, copy_into, resize}

-- `kPrePendIndex` and `kInitSize`
abbrev pub prepend_index : ℕ
prepend_index = 8

abbrev pub init_size : ℕ
init_size = 1024

pub record Buffer : Type 0 where
  pub buffer : List ℕ
  pub read_index : ℕ
  pub write_index : ℕ

-- The constructor.
unfoldable pub new_buffer : Buffer
new_buffer = record {
  buffer = replicate init_size 0;
  read_index = prepend_index;
  write_index = prepend_index;
}

unfoldable pub readable_bytes : Buffer → ℕ
readable_bytes b = sub_size b.write_index b.read_index

unfoldable pub writeable_bytes : Buffer → ℕ
writeable_bytes b = sub_size (length b.buffer) b.write_index

unfoldable pub prependable_bytes : Buffer → ℕ
prependable_bytes b = b.read_index

unfoldable pub peek_as_string : Buffer → ℕ → Result (List ℕ)
peek_as_string b len = read_range b.buffer b.read_index (add_size b.read_index len)

unfoldable pub peek_all_as_string : Buffer → Result (List ℕ)
peek_all_as_string b = read_range b.buffer b.read_index b.write_index

unfoldable pub retrieve_all : Buffer → Buffer
retrieve_all b = record b { write_index = prepend_index; read_index = prepend_index }

unfoldable pub retrieve : Buffer → ℕ → Result Buffer
unfolding readable_bytes retrieve_all
retrieve b len = do
  check (leb len (readable_bytes b)) assertion
  ok (
      if ltb (add_size len b.read_index) b.write_index
      then record b { read_index = add_size b.read_index len }
      else retrieve_all b)

unfoldable pub retrieve_until : Buffer → ℕ → Result Buffer
retrieve_until b end = do
  check (leb end b.write_index) assertion
  ok (record b { read_index = add_size b.read_index (sub_size end b.read_index) })

unfoldable pub retrieve_as_string : Buffer → ℕ → Result (List ℕ × Buffer)
unfolding peek_as_string retrieve
retrieve_as_string b len = do
  check (leb (add_size b.read_index len) b.write_index) assertion
  text ← peek_as_string b len
  rest ← retrieve b len
  ok (text, rest)

unfoldable pub retrieve_until_as_string : Buffer → ℕ → Result (List ℕ × Buffer)
unfolding peek_as_string retrieve_until
retrieve_until_as_string b end = do
  check (leb end b.write_index) assertion
  text ← peek_as_string b (sub_size end b.read_index)
  rest ← retrieve_until b end
  ok (text, rest)

unfoldable pub retrieve_all_as_string : Buffer → Result (List ℕ × Buffer)
unfolding peek_all_as_string retrieve_all
retrieve_all_as_string b = do text ← peek_all_as_string b; ok (text, retrieve_all b)

-- The first branch of `EnsureWriteableBytes` that makes room: the data moves to the front.
unfoldable pub compact : Buffer → Result Buffer
unfolding readable_bytes
compact b = do
  moved ← copy_within b.buffer b.read_index b.write_index prepend_index
  ok (record b {
    buffer = moved;
    write_index = add_size prepend_index (readable_bytes b);
    read_index = prepend_index;
  })

-- The second one: the vector grows.
unfoldable pub grow : Buffer → ℕ → Result Buffer
grow b len = do
  grown ← resize b.buffer (add_size b.write_index len)
  ok (record b { buffer = grown })

unfoldable pub ensure_writeable_bytes : Buffer → ℕ → Result Buffer
unfolding writeable_bytes prependable_bytes
ensure_writeable_bytes b len =
    if leb len (writeable_bytes b)
    then ok b
    else if leb (add_size prepend_index len) (add_size (writeable_bytes b) (prependable_bytes b))
    then compact b
    else grow b len

unfoldable pub append : Buffer → List ℕ → Result Buffer
append b message = do
  room ← ensure_writeable_bytes b (length message)
  written ← copy_into room.buffer room.write_index message
  ok (record room { buffer = written; write_index = add_size room.write_index (length message) })
