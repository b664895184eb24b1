-- ===== src/TcpSocket/Transfer.antt =====
-- network/socket.cpp, `TcpSocket::read` and `TcpSocket::write`. Each call of the system is given the size
-- of a pointer as its length, which is 8, and the same place to read to.
use ncx_for_mall.Prelude.{
  ℕ, ◌+◌, ◌-◌, ◌^◌, ◌≤◌, ◌<◌, ◌≡◌, refl, ap, ◌∙◌, List, [], ◌∷◌, ◌++◌, Option, none, some, Bool,
  true, false, length, take, drop, arith, ltb, if◌then◌else◌, Result, ok, err, ◌>>=◌, add_size,
  out_of_bounds, leb, length-append, length-drop, take-append, le→leb,
}
use ncx_for_mall.Socket.{ReadResult, bytes, would_block, interrupted, failed, end_of_file}
use ncx_for_mall.Socket.Reading.{arrived}

-- What `::read` does to the place that it is given.
abbrev overwrite : List ℕ → List ℕ → Result (List ℕ)
overwrite buf chunk =
    if leb (length chunk) (length buf)
    then ok (chunk ++ drop (length chunk) buf)
    else err out_of_bounds

-- The `while (true)` of `read` on a socket that does not block; the list has the results of its calls.
unfoldable pub tcp_read_loop : List ℕ → ℕ → List ReadResult → Result (ℕ × List ℕ)
tcp_read_loop buf total_read [] = ok (total_read, buf)
tcp_read_loop buf total_read (bytes chunk ∷ calls) = do
  buf' ← overwrite buf chunk
  tcp_read_loop buf' (add_size total_read (length chunk)) calls
tcp_read_loop buf total_read (interrupted ∷ calls) = tcp_read_loop buf total_read calls
tcp_read_loop buf total_read (_ ∷ calls) = ok (total_read, buf)

-- One call on a socket that blocks.
unfoldable pub tcp_read_once : List ℕ → ReadResult → Result (ℕ × List ℕ)
tcp_read_once buf (bytes chunk) = do
  buf' ← overwrite buf chunk
  ok (add_size 0 (length chunk), buf')
tcp_read_once buf _ = ok (0, buf)

unfoldable pub tcp_read : Bool → List ℕ → ReadResult → List ReadResult → Result (ℕ × List ℕ)
unfolding tcp_read_loop tcp_read_once
tcp_read is_nonblock buf call calls =
    if is_nonblock then tcp_read_loop buf 0 (call ∷ calls) else tcp_read_once buf call

-- `TcpSocket::write`: the result of `::write`, where -1 becomes the largest `size_t`.
abbrev as_size : Option ℕ → ℕ
as_size none = 2 ^ 64 - 1
as_size (some n) = n

unfoldable pub tcp_write : Bool → Option ℕ → ℕ
tcp_write is_nonblock written =
    let write_bytes = as_size written in
    if is_nonblock then (if ltb 0 write_bytes then add_size 0 write_bytes else 0) else write_bytes

-- The calls that read, each no more than the 8 bytes it asks for.
abbrev pub Reads : List ReadResult → Type 0
Reads [] = Unit {0}
Reads (bytes chunk ∷ calls) = (length chunk ≤ 8) × Reads calls
Reads (_ ∷ calls) = Reads calls

-- The last chunk that comes before the loop ends.
abbrev pub last_chunk : List ℕ → List ReadResult → List ℕ
last_chunk last [] = last
last_chunk last (bytes chunk ∷ calls) = last_chunk chunk calls
last_chunk last (interrupted ∷ calls) = last_chunk last calls
last_chunk last (_ ∷ calls) = last

length-overwrite :
    (buf chunk : List ℕ)
    → length chunk ≤ length buf
    → length (chunk ++ drop (length chunk) buf) ≡ length buf
length-overwrite buf chunk h =
    omega (arith, length-append chunk (drop (length chunk) buf), length-drop (length chunk) buf)

read_loop-last :
    (buf last : List ℕ) (total : ℕ) (calls : List ReadResult)
    → 8 ≤ length buf
    → take (length last) buf ≡ last
    → Reads calls
    → total + length (arrived calls) < 2 ^ 64
    → (buf' : List ℕ) × (tcp_read_loop buf total calls ≡ ok (total + length (arrived calls), buf'))
      × (length buf' ≡ length buf)
      × (take (length (last_chunk last calls)) buf' ≡ last_chunk last calls)
unfolding tcp_read_loop
read_loop-last buf last total [] h e r small = (buf, ap (λ n. ok (n, buf)) (omega arith), refl, e)
read_loop-last buf last total (bytes chunk ∷ calls) h e r small =
    let l = length-append chunk (arrived calls) in
    let fits : leb (length chunk) (length buf) ≡ true = le→leb _ _ (omega (arith, r.0)) in
    let next = chunk ++ drop (length chunk) buf in
    let same = length-overwrite buf chunk (omega (arith, r.0)) in
    let (buf', f, k, t) =
      read_loop-last next chunk (total + length chunk) calls (omega (arith, same))
        (take-append chunk (drop (length chunk) buf)) r.1 (omega (arith, l)) in
    let sum : add_size total (length chunk) ≡ total + length chunk = omega (arith, l) in
    (buf', rw (fits, sum) (f ∙ ap (λ n. ok (n, buf')) (omega (arith, l))), k ∙ same, t)
read_loop-last buf last total (interrupted ∷ calls) h e r small =
    read_loop-last buf last total calls h e r small
read_loop-last buf last total (would_block ∷ calls) h e r small =
    (buf, ap (λ n. ok (n, buf)) (omega arith), refl, e)
read_loop-last buf last total (failed ∷ calls) h e r small =
    (buf, ap (λ n. ok (n, buf)) (omega arith), refl, e)
read_loop-last buf last total (end_of_file ∷ calls) h e r small =
    (buf, ap (λ n. ok (n, buf)) (omega arith), refl, e)

-- `read` of a socket that does not block, into a place of at least 8 bytes and with calls that give
-- no more than the 8 bytes they ask for and together less than 2^64, never writes outside and
-- returns the number of all the bytes that came, while the place begins with the last piece alone.
pub tcp_read-last :
    (buf : List ℕ) (call : ReadResult) (calls : List ReadResult)
    → 8 ≤ length buf
    → Reads (call ∷ calls)
    → length (arrived (call ∷ calls)) < 2 ^ 64
    → (buf' : List ℕ) × (tcp_read true buf call calls ≡ ok (length (arrived (call ∷ calls)), buf'))
      × (length buf' ≡ length buf)
      × (take (length (last_chunk [] (call ∷ calls))) buf' ≡ last_chunk [] (call ∷ calls))
unfolding tcp_read
tcp_read-last buf call calls h r small =
    let (buf', e, l, k) = read_loop-last buf [] 0 (call ∷ calls) h refl r (omega arith) in
    (buf', e ∙ ap (λ n. ok (n, buf')) (omega arith), l, k)

-- Whether the socket blocks or not, `write` returns the result of its one call, where -1 is the largest
-- number: a caller cannot tell an error from a text that was written.
tcp_write-same :
    (written : Option ℕ)
    → as_size written < 2 ^ 64
    → tcp_write true written ≡ tcp_write false written
unfolding tcp_write
tcp_write-same written h = ground arith
