-- ===== src/Socket.antt =====
-- network/connection.cpp: the loops that move bytes between a non-blocking socket and the buffers
-- of a connection. The results of the system calls `read` and `write` are a list, one to a call.
pub mod Reading
pub mod Writing
use ncx_for_mall.Prelude.{
  ℕ, ◌-◌, true, false, List, [], ◌∷◌, ◌++◌, length, take, ltb, if◌then◌else◌, Result, ok, err,
  ◌>>=◌,
}
use ncx_for_mall.Buffer.{Buffer, append, retrieve_all_as_string}

-- A positive result of `read` comes with its bytes; the errors are those the code tells apart.
pub data ReadResult : Type 0 where
  bytes : List ℕ → ReadResult
  would_block interrupted failed : ReadResult
  end_of_file : ReadResult

-- How a loop was left: without closing, by a call of `handle_close`, or not yet.
pub data Exit : Type 0 where
  leaves closes loops : Exit

-- The `while (true)` of `ReadNonBlocking`.
unfoldable pub read_loop : Buffer → List ReadResult → Result (Buffer × Exit)
read_loop input [] = ok (input, loops)
read_loop input (bytes chunk ∷ calls) = do input' ← append input chunk; read_loop input' calls
read_loop input (interrupted ∷ calls) = read_loop input calls
read_loop input (would_block ∷ calls) = ok (input, leaves)
read_loop input (failed ∷ calls) = ok (input, closes)
read_loop input (end_of_file ∷ calls) = ok (input, closes)

-- A result of `write` that is not negative is the number of bytes that the kernel accepted.
pub data WriteResult : Type 0 where
  accepted : ℕ → WriteResult
  again interrupts breaks : WriteResult

-- The `while (send_left > 0)` of `WriteNonBlocking`, with what reaches the wire. `send_left` is
-- signed; it is only tested for being positive, and a number that stops at 0 tests the same.
unfoldable pub write_loop : List ℕ → ℕ → List WriteResult → List ℕ × Exit
write_loop send_buf send_left [] = ([], if ltb 0 send_left then loops else leaves)
write_loop send_buf send_left (call ∷ calls) = elim (ltb 0 send_left) [
  | false ↦ ([], leaves)
  | true ↦ elim call [
    | again ↦ ([], leaves)
    | breaks ↦ ([], closes)
    | interrupts ↦ write_loop send_buf send_left calls
    | accepted n ↦
        let (sent, exit) = write_loop send_buf (send_left - n) calls in
        (take n send_buf ++ sent, exit)
  ]
]

-- `WriteNonBlocking`: what reaches the wire, the output buffer behind it, and how the loop ends.
unfoldable pub write_non_blocking : Buffer → List WriteResult → Result (List ℕ × Buffer × Exit)
write_non_blocking output calls = do
  (send_buf, rest) ← retrieve_all_as_string output
  let (sent, exit) = write_loop send_buf (length send_buf) calls
  ok (sent, rest, exit)

-- `Send`
unfoldable pub send : Buffer → List ℕ → List WriteResult → Result (List ℕ × Buffer × Exit)
unfolding write_non_blocking
send output msg calls = do filled ← append output msg; write_non_blocking filled calls
