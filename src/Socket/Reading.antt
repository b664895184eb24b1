-- ===== src/Socket/Reading.antt =====
-- network/connection.cpp, `ReadNonBlocking`: what a read event leaves in the input buffer.
use ncx_for_mall.Prelude.{
  ℕ, ◌+◌, ◌≤◌, ◌≡◌, refl, sym, ap, ◌∙◌, List, [], ◌∷◌, ◌++◌, arith, length, ok, Result, append-nil,
  append_assoc, length-append,
}
use ncx_for_mall.Memory.{max_size}
use ncx_for_mall.Buffer.{Buffer}
use ncx_for_mall.Buffer.Invariant.{IsValid, contents, append_lem}
use ncx_for_mall.Socket.{
  ReadResult, bytes, would_block, interrupted, failed, end_of_file, Exit, leaves, closes, loops,
  read_loop,
}

-- The bytes that arrive before the loop is left, and how it is left: interrupted calls are made
-- again, a call that would block ends the loop, and an error or the end of the stream closes.
abbrev pub arrived : List ReadResult → List ℕ
arrived [] = []
arrived (bytes chunk ∷ calls) = chunk ++ arrived calls
arrived (interrupted ∷ calls) = arrived calls
arrived _ = []

abbrev pub read_exit : List ReadResult → Exit
read_exit [] = loops
read_exit (bytes chunk ∷ calls) = read_exit calls
read_exit (interrupted ∷ calls) = read_exit calls
read_exit (would_block ∷ calls) = leaves
read_exit (failed ∷ calls) = closes
read_exit (end_of_file ∷ calls) = closes

-- On a valid input buffer that the data fits, `ReadNonBlocking` returns without a fault, adds
-- exactly the bytes that arrive before the loop is left, in order, and is left as the results of
-- the calls say; the buffer is valid again.
pub read_loop_lem :
    (calls : List ReadResult) (input : Buffer)
    → IsValid input
    → input.write_index + length (arrived calls) ≤ max_size
    → (input' : Buffer) × (read_loop input calls ≡ ok (input', read_exit calls))
      × IsValid input'
      × (contents input' ≡ contents input ++ arrived calls)
unfolding read_loop
read_loop_lem [] input v h = (input, refl, v, sym (append-nil (contents input)))
read_loop_lem (bytes chunk ∷ calls) input v h =
    let l = length-append chunk (arrived calls) in
    let (mid, r, v', c, u) = append_lem input chunk v (omega arith) in
    let (input', q, v'', c') = read_loop_lem calls mid v' (omega arith) in
    (
      input',
      rw (r, q),
      v'',
      c' ∙ ap (λ s. s ++ arrived calls) c ∙ append_assoc (contents input) chunk (arrived calls),
    )
read_loop_lem (interrupted ∷ calls) input v h = read_loop_lem calls input v h
read_loop_lem (would_block ∷ calls) input v h = (input, refl, v, sym (append-nil (contents input)))
read_loop_lem (failed ∷ calls) input v h = (input, refl, v, sym (append-nil (contents input)))
read_loop_lem (end_of_file ∷ calls) input v h = (input, refl, v, sym (append-nil (contents input)))

same_back :
    (input input' : Buffer) (exit exit' : Exit)
    → ◌≡◌ {A = Result (Buffer × Exit)} (ok (input, exit)) (ok (input', exit'))
    → input'.write_index ≤ input.write_index + 0
same_back input input' exit exit' e =
    let same : input ≡ input' = cc in omega (arith, ap (λ (b : Buffer). b.write_index) same)

-- The bytes that arrive move the write index on by no more than their number.
pub read_loop-back :
    (calls : List ReadResult) (input input' : Buffer) (exit : Exit)
    → IsValid input
    → input.write_index + length (arrived calls) ≤ max_size
    → read_loop input calls ≡ ok (input', exit)
    → input'.write_index ≤ input.write_index + length (arrived calls)
unfolding read_loop
read_loop-back [] input input' exit v h e = same_back input input' loops exit e
read_loop-back (bytes chunk ∷ calls) input input' exit v h e =
    let l = length-append chunk (arrived calls) in
    let (mid, r, v', c, u) = append_lem input chunk v (omega arith) in
    omega (arith, l, u, read_loop-back calls mid input' exit v' (omega arith) (sym (rw r) ∙ e))
read_loop-back (interrupted ∷ calls) input input' exit v h e =
    read_loop-back calls input input' exit v h e
read_loop-back (would_block ∷ calls) input input' exit v h e = same_back input input' leaves exit e
read_loop-back (failed ∷ calls) input input' exit v h e = same_back input input' closes exit e
read_loop-back (end_of_file ∷ calls) input input' exit v h e = same_back input input' closes exit e
