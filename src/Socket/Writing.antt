-- ===== src/Socket/Writing.antt =====
-- network/connection.cpp, `Send` and `WriteNonBlocking`: what reaches the wire.
use ncx_for_mall.Prelude.{
  ℕ, suc, zero, ◌+◌, ◌-◌, ◌≤◌, ◌<◌, ◌≡◌, ◌≢◌, refl, sym, ap, ◌∙◌, List, [], ◌∷◌, ◌++◌, arith,
  length, take, ok, append-nil, length-append, length-take, lt→ltb, le→ltb_false, take-append,
  replicate,
}
use ncx_for_mall.Memory.{max_size}
use ncx_for_mall.Buffer.{Buffer, retrieve_all}
use ncx_for_mall.Buffer.Invariant.{IsValid, contents, append_lem}
use ncx_for_mall.Buffer.Reads.{retrieve_all_as_string_lem, retrieve_all-IsValid}
use ncx_for_mall.Socket.{WriteResult, accepted, again, interrupts, Exit, leaves, write_loop, send}

-- `Send` on an empty output buffer is its loop over the message; the output buffer is empty again
-- however the loop ends.
pub send_lem :
    (output : Buffer) (msg : List ℕ) (calls : List WriteResult)
    → IsValid output
    → contents output ≡ []
    → output.write_index + length msg ≤ max_size
    → (output' : Buffer) × (send output msg calls
        ≡ ok
            ((write_loop msg (length msg) calls).0, output', (write_loop msg (length msg) calls).1))
      × IsValid output'
      × (contents output' ≡ [])
unfolding send
send_lem output msg calls v e h =
    let (filled, r, v', c, u) = append_lem output msg v h in
    let (v'', c') = retrieve_all-IsValid filled v' in
    (retrieve_all filled, rw (r, retrieve_all_as_string_lem filled v', c, e), v'', c')

pub write_loop-interrupts :
    (k : ℕ) (msg : List ℕ) (left : ℕ) (calls : List WriteResult)
    → 0 < left
    → write_loop msg left (replicate k interrupts ++ calls) ≡ write_loop msg left calls
unfolding write_loop
write_loop-interrupts zero msg left calls h = refl
write_loop-interrupts (suc k) msg left calls h =
    rw (lt→ltb 0 left h, write_loop) (write_loop-interrupts k msg left calls h)

pub write_loop-done :
    (msg : List ℕ) (left : ℕ) (calls : List WriteResult)
    → left ≡ 0
    → write_loop msg left calls ≡ ([], leaves)
unfolding write_loop
write_loop-done msg left [] h = rw (le→ltb_false 0 left (omega arith))
write_loop-done msg left (call ∷ calls) h = rw (le→ltb_false 0 left (omega arith), write_loop)

write_loop-accepted :
    (msg : List ℕ) (left n : ℕ) (calls : List WriteResult)
    → 0 < left
    → write_loop msg left (accepted n ∷ calls)
      ≡ (take n msg ++ (write_loop msg (left - n) calls).0, (write_loop msg (left - n) calls).1)
unfolding write_loop
write_loop-accepted msg left n calls h = rw (lt→ltb 0 left h, write_loop)

write_loop-again :
    (msg : List ℕ) (left : ℕ) (calls : List WriteResult)
    → 0 < left
    → write_loop msg left (again ∷ calls) ≡ ([], leaves)
unfolding write_loop
write_loop-again msg left calls h = rw (lt→ltb 0 left h, write_loop)

take_all : (msg : List ℕ) → take (length msg) msg ≡ msg
take_all msg = ap (take (length msg)) (sym (append-nil msg)) ∙ take-append msg []

pub write_loop-whole :
    (msg : List ℕ) (left : ℕ) (calls : List WriteResult)
    → 0 < left
    → left ≤ length msg
    → write_loop msg left (accepted (length msg) ∷ calls) ≡ (msg, leaves)
write_loop-whole msg left calls h le = rw (
  write_loop-accepted msg left (length msg) calls h,
  write_loop-done msg (left - length msg) calls (omega arith),
  take_all msg,
  append-nil msg,
)

-- What `Send` did: these bytes went to the wire, the loop ended so, and no byte is kept for later.
pub record Sent (output : Buffer) (msg : List ℕ) (calls : List WriteResult) (wire : List ℕ)
    (exit : Exit) : Type 0 where
  pub output' : Buffer
  pub returns : send output msg calls ≡ ok (wire, output', exit)
  pub valid : IsValid output'
  pub empty : contents output' ≡ []

loop-Sent :
    (output : Buffer) (msg : List ℕ) (calls : List WriteResult) (wire : List ℕ) (exit : Exit)
    → IsValid output
    → contents output ≡ []
    → output.write_index + length msg ≤ max_size
    → write_loop msg (length msg) calls ≡ (wire, exit)
    → Sent output msg calls wire exit
loop-Sent output msg calls wire exit v e h l =
    let (output', r, v', c) = send_lem output msg calls v e h in
    record { output' = output'; returns = r ∙ rw l; valid = v'; empty = c }

module _ (output : Buffer) (msg : List ℕ) (v : IsValid output) (e : contents output ≡ [])
    (h : output.write_index + length msg ≤ max_size) (pos : 0 < length msg) where
  -- Where the kernel takes the whole of a non-empty message at once, be it after some interrupted
  -- calls, `Send` on a valid and empty output buffer that the message fits puts exactly the message
  -- on the wire, and the output buffer is empty again.
  pub send_whole :
      (k : ℕ) (calls : List WriteResult)
      → Sent output msg (replicate k interrupts ++ accepted (length msg) ∷ calls) msg leaves
  send_whole k calls = loop-Sent output msg _ _ _ v e h (
      write_loop-interrupts k msg (length msg) _ pos
      ∙ write_loop-whole msg (length msg) calls pos (omega arith))

  -- Where the kernel takes a proper part of a message, and all that the next call offers it, that
  -- call starts at the front again: `Send` on a valid and empty output buffer puts that part and
  -- then the whole message on the wire, which is not the message.
  pub send_partial :
      (n : ℕ) (calls : List WriteResult)
      → 0 < n
      → n < length msg
      → Sent output msg (accepted n ∷ accepted (length msg) ∷ calls) (take n msg ++ msg) leaves
        × (take n msg ++ msg ≢ msg)
  send_partial n calls p q = (
    loop-Sent output msg _ _ _ v e h (
        rw (
          write_loop-accepted msg (length msg) n (accepted (length msg) ∷ calls) pos,
          write_loop-whole msg (length msg - n) calls (omega arith) (omega arith),
        )),
    λ same. omega (arith, ap length same, length-append (take n msg) msg, length-take n msg),
  )

  -- Where the kernel takes a part of a message that is not all of it and the next call would block,
  -- `Send` on a valid and empty output buffer drops the rest: it is neither on the wire nor in the
  -- output buffer.
  pub send_blocked :
      (n : ℕ) (calls : List WriteResult)
      → n < length msg
      → Sent output msg (accepted n ∷ again ∷ calls) (take n msg) leaves
  send_blocked n calls q = loop-Sent output msg _ _ _ v e h (
      rw (
        write_loop-accepted msg (length msg) n (again ∷ calls) pos,
        write_loop-again msg (length msg - n) calls (omega arith),
        append-nil (take n msg),
      ))
