-- ===== src/Memory/Laws.antt =====
-- What a range of a byte array holds after each of the operations of Memory.
use ncx_for_mall.Prelude.{
  ℕ, zero, suc, ◌+◌, ◌-◌, ◌≤◌, ◌<◌, ◌≡◌, refl, ap, ◌∙◌, ◌⊎◌, inl, inr, List, [], ◌∷◌, ◌++◌, ok,
  length, get_or, set, take, drop, replicate, arith, length-set, length-append, length-replicate,
  get_or-set_self, get_or-set_ne, get_or-append, ap₂,
}
use ncx_for_mall.Memory.{slice, copy_loop, copy_within, write_loop, copy_into, resize, max_size}

pub length-slice : (bytes : List ℕ) (i n : ℕ) → length (slice bytes i n) ≡ n
length-slice bytes i zero = refl
length-slice bytes i (suc n) = ap suc (length-slice bytes (suc i) n)

pub slice-add :
    (bytes : List ℕ) (i m n : ℕ) → slice bytes i (m + n) ≡ slice bytes i m ++ slice bytes (i + m) n
slice-add bytes i zero n = ap₂ (slice bytes) (omega arith) (omega arith)
slice-add bytes i (suc m) n =
    let e : suc m + n ≡ suc (m + n) = omega arith in
    let e' : suc i + m ≡ i + suc m = omega arith in
    rw e (
      ap (◌∷◌ (get_or bytes i 0))
        (slice-add bytes (suc i) m n ∙ ap (λ k. slice bytes (suc i) m ++ slice bytes k n) e'))

pub slice-split :
    (bytes : List ℕ) (r w n : ℕ)
    → r ≤ w
    → slice bytes r (w + n - r) ≡ slice bytes r (w - r) ++ slice bytes w n
slice-split bytes r w n h =
    let e : w + n - r ≡ (w - r) + n = omega arith in
    let e' : r + (w - r) ≡ w = omega arith in
    rw e (slice-add bytes r (w - r) n ∙ ap (λ k. slice bytes r (w - r) ++ slice bytes k n) e')

pub take-slice : (bytes : List ℕ) (i n k : ℕ) → n ≤ k → take n (slice bytes i k) ≡ slice bytes i n
take-slice bytes i zero k h = refl
take-slice bytes i (suc n) zero h = absurd (omega arith)
take-slice bytes i (suc n) (suc k) h =
    ap (◌∷◌ (get_or bytes i 0)) (take-slice bytes (suc i) n k (omega arith))

pub drop-slice :
    (bytes : List ℕ) (i n k : ℕ) → n ≤ k → drop n (slice bytes i k) ≡ slice bytes (i + n) (k - n)
drop-slice bytes i zero k h = ap₂ (slice bytes) (omega arith) (omega arith)
drop-slice bytes i (suc n) zero h = absurd (omega arith)
drop-slice bytes i (suc n) (suc k) h =
    drop-slice bytes (suc i) n k (omega arith) ∙ ap₂ (slice bytes) (omega arith) (omega arith)

-- A write outside the range leaves it alone.
pub slice-set :
    (bytes : List ℕ) (k v i n : ℕ)
    → (k < i) ⊎ (i + n ≤ k)
    → slice (set bytes k v) i n ≡ slice bytes i n
slice-set bytes k v i zero h = refl
slice-set bytes k v i (suc n) h =
    ap₂ ◌∷◌ (get_or-set_ne bytes k i v 0 (omega arith))
      (slice-set bytes k v (suc i) n (omega arith))

pub slice-append :
    (xs ys : List ℕ) (i n : ℕ) → i + n ≤ length xs → slice (xs ++ ys) i n ≡ slice xs i n
slice-append xs ys i zero h = refl
slice-append xs ys i (suc n) h =
    ap₂ ◌∷◌ (get_or-append xs ys i 0 (omega arith)) (slice-append xs ys (suc i) n (omega arith))

pub length-write_loop :
    (xs : List ℕ) (i : ℕ) (bytes : List ℕ) → length (write_loop xs i bytes) ≡ length bytes
unfolding write_loop
length-write_loop [] i bytes = refl
length-write_loop (x ∷ xs) i bytes =
    length-write_loop xs (suc i) (set bytes i x) ∙ length-set bytes i x

-- Bytes below the target stay.
pub slice-write_loop_below :
    (xs : List ℕ) (i : ℕ) (bytes : List ℕ) (j n : ℕ)
    → j + n ≤ i
    → slice (write_loop xs i bytes) j n ≡ slice bytes j n
unfolding write_loop
slice-write_loop_below [] i bytes j n h = refl
slice-write_loop_below (x ∷ xs) i bytes j n h =
    slice-write_loop_below xs (suc i) (set bytes i x) j n (omega arith)
    ∙ slice-set bytes i x j n (inr h)

get_or-write_loop_below :
    (xs : List ℕ) (i : ℕ) (bytes : List ℕ) (j : ℕ)
    → j < i
    → get_or (write_loop xs i bytes) j 0 ≡ get_or bytes j 0
unfolding write_loop
get_or-write_loop_below [] i bytes j h = refl
get_or-write_loop_below (x ∷ xs) i bytes j h =
    get_or-write_loop_below xs (suc i) (set bytes i x) j (omega arith)
    ∙ get_or-set_ne bytes i j x 0 (omega arith)

-- The target range holds the message.
pub slice-write_loop :
    (xs : List ℕ) (i : ℕ) (bytes : List ℕ)
    → i + length xs ≤ length bytes
    → slice (write_loop xs i bytes) i (length xs) ≡ xs
unfolding write_loop
slice-write_loop [] i bytes h = refl
slice-write_loop (x ∷ xs) i bytes h =
    ap₂ ◌∷◌
      (get_or-write_loop_below xs (suc i) (set bytes i x) i (omega arith)
        ∙ get_or-set_self bytes i x 0 (omega arith))
      (slice-write_loop xs (suc i) (set bytes i x) (omega (arith, length-set bytes i x)))

pub length-copy_loop : (n s t : ℕ) (bytes : List ℕ) → length (copy_loop n s t bytes) ≡ length bytes
unfolding copy_loop
length-copy_loop zero s t bytes = refl
length-copy_loop (suc n) s t bytes =
    length-copy_loop n (suc s) (suc t) (set bytes t (get_or bytes s 0))
    ∙ length-set bytes t (get_or bytes s 0)

get_or-copy_loop_below :
    (n s t : ℕ) (bytes : List ℕ) (j : ℕ)
    → j < t
    → get_or (copy_loop n s t bytes) j 0 ≡ get_or bytes j 0
unfolding copy_loop
get_or-copy_loop_below zero s t bytes j h = refl
get_or-copy_loop_below (suc n) s t bytes j h =
    get_or-copy_loop_below n (suc s) (suc t) (set bytes t (get_or bytes s 0)) j (omega arith)
    ∙ get_or-set_ne bytes t j (get_or bytes s 0) 0 (omega arith)

-- A copy towards the front carries the range over, also where source and target overlap.
pub slice-copy_loop :
    (n s t : ℕ) (bytes : List ℕ)
    → t < s
    → s + n ≤ length bytes
    → slice (copy_loop n s t bytes) t n ≡ slice bytes s n
unfolding copy_loop
slice-copy_loop zero s t bytes h b = refl
slice-copy_loop (suc n) s t bytes h b =
    let bytes' = set bytes t (get_or bytes s 0) in
    ap₂ ◌∷◌
      (get_or-copy_loop_below n (suc s) (suc t) bytes' t (omega arith)
        ∙ get_or-set_self bytes t (get_or bytes s 0) 0 (omega arith))
      (slice-copy_loop n (suc s) (suc t) bytes' (omega arith)
          (omega (arith, length-set bytes t (get_or bytes s 0)))
        ∙ slice-set bytes t (get_or bytes s 0) (suc s) n (inl (omega arith)))

-- `std::copy` towards the front of the same array is defined, and moves the range.
pub copy_within_lem :
    (bytes : List ℕ) (first last target : ℕ)
    → target < first
    → first ≤ last
    → last ≤ length bytes
    → (moved : List ℕ) × (copy_within bytes first last target ≡ ok moved)
      × (length moved ≡ length bytes)
      × (slice moved target (last - first) ≡ slice bytes first (last - first))
unfolding copy_within
copy_within_lem bytes first last target h o b = (
  copy_loop (last - first) first target bytes,
  ground arith,
  length-copy_loop (last - first) first target bytes,
  slice-copy_loop (last - first) first target bytes h (omega arith),
)

-- `std::copy` from another array writes the message, and nothing below its target.
pub copy_into_lem :
    (bytes : List ℕ) (target : ℕ) (message : List ℕ)
    → target + length message ≤ length bytes
    → (written : List ℕ) × (copy_into bytes target message ≡ ok written)
      × (length written ≡ length bytes)
      × (slice written target (length message) ≡ message)
      × ((i n : ℕ) → i + n ≤ target → slice written i n ≡ slice bytes i n)
unfolding copy_into
copy_into_lem bytes target message h = (
  write_loop message target bytes,
  ground arith,
  length-write_loop message target bytes,
  slice-write_loop message target bytes h,
  slice-write_loop_below message target bytes,
)

-- A growing `resize` keeps the bytes that were there.
pub resize_lem :
    (bytes : List ℕ) (n : ℕ)
    → length bytes < n
    → n ≤ max_size
    → (grown : List ℕ) × (resize bytes n ≡ ok grown)
      × (length grown ≡ n)
      × ((i k : ℕ) → i + k ≤ length bytes → slice grown i k ≡ slice bytes i k)
unfolding resize
resize_lem bytes n h small = (
  bytes ++ replicate (n - length bytes) 0,
  ground arith,
  omega (
    arith,
    length-append bytes (replicate (n - length bytes) 0),
    length-replicate (n - length bytes) (let z : ℕ = 0 in z),
  ),
  slice-append bytes (replicate (n - length bytes) 0),
)
