-- ===== src/Memory.antt =====
-- What network/buffer.cpp uses of the standard library: a `std::vector<char>` as the list of its
-- bytes, ranges of it by index, `std::copy` and `resize`. Each access checks its range.
pub mod Laws
use ncx_for_mall.Prelude.{
  ℕ, zero, suc, ◌+◌, ◌-◌, ◌^◌, List, [], ◌∷◌, ◌++◌, ◌&&◌, ◌||◌, leb, ltb, length, get_or, set, take,
  replicate, if◌then◌else◌, Result, ok, err, check, ◌>>◌, out_of_bounds, overlap, length_error,
}

-- `std::vector<char>::max_size()`
abbrev pub max_size : ℕ
max_size = 2 ^ 63 - 1

-- The `n` bytes from index `i` on.
abbrev pub slice : List ℕ → ℕ → ℕ → List ℕ
slice bytes i zero = []
slice bytes i (suc n) = get_or bytes i 0 ∷ slice bytes (suc i) n

-- `std::string(p + first, p + last)`
unfoldable pub read_range : List ℕ → ℕ → ℕ → Result (List ℕ)
read_range bytes first last = do
  check (leb first last) length_error
  check (leb last (length bytes)) out_of_bounds
  ok (slice bytes first (last - first))

-- The loop of `std::copy` inside one array, front to back.
unfoldable pub copy_loop : ℕ → ℕ → ℕ → List ℕ → List ℕ
copy_loop zero source target bytes = bytes
copy_loop (suc n) source target bytes =
    copy_loop n (suc source) (suc target) (set bytes target (get_or bytes source 0))

-- `std::copy(p + first, p + last, p + target)`: its target must lie outside `[first, last)`.
unfoldable pub copy_within : List ℕ → ℕ → ℕ → ℕ → Result (List ℕ)
copy_within bytes first last target = do
  check (leb first last && leb last (length bytes)) out_of_bounds
  check (leb (target + (last - first)) (length bytes)) out_of_bounds
  check (ltb target first || leb last target) overlap
  ok (copy_loop (last - first) first target bytes)

-- The loop of `std::copy` from another array.
unfoldable pub write_loop : List ℕ → ℕ → List ℕ → List ℕ
write_loop [] target bytes = bytes
write_loop (x ∷ xs) target bytes = write_loop xs (suc target) (set bytes target x)

-- `std::copy(message, message + len, p + target)`
unfoldable pub copy_into : List ℕ → ℕ → List ℕ → Result (List ℕ)
copy_into bytes target message = do
  check (leb (target + length message) (length bytes)) out_of_bounds
  ok (write_loop message target bytes)

-- `resize(n)`: new bytes are zero.
unfoldable pub resize : List ℕ → ℕ → Result (List ℕ)
resize bytes n = do
  check (leb n max_size) length_error
  ok (if leb n (length bytes) then take n bytes else bytes ++ replicate (n - length bytes) 0)
