-- ===== src/Buffer/Queue.antt =====
-- The promise of network/buffer.h: a queue of bytes. `put` and the four ways to take bytes out, on
-- the buffer and on a plain list.
use ncx_for_mall.Prelude.{
  ℕ, ◌+◌, ◌≤◌, List, [], ◌∷◌, ◌++◌, length, take, drop, leb, Result, ok, err, check, ◌>>=◌, ◌>>◌,
  assertion,
}
use ncx_for_mall.Memory.{max_size}
use ncx_for_mall.Buffer.{
  Buffer, append, retrieve, retrieve_all, retrieve_as_string, retrieve_all_as_string,
}

pub data Op : Type 0 where
  put : List ℕ → Op
  discard pull : ℕ → Op
  discard_all pull_all : Op

-- A call returns the text it takes out, and the new state.
unfoldable pub exec : Buffer → Op → Result (List ℕ × Buffer)
exec b (put m) = do b' ← append b m; ok ([], b')
exec b (discard n) = do b' ← retrieve b n; ok ([], b')
exec b (pull n) = retrieve_as_string b n
exec b discard_all = ok ([], retrieve_all b)
exec b pull_all = retrieve_all_as_string b

unfoldable pub exec_list : List ℕ → Op → Result (List ℕ × List ℕ)
exec_list q (put m) = ok ([], q ++ m)
exec_list q (discard n) = do check (leb n (length q)) assertion; ok ([], drop n q)
exec_list q (pull n) = do check (leb n (length q)) assertion; ok (take n q, drop n q)
exec_list q discard_all = ok ([], [])
exec_list q pull_all = ok (q, [])

-- The texts that a row of calls returns, up to the first fault.
unfoldable pub run : Buffer → List Op → List (Result (List ℕ))
run b [] = []
run b (o ∷ os) = elim (exec b o) [ ok (text, b') ↦ ok text ∷ run b' os | err e ↦ err e ∷ [] ]

unfoldable pub run_list : List ℕ → List Op → List (Result (List ℕ))
run_list q [] = []
run_list q (o ∷ os) = elim (exec_list q o) [
  | ok (text, q') ↦ ok text ∷ run_list q' os
  | err e ↦ err e ∷ []
]

-- How far the end of the data can get by a call, if it was at `used` at most.
abbrev pub after : ℕ → Op → ℕ
after used (put m) = used + length m
after used _ = used

-- No text and no count is larger than an address space, and neither are all the texts together.
abbrev pub Fit : ℕ → Op → Type 0
Fit used (put m) = used + length m ≤ max_size
Fit used (pull n) = n ≤ max_size
Fit used _ = Unit {0}

abbrev pub Fits : ℕ → List Op → Type 0
Fits used [] = Unit {0}
Fits used (o ∷ os) = Fit used o × Fits (after used o) os
