-- ===== src/Tests/Bytes.antt =====
-- The buffer and the reading loop at concrete bytes.
use ncx_for_mall.Prelude.{◌+◌, ◌≤◌, ◌≡◌, List, [], ◌∷◌, ◌++◌, arith, ok, err, assertion}
use ncx_for_mall.Buffer.{Buffer, append}
use ncx_for_mall.Buffer.Invariant.{IsValid, contents, append_lem}
use ncx_for_mall.Buffer.Queue.{Op, put, discard, pull, pull_all, run, run_list, exec_list, Fits}
use ncx_for_mall.Buffer.Refine.{run_refines}
use ncx_for_mall.Tests.Samples.{sample_buffer, sample_buffer-IsValid}

append_lem_example :
    (b' : Buffer) × (append sample_buffer (4 ∷ 5 ∷ 6 ∷ 7 ∷ 8 ∷ 9 ∷ []) ≡ ok b')
    × IsValid b'
    × (contents b' ≡ contents sample_buffer ++ 4 ∷ 5 ∷ 6 ∷ 7 ∷ 8 ∷ 9 ∷ [])
    × (b'.write_index ≤ sample_buffer.write_index + 6)
append_lem_example =
    append_lem sample_buffer (4 ∷ 5 ∷ 6 ∷ 7 ∷ 8 ∷ 9 ∷ []) sample_buffer-IsValid (omega arith)

abbrev sample_ops : List Op
sample_ops =
    pull 2 ∷ put (4 ∷ 5 ∷ 6 ∷ 7 ∷ 8 ∷ 9 ∷ []) ∷ discard 3 ∷ put (10 ∷ []) ∷ pull_all ∷ pull 1 ∷ []

sample_ops-Fits : Fits sample_buffer.write_index sample_ops
sample_ops-Fits = (omega arith, (omega arith, (tt, (omega arith, (tt, (omega arith, tt))))))

run_refines_example : run sample_buffer sample_ops ≡ run_list (contents sample_buffer) sample_ops
run_refines_example = run_refines sample_ops sample_buffer sample_buffer-IsValid sample_ops-Fits

-- Reading, writing with a move to the front, and reading more than is there.
runs :
    run sample_buffer sample_ops
    ≡ ok (1 ∷ 2 ∷ []) ∷ ok [] ∷ ok [] ∷ ok [] ∷ ok (6 ∷ 7 ∷ 8 ∷ 9 ∷ 10 ∷ []) ∷ err assertion ∷ []
unfolding run run_list exec_list
runs = run_refines sample_ops sample_buffer sample_buffer-IsValid sample_ops-Fits
