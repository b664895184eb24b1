-- ===== src/Buffer/Refine.antt =====
-- network/buffer.cpp: the buffer behaves as the queue of the bytes that it holds.
use ncx_for_mall.Prelude.{
  ℕ, ◌+◌, ◌≤◌, ◌≡◌, refl, ap, ap₂, ◌∙◌, List, [], ◌∷◌, arith, length, leb, Bool-cases, Result, ok,
  err, inl, inr,
}
use ncx_for_mall.Memory.{max_size}
use ncx_for_mall.Buffer.{Buffer}
use ncx_for_mall.Buffer.Invariant.{IsValid, contents, append_lem}
use ncx_for_mall.Buffer.Reads.{
  retrieve_lem, retrieve_as_string_lem, retrieve_all_as_string_lem, retrieve_short,
  retrieve_as_string_short, retrieve_all_back, retrieve_all-IsValid,
}
use ncx_for_mall.Buffer.Queue.{
  Op, put, discard, pull, discard_all, pull_all, exec, exec_list, run, run_list, Fit, Fits, after,
}

-- The buffer's outcome matches the queue's: the same fault, or the same text and a valid buffer
-- that holds the queue, its data ending at or before `bound`.
abbrev Matches : ℕ → Result (List ℕ × Buffer) → Result (List ℕ × List ℕ) → Type 0
Matches bound (ok (text, b)) (ok (text', q)) =
    (text ≡ text') × IsValid b × (contents b ≡ q) × (b.write_index ≤ bound)
Matches bound (err e) (err e') = e ≡ e'
Matches bound _ _ = ⊥

discard-Matches :
    (b : Buffer) (n : ℕ)
    → IsValid b
    → Matches b.write_index (exec b (discard n)) (exec_list (contents b) (discard n))
unfolding exec exec_list
discard-Matches b n v = elim (Bool-cases (leb n (length (contents b)))) [
  | inl there ↦
      let (rest, e, t) = retrieve_lem b n v (ground arith) in
      rw (e, there) (refl, t.valid, t.left, t.back)
  | inr short ↦ rw (short, retrieve_short b n v (ground arith)) refl
]

pull-Matches :
    (b : Buffer) (n : ℕ)
    → IsValid b
    → n ≤ max_size
    → Matches b.write_index (exec b (pull n)) (exec_list (contents b) (pull n))
unfolding exec exec_list
pull-Matches b n v h = elim (Bool-cases (leb n (length (contents b)))) [
  | inl there ↦
      let (rest, e, t) = retrieve_as_string_lem b n v (ground arith) in
      rw (e, there) (refl, t.valid, t.left, t.back)
  | inr short ↦ rw (short, retrieve_as_string_short b n v (ground arith) h) refl
]

exec-Matches :
    (b : Buffer) (o : Op)
    → IsValid b
    → Fit b.write_index o
    → Matches (after b.write_index o) (exec b o) (exec_list (contents b) o)
unfolding exec exec_list
exec-Matches b (put m) v h = let (b', e, v', c, u) = append_lem b m v h in rw e (refl, v', c, u)
exec-Matches b (discard n) v h = discard-Matches b n v
exec-Matches b (pull n) v h = pull-Matches b n v h
exec-Matches b discard_all v h =
    let (v', c) = retrieve_all-IsValid b v in (refl, v', c, retrieve_all_back b v)
exec-Matches b pull_all v h =
    let (v', c) = retrieve_all-IsValid b v in
    rw (retrieve_all_as_string_lem b v) (refl, v', c, retrieve_all_back b v)

run_step :
    (bound : ℕ) (os : List Op) (r : Result (List ℕ × Buffer)) (s : Result (List ℕ × List ℕ))
    → Matches bound r s
    → ((b : Buffer) → IsValid b → b.write_index ≤ bound → run b os ≡ run_list (contents b) os)
    → elim r [ ok (text, b) ↦ ok text ∷ run b os | err e ↦ err e ∷ [] ]
      ≡ elim s [ ok (text, q) ↦ ok text ∷ run_list q os | err e ↦ err e ∷ [] ]
run_step bound os (ok (text, b)) (ok (text', q)) (e, v, c, u) rest =
    ap₂ ◌∷◌ (ap ok e) (rest b v u ∙ ap (λ l. run_list l os) c)
run_step bound os (err e) (err e') h rest = ap (λ f. err f ∷ []) h
run_step bound os (ok _) (err e) h rest = absurd h
run_step bound os (err e) (ok _) h rest = absurd h

Fits-mono : (os : List Op) {m n : ℕ} → m ≤ n → Fits n os → Fits m os
Fits-mono [] h f = tt
Fits-mono (put t ∷ os) {m} {n} h f =
    (omega arith, Fits-mono os {m = m + length t} {n = n + length t} (omega arith) f.1)
Fits-mono (discard k ∷ os) h f = (tt, Fits-mono os h f.1)
Fits-mono (pull k ∷ os) h f = (f.0, Fits-mono os h f.1)
Fits-mono (discard_all ∷ os) h f = (tt, Fits-mono os h f.1)
Fits-mono (pull_all ∷ os) h f = (tt, Fits-mono os h f.1)

-- No row of calls tells a valid buffer from the list of the bytes it holds, up to and including the
-- first failed assertion, as long as the texts put in and the lengths of `RetrieveAsString` fit an
-- address space.
pub run_refines :
    (os : List Op) (b : Buffer)
    → IsValid b
    → Fits b.write_index os
    → run b os ≡ run_list (contents b) os
unfolding run run_list
run_refines [] b v f = refl
run_refines (o ∷ os) b v f =
    run_step (after b.write_index o) os _ _ (exec-Matches b o v f.0)
      (λ b' v' u. run_refines os b' v' (Fits-mono os u f.1))
