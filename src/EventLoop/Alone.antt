-- ===== src/EventLoop/Alone.antt =====
-- network/EventLoop.cpp: a loop that waits with tasks on its list goes on by itself.
use ncx_for_mall.Prelude.{
  ℕ, zero, suc, ◌≡◌, refl, sym, ap, ap₂, ◌∙◌, subst, true, false, none, some, List, [], ◌∷◌, ◌++◌,
  ltb, arith, Bool-cases, inl, inr, length, replicate, append-nil, append_assoc,
}
use ncx_for_mall.EventLoop.{polling, draining, poll_returns, swap_funcs, next_func}
use ncx_for_mall.EventLoop.Wakeup.{
  WakingLoop, WakeStep, waits, reads, handles, drains, calls, new_loop, wait, wakeup_callback,
  handlers_end, wake_step, wake_steps,
}
use ncx_for_mall.EventLoop.Awake.{Seen, IsAwake, wake_steps-IsAwake}

module _ {T : Type 0} where
  -- The steps of the loop alone, once round.
  abbrev pub own_round : ℕ → List (WakeStep T)
  own_round n = waits false ∷ reads ∷ handles ∷ drains ∷ replicate n calls

  -- A list that was taken is called to its end.
  calls-all :
      (funcs : List T) (w : WakingLoop T)
      → w.loop.phase ≡ draining
      → w.loop.funcs ≡ funcs
      → ((wake_steps w (replicate (length funcs) calls)).loop.drained ≡ w.loop.drained ++ funcs)
        × ((wake_steps w (replicate (length funcs) calls)).loop.to_do_list ≡ w.loop.to_do_list)
  unfolding wake_steps wake_step next_func
  calls-all [] w p e = (sym (append-nil _), refl)
  calls-all (func ∷ rest) w p e =
      let again =
        calls-all rest
          (record w {
            loop = record (w.loop) {
              phase = draining;
              funcs = rest;
              drained = w.loop.drained ++ func ∷ [];
            };
          })
          refl refl in
      rw (p, e, next_func) (again.0 ∙ append_assoc w.loop.drained (func ∷ []) rest, again.1)

  wait-taken :
      (w : WakingLoop T)
      → w.loop.phase ≡ polling
      → w.active ≡ none
      → ltb 0 w.wake_count ≡ true
      → wake_step w (waits false) ≡ record w { active = some true }
  unfolding wake_step wait
  wait-taken w p a c = ap₂ (λ x y. wait w x y false) p a ∙ rw (wait, c) refl

  wait-blocked :
      (w : WakingLoop T)
      → w.loop.phase ≡ polling
      → w.active ≡ none
      → ltb 0 w.wake_count ≡ false
      → wake_step w (waits false) ≡ w
  unfolding wake_step wait
  wait-blocked w p a c = ap₂ (λ x y. wait w x y false) p a ∙ rw (wait, c) refl

  rest-blocked :
      (w : WakingLoop T)
      → w.loop.phase ≡ polling
      → w.active ≡ none
      → (wake_step w reads ≡ w) × (wake_step w handles ≡ w) × (wake_step w drains ≡ w)
  unfolding wake_step wakeup_callback handlers_end swap_funcs
  rest-blocked w p a = (
    ap (wakeup_callback w) a,
    ap (handlers_end w) a,
    ap (λ x. record w { loop = swap_funcs w.loop x }) p,
  )

  -- With the counter positive the round reaches the list.
  round-taken :
      (w : WakingLoop T) (ss : List (WakeStep T))
      → w.loop.phase ≡ polling
      → w.active ≡ none
      → ltb 0 w.wake_count ≡ true
      → wake_steps w (waits false ∷ reads ∷ handles ∷ drains ∷ ss)
        ≡ wake_steps
            (record w {
              loop = record (w.loop) {
                phase = draining;
                to_do_list = [];
                funcs = w.loop.to_do_list;
              };
              wake_count = 0;
              active = none;
            })
            ss
  unfolding wake_steps wake_step wait wakeup_callback handlers_end poll_returns swap_funcs
  round-taken w ss p a c =
      ap (λ x. wake_steps x (reads ∷ handles ∷ drains ∷ ss)) (wait-taken w p a c) ∙ rw (p) refl

  -- With the counter at 0 it waits.
  calls-none :
      (n : ℕ) (w : WakingLoop T) → w.loop.phase ≡ polling → wake_steps w (replicate n calls) ≡ w
  unfolding wake_steps wake_step next_func
  calls-none zero w p = refl
  calls-none (suc n) w p =
      ap (λ x. wake_steps (record w { loop = next_func w.loop x w.loop.funcs }) (replicate n calls))
        p
      ∙ calls-none n w p

  round-waits :
      (w : WakingLoop T) (ss : List (WakeStep T))
      → w.loop.phase ≡ polling
      → w.active ≡ none
      → ltb 0 w.wake_count ≡ false
      → wake_steps w (waits false ∷ reads ∷ handles ∷ drains ∷ ss) ≡ wake_steps w ss
  unfolding wake_steps
  round-waits w ss p a c =
      let (read, handle, drain) = rest-blocked w p a in
      ap (λ x. wake_steps x (reads ∷ handles ∷ drains ∷ ss)) (wait-blocked w p a c)
      ∙ ap (λ x. wake_steps x (handles ∷ drains ∷ ss)) read
      ∙ ap (λ x. wake_steps x (drains ∷ ss)) handle
      ∙ ap (λ x. wake_steps x ss) drain

  asleep-empty :
      (tasks : List T) (count : ℕ)
      → Seen none polling tasks count
      → ltb 0 count ≡ false
      → tasks ≡ []
  asleep-empty [] count h e = refl
  asleep-empty (task ∷ tasks) count h e = ground arith

  awake-drained :
      (w : WakingLoop T)
      → IsAwake w
      → w.loop.phase ≡ polling
      → w.active ≡ none
      → w.writers ≡ 0
      → ((wake_steps w (own_round (length w.loop.to_do_list))).loop.drained
          ≡ w.loop.drained ++ w.loop.to_do_list)
        × ((wake_steps w (own_round (length w.loop.to_do_list))).loop.to_do_list ≡ [])
  awake-drained w h p a none_writes = elim (Bool-cases (ltb 0 w.wake_count)) [
    | inl c ↦
        rw (round-taken w (replicate (length w.loop.to_do_list) calls) p a c)
          (calls-all w.loop.to_do_list _ refl refl)
    | inr c ↦
        let empty =
          asleep-empty w.loop.to_do_list w.wake_count
            (subst (λ n. Seen none polling w.loop.to_do_list n) (omega arith)
              (rw (a, p) at (h.seen)))
            c in
        rw
          (
            round-waits w (replicate (length w.loop.to_do_list) calls) p a c,
            calls-none (length w.loop.to_do_list) w p,
            empty,
          )
          (sym (append-nil _), refl)
  ]

  -- However the steps of the loop, from its start, of the threads that give it tasks and of `stop`
  -- interleave, where the loop is at `epoll_wait` and no thread stands between `add_to_do` and
  -- `wakeup_loop`, it calls every task on its list, in order, by its own steps, with nothing else
  -- ready: the eventfd wakes it if there is a task, and no task is left.
  pub own_round-drained :
      (tid : ℕ) (ss : List (WakeStep T))
      → (wake_steps (new_loop tid) ss).loop.phase ≡ polling
      → (wake_steps (new_loop tid) ss).active ≡ none
      → (wake_steps (new_loop tid) ss).writers ≡ 0
      → let w = wake_steps (new_loop tid) ss in
        let after = wake_steps w (own_round (length w.loop.to_do_list)) in
        (after.loop.drained ≡ w.loop.drained ++ w.loop.to_do_list) × (after.loop.to_do_list ≡ [])
  own_round-drained tid ss p a none_writes =
      awake-drained (wake_steps (new_loop tid) ss)
        (wake_steps-IsAwake ss (new_loop tid) record { in_poll = tt; seen = tt }) p a none_writes
