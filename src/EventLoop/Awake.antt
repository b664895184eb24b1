-- ===== src/EventLoop/Awake.antt =====
-- network/EventLoop.cpp: no wake-up is lost.
use ncx_for_mall.Prelude.{
  ℕ, zero, suc, ◌+◌, ◌<◌, ◌≡◌, refl, Bool, true, false, ◌||◌, Option, none, some, List, [], ◌∷◌,
  ltb, arith, Bool-cases, inl, inr,
}
use ncx_for_mall.EventLoop.{
  EventLoop, Phase, polling, handled, draining, ended, head_of_loop, is_in_epoll_loop, add_to_do,
  run_on_owner_thread, poll_returns, swap_funcs, next_func,
}
use ncx_for_mall.EventLoop.Wakeup.{
  WakingLoop, WakeStep, gives, writes, waits, interrupted, reads, handles, drains, calls, stops,
  write_one, give, wakeup_loop, wait, interrupt, wakeup_callback, handlers_end, wake_step,
  wake_steps,
}

-- Where no pass through the list is still to come, a task on it needs the counter to be positive, or
-- a thread that is about to write.
abbrev pub Seen : {T : Type 0} → Option Bool → Phase → List T → ℕ → Type 0
Seen (some woken) phase tasks n = Unit {0}
Seen none handled tasks n = Unit {0}
Seen none ended tasks n = Unit {0}
Seen none _ [] n = Unit {0}
Seen none _ (task ∷ tasks) n = 0 < n

-- The handlers run inside `poll`'s turn.
abbrev pub InPoll : Option Bool → Phase → Type 0
InPoll (some woken) phase = phase ≡ polling
InPoll none phase = Unit {0}

pub record IsAwake {T : Type 0} (w : WakingLoop T) : Type 0 where
  pub in_poll : InPoll w.active w.loop.phase
  pub seen : Seen w.active w.loop.phase w.loop.to_do_list (w.wake_count + w.writers)

write_one-positive : (count : ℕ) → 0 < write_one count
unfolding write_one
write_one-positive count = ground arith

module _ {T : Type 0} where
  Seen-positive : (a : Option Bool) (p : Phase) (tasks : List T) (n : ℕ) → 0 < n → Seen a p tasks n
  Seen-positive (some woken) p tasks n h = tt
  Seen-positive none handled tasks n h = tt
  Seen-positive none ended tasks n h = tt
  Seen-positive none polling [] n h = tt
  Seen-positive none draining [] n h = tt
  Seen-positive none polling (task ∷ tasks) n h = h
  Seen-positive none draining (task ∷ tasks) n h = h

  -- `polling` and `draining` ask for the same, and behind the loop nothing is asked.
  Seen-head_of_loop :
      (stop : Bool) (tasks : List T) (n : ℕ)
      → Seen none polling tasks n
      → Seen none (head_of_loop stop) tasks n
  Seen-head_of_loop true tasks n h = tt
  Seen-head_of_loop false tasks n h = h

  Seen-draining : (tasks : List T) (n : ℕ) → Seen none draining tasks n → Seen none polling tasks n
  Seen-draining [] n h = tt
  Seen-draining (task ∷ tasks) n h = h

  give-IsAwake : (w : WakingLoop T) (current : ℕ) (cb : T) → IsAwake w → IsAwake (give w current cb)
  unfolding give run_on_owner_thread add_to_do
  give-IsAwake w current cb h = elim (Bool-cases (is_in_epoll_loop w.loop current)) [
    | inl own ↦ rw own record { in_poll = h.in_poll; seen = h.seen }
    | inr other ↦
        rw other record {
          in_poll = h.in_poll;
          seen = Seen-positive w.active w.loop.phase _ _ (omega arith);
        }
  ]

  wakeup_loop-IsAwake : (w : WakingLoop T) (n : ℕ) → IsAwake w → IsAwake (wakeup_loop w n)
  unfolding wakeup_loop
  wakeup_loop-IsAwake w zero h = h
  wakeup_loop-IsAwake w (suc others) h = record {
    in_poll = h.in_poll;
    seen = Seen-positive w.active w.loop.phase _ _ (omega (arith, write_one-positive w.wake_count));
  }

  wait-IsAwake :
      (w : WakingLoop T) (p : Phase) (a : Option Bool) (other : Bool)
      → w.loop.phase ≡ p
      → IsAwake w
      → IsAwake (wait w p a other)
  unfolding wait
  wait-IsAwake w polling none other e h = elim (Bool-cases (ltb 0 w.wake_count || other)) [
    | inl ready ↦ rw ready record { in_poll = e; seen = tt }
    | inr quiet ↦ rw quiet h
  ]
  wait-IsAwake w polling (some woken) other e h = h
  wait-IsAwake w handled a other e h = h
  wait-IsAwake w draining a other e h = h
  wait-IsAwake w ended a other e h = h

  -- A change of the loop alone, outside the handlers.
  loop-IsAwake :
      (w : WakingLoop T) (l : EventLoop T)
      → w.active ≡ none
      → Seen none l.phase l.to_do_list (w.wake_count + w.writers)
      → IsAwake (record w { loop = l })
  loop-IsAwake w l e h = record { in_poll = rw e tt; seen = rw e h }

  interrupt-Seen :
      (l : EventLoop T) (p : Phase) (n : ℕ)
      → l.phase ≡ p
      → Seen none p l.to_do_list n
      → Seen none (poll_returns l p false).phase (poll_returns l p false).to_do_list n
  unfolding poll_returns
  interrupt-Seen l polling n e h = Seen-head_of_loop l.stop l.to_do_list n h
  interrupt-Seen l handled n e h = rw e tt
  interrupt-Seen l draining n e h = rw e h
  interrupt-Seen l ended n e h = rw e tt

  interrupt-IsAwake :
      (w : WakingLoop T) (a : Option Bool) → w.active ≡ a → IsAwake w → IsAwake (interrupt w a)
  unfolding interrupt
  interrupt-IsAwake w none e h =
      loop-IsAwake w (poll_returns w.loop w.loop.phase false) e
        (interrupt-Seen w.loop w.loop.phase _ refl (rw e at (h.seen)))
  interrupt-IsAwake w (some woken) e h = h

  wakeup_callback-IsAwake :
      (w : WakingLoop T) (a : Option Bool)
      → w.active ≡ a
      → IsAwake w
      → IsAwake (wakeup_callback w a)
  unfolding wakeup_callback
  wakeup_callback-IsAwake w (some true) e h = record { in_poll = rw e at (h.in_poll); seen = tt }
  wakeup_callback-IsAwake w (some false) e h = h
  wakeup_callback-IsAwake w none e h = h

  handlers_end-IsAwake :
      (w : WakingLoop T) (a : Option Bool) → w.active ≡ a → IsAwake w → IsAwake (handlers_end w a)
  unfolding handlers_end poll_returns
  handlers_end-IsAwake w (some false) e h =
      let at_poll = rw e at (h.in_poll) in rw at_poll record { in_poll = tt; seen = tt }
  handlers_end-IsAwake w (some true) e h = h
  handlers_end-IsAwake w none e h = h

  swap-IsAwake :
      (w : WakingLoop T) (p : Phase) (a : Option Bool)
      → w.loop.phase ≡ p
      → w.active ≡ a
      → IsAwake w
      → IsAwake (record w { loop = swap_funcs w.loop p })
  unfolding swap_funcs
  swap-IsAwake w handled none e f h = loop-IsAwake w _ f tt
  swap-IsAwake w handled (some woken) e f h = cc (rw f at (h.in_poll))
  swap-IsAwake w polling a e f h = h
  swap-IsAwake w draining a e f h = h
  swap-IsAwake w ended a e f h = h

  next-IsAwake :
      (w : WakingLoop T) (p : Phase) (funcs : List T) (a : Option Bool)
      → w.loop.phase ≡ p
      → w.active ≡ a
      → IsAwake w
      → IsAwake (record w { loop = next_func w.loop p funcs })
  unfolding next_func
  next-IsAwake w draining [] none e f h = loop-IsAwake w _ f (
      Seen-head_of_loop w.loop.stop w.loop.to_do_list _
        (Seen-draining w.loop.to_do_list _ (rw (f, e) at (h.seen))))
  next-IsAwake w draining [] (some woken) e f h = cc (rw f at (h.in_poll))
  next-IsAwake w draining (func ∷ rest) a e f h = record { in_poll = h.in_poll; seen = h.seen }
  next-IsAwake w polling funcs a e f h = h
  next-IsAwake w handled funcs a e f h = h
  next-IsAwake w ended funcs a e f h = h

  wake_step-IsAwake : (w : WakingLoop T) (s : WakeStep T) → IsAwake w → IsAwake (wake_step w s)
  unfolding wake_step
  wake_step-IsAwake w (gives current cb) h = give-IsAwake w current cb h
  wake_step-IsAwake w writes h = wakeup_loop-IsAwake w w.writers h
  wake_step-IsAwake w (waits other) h = wait-IsAwake w w.loop.phase w.active other refl h
  wake_step-IsAwake w interrupted h = interrupt-IsAwake w w.active refl h
  wake_step-IsAwake w reads h = wakeup_callback-IsAwake w w.active refl h
  wake_step-IsAwake w handles h = handlers_end-IsAwake w w.active refl h
  wake_step-IsAwake w drains h = swap-IsAwake w w.loop.phase w.active refl refl h
  wake_step-IsAwake w calls h = next-IsAwake w w.loop.phase w.loop.funcs w.active refl refl h
  wake_step-IsAwake w stops h = record { in_poll = h.in_poll; seen = h.seen }

  -- Every step of the loop and of the other threads keeps this: while `epoll_wait` has not returned
  -- to handlers, and the loop is neither behind its handlers nor ended, a list with a task on it
  -- means that the eventfd's counter is positive or a thread is about to write to it; and the
  -- handlers run only inside the turn of `poll`.
  pub wake_steps-IsAwake :
      (ss : List (WakeStep T)) (w : WakingLoop T) → IsAwake w → IsAwake (wake_steps w ss)
  unfolding wake_steps
  wake_steps-IsAwake [] w h = h
  wake_steps-IsAwake (s ∷ ss) w h = wake_steps-IsAwake ss (wake_step w s) (wake_step-IsAwake w s h)
