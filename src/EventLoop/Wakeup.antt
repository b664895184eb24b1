-- ===== src/EventLoop/Wakeup.antt =====
-- network/EventLoop.cpp: the eventfd that wakes the loop. Another thread puts its task on the list
-- and then writes to the descriptor: between the two the loop can take any of its steps.
use ncx_for_mall.Prelude.{
  ℕ, zero, suc, ◌-◌, ◌^◌, Bool, true, false, ◌||◌, Option, none, some, List, [], ◌∷◌, if◌then◌else◌,
  ltb,
}
use ncx_for_mall.EventLoop.{
  EventLoop, Phase, polling, is_in_epoll_loop, run_on_owner_thread, poll_returns, swap_funcs,
  next_func,
}

-- The loop, the counter of the eventfd, the threads that stand between `add_to_do` and `wakeup_loop`,
-- and, from the return of `epoll_wait` to the end of the handlers, whether the channel of the eventfd
-- is among those active and not handled yet.
pub record WakingLoop (T : Type 0) : Type 0 where
  pub loop : EventLoop T
  pub wake_count : ℕ
  pub writers : ℕ
  pub active : Option Bool

pub data WakeStep (T : Type 0) : Type 0 where
  -- `run_on_onwer_thread` on the thread of that number up to `wakeup_loop`, and that call
  gives : ℕ → T → WakeStep T
  writes : WakeStep T
  -- `epoll_wait`, with whether another channel is ready, and its return with -1
  waits : Bool → WakeStep T
  interrupted : WakeStep T
  -- the handler of the eventfd, the end of the handlers, the swap, and one round behind it
  reads handles drains calls : WakeStep T
  stops : WakeStep T

-- A `write` of 1 to an eventfd, which fails where the counter is at its largest.
unfoldable pub write_one : ℕ → ℕ
write_one count = if ltb count (2 ^ 64 - 2) then suc count else count

module _ {T : Type 0} where
  -- A loop that is made and run by a thread.
  abbrev pub new_loop : ℕ → WakingLoop T
  new_loop tid = record {
    loop = record {
      tid = tid;
      stop = false;
      phase = polling;
      to_do_list = [];
      funcs = [];
      drained = [];
      called = [];
    };
    wake_count = 0;
    writers = 0;
    active = none;
  }

  unfoldable pub give : WakingLoop T → ℕ → T → WakingLoop T
  give w current cb = record w {
    loop = run_on_owner_thread w.loop current cb;
    writers = if is_in_epoll_loop w.loop current then w.writers else suc w.writers;
  }

  unfoldable pub wakeup_loop : WakingLoop T → ℕ → WakingLoop T
  unfolding write_one
  wakeup_loop w zero = w
  wakeup_loop w (suc others) = record w { wake_count = write_one w.wake_count; writers = others }

  -- `epoll_wait` without a time limit goes on waiting where nothing is ready.
  unfoldable pub wait : WakingLoop T → Phase → Option Bool → Bool → WakingLoop T
  wait w polling none other =
      if ltb 0 w.wake_count || other then record w { active = some (ltb 0 w.wake_count) } else w
  wait w _ active other = w

  unfoldable pub interrupt : WakingLoop T → Option Bool → WakingLoop T
  interrupt w none = record w { loop = poll_returns w.loop w.loop.phase false }
  interrupt w (some woken) = w

  unfoldable pub wakeup_callback : WakingLoop T → Option Bool → WakingLoop T
  wakeup_callback w (some true) = record w { wake_count = 0; active = some false }
  wakeup_callback w _ = w

  unfoldable pub handlers_end : WakingLoop T → Option Bool → WakingLoop T
  handlers_end w (some false) = record w {
    loop = poll_returns w.loop w.loop.phase true;
    active = none;
  }
  handlers_end w _ = w

  unfoldable pub wake_step : WakingLoop T → WakeStep T → WakingLoop T
  unfolding give wakeup_loop wait interrupt wakeup_callback handlers_end
  wake_step w (gives current cb) = give w current cb
  wake_step w writes = wakeup_loop w w.writers
  wake_step w (waits other) = wait w w.loop.phase w.active other
  wake_step w interrupted = interrupt w w.active
  wake_step w reads = wakeup_callback w w.active
  wake_step w handles = handlers_end w w.active
  wake_step w drains = record w { loop = swap_funcs w.loop w.loop.phase }
  wake_step w calls = record w { loop = next_func w.loop w.loop.phase w.loop.funcs }
  wake_step w stops = record w { loop = record (w.loop) { stop = true } }

  unfoldable pub wake_steps : WakingLoop T → List (WakeStep T) → WakingLoop T
  wake_steps w [] = w
  wake_steps w (s ∷ ss) = wake_steps (wake_step w s) ss
