-- ===== src/Tests/Loops.antt =====
-- The event loop with the eventfd that wakes it.
use ncx_for_mall.Prelude.{ℕ, ◌≡◌, refl, List, [], ◌∷◌, ◌++◌, true, length}
use ncx_for_mall.EventLoop.{
  is_in_epoll_loop, swap_funcs, poll_returns, run_on_owner_thread, next_func,
}
use ncx_for_mall.EventLoop.Wakeup.{
  WakeStep, gives, writes, waits, handles, drains, calls, new_loop, wake_steps, wake_step,
}
use ncx_for_mall.EventLoop.Awake.{IsAwake, wake_steps-IsAwake}
use ncx_for_mall.EventLoop.Alone.{own_round, own_round-drained}

-- Another thread gives 7 while the handlers run, and 8 while the list is drained.
abbrev sample_wakes : List (WakeStep ℕ)
sample_wakes =
    waits true
    ∷ gives 2 7
    ∷ writes
    ∷ gives 1 9
    ∷ handles
    ∷ drains
    ∷ gives 2 8
    ∷ calls
    ∷ calls
    ∷ writes
    ∷ []

wake_steps-IsAwake_example : IsAwake (wake_steps (new_loop 1) sample_wakes)
wake_steps-IsAwake_example =
    wake_steps-IsAwake sample_wakes (new_loop 1) record { in_poll = tt; seen = tt }

own_round-drained_example :
    let w = wake_steps (new_loop 1) sample_wakes in
    let after = wake_steps w (own_round (length w.loop.to_do_list)) in
    (after.loop.drained ≡ w.loop.drained ++ w.loop.to_do_list) × (after.loop.to_do_list ≡ [])
unfolding wake_steps wake_step is_in_epoll_loop swap_funcs poll_returns run_on_owner_thread
    next_func
own_round-drained_example = own_round-drained 1 sample_wakes refl refl refl
