-- ===== src/Tests/Tasks.antt =====
-- The event loop with a task that another thread gives while the loop is busy.
use ncx_for_mall.Prelude.{ℕ, ◌≡◌, refl, List, [], ◌∷◌, true, false}
use ncx_for_mall.EventLoop.{
  EventLoop, Step, polling, runs_on_owner, returns, swaps, next, stops, steps,
}
use ncx_for_mall.EventLoop.Order.{history, steps-history, wake_up-drained}

abbrev sample_loop : EventLoop ℕ
sample_loop = record {
  tid = 1;
  stop = false;
  phase = polling;
  to_do_list = 10 ∷ 11 ∷ [];
  funcs = [];
  drained = [];
  called = [];
}

abbrev sample_steps : List (Step ℕ)
sample_steps =
    returns true ∷ swaps ∷ next ∷ runs_on_owner 2 12 ∷ runs_on_owner 1 13 ∷ next ∷ next ∷ stops ∷ []

steps-history_example : history (steps sample_loop sample_steps) ≡ 10 ∷ 11 ∷ 12 ∷ []
steps-history_example = steps-history sample_steps sample_loop record { in_hand = refl }

wake_up-drained_example :
    (steps sample_loop (returns true ∷ swaps ∷ next ∷ next ∷ [])).drained ≡ 10 ∷ 11 ∷ []
wake_up-drained_example = wake_up-drained sample_loop refl
