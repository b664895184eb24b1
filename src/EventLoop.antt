-- ===== src/EventLoop.antt =====
-- network/EventLoop.h and network/EventLoop.cpp: the loop of the owner thread, and the tasks that
-- this and other threads give it. A step is what a thread does between two points where another
-- can come in: the list of tasks is only touched under the mutex.
pub mod Alone
pub mod Awake
pub mod Order
pub mod Wakeup
use ncx_for_mall.Prelude.{ℕ, Bool, true, false, List, [], ◌∷◌, ◌++◌, ◌==◌, if◌then◌else◌}

-- Where `run` stands: in `epoll_wait`, behind the handlers of the active channels, inside
-- `do_after_handle_events`, or behind the loop.
pub data Phase : Type 0 where
  polling handled draining ended : Phase

-- `T` is the type of the tasks, `std::function<void()>` in the source.
pub record EventLoop (T : Type 0) : Type 0 where
  pub tid : ℕ
  pub stop : Bool
  pub phase : Phase
  -- `to_do_list`, and the local `funcs` of `do_after_handle_events`
  pub to_do_list : List T
  pub funcs : List T
  -- the tasks called so far: those that went through the list, and those called at once
  pub drained : List T
  pub called : List T

pub data Step (T : Type 0) : Type 0 where
  -- `run_on_onwer_thread` on the thread of that number
  runs_on_owner : ℕ → T → Step T
  stops : Step T
  -- `poll` returns, with or without an active channel, and the handlers are called
  returns : Bool → Step T
  -- the swap under the mutex, and one round of the loop behind it
  swaps next : Step T

-- `if(stop_)break;` at the head of the loop
abbrev pub head_of_loop : Bool → Phase
head_of_loop true = ended
head_of_loop false = polling

module _ {T : Type 0} where
  unfoldable pub is_in_epoll_loop : EventLoop T → ℕ → Bool
  is_in_epoll_loop l current = l.tid == current

  unfoldable pub add_to_do : EventLoop T → T → EventLoop T
  add_to_do l func = record l { to_do_list = l.to_do_list ++ func ∷ [] }

  unfoldable pub run_on_owner_thread : EventLoop T → ℕ → T → EventLoop T
  unfolding is_in_epoll_loop add_to_do
  run_on_owner_thread l current cb =
      if is_in_epoll_loop l current
      then record l { called = l.called ++ cb ∷ [] }
      else add_to_do l cb

  -- `if (activeChannels.empty()) continue;`
  unfoldable pub poll_returns : EventLoop T → Phase → Bool → EventLoop T
  poll_returns l polling true = record l { phase = handled }
  poll_returns l polling false = record l { phase = head_of_loop l.stop }
  poll_returns l _ active = l

  unfoldable pub swap_funcs : EventLoop T → Phase → EventLoop T
  swap_funcs l handled = record l { phase = draining; to_do_list = []; funcs = l.to_do_list }
  swap_funcs l _ = l

  unfoldable pub next_func : EventLoop T → Phase → List T → EventLoop T
  next_func l draining [] = record l { phase = head_of_loop l.stop }
  next_func l draining (func ∷ rest) = record l { funcs = rest; drained = l.drained ++ func ∷ [] }
  next_func l _ funcs = l

  unfoldable pub step : EventLoop T → Step T → EventLoop T
  unfolding run_on_owner_thread poll_returns swap_funcs next_func
  step l (runs_on_owner current cb) = run_on_owner_thread l current cb
  step l stops = record l { stop = true }
  step l (returns active) = poll_returns l l.phase active
  step l swaps = swap_funcs l l.phase
  step l next = next_func l l.phase l.funcs

  unfoldable pub steps : EventLoop T → List (Step T) → EventLoop T
  steps l [] = l
  steps l (s ∷ ss) = steps (step l s) ss
