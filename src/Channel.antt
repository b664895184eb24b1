-- ===== src/Channel.antt =====
-- network/channel.h, network/channel.cpp and the part of network/epoll.cpp that registers channels:
-- which events of a descriptor are listened to, and the `epoll_ctl` calls that say so.
pub mod Registration
pub mod Running
use Prim.Native.Nat.{bit_and, bit_or}
use ncx_for_mall.Prelude.{
  ℕ, ◌+◌, ◌-◌, ◌%◌, ◌^◌, Bool, true, false, not, List, [], ◌∷◌, ◌++◌, ◌==◌, if◌then◌else◌,
}

-- `EPOLLIN | EPOLLPRI`, `EPOLLOUT` and `EPOLLET` of <sys/epoll.h>
abbrev pub epoll_in : ℕ
epoll_in = 1

abbrev pub epoll_pri : ℕ
epoll_pri = 2

abbrev pub epoll_out : ℕ
epoll_out = 4

abbrev pub epoll_et : ℕ
epoll_et = 2 ^ 31

-- A `short` as its bit pattern: a wider value loses its upper bits.
abbrev pub to_short : ℕ → ℕ
to_short n = n % 2 ^ 16

-- `EPOLL_CTL_ADD`, `EPOLL_CTL_MOD` and `EPOLL_CTL_DEL`, with descriptor and events
pub data Ctl : Type 0 where
  ctl_add ctl_mod : ℕ → ℕ → Ctl
  ctl_del : ℕ → Ctl

pub record Channel : Type 0 where
  pub fd : ℕ
  pub listen_events : ℕ
  pub ready_events : ℕ
  pub is_epolled : Bool

unfoldable pub new_channel : ℕ → Channel
new_channel fd = record { fd = fd; listen_events = 0; ready_events = 0; is_epolled = false }

-- `Epoll::update_channel`, with the calls made so far, the last one first.
unfoldable pub update_channel : Channel → List Ctl → Channel × List Ctl
update_channel c calls =
    if not c.is_epolled
    then (record c { is_epolled = true }, ctl_add c.fd c.listen_events ∷ calls)
    else (c, ctl_mod c.fd c.listen_events ∷ calls)

-- `Epoll::delete_channel`, which is all that `Channel::remove` does.
unfoldable pub delete_channel : Channel → List Ctl → Channel × List Ctl
delete_channel c calls = (c, ctl_del c.fd ∷ calls)

-- What can be asked of a channel.
pub data Request : Type 0 where
  enable_read enable_write disable_write disable_all set_et remove : Request

-- The new value of `listen_events_` where a request sets it.
unfoldable pub listen : Channel → Request → Channel
listen c enable_read = record c {
  listen_events = to_short (bit_or c.listen_events (bit_or epoll_in epoll_pri));
}
listen c enable_write = record c { listen_events = to_short (bit_or c.listen_events epoll_out) }
listen c disable_write = record c {
  listen_events = to_short (bit_and c.listen_events (2 ^ 32 - 1 - epoll_out));
}
listen c disable_all = record c { listen_events = 0 }
listen c set_et = record c { listen_events = to_short (bit_or c.listen_events epoll_et) }
listen c remove = c

unfoldable pub ask : Channel → Request → List Ctl → Channel × List Ctl
unfolding listen update_channel delete_channel
ask c remove calls = delete_channel c calls
ask c r calls = update_channel (listen c r) calls

unfoldable pub ask_all : Channel → List Request → List Ctl → Channel × List Ctl
ask_all c [] calls = (c, calls)
ask_all c (r ∷ rs) calls = let (c', calls') = ask c r calls in ask_all c' rs calls'

-- `setRevs` stores what `epoll_wait` reports in a `short`.
unfoldable pub set_revs : Channel → ℕ → Channel
set_revs c revs = record c { ready_events = to_short revs }

-- The callbacks that `handle_event` runs, in order.
pub data Callback : Type 0 where
  reads writes : Callback

unfoldable pub handle_event : Channel → List Callback
handle_event c =
    (if bit_and c.ready_events epoll_in == 0 then [] else reads ∷ [])
    ++ (if bit_and c.ready_events epoll_out == 0 then [] else writes ∷ [])

-- Which callbacks a channel has been given.
pub record Callbacks : Type 0 where
  pub read_callback : Bool
  pub write_callback : Bool

-- `set_read_callback`, which enables reading as well, and `set_write_callback`.
unfoldable pub set_read_callback : Channel → Callbacks → List Ctl → Channel × Callbacks × List Ctl
set_read_callback c given calls =
    let (c', calls') = ask c enable_read calls in
    (c', record given { read_callback = true }, calls')

unfoldable pub set_write_callback : Callbacks → Callbacks
set_write_callback given = record given { write_callback = true }

-- `handle_event_guard`: a callback that is not there is reported and left out.
unfoldable pub handle_event_guard : Callbacks → Channel → List Callback
handle_event_guard given c =
    (if bit_and c.ready_events epoll_in == 0
      then []
      else if given.read_callback
      then reads ∷ []
      else [])
    ++ (if bit_and c.ready_events epoll_out == 0
        then []
        else if given.write_callback
        then writes ∷ []
        else [])
