-- ===== src/TcpSocket.antt =====
-- network/socket.cpp with network/merror.cpp and network/acceptor.cpp: how a socket connects, and how
-- it accepts. The results of the system calls are a parameter.
pub mod Connect
pub mod Accept
pub mod Transfer
use ncx_for_mall.Prelude.{
  ℕ, zero, suc, List, [], ◌∷◌, ◌++◌, Option, none, some, Bool, true, false, not, if◌then◌else◌,
}
use ncx_for_mall.Channel.{
  Channel, Callbacks, new_channel, enable_read, set_et, ask_all, set_read_callback,
}

-- The first `::connect`, `select` and `getsockopt` with the error that it gives, where they are called,
-- and the second `::connect`.
pub data FirstConnect : Type 0 where
  done in_progress refused : FirstConnect

pub data Selected : Type 0 where
  writable timed_out select_failed : Selected

pub record ConnectCalls : Type 0 where
  pub first : FirstConnect
  pub select : Selected
  pub so_error : Bool
  pub second_failed : Bool

-- How `errif` goes on: by `exit(1)`, or not.
pub data Connected : Type 0 where
  goes_on exits : Connected

-- A `return -1` of a function into `bool`.
abbrev minus_one : Bool
minus_one = true

unfoldable pub after_select : Selected → Bool → Bool
after_select writable so_error = if so_error then minus_one else true
after_select timed_out so_error = minus_one
after_select select_failed so_error = minus_one

unfoldable pub connect_on_nonblocking : ConnectCalls → FirstConnect → Bool
unfolding after_select
connect_on_nonblocking k in_progress = after_select k.select k.so_error
connect_on_nonblocking k _ = true

unfoldable pub errif : Bool → Connected → Connected
errif condition next = if condition then exits else next

-- `TcpSocket::connect`, of a socket that blocks or not.
unfoldable pub tcp_connect : Bool → ConnectCalls → Connected
unfolding connect_on_nonblocking errif
tcp_connect is_nonblock k =
    let second = errif k.second_failed goes_on in
    if is_nonblock then errif (not (connect_on_nonblocking k k.first)) second else second

-- What `epoll_wait` says of a listening descriptor, a parameter: whether it is ready, by the events that
-- are listened to, the clients that came since the last call, and all that wait.
abbrev pub Readiness : Type 0
Readiness = ℕ → List ℕ → List ℕ → Bool

-- The acceptor's socket, with the results that the kernel has ready for `::accept`, which are a
-- descriptor or, as the bit pattern of an `int`, -1; its channel, and its callback in terms of the state
-- `S` of the server.
pub record Acceptor (S : Type 0) : Type 0 where
  pub backlog : List ℕ
  pub accept_channel : Channel
  pub new_connection_callback : Option (ℕ → S → S)

-- `TcpSocket::accept` on a socket that blocks: where no result is ready the call does not return.
unfoldable pub accept : List ℕ → Option (ℕ × List ℕ)
accept [] = none
accept (client_fd ∷ rest) = some (client_fd, rest)

-- `Acceptor::Acceptor`: the channel reads, and `set_et` is called on it.
unfoldable pub accept_channel_of : ℕ → Channel
accept_channel_of fd =
    let given : Callbacks = record { read_callback = false; write_callback = false } in
    let (c, given', calls) = set_read_callback (new_channel fd) given [] in
    (ask_all c (enable_read ∷ set_et ∷ []) calls).0

module _ {S : Type 0} where
  unfoldable pub new_acceptor : ℕ → Acceptor S
  unfolding accept_channel_of
  new_acceptor fd = record {
    backlog = [];
    accept_channel = accept_channel_of fd;
    new_connection_callback = none;
  }

  unfoldable pub set_new_connection_callback : (ℕ → S → S) → Acceptor S → Acceptor S
  set_new_connection_callback handle a = record a { new_connection_callback = some handle }

  -- `Acceptor::acceptNewConnection`, whose callback gets whatever `accept` returns, if it does.
  unfoldable pub accept_new_connection : Acceptor S → S → Option (Acceptor S × S)
  unfolding accept
  accept_new_connection a s = elim a.new_connection_callback [
    | none ↦ some (a, s)
    | some callback ↦ elim (accept a.backlog) [
      | none ↦ none
      | some (client_fd, rest) ↦ some (record a { backlog = rest }, callback client_fd s)
    ]
  ]

  -- A call of `epoll_wait` before which these clients came, with the event that it reports.
  unfoldable pub accept_event : Readiness → List ℕ → Acceptor S → S → Option (Acceptor S × S)
  unfolding accept_new_connection
  accept_event kernel arriving a s =
      let waiting = a.backlog ++ arriving in
      let a' = record a { backlog = waiting } in
      if kernel a.accept_channel.listen_events arriving waiting
      then accept_new_connection a' s
      else some (a', s)

  -- A row of such calls; nothing where one of the events blocks the loop.
  unfoldable pub accept_events :
      Readiness → Acceptor S → S → List (List ℕ) → Option (Acceptor S × S)
  unfolding accept_event
  accept_events kernel a s [] = some (a, s)
  accept_events kernel a s (arriving ∷ rounds) = elim (accept_event kernel arriving a s) [
    | none ↦ none
    | some (a', s') ↦ accept_events kernel a' s' rounds
  ]
