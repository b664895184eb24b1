-- ===== src/TcpSocket/Connect.antt =====
-- network/socket.cpp: what decides whether a client connects.
use ncx_for_mall.Prelude.{◌≡◌, refl, ap, Bool, true, false, not, if◌then◌else◌}
use ncx_for_mall.TcpSocket.{
  FirstConnect, done, in_progress, refused, Selected, writable, timed_out, select_failed,
  ConnectCalls, goes_on, exits, after_select, connect_on_nonblocking, errif, tcp_connect,
}

after_select-true : (how : Selected) (so_error : Bool) → after_select how so_error ≡ true
unfolding after_select
after_select-true writable true = refl
after_select-true writable false = refl
after_select-true timed_out so_error = refl
after_select-true select_failed so_error = refl

connect_on_nonblocking-true :
    (k : ConnectCalls) (first : FirstConnect) → connect_on_nonblocking k first ≡ true
unfolding connect_on_nonblocking
connect_on_nonblocking-true k done = refl
connect_on_nonblocking-true k in_progress = after_select-true k.select k.so_error
connect_on_nonblocking-true k refused = refl

-- Whether a socket blocks or not, and whatever its first `::connect`, `select` and `getsockopt`
-- give, a time limit, an error of `select` and an error of the socket included, `connect` goes on
-- just where its last `::connect` succeeds, and ends the program otherwise:
-- `connect_on_nonblocking` never returns false.
pub tcp_connect-second :
    (is_nonblock : Bool) (k : ConnectCalls)
    → tcp_connect is_nonblock k ≡ (if k.second_failed then exits else goes_on)
unfolding tcp_connect errif
tcp_connect-second true k =
    ap (λ b. errif (not b) (errif k.second_failed goes_on)) (connect_on_nonblocking-true k k.first)
tcp_connect-second false k = refl
