-- ===== src/Tests/Dials.antt =====
-- A client that connects after a time limit, and an acceptor that three clients come to.
use Prim.Native.Nat.{bit_and}
use ncx_for_mall.Prelude.{replicate, length, take, ok}
use ncx_for_mall.Socket.{bytes, would_block}
use ncx_for_mall.TcpSocket.Transfer.{tcp_read, tcp_read-last}
use ncx_for_mall.Prelude.{
  ℕ, ◌≡◌, ◌≢◌, ◌<◌, refl, List, [], ◌∷◌, ◌++◌, true, false, ◌&&◌, arith, some, inl, inr,
  if◌then◌else◌, Bool-cases, ◌==◌, ltb, lt→ltb, ne→beq_false,
}
use ncx_for_mall.TcpSocket.{
  ConnectCalls, in_progress, timed_out, goes_on, tcp_connect, accept_events, Readiness,
  new_acceptor, set_new_connection_callback,
}
use ncx_for_mall.TcpSocket.Connect.{tcp_connect-second}
use ncx_for_mall.TcpSocket.Accept.{EpollLaws, serving, accept_events-hand_over}
use ncx_for_mall.Channel.{epoll_in, epoll_et}

abbrev slow_calls : ConnectCalls
slow_calls = record {
  first = in_progress;
  select = timed_out;
  so_error = false;
  second_failed = false;
}

tcp_connect-second_example : tcp_connect true slow_calls ≡ goes_on
tcp_connect-second_example = tcp_connect-second true slow_calls

abbrev log_client : ℕ → List ℕ → List ℕ
log_client client_fd s = s ++ client_fd ∷ []

-- Level-triggered, or for new clients alone, by the bit of `EPOLLET`.
abbrev sample_kernel : Readiness
sample_kernel events arriving waiting =
    if bit_and events epoll_in == 0
    then false
    else if bit_and events epoll_et == 0
    then ltb 0 (length waiting)
    else (ltb 0 (length arriving) && ltb 0 (length waiting))

sample_kernel-empty : (events : ℕ) (arriving : List ℕ) → sample_kernel events arriving [] ≡ false
sample_kernel-empty events arriving = elim (Bool-cases (bit_and events epoll_in == 0)) [
  | inl e ↦ rw e refl
  | inr e ↦ elim (Bool-cases (bit_and events epoll_et == 0)) [
    | inl f ↦ rw (e, f) refl
    | inr f ↦ elim (Bool-cases (ltb 0 (length arriving))) [
      | inl g ↦ rw (e, f, g) refl
      | inr g ↦ rw (e, f, g) refl
    ]
  ]
]

sample_kernel-level :
    (events : ℕ) (arriving waiting : List ℕ)
    → bit_and events epoll_in ≢ 0
    → bit_and events epoll_et ≡ 0
    → 0 < length waiting
    → sample_kernel events arriving waiting ≡ true
sample_kernel-level events arriving waiting h k l =
    let e : (bit_and events epoll_in == 0) ≡ false = ne→beq_false _ 0 h in
    let f : (bit_and events epoll_et == 0) ≡ true = rw k refl in
    rw (e, f) (lt→ltb 0 (length waiting) l)

sample_kernel-EpollLaws : EpollLaws sample_kernel
sample_kernel-EpollLaws = record { level = sample_kernel-level; empty = sample_kernel-empty }

-- Two clients come at once, and one behind them.
accept_events-hand_over_example :
    accept_events sample_kernel
      (set_new_connection_callback log_client (new_acceptor 4))
      []
      ((5 ∷ 6 ∷ []) ∷ (7 ∷ []) ∷ [] ∷ [] ∷ [] ∷ [])
    ≡ some (serving sample_kernel sample_kernel-EpollLaws 4 log_client [], 5 ∷ 6 ∷ 7 ∷ [])
accept_events-hand_over_example =
    accept_events-hand_over sample_kernel sample_kernel-EpollLaws 4 log_client
      ((5 ∷ 6 ∷ []) ∷ (7 ∷ []) ∷ []) [] 3 (omega arith)

tcp_read-last_example :
    (buf' : List ℕ) × (tcp_read true
        (replicate 8 0)
        (bytes (1 ∷ 2 ∷ 3 ∷ []))
        (bytes (4 ∷ 5 ∷ []) ∷ would_block ∷ [])
      ≡ ok (5, buf'))
    × (length buf' ≡ 8)
    × (take 2 buf' ≡ 4 ∷ 5 ∷ [])
tcp_read-last_example =
    tcp_read-last (replicate 8 0) (bytes (1 ∷ 2 ∷ 3 ∷ [])) (bytes (4 ∷ 5 ∷ []) ∷ would_block ∷ [])
      (omega arith) (omega arith, (omega arith, tt)) (omega arith)
