-- ===== src/TcpSocket/Accept.antt =====
-- network/acceptor.cpp: every client that comes is handed over, in order.
use Prim.Native.Nat.{bit_and}
use ncx_for_mall.Prelude.{
  ℕ, zero, suc, ◌≤◌, ◌<◌, arith, ◌≡◌, ◌≢◌, refl, ap, ◌∙◌, List, [], ◌∷◌, ◌++◌, append_assoc,
  append-nil, true, false, none, some, concat, length, replicate,
}
use ncx_for_mall.Channel.{
  epoll_in, epoll_et, new_channel, listen, ask, ask_all, update_channel, set_read_callback,
}
use ncx_for_mall.TcpSocket.{
  Readiness, Acceptor, accept, accept_channel_of, new_acceptor, set_new_connection_callback,
  accept_new_connection, accept_event, accept_events,
}

-- What epoll(7) says of a descriptor that is listened to for input: without `EPOLLET` it is ready as long
-- as a client waits, be it an old one, and it is not without a client.
pub record EpollLaws (kernel : Readiness) : Type 0 where
  pub level :
      (events : ℕ) (arriving waiting : List ℕ)
      → bit_and events epoll_in ≢ 0
      → bit_and events epoll_et ≡ 0
      → 0 < length waiting
      → kernel events arriving waiting ≡ true
  pub empty : (events : ℕ) (arriving : List ℕ) → kernel events arriving [] ≡ false

-- The callback for each of a row of clients.
abbrev pub hand_over : {S : Type 0} → (ℕ → S → S) → List ℕ → S → S
hand_over callback [] s = s
hand_over callback (client_fd ∷ rest) s = hand_over callback rest (callback client_fd s)

-- The channel of an acceptor listens to input, priority input, and nothing else: the bit of `EPOLLET` is
-- lost.
accept_channel-listen : (fd : ℕ) → (accept_channel_of fd).listen_events ≡ 3
unfolding accept_channel_of set_read_callback new_channel ask_all ask listen update_channel
accept_channel-listen fd = refl

module _ {S : Type 0} (kernel : Readiness) (laws : EpollLaws kernel) (fd : ℕ)
    (callback : ℕ → S → S) where
  -- An acceptor as it is made, with its callback, and these clients waiting.
  abbrev pub serving : List ℕ → Acceptor S
  serving backlog = record (set_new_connection_callback callback (new_acceptor fd)) {
    backlog = backlog;
  }

  event-idle :
      (backlog arriving : List ℕ) (s : S)
      → backlog ++ arriving ≡ []
      → accept_event kernel arriving (serving backlog) s ≡ some (serving [], s)
  unfolding accept_event set_new_connection_callback new_acceptor
  event-idle backlog arriving s e =
      rw (e, laws.empty (accept_channel_of fd).listen_events arriving) refl

  event-serves :
      (backlog arriving : List ℕ) (client_fd : ℕ) (waiting : List ℕ) (s : S)
      → backlog ++ arriving ≡ client_fd ∷ waiting
      → accept_event kernel arriving (serving backlog) s
        ≡ some (serving waiting, callback client_fd s)
  unfolding accept_event accept_new_connection accept set_new_connection_callback new_acceptor
  event-serves backlog arriving client_fd waiting s e =
      rw
        (
          e,
          accept_channel-listen fd,
          laws.level 3 arriving (client_fd ∷ waiting) (λ h. absurd (omega (arith, h))) refl
              (omega arith),
        )
        refl

  events-step :
      (a a' : Acceptor S) (arriving : List ℕ) (rounds : List (List ℕ)) (s s' : S)
      → accept_event kernel arriving a s ≡ some (a', s')
      → accept_events kernel a s (arriving ∷ rounds) ≡ accept_events kernel a' s' rounds
  unfolding accept_events
  events-step a a' arriving rounds s s' e =
      ap (λ o. elim o [ none ↦ none | some (b, t) ↦ accept_events kernel b t rounds ]) e

  -- Calls without new clients, at least as many as clients wait, leave none.
  accept-quiet :
      (n : ℕ) (backlog : List ℕ) (s : S)
      → length backlog ≤ n
      → accept_events kernel (serving backlog) s (replicate n [])
        ≡ some (serving [], hand_over callback backlog s)
  unfolding accept_events
  accept-quiet zero [] s h = refl
  accept-quiet zero (client_fd ∷ backlog) s h = absurd (omega arith)
  accept-quiet (suc n) [] s h =
      events-step (serving []) (serving []) [] (replicate n []) s s (event-idle [] [] s refl)
      ∙ accept-quiet n [] s (omega arith)
  accept-quiet (suc n) (client_fd ∷ backlog) s h =
      events-step (serving (client_fd ∷ backlog)) (serving backlog) [] (replicate n []) s
        (callback client_fd s)
        (event-serves (client_fd ∷ backlog) [] client_fd backlog s
          (append-nil (client_fd ∷ backlog)))
      ∙ accept-quiet n backlog (callback client_fd s) (omega arith)

  -- One call, with what is known of those behind it.
  accept-round :
      (more : List ℕ) (n : ℕ) (rounds : List (List ℕ))
      → ((backlog : List ℕ) (s : S)
          → length (backlog ++ more) ≤ n
          → accept_events kernel (serving backlog) s rounds
            ≡ some (serving [], hand_over callback (backlog ++ more) s))
      → (backlog arriving waiting : List ℕ) (s : S) → backlog ++ arriving ≡ waiting
      → length (waiting ++ more) ≤ n
      → accept_events kernel (serving backlog) s (arriving ∷ rounds)
        ≡ some (serving [], hand_over callback (waiting ++ more) s)
  unfolding accept_events
  accept-round more n rounds behind backlog arriving [] s e h =
      events-step (serving backlog) (serving []) arriving rounds s s
        (event-idle backlog arriving s e)
      ∙ behind [] s h
  accept-round more n rounds behind backlog arriving (client_fd ∷ waiting) s e h =
      events-step (serving backlog) (serving waiting) arriving rounds s (callback client_fd s)
        (event-serves backlog arriving client_fd waiting s e)
      ∙ behind waiting (callback client_fd s) (omega arith)

  accept-all :
      (rounds : List (List ℕ)) (backlog : List ℕ) (s : S) (n : ℕ)
      → length (backlog ++ concat rounds) ≤ n
      → accept_events kernel (serving backlog) s (rounds ++ replicate n [])
        ≡ some (serving [], hand_over callback (backlog ++ concat rounds) s)
  accept-all [] backlog s n h =
      rw (append-nil backlog)
        (accept-quiet n backlog s (omega (arith, ap length (append-nil backlog))))
  accept-all (arriving ∷ rounds) backlog s n h =
      let e = append_assoc backlog arriving (concat rounds) in
      accept-round (concat rounds) n (rounds ++ replicate n []) (λ b t k. accept-all rounds b t n k)
        backlog arriving (backlog ++ arriving) s refl (omega (arith, ap length e))
      ∙ ap (λ l. some (serving [], hand_over callback l s)) e

  -- On a kernel that reports a descriptor as epoll(7) says, a new acceptor with a callback never
  -- calls `accept` where it would block, and however many clients come before each call of
  -- `epoll_wait`, after as many calls without new ones as there have been clients, all of them were
  -- handed to the callback, each once and in the order in which they came, and none waits: each
  -- event accepts one client, but the descriptor stays ready, since the bit of `EPOLLET` does not
  -- reach the kernel.
  pub accept_events-hand_over :
      (rounds : List (List ℕ)) (s : S) (n : ℕ)
      → length (concat rounds) ≤ n
      → accept_events kernel
          (set_new_connection_callback callback (new_acceptor fd))
          s
          (rounds ++ replicate n [])
        ≡ some (serving [], hand_over callback (concat rounds) s)
  unfolding set_new_connection_callback new_acceptor
  accept_events-hand_over rounds s n h = accept-all rounds [] s n h
