-- ===== src/Http/Run.antt =====
-- http/http_client.h: how a request ends.
use ncx_for_mall.Prelude.{
  ℕ, zero, suc, ◌≡◌, refl, sym, subst, ap, ◌∙◌, List, [], ◌∷◌, ◌++◌, Bool, true, false, ◌||◌,
  if◌then◌else◌,
}
use ncx_for_mall.Exceptions.{Text}
use ncx_for_mall.Http.{
  HttpRequest, Session, Network, Shutdown, done, not_connected, broken, idle, resolving, connecting,
  writing, reading, fail, on_resolve, on_connect, on_write, on_shutdown, on_read, complete, io_run,
}

-- No answer comes where the name, the connection, the write or the read fails.
abbrev pub cut_off : Network → Bool
cut_off net = net.resolve_ec || (net.connect_ec || (net.write_ec || net.read_ec))

io_run-idle : (net : Network) (fuel : ℕ) (s : Session) → s.pending ≡ idle → io_run net fuel s ≡ s
unfolding io_run complete
io_run-idle net zero s e = refl
io_run-idle net (suc fuel) s e =
    ap (λ q. io_run net fuel (complete net q s)) e ∙ io_run-idle net fuel s e

-- The end of a session: nothing is pending, with what was read and what was sent.
pub record Ends (s : Session) (res : Text) (sent : List HttpRequest) : Type 0 where
  pub nothing_pending : s.pending ≡ idle
  pub same_res : s.res ≡ res
  pub same_sent : s.sent ≡ sent

idle-Ends :
    (net : Network) (fuel : ℕ) (s : Session)
    → s.pending ≡ idle
    → Ends (io_run net fuel s) s.res s.sent
idle-Ends net fuel s e =
    rw (io_run-idle net fuel s e) record { nothing_pending = e; same_res = refl; same_sent = refl }

module _ (net : Network) (fuel : ℕ) where
  shutdown-Ends :
      (how : Shutdown) (s : Session) → Ends (io_run net fuel (on_shutdown how s)) s.res s.sent
  unfolding on_shutdown fail
  shutdown-Ends done s = idle-Ends net fuel _ refl
  shutdown-Ends not_connected s = idle-Ends net fuel _ refl
  shutdown-Ends broken s = idle-Ends net fuel _ refl

  -- For each handler: what follows it, and then what follows the operation before it.
  read-Ends :
      (ec : Bool) (s : Session) → Ends (io_run net fuel (on_read ec net.shutdown s)) s.res s.sent
  unfolding on_read fail
  read-Ends true s = idle-Ends net fuel _ refl
  read-Ends false s = shutdown-Ends net.shutdown s

  reading-Ends :
      (s : Session)
      → s.pending ≡ reading
      → Ends (io_run net (suc fuel) s) (if net.read_ec then s.res else net.answer s.req) s.sent
  unfolding io_run complete
  reading-Ends s p =
      let res = if net.read_ec then s.res else net.answer s.req in
      subst (λ q. Ends (io_run net fuel (complete net q s)) res s.sent) (sym p)
        (read-Ends net.read_ec (record s { res = res }))

  write-Ends :
      (ec : Bool) (s : Session)
      → Ends
          (io_run net (suc fuel) (on_write ec s))
          (if ec || net.read_ec then s.res else net.answer s.req)
          s.sent
  unfolding on_write fail
  write-Ends true s = idle-Ends net (suc fuel) _ refl
  write-Ends false s = reading-Ends (record s { pending = reading }) refl

  writing-Ends :
      (s : Session)
      → s.pending ≡ writing
      → Ends
          (io_run net (suc (suc fuel)) s)
          (if net.write_ec || net.read_ec then s.res else net.answer s.req)
          s.sent
  unfolding io_run complete
  writing-Ends s p =
      subst
        (λ q.
          Ends (io_run net (suc fuel) (complete net q s))
            (if net.write_ec || net.read_ec then s.res else net.answer s.req) s.sent)
        (sym p) (write-Ends net.write_ec s)

  connect-Ends :
      (ec : Bool) (s : Session)
      → Ends
          (io_run net (suc (suc fuel)) (on_connect ec s))
          (if ec || (net.write_ec || net.read_ec) then s.res else net.answer s.req)
          (if ec then s.sent else s.sent ++ s.req ∷ [])
  unfolding on_connect fail
  connect-Ends true s = idle-Ends net (suc (suc fuel)) _ refl
  connect-Ends false s =
      writing-Ends (record s { pending = writing; sent = s.sent ++ s.req ∷ [] }) refl

  connecting-Ends :
      (s : Session)
      → s.pending ≡ connecting
      → Ends
          (io_run net (suc (suc (suc fuel))) s)
          (if net.connect_ec || (net.write_ec || net.read_ec) then s.res else net.answer s.req)
          (if net.connect_ec then s.sent else s.sent ++ s.req ∷ [])
  unfolding io_run complete
  connecting-Ends s p =
      subst
        (λ q.
          Ends (io_run net (suc (suc fuel)) (complete net q s))
            (if net.connect_ec || (net.write_ec || net.read_ec) then s.res else net.answer s.req)
            (if net.connect_ec then s.sent else s.sent ++ s.req ∷ []))
        (sym p) (connect-Ends net.connect_ec s)

  resolve-Ends :
      (ec : Bool) (s : Session)
      → Ends
          (io_run net (suc (suc (suc fuel))) (on_resolve ec s))
          (if ec || (net.connect_ec || (net.write_ec || net.read_ec))
            then s.res
            else net.answer s.req)
          (if ec || net.connect_ec then s.sent else s.sent ++ s.req ∷ [])
  unfolding on_resolve fail
  resolve-Ends true s = idle-Ends net (suc (suc (suc fuel))) _ refl
  resolve-Ends false s = connecting-Ends (record s { pending = connecting }) refl

  -- From the start of its request a session ends within four completions, whatever they are:
  -- nothing is pending, the request was sent if the name and the connection were found, and the
  -- body is the answer to it if the write and the read succeeded as well, even if the shutdown
  -- failed; otherwise the body is as before.
  pub io_run-Ends :
      (s : Session)
      → s.pending ≡ resolving
      → Ends
          (io_run net (suc (suc (suc (suc fuel)))) s)
          (if cut_off net then s.res else net.answer s.req)
          (if net.resolve_ec || net.connect_ec then s.sent else s.sent ++ s.req ∷ [])
  unfolding io_run complete
  io_run-Ends s p =
      subst
        (λ q.
          Ends (io_run net (suc (suc (suc fuel))) (complete net q s))
            (if cut_off net then s.res else net.answer s.req)
            (if net.resolve_ec || net.connect_ec then s.sent else s.sent ++ s.req ∷ []))
        (sym p) (resolve-Ends net.resolve_ec s)
