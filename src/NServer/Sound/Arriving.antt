-- ===== src/NServer/Sound/Arriving.antt =====
-- network/server.cpp, `newConnectionHandle`, with ncx_server/scontrolchannel.cpp: a new connection
-- keeps the server's invariant.
use ncx_for_mall.Prelude.{
  none, ℕ, ◌≡◌, refl, sym, subst, inl, inr, [], ◌∷◌, ◌++◌, some, false, arith, Option-cases, List,
  ◌<◌,
}
use ncx_for_mall.Prelude.Maps.{lookup, insert, nat_eq, text_eq, beq_self}
use ncx_for_mall.Buffer.Invariant.{IsValid, new_buffer-IsValid}
use ncx_for_mall.Channel.{Ctl}
use ncx_for_mall.Protocol.{Wire}
use ncx_for_mall.Connection.{
  Connection, hello_handler, Owner, main_server, proxy_server, new_connection,
  connection_established,
}
use ncx_for_mall.Server.{put_channel, Server, SControlChannel, Text, waits}
use ncx_for_mall.Server.Kept.{Kept, Kept-refl, SameEnd-refl, same-CameFrom, put_channel-Kept}
use ncx_for_mall.NServer.Handshake.{command_frame}
use ncx_for_mall.Protocol.{create_data_channel}
use ncx_for_mall.NServer.{
  log_send, first_handler, on_conn, handle_new_outside_connection, add_connection,
  new_connection_handle,
}
use ncx_for_mall.NServer.Sound.{IsVisitor, IsSound, Kept-IsSound}
use ncx_for_mall.NServer.Sound.Events.{log_send-IsSound}
use ncx_for_mall.NServer.Sound.Queues.{
  IsQueue-fresh, IsQueue-snoc, put_channel-IsSound, with_new, with_new-IsSound,
}

add_connection-Kept :
    (o : Owner) (conn_id p : ℕ) (s : Server) → Kept s (add_connection o conn_id p s)
unfolding add_connection
add_connection-Kept main_server conn_id p s = record {
  ends = λ q. SameEnd-refl (s.conn q);
  channels = same-CameFrom s;
  same_fresh = refl;
  same_waiting = λ nonce. refl;
}
add_connection-Kept (proxy_server nonce) conn_id p s = elim (Option-cases (lookup nonce s.sc_map)) [
  | inl e ↦ rw (add_connection, e) (Kept-refl s)
  | inr (sc, e) ↦
      rw (add_connection, e)
        (put_channel-Kept s nonce sc (record sc { connections = insert conn_id p sc.connections }) e
          (record { queue = refl; bridges = λ id br h. h }))
]

queued-none :
    (w : Wire) (nonce : Text) (p : ℕ) (s : Server)
    → lookup nonce s.sc_map ≡ none
    → handle_new_outside_connection w nonce p s ≡ s
unfolding handle_new_outside_connection
queued-none w nonce p s e = rw (e, handle_new_outside_connection)

abbrev with_visitor : SControlChannel → ℕ → SControlChannel
with_visitor sc p = record sc { wait_handle_visitors = sc.wait_handle_visitors ++ p ∷ [] }

queued-some :
    (w : Wire) (nonce : Text) (p : ℕ) (s : Server) (sc : SControlChannel)
    → lookup nonce s.sc_map ≡ some sc
    → handle_new_outside_connection w nonce p s
      ≡ log_send sc.ncx_client_conn
          (command_frame w create_data_channel)
          (put_channel s nonce (with_visitor sc p))
unfolding handle_new_outside_connection
queued-some w nonce p s sc e = rw (e, handle_new_outside_connection)

-- A connection that is not in the queue yet, but is a visitor of the same proxy server, queues.
queued-IsSound :
    (w : Wire) (nonce : Text) (p : ℕ) (s : Server)
    → IsSound s
    → p < s.fresh
    → IsVisitor nonce (s.conn p)
    → ((sc : SControlChannel)
        → lookup nonce s.sc_map ≡ some sc
        → waits sc.wait_handle_visitors p ≡ false)
    → IsSound (handle_new_outside_connection w nonce p s)
queued-IsSound w nonce p s v old visitor new = elim (Option-cases (lookup nonce s.sc_map)) [
  | inl e ↦ subst IsSound (sym (queued-none w nonce p s e)) v
  | inr (sc, e) ↦ subst IsSound (sym (queued-some w nonce p s sc e)) (
      log_send-IsSound sc.ncx_client_conn (command_frame w create_data_channel)
        (put_channel s nonce (with_visitor sc p))
        (put_channel-IsSound s nonce (with_visitor sc p) v
          (IsQueue-snoc s nonce sc.wait_handle_visitors p (v.queues nonce sc e) old visitor
            (new sc e))
          (v.bridges nonce sc e)))
]

-- What a new connection is, for the two kinds of server.
abbrev new_of : Owner → ℕ → ℕ → Server → Connection × List Ctl
new_of owner conn_id client_fd s =
    let (c, calls) = new_connection conn_id client_fd owner (first_handler owner) s.calls in
    connection_established c calls

new_of-greets :
    (owner : Owner) (conn_id client_fd : ℕ) (s : Server)
    → (new_of owner conn_id client_fd s).0.on_message ≡ hello_handler
    → (new_of owner conn_id client_fd s).0.on_close ≡ main_server
unfolding new_connection connection_established
new_of-greets main_server conn_id client_fd s h = refl
new_of-greets (proxy_server nonce) conn_id client_fd s h = cc

new_of-IsValid :
    (owner : Owner) (conn_id client_fd : ℕ) (s : Server)
    → IsValid (new_of owner conn_id client_fd s).0.input_buffer
unfolding new_connection connection_established
new_of-IsValid owner conn_id client_fd s = new_buffer-IsValid.0

new_of-IsVisitor :
    (nonce : Text) (conn_id client_fd : ℕ) (s : Server)
    → IsVisitor nonce (new_of (proxy_server nonce) conn_id client_fd s).0
unfolding new_connection connection_established
new_of-IsVisitor nonce conn_id client_fd s = record { quiet = refl; owner = refl }

abbrev based : Owner → ℕ → ℕ → Server → Server
based owner conn_id client_fd s =
    with_new s (new_of owner conn_id client_fd s).0 (new_of owner conn_id client_fd s).1

based-IsSound :
    (owner : Owner) (conn_id client_fd : ℕ) (s : Server)
    → IsSound s
    → IsSound (based owner conn_id client_fd s)
based-IsSound owner conn_id client_fd s v =
    with_new-IsSound s (new_of owner conn_id client_fd s).0 (new_of owner conn_id client_fd s).1 v
      (new_of-IsValid owner conn_id client_fd s) (new_of-greets owner conn_id client_fd s)

conn-IsSound :
    (w : Wire) (owner : Owner) (conn_id client_fd : ℕ) (s : Server)
    → IsSound s
    → IsSound (on_conn w owner s.fresh (based owner conn_id client_fd s))
unfolding on_conn
conn-IsSound w main_server conn_id client_fd s v = based-IsSound main_server conn_id client_fd s v
conn-IsSound w (proxy_server nonce) conn_id client_fd s v =
    queued-IsSound w nonce s.fresh (based (proxy_server nonce) conn_id client_fd s)
      (based-IsSound (proxy_server nonce) conn_id client_fd s v) (omega arith)
      (subst (IsVisitor nonce) (sym (rw (beq_self s.fresh)))
        (new_of-IsVisitor nonce conn_id client_fd s))
      (λ sc e. IsQueue-fresh s nonce sc.wait_handle_visitors (v.queues nonce sc e))

-- A new connection of the main server or of a proxy server keeps the invariant.
pub new_connection_handle-IsSound :
    (w : Wire) (owner : Owner) (conn_id client_fd : ℕ) (s : Server)
    → IsSound s
    → IsSound (new_connection_handle w owner conn_id client_fd s)
unfolding new_connection_handle
new_connection_handle-IsSound w owner conn_id client_fd s v =
    let asked = on_conn w owner s.fresh (based owner conn_id client_fd s) in
    Kept-IsSound asked (add_connection owner conn_id s.fresh asked)
      (add_connection-Kept owner conn_id s.fresh asked) (conn-IsSound w owner conn_id client_fd s v)
