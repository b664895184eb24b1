-- ===== src/Connector/Once.antt =====
-- network/connector.cpp and network/client.cpp: a client connects once.
use ncx_for_mall.Prelude.{
  ℕ, suc, ◌≤◌, ◌≡◌, refl, ap, subst, inl, inr, List, [], ◌∷◌, some, Bool, true, false, Result, ok,
  err, ◌>>=◌, assertion, arith, Bool-cases,
}
use ncx_for_mall.Prelude.Maps.{nat_eq, beq_self}
use ncx_for_mall.Connector.{
  Connector, ConnectorState, k_disconnected, k_connecting, k_connected, NetClient, new_client,
  take_connection, start_in_loop, start, client_connect, is_current, remove_connection,
  stop_in_loop, client_stop, Event, connects, removes, stops, on_event, on_events,
}

-- No connection was made yet, or the connector has connected and made one.
abbrev pub Made : ConnectorState → ℕ → Type 0
Made k_disconnected n = n ≡ 0
Made k_connecting n = ⊥
Made k_connected n = n ≡ 1

-- A call that fails, or leaves such a client.
abbrev pub Keeps : Result NetClient → Type 0
Keeps (ok c) = Made c.connector.state c.next_conn_id
Keeps (err f) = Unit {0}

start_in_loop-Keeps :
    (p : ℕ) (c : NetClient) (st : ConnectorState) (on : Bool)
    → c.connector.state ≡ st
    → c.connector.connect ≡ on
    → Made st c.next_conn_id
    → Keeps (start_in_loop p c)
unfolding start_in_loop take_connection
start_in_loop-Keeps p c k_disconnected true e f m = rw (e, f) (ap suc m)
start_in_loop-Keeps p c k_disconnected false e f m = rw (e, f) m
start_in_loop-Keeps p c k_connecting on e f m = absurd m
start_in_loop-Keeps p c k_connected on e f m = rw e tt

client_connect-Keeps :
    (p : ℕ) (c : NetClient) → Made c.connector.state c.next_conn_id → Keeps (client_connect p c)
unfolding client_connect start
client_connect-Keeps p c m = elim (Bool-cases c.connected) [
  | inl e ↦ rw e m
  | inr e ↦ rw e (
      start_in_loop-Keeps p
        (record c { connected = true; connector = record c.connector { connect = true } })
        c.connector.state true refl refl m)
]

remove_connection-Keeps :
    (p : ℕ) (c : NetClient) → Made c.connector.state c.next_conn_id → Keeps (remove_connection p c)
unfolding remove_connection
remove_connection-Keeps p c m = elim (Bool-cases (is_current c.conn p)) [
  | inl e ↦ rw e m
  | inr e ↦ rw e tt
]

stop_in_loop-Made :
    (st : ConnectorState) (k : Connector) (n : ℕ)
    → k.state ≡ st
    → Made st n
    → Made (stop_in_loop st k).state n
unfolding stop_in_loop
stop_in_loop-Made k_disconnected k n e m = rw e m
stop_in_loop-Made k_connecting k n e m = absurd m
stop_in_loop-Made k_connected k n e m = rw e m

on_event-Keeps :
    (c : NetClient) (e : Event) → Made c.connector.state c.next_conn_id → Keeps (on_event c e)
unfolding on_event client_stop
on_event-Keeps c (connects p) m = client_connect-Keeps p c m
on_event-Keeps c (removes p) m = remove_connection-Keeps p c m
on_event-Keeps c stops m = stop_in_loop-Made c.connector.state _ c.next_conn_id refl m

then-Keeps :
    (es : List Event) (r : Result NetClient)
    → ((c : NetClient) → Made c.connector.state c.next_conn_id → Keeps (on_events c es))
    → Keeps r
    → Keeps (r >>= λ c. on_events c es)
then-Keeps es (ok c) rest k = rest c k
then-Keeps es (err f) rest k = tt

on_events-Keeps :
    (es : List Event) (c : NetClient)
    → Made c.connector.state c.next_conn_id
    → Keeps (on_events c es)
unfolding on_events
on_events-Keeps [] c m = m
on_events-Keeps (e ∷ es) c m =
    then-Keeps es (on_event c e) (λ c' k. on_events-Keeps es c' k) (on_event-Keeps c e m)

Made-le : (st : ConnectorState) (n : ℕ) → Made st n → n ≤ 1
Made-le k_disconnected n m = omega arith
Made-le k_connecting n m = absurd m
Made-le k_connected n m = omega arith

-- Whatever happens to a new client, as long as no assertion fails, it makes at most one connection
-- in its life.
pub connects_once :
    (es : List Event) (c : NetClient) → on_events new_client es ≡ ok c → c.next_conn_id ≤ 1
connects_once es c e =
    Made-le c.connector.state c.next_conn_id
      (subst (λ r. Keeps r) e (on_events-Keeps es new_client refl))

-- A client whose connector has connected and whose connection is removed cannot connect again: the
-- assertion on the state of its connector fails.
pub reconnect-assertion :
    (c : NetClient) (p q : ℕ)
    → c.connector.state ≡ k_connected
    → c.conn ≡ some p
    → on_events c (removes p ∷ connects q ∷ []) ≡ err assertion
unfolding on_events on_event remove_connection client_connect start start_in_loop
reconnect-assertion c p q e f = rw (f, beq_self p, e)
