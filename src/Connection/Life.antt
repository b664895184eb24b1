-- ===== src/Connection/Life.antt =====
-- network/connection.cpp: what taking a connection up and tearing it down does to its state.
use ncx_for_mall.Prelude.{
  ℕ, ◌≡◌, ◌≤◌, ◌<◌, ◌⊎◌, inl, inr, refl, List, arith, take, length, leb, Bool-cases, ok, err,
  assertion,
}
use ncx_for_mall.Memory.{max_size}
use ncx_for_mall.Buffer.{Buffer}
use ncx_for_mall.Buffer.Invariant.{IsValid, contents}
use ncx_for_mall.Buffer.Reads.{Took, retrieve_as_string_lem, retrieve_as_string_short}
use ncx_for_mall.Channel.{Ctl}
use ncx_for_mall.Connection.{
  Connection, ConnectionState, connecting, connected, disconnecting, disconnected,
  connection_constructor, disable_if_connected, recv, recv_into,
}

-- `ConnectionConstructor` leaves a connected connection disconnected, and any other state as it is.
abbrev pub torn_down : ConnectionState → ConnectionState
torn_down connected = disconnected
torn_down st = st

pub record TornDown (c c' : Connection) : Type 0 where
  pub state : c'.state ≡ torn_down c.state
  pub same_id : c'.conn_id ≡ c.conn_id
  pub same_owner : c'.on_close ≡ c.on_close
  pub same_notice : c'.notice_on_close ≡ c.notice_on_close
  pub same_input : c'.input_buffer ≡ c.input_buffer
  pub same_handler : c'.on_message ≡ c.on_message

disable-TornDown :
    (c : Connection) (st : ConnectionState) (calls : List Ctl)
    → c.state ≡ st
    → TornDown c (disable_if_connected c st calls).0
unfolding disable_if_connected
disable-TornDown c connected calls e = record {
  state = rw e;
  same_id = refl;
  same_owner = refl;
  same_notice = refl;
  same_input = refl;
  same_handler = refl;
}
disable-TornDown c connecting calls e = record {
  state = rw (e, disable_if_connected);
  same_id = refl;
  same_owner = refl;
  same_notice = refl;
  same_input = refl;
  same_handler = refl;
}
disable-TornDown c disconnecting calls e = record {
  state = rw (e, disable_if_connected);
  same_id = refl;
  same_owner = refl;
  same_notice = refl;
  same_input = refl;
  same_handler = refl;
}
disable-TornDown c disconnected calls e = record {
  state = rw (e, disable_if_connected);
  same_id = refl;
  same_owner = refl;
  same_notice = refl;
  same_input = refl;
  same_handler = refl;
}

pub connection_constructor-TornDown :
    (c : Connection) (calls : List Ctl) → TornDown c (connection_constructor c calls).0
unfolding connection_constructor
connection_constructor-TornDown c calls =
    let t = disable-TornDown c c.state calls refl in
    record {
      state = t.state;
      same_id = t.same_id;
      same_owner = t.same_owner;
      same_notice = t.same_notice;
      same_input = t.same_input;
      same_handler = t.same_handler;
    }

-- `Recv` of no more bytes than are there returns them from the front and leaves the others; and a
-- `Recv` into a text that is not empty does so for that text's length, whatever it holds, and of more
-- bytes than are there it fails by the buffer's assertion.
pub recv_into-Took :
    (msg : List ℕ) (c : Connection)
    → IsValid c.input_buffer
    → length msg ≤ max_size
    → ((length msg ≤ length (contents c.input_buffer))
        × (rest : Buffer) × (recv_into msg c
            ≡ ok (take (length msg) (contents c.input_buffer), record c { input_buffer = rest }))
        × Took c.input_buffer (length msg) rest)
      ⊎ ((length (contents c.input_buffer) < length msg) × (recv_into msg c ≡ err assertion))
unfolding recv_into recv
recv_into-Took msg c v h = elim (Bool-cases (leb (length msg) (length (contents c.input_buffer)))) [
  | inl there ↦
      let (rest, e, t) = retrieve_as_string_lem c.input_buffer (length msg) v (ground arith) in
      inl (ground arith, rest, rw e, t)
  | inr short ↦
      inr
        (ground arith, rw (retrieve_as_string_short c.input_buffer (length msg) v (ground arith) h))
]
