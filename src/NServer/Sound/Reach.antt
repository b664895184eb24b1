-- ===== src/NServer/Sound/Reach.antt =====
-- ncx_server/nserver.cpp, network/server.cpp and network/connection.cpp: the server over a run, as the
-- events that its loop serves one after the other.
use ncx_for_mall.Prelude.{
  ℕ, suc, ◌+◌, ◌<◌, ◌≤◌, ◌≡◌, refl, sym, ap, ◌∙◌, subst, List, [], ◌++◌, arith, length, Result, ok,
}
use ncx_for_mall.Prelude.Maps.{lookup, nat_eq, text_eq, beq_self}
use ncx_for_mall.Memory.{max_size}
use ncx_for_mall.Buffer.Invariant.{contents}
use ncx_for_mall.Protocol.{Wire, HeaderLaws, get_field}
use ncx_for_mall.Framing.Receive.{first_message}
use ncx_for_mall.Socket.{ReadResult, Exit, closes}
use ncx_for_mall.Socket.Reading.{arrived, read_exit, read_loop_lem}
use ncx_for_mall.Connection.{Connection, Owner}
use ncx_for_mall.Server.{Server, Text, handle_close}
use ncx_for_mall.Server.Fuel.{bridge_count, handle_close-Ends}
use ncx_for_mall.Server.Kept.{Kept, Kept-refl, waiting_of}
use ncx_for_mall.NServer.{put_input, new_connection_handle, handle_message, handle_data_in}
use ncx_for_mall.NServer.Sound.{IsSound, Kept-IsSound}
use ncx_for_mall.NServer.Sound.Events.{put_input-IsSound}
use ncx_for_mall.NServer.Sound.Arriving.{new_connection_handle-IsSound}
use ncx_for_mall.NServer.Sound.Reads.{
  IsHandled, hello_fault, goes_on, refused, handle_message-IsHandled,
}

-- The fuel of a close: one more than there are bridges.
abbrev pub enough : Server → ℕ
enough s = suc (bridge_count s.sc_map)

-- One event that returns: a connection that the main server or a proxy server accepts, a read event
-- with the results of its system calls and the id that the generator would give, and the close of a
-- connection.
pub data ServerEvent (w : Wire) (s : Server) : Server → Type 0 where
  accepts :
      (owner : Owner) (conn_id client_fd : ℕ)
      → ServerEvent w s (new_connection_handle w owner conn_id client_fd s)
  reads :
      (p : ℕ) (calls : List ReadResult) (fresh_id : Text) (s' : Server)
      → p < s.fresh
      → (s.conn p).input_buffer.write_index + length (arrived calls) ≤ max_size
      → handle_data_in w (enough s) calls fresh_id p s ≡ ok s'
      → ServerEvent w s s'
  ends : (p : ℕ) (s' : Server) → handle_close (enough s) p s ≡ ok s' → ServerEvent w s s'

-- The server before the first connection.
abbrev pub first_server : (ℕ → Connection) → Server
first_server conn = record {
  conn = conn;
  fresh = 0;
  connections = [];
  sc_map = [];
  calls = [];
  sends = [];
}

pub data Reach (w : Wire) : Server → Type 0 where
  starts : (conn : ℕ → Connection) → Reach w (first_server conn)
  later : {s t : Server} → Reach w s → ServerEvent w s t → Reach w t

first_server-IsSound : (conn : ℕ → Connection) → IsSound (first_server conn)
first_server-IsSound conn = record {
  buffers = λ q l. absurd (omega arith);
  greeters = λ q l h. absurd (omega arith);
  queues = λ nonce sc f. absurd (cc);
  bridges = λ nonce sc f id br g. absurd (cc);
}

-- The server between the reads of a read event and the message handler.
record Filled (s : Server) (p : ℕ) (bytes : Text) (s' : Server) : Type 0 where
  kept_count : s'.fresh ≡ s.fresh
  sound : IsSound s'
  bytes_in : contents (s'.conn p).input_buffer ≡ contents (s.conn p).input_buffer ++ bytes
  same_handler : (s'.conn p).on_message ≡ (s.conn p).on_message
  same_waiting :
      (nonce : Text) → waiting_of (lookup nonce s'.sc_map) ≡ waiting_of (lookup nonce s.sc_map)

-- A hello meets the same queues in both.
Filled-hello_fault :
    (w : Wire) (p : ℕ) (s : Server) (bytes : Text) (s' : Server) (text : Text)
    → Filled s p bytes s'
    → hello_fault w s' text ≡ hello_fault w s text
Filled-hello_fault w p s bytes s' text f =
    rw (f.same_waiting (get_field (w.parse_hello text).1.digest [])) refl

Filled-IsHandled :
    (w : Wire) (p : ℕ) (s : Server) (bytes : Text) (s' : Server)
    → Filled s p bytes s'
    → (r : Result Server) → IsHandled w p s' (contents (s'.conn p).input_buffer) r
    → IsHandled w p s (contents (s.conn p).input_buffer ++ bytes) r
Filled-IsHandled w p s bytes s' f _ (goes_on t v) = goes_on t v
Filled-IsHandled w p s bytes s' f _ (refused fault h c) = refused fault (sym f.same_handler ∙ h) (
    sym (Filled-hello_fault w p s bytes s' _ f)
    ∙ ap (λ text. hello_fault w s' (first_message w text)) (sym f.bytes_in)
    ∙ c)

module _ (w : Wire) (laws : HeaderLaws w) where
  ended-IsSound :
      (p : ℕ) (s s' : Server) → IsSound s → handle_close (enough s) p s ≡ ok s' → IsSound s'
  ended-IsSound p s s' v e =
      let done = handle_close-Ends (enough s) p s (omega arith) in
      let same : ok done.state ≡ ok s' = sym done.returns ∙ e in
      subst IsSound (cc) (Kept-IsSound s done.state done.kept v)

  exit-Kept :
      (exit : Exit) (p : ℕ) (s : Server)
      → (s' : Server) × (elim exit [ closes ↦ handle_close (enough s) p s | _ ↦ ok s ] ≡ ok s')
        × Kept s s'
  exit-Kept closes p s =
      let done = handle_close-Ends (enough s) p s (omega arith) in
      (done.state, done.returns, done.kept)
  exit-Kept _ p s = (s, refl, Kept-refl s)

  module _ (p : ℕ) (calls : List ReadResult) (fresh_id : Text) (s : Server) (v : IsSound s)
      (old : p < s.fresh)
      (fits : (s.conn p).input_buffer.write_index + length (arrived calls) ≤ max_size) where
    data_in-Filled :
        (s' : Server) × Filled s p (arrived calls) s'
        × (handle_data_in w (enough s) calls fresh_id p s ≡ handle_message w fresh_id p s')
    unfolding handle_data_in
    data_in-Filled =
        let (input, e, valid, c) =
          read_loop_lem calls (s.conn p).input_buffer (v.buffers p old) fits in
        let filled = put_input s p input in
        let (s', q, k) = exit-Kept (read_exit calls) p filled in
        (
          s',
          record {
            kept_count = k.same_fresh;
            sound = Kept-IsSound filled s' k (put_input-IsSound s p input valid v);
            bytes_in = ap contents (k.ends p).same_input ∙ ap contents (rw (beq_self p)) ∙ c;
            same_handler = (k.ends p).same_handler ∙ rw (beq_self p) refl;
            same_waiting = k.same_waiting;
          },
          rw (e, q),
        )

    -- In a sound server, a read event on any connection taken so far, with any data that its input
    -- buffer has room for and any end of the loop, goes on with a sound server, unless a data
    -- channel's hello is refused: the connection still waits for its hello, and the message at the
    -- front of what was in the buffer and then all that arrived names a control channel that this
    -- server does not have, or one for which no visitor waits in it.
    pub handle_data_in-IsHandled :
        IsHandled w p s
          (contents (s.conn p).input_buffer ++ arrived calls)
          (handle_data_in w (enough s) calls fresh_id p s)
    handle_data_in-IsHandled =
        let (s', f, e) = data_in-Filled in
        subst (IsHandled w p s (contents (s.conn p).input_buffer ++ arrived calls)) (sym e) (
          Filled-IsHandled w p s (arrived calls) s' f _ (
            handle_message-IsHandled w laws fresh_id p s' f.sound
              (omega (arith, old, f.kept_count))))

  handled-IsSound :
      (p : ℕ) (s s' : Server) (text : Text) (r : Result Server)
      → IsHandled w p s text r
      → r ≡ ok s'
      → IsSound s'
  handled-IsSound p s s' text _ (goes_on t v) e = subst IsSound (cc) v
  handled-IsSound p s s' text _ (refused fault h c) e = absurd (cc)

  ServerEvent-IsSound : {s t : Server} → ServerEvent w s t → IsSound s → IsSound t
  ServerEvent-IsSound {s} (accepts owner conn_id client_fd) v =
      new_connection_handle-IsSound w owner conn_id client_fd s v
  ServerEvent-IsSound {s} (reads p calls fresh_id t old fits e) v =
      handled-IsSound p s t _ _ (handle_data_in-IsHandled p calls fresh_id s v old fits) e
  ServerEvent-IsSound {s} (ends p t e) v = ended-IsSound p s t v e

  -- Every state that the server comes to from its start, by connections of its main server and its
  -- proxy servers, read events with any bytes that the input buffer has room for, and closes, in
  -- any order, is sound: all input buffers are valid, only the main server's connections wait for a
  -- hello, each queue holds visitors of its own proxy server that nothing reads, each of them once,
  -- and each bridge is between a visitor of its proxy server and a connection of the main server
  -- that forward to each other and whose closing cuts off this bridge.
  pub Reach-IsSound : (s : Server) → Reach w s → IsSound s
  Reach-IsSound _ (starts conn) = first_server-IsSound conn
  Reach-IsSound _ (later {s} r step) = ServerEvent-IsSound step (Reach-IsSound s r)
