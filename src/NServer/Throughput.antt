-- ===== src/NServer/Throughput.antt =====
-- network/connection.cpp, `handle_data_in`, with the λs of ncx_server/nserver.cpp: from the socket of
-- one end of a bridge to the other end.
use ncx_for_mall.Prelude.{ℕ, ◌+◌, ◌≤◌, ◌≡◌, sym, ap, ◌∙◌, List, [], ◌++◌, true, length, ok}
use mathlib.Core.Path.{subst}
use ncx_for_mall.Prelude.Maps.{nat_eq, beq_self}
use ncx_for_mall.Memory.{max_size}
use ncx_for_mall.Buffer.{Buffer}
use ncx_for_mall.Buffer.Invariant.{IsValid, contents}
use ncx_for_mall.Protocol.{Wire}
use ncx_for_mall.Socket.{ReadResult, leaves, read_loop}
use ncx_for_mall.Socket.Reading.{arrived, read_exit, read_loop_lem}
use ncx_for_mall.Connection.{Connection, forward_to}
use ncx_for_mall.Server.{Server, Text, is_alive}
use ncx_for_mall.NServer.{put_input, forward_bytes, forward, handle_message, handle_data_in}
use ncx_for_mall.NServer.Forwarding.{pending, forward_bytes-Forwarded}

pub handle_message-forward :
    (w : Wire) (fresh_id : Text) (p peer : ℕ) (s : Server)
    → (s.conn p).on_message ≡ forward_to peer
    → handle_message w fresh_id p s ≡ forward p peer s
unfolding handle_message
handle_message-forward w fresh_id p peer s h = rw (handle_message, h)

pub forward-alive :
    (p peer : ℕ) (s : Server) → is_alive s peer ≡ true → forward p peer s ≡ forward_bytes p peer s
unfolding forward
forward-alive p peer s h = rw h

module _ (w : Wire) (fuel : ℕ) (calls : List ReadResult) (fresh_id : Text) (p peer : ℕ) (s : Server)
    (valid : IsValid (s.conn p).input_buffer)
    (fits : (s.conn p).input_buffer.write_index + length (arrived calls) ≤ max_size)
    (stays : read_exit calls ≡ leaves) (handler : (s.conn p).on_message ≡ forward_to peer)
    (alive : is_alive s peer ≡ true) where
  message-forwarded :
      (input : Buffer)
      → handle_message w fresh_id p (put_input s p input)
        ≡ forward_bytes p peer (put_input s p input)
  message-forwarded input =
      handle_message-forward w fresh_id p peer (put_input s p input) (rw (beq_self p) handler)
      ∙ forward-alive p peer (put_input s p input) alive

  data_in-forwarded :
      (input : Buffer)
      → read_loop (s.conn p).input_buffer calls ≡ ok (input, leaves)
      → handle_data_in w fuel calls fresh_id p s ≡ forward_bytes p peer (put_input s p input)
  unfolding handle_data_in
  data_in-forwarded input e = rw e (message-forwarded input)

  -- A read event on a connection whose handler forwards to a living peer, with a valid input buffer
  -- that the data fits and a loop that ends because a call would block, returns without a fault: it
  -- has sent all that was in the input buffer and then all that arrived to the peer, in one text if
  -- there was any, and leaves a valid, empty input buffer.
  pub data_through :
      (s' : Server) × (handle_data_in w fuel calls fresh_id p s ≡ ok s')
      × (s'.sends ≡ pending peer (contents (s.conn p).input_buffer ++ arrived calls) ++ s.sends)
      × IsValid (s'.conn p).input_buffer
      × (contents (s'.conn p).input_buffer ≡ [])
  data_through =
      let (input, e, v, c) = read_loop_lem calls (s.conn p).input_buffer valid fits in
      let same : (put_input s p input).conn p ≡ record (s.conn p) { input_buffer = input } =
        rw (beq_self p) in
      let v' = subst (λ (x : Connection). IsValid x.input_buffer) (sym same) v in
      let (s', q, f) = forward_bytes-Forwarded p peer (put_input s p input) v' in
      (
        s',
        data_in-forwarded input (e ∙ ap (λ x. ok (input, x)) stays) ∙ q,
        f.sent
            ∙ ap (λ (x : Connection). pending peer (contents x.input_buffer) ++ s.sends) same
            ∙ ap (λ t. pending peer t ++ s.sends) c,
        f.valid,
        f.emptied,
      )
