-- ===== src/NServer/Arrival.antt =====
-- ncx_server/nserver.cpp with `handle_data_in` of network/connection.cpp: a client's hello, from the
-- socket to the control channel.
use ncx_for_mall.Prelude.{
  ℕ, ◌+◌, ◌≤◌, ◌<◌, ◌^◌, ◌≡◌, refl, sym, ap, ◌∙◌, subst, List, ◌∷◌, ◌++◌, none, some, length, ok,
}
use ncx_for_mall.Prelude.Maps.{lookup, nat_eq, text_eq, beq_self}
use ncx_for_mall.Memory.{max_size}
use ncx_for_mall.Buffer.{Buffer}
use ncx_for_mall.Buffer.Invariant.{IsValid, contents}
use ncx_for_mall.Protocol.{Wire, HeaderLaws, Hello, Content, get_field, control_channel_hello}
use ncx_for_mall.Framing.{header_installer, read_msg}
use ncx_for_mall.Framing.Frames.{read_msg-frame}
use ncx_for_mall.Socket.{ReadResult, leaves, read_loop}
use ncx_for_mall.Socket.Reading.{arrived, read_exit, read_loop_lem}
use ncx_for_mall.Connection.{hello_handler}
use ncx_for_mall.Server.{Server, Text}
use ncx_for_mall.NServer.{
  put_input, handle_control_channel_hello, handle_hello, handle_new_connection, handle_message,
  handle_data_in,
}
use ncx_for_mall.NServer.Handshake.{new_channel_of, hello_frame, greeted-found, greeted-rest}

pub handle_message-hello :
    (w : Wire) (fresh_id : Text) (p : ℕ) (s : Server)
    → (s.conn p).on_message ≡ hello_handler
    → handle_message w fresh_id p s ≡ handle_new_connection w fresh_id p s
unfolding handle_message
handle_message-hello w fresh_id p s h = rw (handle_message, h)

-- What `put_input` leaves, as a connection and as its buffer.
pub put_input-buffer :
    (s : Server) (p : ℕ) (b : Buffer) → ((put_input s p b).conn p).input_buffer ≡ b
put_input-buffer s p b = rw (beq_self p)

put_input-handler :
    (s : Server) (p : ℕ) (b : Buffer)
    → ((put_input s p b).conn p).on_message ≡ (s.conn p).on_message
put_input-handler s p b = rw (beq_self p)

handle_new_connection-read :
    (w : Wire) (fresh_id : Text) (p : ℕ) (s : Server) (msg : List ℕ) (left : Buffer)
    → read_msg w (s.conn p).input_buffer ≡ ok (some msg, left)
    → handle_new_connection w fresh_id p s
      ≡ handle_hello w (w.parse_hello msg).1 fresh_id p (put_input s p left)
unfolding handle_new_connection
handle_new_connection-read w fresh_id p s msg left r = rw r refl

pub handle_hello-control :
    (w : Wire) (hello : Hello) (content : Content) (fresh_id : Text) (p : ℕ) (s : Server)
    → hello.hello_type ≡ some control_channel_hello
    → hello.content ≡ some content
    → handle_hello w hello fresh_id p s
      ≡ ok (handle_control_channel_hello w fresh_id (get_field content.proxy_port 0) p s)
unfolding handle_hello
handle_hello-control w hello content fresh_id p s h c = rw (h, c) refl

-- A read event that brings the hello handler a message whole.
pub message-hello :
    (w : Wire) (fuel : ℕ) (calls : List ReadResult) (fresh_id : Text) (p : ℕ) (s : Server)
    (msg : List ℕ) (input left : Buffer)
    → (s.conn p).on_message ≡ hello_handler
    → read_loop (s.conn p).input_buffer calls ≡ ok (input, leaves)
    → read_msg w input ≡ ok (some msg, left)
    → handle_data_in w fuel calls fresh_id p s
      ≡ handle_hello w (w.parse_hello msg).1 fresh_id p (put_input (put_input s p input) p left)
unfolding handle_data_in
message-hello w fuel calls fresh_id p s msg input left handler e r =
    let s1 = put_input s p input in
    rw e (
      handle_message-hello w fresh_id p s1 (put_input-handler s p input ∙ handler)
      ∙ handle_new_connection-read w fresh_id p s1 msg left
          (ap (read_msg w) (put_input-buffer s p input) ∙ r))

module _ (w : Wire) (laws : HeaderLaws w) (fuel : ℕ) (calls : List ReadResult) (fresh_id : Text)
    (p : ℕ) (s : Server) (valid : IsValid (s.conn p).input_buffer)
    (fits : (s.conn p).input_buffer.write_index + length (arrived calls) ≤ max_size)
    (stays : read_exit calls ≡ leaves) (handler : (s.conn p).on_message ≡ hello_handler)
    (msg rest : List ℕ) (pos : 0 < length msg) (small : length msg < 2 ^ 32)
    (frame : contents (s.conn p).input_buffer ++ arrived calls
      ≡ header_installer w msg ++ rest) where
  -- Where a connection of the main server waits for its hello, its input buffer is valid, the data
  -- of a read event fits it and the loop ends because a call would block, and buffer and data
  -- together begin with the frame of a message that is not empty and shorter than 2^32 and that
  -- protobuf parses as a control channel's hello with content: the event returns without a fault,
  -- the control channel is found under the new nonce with the port modulo 2^16 and this connection,
  -- exactly the answer with the nonce was sent, and a valid input buffer holds the bytes behind the
  -- frame. The nonce is not in use before.
  pub control_hello_arrives :
      (content : Content)
      → (w.parse_hello msg).1.hello_type ≡ some control_channel_hello
      → (w.parse_hello msg).1.content ≡ some content
      → lookup fresh_id s.sc_map ≡ none
      → (s' : Server) × (handle_data_in w fuel calls fresh_id p s ≡ ok s')
        × (lookup fresh_id s'.sc_map ≡ some (new_channel_of (get_field content.proxy_port 0) p))
        × (s'.sends ≡ (p, hello_frame w fresh_id) ∷ s.sends)
        × IsValid (s'.conn p).input_buffer
        × (contents (s'.conn p).input_buffer ≡ rest)
  control_hello_arrives content t c unused =
      let (input, e, v, k) = read_loop_lem calls (s.conn p).input_buffer valid fits in
      let (left, r, v', k', u) = read_msg-frame w laws input msg rest v pos small (k ∙ frame) in
      let s1 = put_input (put_input s p input) p left in
      let same = put_input-buffer (put_input s p input) p left in
      let port = get_field content.proxy_port 0 in
      let (sent, kept, held, next) = greeted-rest w s1 fresh_id port p unused in
      (
        handle_control_channel_hello w fresh_id port p s1,
        message-hello w fuel calls fresh_id p s msg input left handler
              (e ∙ ap (λ x. ok (input, x)) stays) r
            ∙ handle_hello-control w (w.parse_hello msg).1 content fresh_id p s1 t c,
        greeted-found w s1 fresh_id port p unused,
        sent,
        subst IsValid (sym (ap (λ x. (x p).input_buffer) kept ∙ same)) v',
        ap (λ x. contents (x p).input_buffer) kept ∙ ap contents same ∙ k',
      )
