-- ===== src/NServer/Sound/Reads.antt =====
-- network/connection.cpp, `handle_data_in` and `handle_message`, with ncx_server/nserver.cpp: a read event
-- on any connection, with any bytes.
use ncx_for_mall.Prelude.{
  ℕ, ◌<◌, ◌≡◌, refl, sym, ◌∙◌, subst, ◌⊎◌, arith, inl, inr, List, [], ◌∷◌, Option, none, some, ◌==◌,
  if◌then◌else◌, Bool-cases, Option-cases, Fault, Result, ok, err, out_of_range, out_of_bounds,
}
use ncx_for_mall.Prelude.Maps.{lookup, nat_eq, text_eq, beq_self}
use ncx_for_mall.Buffer.{Buffer}
use ncx_for_mall.Buffer.Invariant.{IsValid, contents}
use ncx_for_mall.Protocol.{
  Wire, HeaderLaws, get_field, control_channel_hello, data_channel_hello, start_forward_tcp,
}
use ncx_for_mall.Framing.{read_msg}
use ncx_for_mall.Framing.Receive.{first_message, read_msg-any}
use ncx_for_mall.Connection.{Handler, no_handler, hello_handler, forward_to}
use ncx_for_mall.Server.{Server, SControlChannel, Text, is_alive, put_channel}
use ncx_for_mall.Server.Kept.{waiting_of}
use ncx_for_mall.NServer.{
  put_input, forward_bytes, forward, pop_visitor, find_channel, join_ends, open_bridge, log_send,
  handle_data_channel_hello, handle_hello, handle_new_connection, handle_message,
}
use ncx_for_mall.NServer.Forwarding.{forward_bytes-Forwarded}
use ncx_for_mall.NServer.Arrival.{handle_message-hello}
use ncx_for_mall.NServer.Throughput.{handle_message-forward}
use ncx_for_mall.NServer.Handshake.{command_frame}
use ncx_for_mall.NServer.Sound.{IsSound, IsQueue}
use ncx_for_mall.NServer.Sound.Events.{
  log_send-IsSound, put_input-IsSound, Forwarded-IsSound, greeted-IsSound,
}
use ncx_for_mall.NServer.Sound.Joining.{joined-IsSound}

-- With what a control channel's queue answers a data channel: nothing to object, or the access to the
-- front of an empty queue.
abbrev pub queue_fault : Option (List ℕ) → Option Fault
queue_fault none = some out_of_range
queue_fault (some []) = some out_of_bounds
queue_fault (some (v ∷ rest)) = none

-- The only faults that a hello can cause: a data channel's, with a nonce that no control channel has,
-- and one for which no visitor waits.
abbrev pub hello_fault : Wire → Server → Text → Option Fault
hello_fault w s text =
    let hello = (w.parse_hello text).1 in
    let hello_type : ℕ = get_field hello.hello_type 0 in
    if hello_type == control_channel_hello
    then none
    else if hello_type == data_channel_hello
    then queue_fault (waiting_of (lookup (get_field hello.digest []) s.sc_map))
    else none

-- A read event of connection `p` of the server `s`, with this text in the input buffer once all is
-- read, has gone on with a sound server, or the first message of the text has been refused, for
-- what `s` has under its nonce.
pub data IsHandled (w : Wire) (p : ℕ) (s : Server) (text : Text) : Result Server → Type 0 where
  goes_on : (s' : Server) → IsSound s' → IsHandled w p s text (ok s')
  refused :
      (fault : Fault)
      → (s.conn p).on_message ≡ hello_handler
      → hello_fault w s (first_message w text) ≡ some fault
      → IsHandled w p s text (err fault)

-- A data channel's hello, by the control channel found and by its queue.
pub data IsJoined (w : Wire) (cause : Option Fault) : Result Server → Type 0 where
  joins : (s' : Server) → IsSound s' → IsJoined w cause (ok s')
  refuses : (fault : Fault) → cause ≡ some fault → IsJoined w cause (err fault)

module _ (w : Wire) (s : Server) (o : ℕ) (sound : IsSound s) (old : o < s.fresh)
    (greeter : (s.conn o).on_message ≡ hello_handler) (nonce bridge_id : Text) where
  abbrev started : SControlChannel → ℕ → List ℕ → Server
  started sc v rest = log_send o (command_frame w start_forward_tcp) (
      join_ends v o (record { nonce = nonce; bridge_id = bridge_id })
        (put_channel s nonce (open_bridge bridge_id v o rest sc)))

  hello-unknown :
      lookup nonce s.sc_map ≡ none
      → handle_data_channel_hello w nonce bridge_id o s ≡ err out_of_range
  unfolding handle_data_channel_hello find_channel
  hello-unknown e = rw (e, find_channel)

  hello-empty :
      (sc : SControlChannel)
      → lookup nonce s.sc_map ≡ some sc
      → sc.wait_handle_visitors ≡ []
      → handle_data_channel_hello w nonce bridge_id o s ≡ err out_of_bounds
  unfolding handle_data_channel_hello find_channel pop_visitor
  hello-empty sc e q = rw (e, find_channel, q, pop_visitor)

  hello-visitor :
      (sc : SControlChannel) (v : ℕ) (rest : List ℕ)
      → lookup nonce s.sc_map ≡ some sc
      → sc.wait_handle_visitors ≡ v ∷ rest
      → handle_data_channel_hello w nonce bridge_id o s ≡ forward_bytes v o (started sc v rest)
  unfolding handle_data_channel_hello find_channel pop_visitor
  hello-visitor sc v rest e q = rw (e, find_channel, q, pop_visitor)

  visitor-IsJoined :
      (sc : SControlChannel) (v : ℕ) (rest : List ℕ)
      → lookup nonce s.sc_map ≡ some sc
      → sc.wait_handle_visitors ≡ v ∷ rest
      → IsJoined w
          (queue_fault (waiting_of (some sc)))
          (handle_data_channel_hello w nonce bridge_id o s)
  unfolding log_send join_ends
  visitor-IsJoined sc v rest e q =
      let t = started sc v rest in
      let good : IsSound t = log_send-IsSound o (command_frame w start_forward_tcp) _ (
        joined-IsSound s (record { nonce = nonce; bridge_id = bridge_id }) sc v o rest sound e q old
          greeter) in
      let first = subst (λ vs. IsQueue s nonce vs) q (sound.queues nonce sc e) in
      let (s', r, f) = forward_bytes-Forwarded v o t (good.buffers v first.0) in
      subst (IsJoined w (queue_fault (waiting_of (some sc))))
        (sym (hello-visitor sc v rest e q ∙ r)) (joins s' (Forwarded-IsSound v o t s' f good))

  channel-IsJoined :
      (sc : SControlChannel) (vs : List ℕ)
      → lookup nonce s.sc_map ≡ some sc
      → sc.wait_handle_visitors ≡ vs
      → IsJoined w
          (queue_fault (waiting_of (some sc)))
          (handle_data_channel_hello w nonce bridge_id o s)
  channel-IsJoined sc [] e q =
      subst (IsJoined w (queue_fault (waiting_of (some sc)))) (sym (hello-empty sc e q))
        (refuses out_of_bounds (rw q))
  channel-IsJoined sc (v ∷ rest) e q = visitor-IsJoined sc v rest e q

  data_hello-IsJoined :
      IsJoined w
        (queue_fault (waiting_of (lookup nonce s.sc_map)))
        (handle_data_channel_hello w nonce bridge_id o s)
  data_hello-IsJoined = elim (Option-cases (lookup nonce s.sc_map)) [
    | inl e ↦
        subst (IsJoined w (queue_fault (waiting_of (lookup nonce s.sc_map))))
          (sym (hello-unknown e)) (refuses out_of_range (rw e))
    | inr (sc, e) ↦
        subst
          (λ c.
            IsJoined w (queue_fault (waiting_of c))
              (handle_data_channel_hello w nonce bridge_id o s))
          (sym e) (channel-IsJoined sc sc.wait_handle_visitors e refl)
  ]

-- A hello of any type, with the faults that its message can cause.
hello-IsJoined :
    (w : Wire) (s : Server) (o : ℕ) (text fresh_id : Text)
    → IsSound s
    → o < s.fresh
    → (s.conn o).on_message ≡ hello_handler
    → IsJoined w (hello_fault w s text) (handle_hello w (w.parse_hello text).1 fresh_id o s)
unfolding handle_hello
hello-IsJoined w s o text fresh_id v old greeter =
    let hello = (w.parse_hello text).1 in
    elim (Bool-cases (get_field hello.hello_type 0 == control_channel_hello)) [
      | inl control ↦ rw control (joins _ (greeted-IsSound w fresh_id _ o s v))
      | inr other ↦ elim (Bool-cases (get_field hello.hello_type 0 == data_channel_hello)) [
        | inl channel ↦
            rw (other, channel)
              (data_hello-IsJoined w s o v old greeter (get_field hello.digest []) fresh_id)
        | inr none_of_both ↦ rw (other, none_of_both) (joins s v)
      ]
    ]

module _ (w : Wire) (laws : HeaderLaws w) (fresh_id : Text) (p : ℕ) (s : Server) (v : IsSound s)
    (old : p < s.fresh) where
  abbrev front : Text
  front = contents (s.conn p).input_buffer

  joined-IsHandled :
      (r : Result Server)
      → (s.conn p).on_message ≡ hello_handler
      → IsJoined w (hello_fault w s (first_message w front)) r
      → IsHandled w p s front r
  joined-IsHandled _ h (joins s' v') = goes_on s' v'
  joined-IsHandled _ h (refuses fault c) = refused fault h c

  some_whose :
      (text : Text)
      → (some text ≡ none) ⊎ (some text ≡ some (first_message w front))
      → text ≡ first_message w front
  some_whose text whose = ground (arith, whose)

  read-IsHandled :
      (msg : Option Text) (rest : Buffer)
      → (s.conn p).on_message ≡ hello_handler
      → read_msg w (s.conn p).input_buffer ≡ ok (msg, rest)
      → IsValid rest
      → (msg ≡ none) ⊎ (msg ≡ some (first_message w front))
      → IsHandled w p s front (handle_new_connection w fresh_id p s)
  unfolding handle_new_connection
  read-IsHandled none rest h e valid whose =
      rw e (goes_on (put_input s p rest) (put_input-IsSound s p rest valid v))
  read-IsHandled (some text) rest h e valid whose =
      let this : text ≡ first_message w front = some_whose text whose in
      rw e (
        joined-IsHandled _ h (
          subst
            (λ t.
              IsJoined w (hello_fault w s t)
                (handle_hello w (w.parse_hello text).1 fresh_id p (put_input s p rest)))
            this
            (hello-IsJoined w (put_input s p rest) p text fresh_id
              (put_input-IsSound s p rest valid v) old (rw (beq_self p) h))))

  forward-IsHandled : (peer : ℕ) → IsHandled w p s front (forward p peer s)
  unfolding forward
  forward-IsHandled peer = elim (Bool-cases (is_alive s peer)) [
    | inl a ↦
        let (s', e, f) = forward_bytes-Forwarded p peer s (v.buffers p old) in
        rw (a, e) (goes_on s' (Forwarded-IsSound p peer s s' f v))
    | inr a ↦ rw a (goes_on s v)
  ]

  handler-IsHandled :
      (h : Handler)
      → (s.conn p).on_message ≡ h
      → IsHandled w p s front (handle_message w fresh_id p s)
  unfolding handle_message
  handler-IsHandled no_handler e = rw (handle_message, e) (goes_on s v)
  handler-IsHandled hello_handler e =
      let (msg, rest, r, valid, whose) =
        read_msg-any w laws (s.conn p).input_buffer (v.buffers p old) in
      subst (IsHandled w p s front) (sym (handle_message-hello w fresh_id p s e))
        (read-IsHandled msg rest e r valid whose)
  handler-IsHandled (forward_to peer) e =
      subst (IsHandled w p s front) (sym (handle_message-forward w fresh_id p peer s e))
        (forward-IsHandled peer)

  -- In a sound server, the message handler of any connection taken so far, on any bytes in its input
  -- buffer, goes on with a sound server, unless it is the hello handler and the message at the front of
  -- the buffer is a data channel's hello with a nonce that is not in use, or one that no visitor waits
  -- for.
  pub handle_message-IsHandled : IsHandled w p s front (handle_message w fresh_id p s)
  handle_message-IsHandled = handler-IsHandled (s.conn p).on_message refl
