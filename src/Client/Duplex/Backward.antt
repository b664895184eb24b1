-- ===== src/Client/Duplex/Backward.antt =====
-- ncx_client/datachannel.cpp: what the service says goes to the server, and how a channel ends.
use ncx_for_mall.Prelude.{
  ℕ, ◌+◌, ◌≤◌, ◌<◌, ◌≡◌, refl, sym, ap, ◌∙◌, subst, inl, inr, List, [], ◌∷◌, ◌++◌, true, false,
  none, ltb, arith, Bool-cases, length, ok, err, ◌>>=◌, some, dangling, null_pointer, if◌then◌else◌,
  lt→ltb, le→ltb_false, length-append,
}
use ncx_for_mall.Memory.{max_size}
use ncx_for_mall.Buffer.{Buffer, readable_bytes, retrieve_all}
use ncx_for_mall.Buffer.Invariant.{IsValid, contents}
use ncx_for_mall.Buffer.Reads.{
  readable_bytes-length, retrieve_all_as_string_lem, retrieve_all-IsValid,
}
use ncx_for_mall.Protocol.{Wire}
use ncx_for_mall.Socket.{ReadResult, closes, leaves}
use ncx_for_mall.Socket.Reading.{arrived, read_exit, read_loop_lem}
use ncx_for_mall.Client.{
  DataChannel, forward_to_service, send_to_service, wait_data_channel_start_cmd,
}
use ncx_for_mall.Client.Relay.{sent_text, sent_text-cons, sent_text-nil}
use ncx_for_mall.Client.Duplex.{
  still_open, send_to_server, server_message, forward_to_server, service_data_in, forward_handler,
  server_handler, server_data_in,
}
use ncx_for_mall.Client.Duplex.Handlers.{server_data_in-there}

-- What a call has done that sends all of `text` to the server.
pub record Returned (d : DataChannel) (text : List ℕ) (d' : DataChannel) : Type 0 where
  pub sent : d'.to_server ≡ sent_text text ++ d.to_server
  pub same_service : d'.to_service ≡ d.to_service
  pub same_input : d'.server_input ≡ d.server_input
  pub same_forwards : d'.forwards ≡ d.forwards
  pub valid : IsValid d'.service_input
  pub emptied : contents d'.service_input ≡ []

send_to_server-ok :
    (d : DataChannel)
    → IsValid d.service_input
    → send_to_server d
      ≡ ok (record d {
        service_input = retrieve_all d.service_input;
        to_server = contents d.service_input ∷ d.to_server;
      })
unfolding send_to_server
send_to_server-ok d v = rw (retrieve_all_as_string_lem d.service_input v)

forward_to_server-Returned :
    (d : DataChannel)
    → IsValid d.service_input
    → (d' : DataChannel) × (forward_to_server d ≡ ok d')
      × Returned d (contents d.service_input) d'
      × (d'.service_open ≡ d.service_open)
unfolding forward_to_server
forward_to_server-Returned d v =
    let text = contents d.service_input in
    let l = readable_bytes-length d.service_input v in
    elim (Bool-cases (ltb 0 (length text))) [
      | inl more ↦ (
        record d {
          service_input = retrieve_all d.service_input;
          to_server = contents d.service_input ∷ d.to_server;
        },
        rw (lt→ltb 0 (readable_bytes d.service_input) (ground (arith, l))) (send_to_server-ok d v),
        record {
          sent = rw (sent_text-cons text (ground arith));
          same_service = refl;
          same_input = refl;
          same_forwards = refl;
          valid = (retrieve_all-IsValid d.service_input v).0;
          emptied = (retrieve_all-IsValid d.service_input v).1;
        },
        refl,
      )
      | inr no_more ↦
          let z : length text ≡ 0 = ground arith in
          (
            d,
            rw (le→ltb_false 0 (readable_bytes d.service_input) (omega (arith, l, z))),
            record {
              sent = rw ((sent_text-nil text z).0);
              same_service = refl;
              same_input = refl;
              same_forwards = refl;
              valid = v;
              emptied = (sent_text-nil text z).1;
            },
            refl,
          )
    ]

-- A read event on the service's connection of a data channel, with a valid input buffer that the
-- data fits, returns without a fault however its loop ends: what was in the buffer and then all
-- that arrived is sent to the server, in one text if there is any, nothing is sent to the service,
-- the buffer is valid and empty, the direction from the server is untouched, and the service's
-- client has no connection behind it just where it had none or the event closed it.
pub service_data_in-Returned :
    (calls : List ReadResult) (d : DataChannel)
    → IsValid d.service_input
    → d.service_input.write_index + length (arrived calls) ≤ max_size
    → (d' : DataChannel) × (service_data_in calls d ≡ ok d')
      × Returned d (contents d.service_input ++ arrived calls) d'
      × (d'.service_open ≡ still_open (read_exit calls) d.service_open)
unfolding service_data_in
service_data_in-Returned calls d valid fits =
    let (input, e, v, c) = read_loop_lem calls d.service_input valid fits in
    let filled = record d {
      service_input = input;
      service_open = still_open (read_exit calls) d.service_open;
    } in
    let (d', q, r, o) = forward_to_server-Returned filled v in
    (
      d',
      rw e q,
      subst (λ t. Returned d t d') c
          record {
            sent = r.sent;
            same_service = r.same_service;
            same_input = r.same_input;
            same_forwards = r.same_forwards;
            valid = r.valid;
            emptied = r.emptied;
          },
      o,
    )

-- Where the server closes the connection of a forwarding data channel in a read event, its input
-- buffer valid and the data fitting it, the channel is deleted before the handler is called. If the
-- buffer holds bytes then, from before or from this event, the λ that forwards them uses the
-- deleted channel; if it holds none, the event ends without a fault and without the channel.
pub server_data_in-closing :
    (w : Wire) (calls : List ReadResult) (d : DataChannel)
    → IsValid d.server_input
    → d.server_input.write_index + length (arrived calls) ≤ max_size
    → d.forwards ≡ true
    → read_exit calls ≡ closes
    → server_data_in w calls d ≡ (
        if ltb 0 (length (contents d.server_input ++ arrived calls)) then err dangling else ok none)
unfolding server_data_in server_handler forward_handler
server_data_in-closing w calls d valid fits on closing =
    let (input, e, v, c) = read_loop_lem calls d.server_input valid fits in
    rw (e, closing, on, readable_bytes-length input v, c) refl

forward_to_service-null_pointer :
    (d : DataChannel)
    → d.service_open ≡ false
    → 0 < readable_bytes d.server_input
    → forward_to_service d ≡ err null_pointer
unfolding forward_to_service send_to_service
forward_to_service-null_pointer d gone some_data =
    rw (lt→ltb 0 (readable_bytes d.server_input) some_data, gone) refl

server_message-null_pointer :
    (w : Wire) (d : DataChannel)
    → d.forwards ≡ true
    → d.service_open ≡ false
    → 0 < readable_bytes d.server_input
    → server_message w d ≡ err null_pointer
unfolding server_message
server_message-null_pointer w d on gone some_data =
    ap (λ b. if b then forward_to_service d else wait_data_channel_start_cmd w d) on
    ∙ forward_to_service-null_pointer d gone some_data

server_data_in-null_pointer :
    (w : Wire) (calls : List ReadResult) (d : DataChannel)
    → IsValid d.server_input
    → d.server_input.write_index + length (arrived calls) ≤ max_size
    → d.forwards ≡ true
    → d.service_open ≡ false
    → read_exit calls ≡ leaves
    → 0 < length (arrived calls)
    → server_data_in w calls d ≡ err null_pointer
server_data_in-null_pointer w calls d valid fits on gone stays some_data =
    let (input, e, v, c) = read_loop_lem calls d.server_input valid fits in
    let l = readable_bytes-length input v in
    let k : length (contents input) ≡ length (contents d.server_input) + length (arrived calls) =
      ap length c ∙ length-append (contents d.server_input) (arrived calls) in
    server_data_in-there w d calls input (e ∙ ap (λ x. ok (input, x)) stays)
    ∙ ap (λ r. r >>= λ d'. ok (some d'))
        (server_message-null_pointer w (record d { server_input = input }) on gone
          (omega (arith, l, k)))

-- Once the service has closed its connection of a forwarding data channel, in an event that sends
-- to the server what was in the buffer and then all the last bytes, the next bytes from the server,
-- in an event that does not close that connection, are sent by a null pointer. The buffers are
-- valid and the data fits them.
pub service_closes-null_pointer :
    (w : Wire) (last calls : List ReadResult) (d : DataChannel)
    → IsValid d.service_input
    → d.service_input.write_index + length (arrived last) ≤ max_size
    → read_exit last ≡ closes
    → IsValid d.server_input
    → d.server_input.write_index + length (arrived calls) ≤ max_size
    → d.forwards ≡ true
    → read_exit calls ≡ leaves
    → 0 < length (arrived calls)
    → (d' : DataChannel) × (service_data_in last d ≡ ok d')
      × (d'.to_server ≡ sent_text (contents d.service_input ++ arrived last) ++ d.to_server)
      × (server_data_in w calls d' ≡ err null_pointer)
service_closes-null_pointer w last calls d v f closing v' f' on stays some_data =
    let (d', e, r, o) = service_data_in-Returned last d v f in
    (
      d',
      e,
      r.sent,
      server_data_in-null_pointer w calls d' (subst IsValid (sym r.same_input) v')
          (subst (λ (b : Buffer). b.write_index + length (arrived calls) ≤ max_size)
            (sym r.same_input) f')
          (r.same_forwards ∙ on) (o ∙ ap (λ x. still_open x d.service_open) closing) stays
          some_data,
    )
