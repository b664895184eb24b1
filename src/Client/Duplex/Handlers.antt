-- ===== src/Client/Duplex/Handlers.antt =====
-- ncx_client/datachannel.cpp: the handlers of the server's connection, with their `this`.
use ncx_for_mall.Prelude.{
  ℕ, ◌≡◌, refl, inl, inr, List, Option, none, some, Bool, true, false, ltb, ◌==◌, Bool-cases,
  Result, ok, err, ◌>>=◌, if◌then◌else◌,
}
use ncx_for_mall.Buffer.{Buffer, readable_bytes}
use ncx_for_mall.Protocol.{Wire, get_field, start_forward_tcp}
use ncx_for_mall.Framing.{read_msg}
use ncx_for_mall.Client.{
  DataChannel, handle_start_cmd, do_data_channel_transforward, wait_data_channel_start_cmd,
  forward_to_service,
}
use ncx_for_mall.Client.Duplex.{
  server_message, with_this, forward_handler, wait_handler, server_handler, server_data_in,
}
use ncx_for_mall.Socket.{ReadResult, leaves, read_loop}

module _ (w : Wire) (d : DataChannel) where
  forward-there : forward_handler w d (some d) ≡ (forward_to_service d >>= λ d'. ok (some d'))
  unfolding forward_handler forward_to_service
  forward-there = elim (Bool-cases (ltb 0 (readable_bytes d.server_input))) [
    | inl e ↦ rw e refl
    | inr e ↦ rw e refl
  ]

  command-there :
      (text : List ℕ) (rest : Buffer)
      → (if get_field (w.parse_command text).1.cmd 0 == start_forward_tcp
          then with_this (some (record d { server_input = rest })) do_data_channel_transforward
          else ok (some (record d { server_input = rest })))
        ≡ (handle_start_cmd w (w.parse_command text).1 (record d { server_input = rest }) >>= λ d'.
            ok (some d'))
  unfolding handle_start_cmd
  command-there text rest =
      elim (Bool-cases (get_field (w.parse_command text).1.cmd 0 == start_forward_tcp)) [
        | inl e ↦ rw e refl
        | inr e ↦ rw e refl
      ]

  read-there :
      (r : Result (Option (List ℕ) × Buffer))
      → read_msg w d.server_input ≡ r
      → wait_handler w d (some d) ≡ (wait_data_channel_start_cmd w d >>= λ d'. ok (some d'))
  unfolding wait_handler wait_data_channel_start_cmd
  read-there (err fault) e = rw e refl
  read-there (ok (none, rest)) e = rw e refl
  read-there (ok (some text, rest)) e = rw e (command-there text rest)

  branches-there :
      (test : Bool) (x y : Result (Option DataChannel)) (x' y' : Result DataChannel)
      → x ≡ (x' >>= λ d'. ok (some d'))
      → y ≡ (y' >>= λ d'. ok (some d'))
      → (if test then x else y) ≡ ((if test then x' else y') >>= λ d'. ok (some d'))
  branches-there true x y x' y' e f = e
  branches-there false x y x' y' e f = f

  -- With a channel that is there, the handlers do what its member functions do.
  pub server_handler-there :
      server_handler w d (some d) ≡ (server_message w d >>= λ d'. ok (some d'))
  unfolding server_handler server_message
  server_handler-there =
      branches-there d.forwards _ _ _ _ forward-there (read-there (read_msg w d.server_input) refl)

module _ (w : Wire) (d : DataChannel) where
  -- A read event that does not close the connection calls the handler with the channel.
  pub server_data_in-there :
      (calls : List ReadResult) (b : Buffer)
      → read_loop d.server_input calls ≡ ok (b, leaves)
      → server_data_in w calls d
        ≡ (server_message w (record d { server_input = b }) >>= λ d'. ok (some d'))
  unfolding server_data_in server_handler
  server_data_in-there calls b e = rw e (server_handler-there w (record d { server_input = b }))
