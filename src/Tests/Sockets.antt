-- ===== src/Tests/Sockets.antt =====
-- The loops on a socket, and the channel of a descriptor, at concrete results.
use ncx_for_mall.Prelude.{ℕ, ◌≡◌, ◌≢◌, refl, List, [], ◌∷◌, ◌++◌, take, arith, true, ok}
use ncx_for_mall.Buffer.{Buffer}
use ncx_for_mall.Buffer.Invariant.{IsValid, contents}
use ncx_for_mall.Socket.{
  ReadResult, bytes, interrupted, end_of_file, leaves, closes, read_loop, accepted, again,
  interrupts,
}
use ncx_for_mall.Socket.Reading.{read_loop_lem}
use ncx_for_mall.Socket.Writing.{Sent, send_whole, send_partial, send_blocked}
use ncx_for_mall.Channel.{
  Channel, ctl_mod, ctl_del, enable_read, enable_write, disable_all, set_et, remove, listen,
  ask_all, new_channel,
}
use ncx_for_mall.Channel.Registration.{InTouch, ask_all-new_channel, ask-removed, listen-set_et}
use ncx_for_mall.Tests.Samples.{
  sample_buffer, sample_buffer-IsValid, empty_buffer, empty_buffer-IsValid,
}

abbrev sample_reads : List ReadResult
sample_reads = bytes (4 ∷ 5 ∷ []) ∷ interrupted ∷ bytes (6 ∷ []) ∷ end_of_file ∷ bytes (7 ∷ []) ∷ []

read_loop_lem_example :
    (input' : Buffer) × (read_loop sample_buffer sample_reads ≡ ok (input', closes))
    × IsValid input'
    × (contents input' ≡ 1 ∷ 2 ∷ 3 ∷ 4 ∷ 5 ∷ 6 ∷ [])
read_loop_lem_example = read_loop_lem sample_reads sample_buffer sample_buffer-IsValid (omega arith)

abbrev sample_msg : List ℕ
sample_msg = 1 ∷ 2 ∷ 3 ∷ []

send_whole_example :
    Sent empty_buffer sample_msg (interrupts ∷ interrupts ∷ accepted 3 ∷ []) sample_msg leaves
send_whole_example =
    send_whole empty_buffer sample_msg empty_buffer-IsValid refl (omega arith) (omega arith) 2 []

send_partial_example :
    Sent empty_buffer sample_msg (accepted 2 ∷ accepted 3 ∷ []) (1 ∷ 2 ∷ 1 ∷ 2 ∷ 3 ∷ []) leaves
    × (take 2 sample_msg ++ sample_msg ≢ sample_msg)
send_partial_example =
    send_partial empty_buffer sample_msg empty_buffer-IsValid refl (omega arith) (omega arith) 2 []
      (omega arith) (omega arith)

send_blocked_example : Sent empty_buffer sample_msg (accepted 2 ∷ again ∷ []) (1 ∷ 2 ∷ []) leaves
send_blocked_example =
    send_blocked empty_buffer sample_msg empty_buffer-IsValid refl (omega arith) (omega arith) 2 []
      (omega arith)

ask_all-new_channel_example :
    InTouch
      (ask_all (new_channel 7) (enable_read ∷ enable_write ∷ disable_all ∷ []) []).0
      (ask_all (new_channel 7) (enable_read ∷ enable_write ∷ disable_all ∷ []) []).1
ask_all-new_channel_example =
    ask_all-new_channel 7 enable_read (enable_write ∷ disable_all ∷ []) (tt, (tt, (tt, tt)))

abbrev sample_channel : Channel
sample_channel = record { fd = 7; listen_events = 3; ready_events = 0; is_epolled = true }

ask-removed_example :
    (ask_all sample_channel (remove ∷ enable_read ∷ []) []).1
    ≡ ctl_mod 7 (listen sample_channel enable_read).listen_events ∷ ctl_del 7 ∷ []
ask-removed_example = ask-removed sample_channel [] enable_read refl tt

listen-set_et_example : listen sample_channel set_et ≡ sample_channel
listen-set_et_example = listen-set_et sample_channel (omega arith)
