-- ===== src/Tests/Messages.antt =====
-- Frames over a concrete wire format.
use ncx_for_mall.Prelude.{ℕ, ◌≤◌, ◌≡◌, refl, List, [], ◌∷◌, ◌++◌, replicate, arith, none, some, ok}
use ncx_for_mall.Buffer.{Buffer}
use ncx_for_mall.Buffer.Invariant.{IsValid, contents}
use ncx_for_mall.Protocol.{serialize_header}
use ncx_for_mall.Framing.{header_installer, can_read_msg, read_msg, receive, receive_all, frames}
use ncx_for_mall.Framing.Receive.{Answer, can_read_msg_lem}
use ncx_for_mall.Framing.Frames.{read_msg-frame, read_msg-partial}
use ncx_for_mall.Framing.Stream.{Delivered, receive_all-Delivered, receive_one}
use ncx_for_mall.Tests.Samples.{
  sample_wire, sample_laws, sample_buffer, sample_buffer-IsValid, empty_buffer,
  empty_buffer-IsValid,
}

can_read_msg_lem_example :
    (n : ℕ) × (rest : Buffer) × (can_read_msg sample_wire sample_buffer ≡ ok (n, rest))
    × Answer sample_wire sample_laws sample_buffer n rest
can_read_msg_lem_example =
    can_read_msg_lem sample_wire sample_laws sample_buffer sample_buffer-IsValid

-- The frame of 7 and 8, and the beginning of another one.
abbrev frame_buffer : Buffer
frame_buffer = record {
  buffer = replicate 8 0 ++ 13 ∷ 2 ∷ 0 ∷ 0 ∷ 0 ∷ 7 ∷ 8 ∷ 13 ∷ 1 ∷ replicate 3 0;
  read_index = 8;
  write_index = 17;
}

read_msg-frame_example :
    (b' : Buffer) × (read_msg sample_wire frame_buffer ≡ ok (some (7 ∷ 8 ∷ []), b'))
    × IsValid b'
    × (contents b' ≡ 13 ∷ 1 ∷ [])
    × (b'.write_index ≤ 17)
unfolding header_installer serialize_header
read_msg-frame_example =
    read_msg-frame sample_wire sample_laws frame_buffer (7 ∷ 8 ∷ []) (13 ∷ 1 ∷ []) (omega arith)
      (omega arith) (omega arith) refl

abbrev part_buffer : Buffer
part_buffer = record frame_buffer { write_index = 14 }

read_msg-partial_example : read_msg sample_wire part_buffer ≡ ok (none, part_buffer)
unfolding header_installer serialize_header
read_msg-partial_example =
    read_msg-partial sample_wire sample_laws part_buffer (7 ∷ 8 ∷ []) (8 ∷ []) (omega arith)
      (omega arith) (omega arith) (omega arith) refl

abbrev sample_chunks : List (List ℕ)
sample_chunks = (13 ∷ 2 ∷ 0 ∷ []) ∷ (0 ∷ 0 ∷ 7 ∷ []) ∷ (8 ∷ 13 ∷ 1 ∷ 0 ∷ []) ∷ []

abbrev sample_messages : List (List ℕ)
sample_messages = (7 ∷ 8 ∷ []) ∷ (9 ∷ []) ∷ []

receive_all-Delivered_example :
    (b' : Buffer) × (receive_all sample_wire empty_buffer sample_chunks
      ≡ ok ((7 ∷ 8 ∷ []) ∷ [], b'))
    × Delivered sample_wire sample_laws (0 ∷ 0 ∷ 9 ∷ []) sample_messages ((7 ∷ 8 ∷ []) ∷ []) b'
unfolding header_installer serialize_header
receive_all-Delivered_example =
    receive_all-Delivered sample_wire sample_laws sample_chunks empty_buffer (0 ∷ 0 ∷ 9 ∷ [])
      sample_messages empty_buffer-IsValid (omega arith)
      ((omega arith, omega arith), ((omega arith, omega arith), tt)) refl

receive_one_example :
    (b' : Buffer) × (receive sample_wire empty_buffer (frames sample_wire sample_messages)
      ≡ ok (some (7 ∷ 8 ∷ []), b'))
    × IsValid b'
    × (contents b' ≡ frames sample_wire ((9 ∷ []) ∷ []))
unfolding header_installer serialize_header
receive_one_example =
    receive_one sample_wire sample_laws empty_buffer (frames sample_wire sample_messages)
      (7 ∷ 8 ∷ []) ((9 ∷ []) ∷ []) empty_buffer-IsValid (omega arith)
      ((omega arith, omega arith), ((omega arith, omega arith), tt)) refl
