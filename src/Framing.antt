-- ===== src/Framing.antt =====
-- protocol/protoMsgUtil.h: a message goes out behind a header with its length, and is read off a
-- buffer once it is there as a whole.
pub mod Receive
pub mod Frames
pub mod Stream
use ncx_for_mall.Prelude.{
  ℕ, ◌%◌, ◌^◌, List, [], ◌∷◌, ◌++◌, Option, none, some, Result, ok, err, ◌>>=◌, length, concat, map,
  ltb, ◌==◌, if◌then◌else◌, add_size,
}
use ncx_for_mall.Buffer.{
  Buffer, append, readable_bytes, peek_as_string, retrieve, retrieve_as_string,
}
use ncx_for_mall.Protocol.{Wire, serialize_header}

-- `MSG_HEADER_LENGTH`
abbrev pub msg_header_length : ℕ
msg_header_length = 5

module _ (w : Wire) where
  unfoldable pub header_installer : List ℕ → List ℕ
  header_installer serialized_msg =
      serialize_header w (length serialized_msg % 2 ^ 32) ++ serialized_msg

  -- The part of `canReadMsg` behind the parsed header.
  unfoldable pub take_header : Buffer → ℕ → Result (ℕ × Buffer)
  take_header b message_length =
      if ltb (readable_bytes b) (add_size message_length msg_header_length)
      then ok (0, b)
      else do rest ← retrieve b msg_header_length; ok (message_length, rest)

  unfoldable pub can_read_msg : Buffer → Result (ℕ × Buffer)
  unfolding take_header
  can_read_msg b =
      if ltb (readable_bytes b) msg_header_length
      then ok (0, b)
      else do text ← peek_as_string b msg_header_length; take_header b (w.parse_header text)

  -- How every message handler begins: `CanReadMsg`, return if it is 0, and `RetrieveAsString`.
  unfoldable pub take_msg : Buffer → ℕ → Result (Option (List ℕ) × Buffer)
  take_msg b msg_len =
      if msg_len == 0
      then ok (none, b)
      else do (msg, rest) ← retrieve_as_string b msg_len; ok (some msg, rest)

  unfoldable pub read_msg : Buffer → Result (Option (List ℕ) × Buffer)
  unfolding take_msg
  read_msg b = do (msg_len, b') ← can_read_msg b; take_msg b' msg_len

  -- One read event: a chunk of the stream arrives, and the handler is called once.
  unfoldable pub receive : Buffer → List ℕ → Result (Option (List ℕ) × Buffer)
  receive b chunk = do filled ← append b chunk; read_msg filled

  unfoldable pub receive_all : Buffer → List (List ℕ) → Result (List (List ℕ) × Buffer)
  receive_all b [] = ok ([], b)
  receive_all b (chunk ∷ chunks) = do
    (got, b') ← receive b chunk
    (more, rest) ← receive_all b' chunks
    ok (elim got [ none ↦ more | some msg ↦ msg ∷ more ], rest)

  -- What a peer that sends these messages puts on the wire.
  abbrev pub frames : List (List ℕ) → List ℕ
  frames ms = concat (map header_installer ms)
