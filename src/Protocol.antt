-- ===== src/Protocol.antt =====
-- protocol/protocol.proto and the generated protocol/protocol.pb.cc: the messages, and how they are
-- written field by field. The writers of single fields and the table-driven parser belong to the
-- protobuf library; they are the fields of `Wire`.
use ncx_for_mall.Prelude.{
  ℕ, ◌<◌, ◌^◌, ◌≡◌, Bool, List, [], ◌++◌, Option, none, some, length, ◌==◌, if◌then◌else◌,
}

-- An open enumeration is its number; these are its names.
abbrev pub control_channel_hello : ℕ
control_channel_hello = 0

abbrev pub data_channel_hello : ℕ
data_channel_hello = 1

abbrev pub create_data_channel : ℕ
create_data_channel = 0

abbrev pub heartbeat : ℕ
heartbeat = 1

abbrev pub start_forward_tcp : ℕ
start_forward_tcp = 0

abbrev pub start_forward_udp : ℕ
start_forward_udp = 1

-- `Hello.Control_Channel_Hello_Content`
pub record Content : Type 0 where
  pub service_name : Option (List ℕ)
  pub proxy_port : Option ℕ

pub record Hello : Type 0 where
  pub hello_type : Option ℕ
  pub digest : Option (List ℕ)
  pub content : Option Content

-- `ControlChannelCmd`, `DataChannelCmd` and `Ack` hold one optional enumeration each.
pub record Command : Type 0 where
  pub cmd : Option ℕ

-- A getter returns the field, or its default.
abbrev pub get_field {ℓ} : {A : Type ℓ} → Option A → A → A
get_field none d = d
get_field (some a) d = a

-- Each field is written if it is present.
abbrev pub if_present {ℓ} : {A : Type ℓ} → Option A → (A → List ℕ) → List ℕ
if_present none write = []
if_present (some a) write = write a

pub record Wire : Type 0 where
  -- `WireFormatLite::WriteFixed32ToArray`, `WriteEnumToArray`, `WriteInt32ToArray`,
  -- `WriteStringMaybeAliased` and `InternalWriteMessage`, each with its field number
  pub write_fixed32 : ℕ → ℕ → List ℕ
  pub write_enum : ℕ → ℕ → List ℕ
  pub write_int32 : ℕ → ℕ → List ℕ
  pub write_string : ℕ → List ℕ → List ℕ
  pub write_message : ℕ → List ℕ → List ℕ
  -- the message length after `ParseFromString`, whatever that returns
  pub parse_header : List ℕ → ℕ
  -- the result of `ParseFromString` and the message after it
  pub parse_hello : List ℕ → Bool × Hello
  pub parse_command : List ℕ → Bool × Command

-- `MessageHeader::_InternalSerialize`, `Hello_Control_Channel_Hello_Content::…` and so on
module _ (w : Wire) where
  unfoldable pub serialize_header : ℕ → List ℕ
  serialize_header message_length =
      if message_length == 0 then [] else w.write_fixed32 1 message_length

  unfoldable pub serialize_content : Content → List ℕ
  serialize_content c =
      if_present c.service_name (w.write_string 1) ++ if_present c.proxy_port (w.write_int32 2)

  unfoldable pub serialize_hello : Hello → List ℕ
  serialize_hello h =
      if_present h.hello_type (w.write_enum 1)
      ++ (if_present h.digest (w.write_string 2)
          ++ if_present h.content (λ c. w.write_message 3 (serialize_content c)))

  unfoldable pub serialize_command : Command → List ℕ
  serialize_command c = if_present c.cmd (w.write_enum 1)

  -- What the program relies on: a fixed32 field takes a tag and four bytes, and comes back as
  -- written; a field of four bytes holds less than 2^32.
  pub record HeaderLaws : Type 0 where
    pub fixed32_length : (n : ℕ) → length (w.write_fixed32 1 n) ≡ 5
    pub header_back : (n : ℕ) → n < 2 ^ 32 → w.parse_header (w.write_fixed32 1 n) ≡ n
    pub header_bound : (bytes : List ℕ) → w.parse_header bytes < 2 ^ 32
