-- ===== src/Tests/Samples.antt =====
-- Values for the tests: a wire format as protocol/protocol.pb.cc writes it for small values, and two
-- buffers with and without bytes.
use ncx_for_mall.Prelude.{
  ℕ, ◌+◌, ◌*◌, ◌/◌, ◌%◌, ◌^◌, ◌<◌, refl, List, [], ◌∷◌, ◌++◌, replicate, drop, get_or, none, some,
  true, length, arith,
}
use ncx_for_mall.Buffer.{Buffer}
use ncx_for_mall.Buffer.Invariant.{IsValid}
use ncx_for_mall.Protocol.{Wire, HeaderLaws}

abbrev pub le_bytes : ℕ → List ℕ
le_bytes n = n % 256 ∷ n / 256 % 256 ∷ n / 65536 % 256 ∷ n / 16777216 % 256 ∷ []

abbrev pub of_le_bytes : List ℕ → ℕ
of_le_bytes (tag ∷ a ∷ b ∷ c ∷ d ∷ rest) = (a + 256 * b + 65536 * c + 16777216 * d) % 2 ^ 32
of_le_bytes _ = 0

abbrev pub sample_wire : Wire
sample_wire = record {
  write_fixed32 = λ field n. (field * 8 + 5) ∷ le_bytes n;
  write_enum = λ field n. (field * 8) ∷ n ∷ [];
  write_int32 = λ field n. (field * 8) ∷ n ∷ [];
  write_string = λ field text. (field * 8 + 2) ∷ length text ∷ text;
  write_message = λ field text. (field * 8 + 2) ∷ length text ∷ text;
  parse_header = of_le_bytes;
  -- the answer of a server, with the nonce behind four bytes
  parse_hello =
      λ text. (true, record { hello_type = some 0; digest = some (drop 4 text); content = none });
  parse_command = λ text. (true, record { cmd = some (get_or text 1 0) });
}

of_le_bytes_bound : (bytes : List ℕ) → of_le_bytes bytes < 2 ^ 32
of_le_bytes_bound bytes = ground arith

pub sample_laws : HeaderLaws sample_wire
sample_laws = record {
  fixed32_length = λ n. refl;
  header_back = λ n h. omega arith;
  header_bound = of_le_bytes_bound;
}

-- A buffer of 16 bytes that holds 1, 2 and 3.
abbrev pub sample_buffer : Buffer
sample_buffer = record {
  buffer = replicate 8 0 ++ 1 ∷ 2 ∷ 3 ∷ replicate 5 0;
  read_index = 8;
  write_index = 11;
}

pub sample_buffer-IsValid : IsValid sample_buffer
sample_buffer-IsValid = omega arith

-- The same, without bytes in it.
abbrev pub empty_buffer : Buffer
empty_buffer = record { buffer = replicate 16 0; read_index = 8; write_index = 8 }

pub empty_buffer-IsValid : IsValid empty_buffer
empty_buffer-IsValid = omega arith
