-- ===== src/Address.antt =====
-- network/InetAddress.h and network/InetAddress.cpp: an address of the internet. The conversions of
-- <arpa/inet.h> are a parameter.
use ncx_for_mall.Prelude.{ℕ, ◌%◌, ◌^◌, List}

pub record Inet : Type 0 where
  pub inet_addr : List ℕ → ℕ
  pub inet_ntoa : ℕ → List ℕ
  pub htons : ℕ → ℕ
  pub ntohs : ℕ → ℕ

-- `sockaddr_in`
pub record InetAddress : Type 0 where
  pub s_addr : ℕ
  pub sin_port : ℕ

-- A narrowing conversion to `uint16_t`, and one of a 64-bit integer to `int`.
abbrev pub to_uint16 : ℕ → ℕ
to_uint16 n = n % 2 ^ 16

abbrev pub to_int : ℕ → ℕ
to_int n = n % 2 ^ 32

module _ (n : Inet) where
  -- The constructor from a text and a port, which is a `uint16_t`.
  unfoldable pub inet_address : List ℕ → ℕ → InetAddress
  inet_address ip port = record { s_addr = n.inet_addr ip; sin_port = n.htons port }

  unfoldable pub get_ip : InetAddress → List ℕ
  get_ip a = n.inet_ntoa a.s_addr

  unfoldable pub get_port : InetAddress → ℕ
  get_port a = n.ntohs a.sin_port
