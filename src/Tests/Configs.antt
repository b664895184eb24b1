-- ===== src/Tests/Configs.antt =====
-- Configuration files and a gateway, with small stand-ins for the libraries.
use ncx_for_mall.Prelude.{
  ℕ, ◌%◌, ◌^◌, ◌<◌, ◌≡◌, refl, List, [], ◌∷◌, Option, none, some, Bool, true, false, if◌then◌else◌,
  codes, arith,
}
use ncx_for_mall.Prelude.Maps.{text_beq}
use ncx_for_mall.Exceptions.{Text, is_some, value}
use ncx_for_mall.Exceptions.Rules.{Loads}
use ncx_for_mall.Address.{Inet, inet_address}
use ncx_for_mall.Config.{
  Toml, TomlLaws, CControlChannelArgs, parse_as_server_args, parse_local_config,
}
use ncx_for_mall.Config.Parsed.{
  described_server_file, described_client_file, parse_as_server_args-Loads,
  parse_local_config-Loads,
}

-- An address is one number, and network byte order is that of the host.
abbrev pub first_number : Text → ℕ
first_number [] = 0
first_number (a ∷ rest) = a % 2 ^ 32

abbrev pub sample_inet : Inet
sample_inet = record {
  inet_addr = first_number;
  inet_ntoa = λ a. a ∷ [];
  htons = λ p. p;
  ntohs = λ p. p;
}

first_number-bound : (text : Text) → first_number text < 2 ^ 32
first_number-bound [] = omega arith
first_number-bound (a ∷ rest) = omega arith

mutual
  pub data Node : Type 0 where
    table_node : Table → Node
    string_node : Text → Node
    integer_node : ℕ → Node

  pub data Table : Type 0 where
    no_entries : Table
    with_entry : Text → Node → Table → Table

abbrev pub find_entry : Table → Text → Option Node
find_entry no_entries key = none
find_entry (with_entry k v rest) key = if text_beq k key then some v else find_entry rest key

abbrev pub list_entries : Table → List (Text × Node)
list_entries no_entries = []
list_entries (with_entry k v rest) = (k, v) ∷ list_entries rest

abbrev pub node_table : Node → Option Table
node_table (table_node table) = some table
node_table _ = none

abbrev pub node_string : Node → Option Text
node_string (string_node text) = some text
node_string _ = none

abbrev pub node_integer : Node → Option ℕ
node_integer (integer_node number) = some number
node_integer _ = none

abbrev pub node_empty : Node → Bool
node_empty (table_node no_entries) = true
node_empty _ = false

abbrev pub sample_toml : Toml
sample_toml = record {
  Node = Node;
  Table = Table;
  is_empty = node_empty;
  is_table = λ n. is_some (node_table n);
  is_string = λ n. is_some (node_string n);
  is_integer = λ n. is_some (node_integer n);
  as_table = node_table;
  as_string = node_string;
  as_integer = node_integer;
  at_path = find_entry;
  entries = list_entries;
}

pub sample_toml_laws : TomlLaws sample_toml
sample_toml_laws = record {
  table_cast = λ n. refl;
  string_cast = λ n. refl;
  integer_cast = λ n. refl;
}

abbrev server_file : Node
server_file = table_node (
    with_entry (codes "server")
      (table_node (
        with_entry (codes "server_ip") (string_node (10 ∷ [])) (
          with_entry (codes "server_port") (integer_node 8082)
            (with_entry (codes "backlog") (integer_node 1024) no_entries))))
      no_entries)

parse_as_server_args-Loads_example :
    Loads
      (parse_as_server_args sample_inet sample_toml server_file)
      (described_server_file sample_inet sample_toml server_file)
parse_as_server_args-Loads_example =
    parse_as_server_args-Loads sample_inet sample_toml sample_toml_laws server_file refl

abbrev pub client_file : Node
client_file = table_node (
    with_entry (codes "client")
      (table_node (
        with_entry (codes "server_ip") (string_node (10 ∷ []))
          (with_entry (codes "server_port") (integer_node 8082) no_entries)))
      (with_entry (codes "mysql")
        (table_node (
          with_entry (codes "service_ip") (string_node (127 ∷ [])) (
            with_entry (codes "service_port") (integer_node 3306)
              (with_entry (codes "proxy_port") (integer_node 70000) no_entries))))
        no_entries))

parse_local_config-Loads_example :
    Loads
      (parse_local_config sample_inet sample_toml client_file)
      (described_client_file sample_inet sample_toml client_file)
parse_local_config-Loads_example =
    parse_local_config-Loads sample_inet sample_toml sample_toml_laws client_file

abbrev client_args : List CControlChannelArgs
client_args =
    record {
      server_addr = record { s_addr = 10; sin_port = 8082 };
      service_name = codes "mysql";
      service_addr = record { s_addr = 127; sin_port = 3306 };
      proxy_port = 4464;
    }
    ∷ []

client_file-args : parse_local_config sample_inet sample_toml client_file ≡ value client_args
unfolding parse_local_config inet_address
client_file-args = refl
