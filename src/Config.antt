-- ===== src/Config.antt =====
-- util/config.h: the configuration files of server and client. The TOML library is a parameter; a
-- 64-bit integer is its bit pattern. A `throw` inside the `try` is printed and ends the program.
pub mod Parsed
pub mod Remote
use ncx_for_mall.Prelude.{
  ℕ, List, [], ◌∷◌, ◌++◌, Option, none, some, Bool, true, false, if◌then◌else◌, ◌≡◌, codes,
}
use ncx_for_mall.Prelude.Maps.{text_beq}
use ncx_for_mall.Exceptions.{
  Text, is_some, Reason, config_empty, not_a_table, section_missing, field_missing,
  service_not_a_table, service_field_missing, Try, value, throws, exits, crashes, ◌>>=◌, catch_exit,
  not_null, deref, require,
}
use ncx_for_mall.Address.{Inet, InetAddress, inet_address, to_uint16, to_int}

-- toml++: `at_path`, the tests and casts of a node, and `for_each`, by its order.
pub record Toml : Type 1 where
  pub Node : Type 0
  pub Table : Type 0
  pub is_empty : Node → Bool
  pub is_table : Node → Bool
  pub is_string : Node → Bool
  pub is_integer : Node → Bool
  pub as_table : Node → Option Table
  pub as_string : Node → Option Text
  pub as_integer : Node → Option ℕ
  pub at_path : Table → Text → Option Node
  pub entries : Table → List (Text × Node)

-- A cast gives a null pointer just where the test fails.
pub record TomlLaws (t : Toml) : Type 0 where
  pub table_cast : (n : t.Node) → is_some (t.as_table n) ≡ t.is_table n
  pub string_cast : (n : t.Node) → is_some (t.as_string n) ≡ t.is_string n
  pub integer_cast : (n : t.Node) → is_some (t.as_integer n) ≡ t.is_integer n

-- `ServerArgs` and `CControlChannelArgs`
pub record ServerArgs : Type 0 where
  pub server_addr : InetAddress
  pub backlog : ℕ

pub record CControlChannelArgs : Type 0 where
  pub server_addr : InetAddress
  pub service_name : Text
  pub service_addr : InetAddress
  pub proxy_port : ℕ

module _ (n : Inet) (t : Toml) where
  -- The checks on the root and on a section, which both parsers begin with.
  unfoldable pub root_table : t.Node → Try t.Table
  root_table config = not_null not_a_table (t.as_table config)

  unfoldable pub section : Text → t.Table → Try t.Table
  section key table = do
    node ← require t.is_table section_missing (t.at_path table key)
    deref (t.as_table node)

  unfoldable pub server_fields : t.Table → Try ServerArgs
  server_fields table = do
    ip_node ←
        require t.is_string (field_missing (codes "server_ip"))
          (t.at_path table (codes "server_ip"))
    port_node ←
        require t.is_integer (field_missing (codes "server_port"))
          (t.at_path table (codes "server_port"))
    backlog_node ←
        require t.is_integer (field_missing (codes "backlog")) (t.at_path table (codes "backlog"))
    server_ip ← deref (t.as_string ip_node)
    server_port ← deref (t.as_integer port_node)
    backlog ← deref (t.as_integer backlog_node)
    value (record {
      server_addr = inet_address n server_ip (to_uint16 (to_int server_port));
      backlog = to_int backlog;
    })

  -- `ServerConfig::parseAsServerArgs`; its first check stands before the `try`.
  unfoldable pub parse_as_server_args : t.Node → Try ServerArgs
  unfolding root_table section server_fields
  parse_as_server_args config =
      if t.is_empty config
      then throws config_empty
      else catch_exit (root_table config >>= section (codes "server") >>= server_fields)

  unfoldable pub client_server_addr : t.Table → Try InetAddress
  client_server_addr table = do
    ip_node ←
        require t.is_string (field_missing (codes "server_ip"))
          (t.at_path table (codes "server_ip"))
    port_node ←
        require t.is_integer (field_missing (codes "server_port"))
          (t.at_path table (codes "server_port"))
    server_ip ← deref (t.as_string ip_node)
    server_port ← deref (t.as_integer port_node)
    value (inet_address n server_ip (to_uint16 (to_int server_port)))

  -- The λ of `for_each`, for one service.
  unfoldable pub service : InetAddress → Text → t.Node → Try CControlChannelArgs
  service server_addr key val = do
    table ← not_null (service_not_a_table key) (t.as_table val)
    ip_node ←
        require t.is_string (service_field_missing key (codes "service_ip"))
          (t.at_path table (codes "service_ip"))
    port_node ←
        require t.is_integer (service_field_missing key (codes "service_port"))
          (t.at_path table (codes "service_port"))
    proxy_node ←
        require t.is_integer (service_field_missing key (codes "proxy_port"))
          (t.at_path table (codes "proxy_port"))
    service_ip ← deref (t.as_string ip_node)
    service_port ← deref (t.as_integer port_node)
    proxy_port ← deref (t.as_integer proxy_node)
    value (record {
      server_addr = server_addr;
      service_name = key;
      service_addr = inet_address n service_ip (to_uint16 (to_int service_port));
      proxy_port = to_uint16 (to_int proxy_port);
    })

  -- `for_each`, with the results so far.
  unfoldable pub for_each_service :
      InetAddress → List (Text × t.Node) → List CControlChannelArgs → Try (List CControlChannelArgs)
  unfolding service
  for_each_service server_addr [] result = value result
  for_each_service server_addr ((key, val) ∷ rest) result = elim (text_beq key (codes "client")) [
    | true ↦ for_each_service server_addr rest result
    | false ↦ service server_addr key val >>= λ args.
        for_each_service server_addr rest (result ++ args ∷ [])
  ]

  -- `ClientConfig::parseAsControlChannelArgsVecFromLocalConfig`, behind the checks on the root.
  unfoldable pub client_services : t.Table → Try (List CControlChannelArgs)
  unfolding section client_server_addr for_each_service
  client_services root = do
    client_table ← section (codes "client") root
    server_addr ← client_server_addr client_table
    for_each_service server_addr (t.entries root) []

  unfoldable pub parse_local_config : t.Node → Try (List CControlChannelArgs)
  unfolding root_table client_services
  parse_local_config config =
      catch_exit
        (if t.is_empty config then throws config_empty else root_table config >>= client_services)
