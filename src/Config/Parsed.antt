-- ===== src/Config/Parsed.antt =====
-- util/config.h: a configuration is loaded just where every field is there with its type.
use ncx_for_mall.Prelude.{
  ℕ, ◌≡◌, refl, sym, subst, inl, inr, List, [], ◌∷◌, ◌++◌, Option, none, some, true, false,
  if◌then◌else◌, Bool-cases, Option-cases, codes, append-nil,
}
use ncx_for_mall.Prelude.Maps.{text_beq}
use ncx_for_mall.Address.{Inet, InetAddress, inet_address, to_uint16, to_int}
use ncx_for_mall.Config.{
  Toml, TomlLaws, ServerArgs, CControlChannelArgs, root_table, section, server_fields,
  parse_as_server_args, client_server_addr, service, for_each_service, client_services,
  parse_local_config,
}
use ncx_for_mall.Exceptions.{Text, Reason, section_missing, Try, value, ◌>>=◌, deref, require}
use ncx_for_mall.Exceptions.Rules.{
  and_then, and_then-some, pushed-and_then, Gives, Loads, Gives-Loads, Gives->>=, Gives-require,
}

module _ (n : Inet) (t : Toml) where
  abbrev pub table_field : Text → t.Table → Option t.Table
  table_field key table = and_then (t.at_path table key) t.as_table

  abbrev pub string_field : Text → t.Table → Option Text
  string_field key table = and_then (t.at_path table key) t.as_string

  abbrev pub integer_field : Text → t.Table → Option ℕ
  integer_field key table = and_then (t.at_path table key) t.as_integer

  abbrev pub address_of : Text → ℕ → InetAddress
  address_of ip port = inet_address n ip (to_uint16 (to_int port))

  -- What a server's configuration describes.
  abbrev pub described_server : t.Table → Option ServerArgs
  described_server table = and_then (string_field (codes "server_ip") table) λ ip.
      and_then (integer_field (codes "server_port") table) λ port.
        and_then (integer_field (codes "backlog") table)
          λ backlog. some (record { server_addr = address_of ip port; backlog = to_int backlog })

  abbrev pub described_server_addr : t.Table → Option InetAddress
  described_server_addr table =
      and_then (string_field (codes "server_ip") table)
        λ ip. and_then (integer_field (codes "server_port") table) λ port. some (address_of ip port)

  abbrev pub described_service : InetAddress → Text → t.Table → Option CControlChannelArgs
  described_service server_addr key table = and_then (string_field (codes "service_ip") table) λ ip.
      and_then (integer_field (codes "service_port") table) λ port.
        and_then (integer_field (codes "proxy_port") table) λ proxy_port. some (record {
          server_addr = server_addr;
          service_name = key;
          service_addr = address_of ip port;
          proxy_port = to_uint16 (to_int proxy_port);
        })

  -- Every entry but the client's own is a service, in their order; one that is none spoils all.
  abbrev pub described_services :
      InetAddress → List (Text × t.Node) → Option (List CControlChannelArgs)
  described_services server_addr [] = some []
  described_services server_addr ((key, val) ∷ rest) = elim (text_beq key (codes "client")) [
    | true ↦ described_services server_addr rest
    | false ↦
        and_then (and_then (t.as_table val) (described_service server_addr key))
          λ args. and_then (described_services server_addr rest) λ more. some (args ∷ more)
  ]

  module _ (laws : TomlLaws t) where
    pub section-Gives :
        (key : Text) (table : t.Table) → Gives (section n t key table) (table_field key table)
    unfolding section
    section-Gives key table =
        subst (λ o. Gives (section n t key table) o) (and_then-some (table_field key table))
          (Gives-require t.is_table t.as_table section_missing (t.at_path table key) _ some
            laws.table_cast (λ node a e. rw e refl))

    pub string_rule :
        {B : Type 0} (r : Reason) (key : Text) (table : t.Table) (k : t.Node → Try B)
        (g : Text → Option B)
        → ((m : t.Node) (a : Text) → deref (t.as_string m) ≡ value a → Gives (k m) (g a))
        → Gives
            (require t.is_string r (t.at_path table key) >>= k)
            (and_then (string_field key table) g)
    string_rule r key table k g rest =
        Gives-require t.is_string t.as_string r (t.at_path table key) k g laws.string_cast rest

    pub integer_rule :
        {B : Type 0} (r : Reason) (key : Text) (table : t.Table) (k : t.Node → Try B)
        (g : ℕ → Option B)
        → ((m : t.Node) (a : ℕ) → deref (t.as_integer m) ≡ value a → Gives (k m) (g a))
        → Gives
            (require t.is_integer r (t.at_path table key) >>= k)
            (and_then (integer_field key table) g)
    integer_rule r key table k g rest =
        Gives-require t.is_integer t.as_integer r (t.at_path table key) k g laws.integer_cast rest

    server_fields-Gives :
        (table : t.Table) → Gives (server_fields n t table) (described_server table)
    unfolding server_fields
    server_fields-Gives table = string_rule _ _ table _ _ λ ip_node ip e.
        integer_rule _ _ table _ _
          λ port_node port f. integer_rule _ _ table _ _ λ backlog_node backlog g. rw (e, f, g) refl

    server_addr-Gives :
        (table : t.Table) → Gives (client_server_addr n t table) (described_server_addr table)
    unfolding client_server_addr
    server_addr-Gives table =
        string_rule _ _ table _ _
          λ ip_node ip e. integer_rule _ _ table _ _ λ port_node port f. rw (e, f) refl

    service-Gives :
        (server_addr : InetAddress) (key : Text) (val : t.Node)
        → Gives
            (service n t server_addr key val)
            (and_then (t.as_table val) (described_service server_addr key))
    unfolding service
    service-Gives server_addr key val = elim (Option-cases (t.as_table val)) [
      | inl e ↦ rw e tt
      | inr (table, e) ↦ rw e (
          string_rule _ _ table _ _ λ ip_node ip e.
            integer_rule _ _ table _ _ λ port_node port f.
              integer_rule _ _ table _ _ λ proxy_node proxy g. rw (e, f, g) refl)
    ]

    for_each_service-Gives :
        (server_addr : InetAddress) (nodes : List (Text × t.Node))
        (result : List CControlChannelArgs)
        → Gives
            (for_each_service n t server_addr nodes result)
            (and_then (described_services server_addr nodes) λ more. some (result ++ more))
    unfolding for_each_service
    for_each_service-Gives server_addr [] result = sym (append-nil result)
    for_each_service-Gives server_addr ((key, val) ∷ rest) result =
        elim (Bool-cases (text_beq key (codes "client"))) [
          | inl skip ↦
              rw (for_each_service, described_services, skip)
                (for_each_service-Gives server_addr rest result)
          | inr other ↦
              rw
                (
                  for_each_service,
                  described_services,
                  other,
                  sym (
                      pushed-and_then result
                        (and_then (t.as_table val) (described_service server_addr key))
                        (described_services server_addr rest)),
                )
                (Gives->>= (service n t server_addr key val) _ _ _
                  (service-Gives server_addr key val)
                  (λ args. for_each_service-Gives server_addr rest (result ++ args ∷ [])))
        ]

  -- What a whole file describes.
  abbrev pub described_server_file : t.Node → Option ServerArgs
  described_server_file config =
      and_then (and_then (t.as_table config) (table_field (codes "server"))) described_server

  abbrev pub described_client_root : t.Table → Option (List CControlChannelArgs)
  described_client_root root = and_then (table_field (codes "client") root) λ table.
      and_then (described_server_addr table)
        λ server_addr. described_services server_addr (t.entries root)

  abbrev pub described_client_file : t.Node → Option (List CControlChannelArgs)
  described_client_file config =
      if t.is_empty config then none else and_then (t.as_table config) described_client_root

  module _ (laws : TomlLaws t) where
    pub root_table-Gives : (config : t.Node) → Gives (root_table n t config) (t.as_table config)
    unfolding root_table
    root_table-Gives config = elim (Option-cases (t.as_table config)) [
      | inl e ↦ rw e tt
      | inr (root, e) ↦ rw e refl
    ]

    -- With casts of nodes that agree with their tests, a server's configuration that is not empty
    -- is loaded just where the file is a table whose section [server] has an address, a port and a
    -- backlog with their types, with these values; otherwise the program ends by `exit`.
    pub parse_as_server_args-Loads :
        (config : t.Node)
        → t.is_empty config ≡ false
        → Loads (parse_as_server_args n t config) (described_server_file config)
    unfolding parse_as_server_args
    parse_as_server_args-Loads config there = rw there (
        Gives-Loads _ _ (
          Gives->>= _ _ _ _
            (Gives->>= _ _ _ _ (root_table-Gives config) (section-Gives laws (codes "server")))
            (server_fields-Gives laws)))

    client_services-Gives :
        (root : t.Table) → Gives (client_services n t root) (described_client_root root)
    unfolding client_services
    client_services-Gives root =
        Gives->>= _ _ _ _ (section-Gives laws (codes "client") root) λ table.
          Gives->>= _ _ _ _ (server_addr-Gives laws table) λ server_addr.
            subst (λ o. Gives (for_each_service n t server_addr (t.entries root) []) o)
              (and_then-some (described_services server_addr (t.entries root)))
              (for_each_service-Gives laws server_addr (t.entries root) [])

    -- With casts of nodes that agree with their tests, a client's configuration is loaded just
    -- where the file is a table whose section [client] has the server's address and port and whose
    -- other entries are all tables with an address and two ports, one channel for each of them, in
    -- order; otherwise, be it for one bad entry, the program ends by `exit`.
    pub parse_local_config-Loads :
        (config : t.Node) → Loads (parse_local_config n t config) (described_client_file config)
    unfolding parse_local_config
    parse_local_config-Loads config = elim (Bool-cases (t.is_empty config)) [
      | inl e ↦ rw e tt
      | inr e ↦
          rw e (Gives-Loads _ _ (Gives->>= _ _ _ _ (root_table-Gives config) client_services-Gives))
    ]
