-- ===== src/Config/Remote.antt =====
-- util/config.h: the client's services as its gateway lists them, by http/http_client.h and
-- http/model.h.
use ncx_for_mall.Prelude.{
  ℕ, ◌≡◌, refl, subst, inl, inr, List, [], ◌∷◌, map, Option, none, some, Bool, true, false,
  if◌then◌else◌, Bool-cases, Option-cases, codes,
}
use ncx_for_mall.Exceptions.{
  Text, config_empty, field_missing, Try, value, throws, ◌>>=◌, catch_exit, deref, require,
}
use ncx_for_mall.Exceptions.Rules.{and_then, Gives, Loads, Gives-Loads, Gives->>=}
use ncx_for_mall.Address.{Inet, inet_address, to_uint16, to_int}
use ncx_for_mall.Http.{HttpRequest, Session, Network, new_session, get_request, io_run}
use ncx_for_mall.Http.Run.{cut_off, io_run-Ends}
use ncx_for_mall.Model.{
  Json, JsonLaws, ServiceInfo, GetServiceResp, request_to_json, parse_response,
}
use ncx_for_mall.Model.Parsed.{described_response, parse_response-Gives}
use ncx_for_mall.Config.{Toml, TomlLaws, CControlChannelArgs, root_table, section}
use ncx_for_mall.Config.Parsed.{
  table_field, string_field, integer_field, section-Gives, string_rule, integer_rule,
  root_table-Gives,
}

-- `std::to_string` on an `int`, the version of the HTTP library, a new request, what the
-- assignment of a body does to a request, and what the network does towards a host and a port.
pub record Surroundings : Type 0 where
  pub to_string : ℕ → Text
  pub agent : Text
  pub request : HttpRequest
  pub assign_body : Text → HttpRequest → HttpRequest
  pub network : Text → Text → Network

module _ (n : Inet) (t : Toml) (j : Json) (env : Surroundings) where
  -- The session, and the body of its response; four completions are enough for it.
  unfoldable pub service_session : Text → Text → Session
  service_session gateway_ip body =
      get_request env.agent gateway_ip (codes "/getservice") 11
        (new_session (env.assign_body body env.request))

  unfoldable pub fetch : Text → ℕ → Text → Text
  unfolding service_session
  fetch gateway_ip gateway_port body =
      (io_run (env.network gateway_ip (env.to_string gateway_port)) 4
        (service_session gateway_ip body)).res

  -- The loop over the services of the response.
  unfoldable pub response_args : GetServiceResp → List CControlChannelArgs
  response_args resp =
      map
        (λ (info : ServiceInfo). record {
          server_addr = inet_address n resp.server_addr (to_uint16 resp.server_port);
          service_name = info.service_name;
          service_addr = inet_address n info.service_addr (to_uint16 info.service_port);
          proxy_port = to_uint16 info.proxy_port;
        })
        resp.services

  unfoldable pub remote_services : Text → ℕ → Text → Try (List CControlChannelArgs)
  unfolding fetch response_args
  remote_services gateway_ip gateway_port token = do
    body ← request_to_json j token
    resp ← parse_response j (fetch gateway_ip gateway_port body)
    value (response_args resp)

  unfoldable pub remote_fields : t.Table → Try (List CControlChannelArgs)
  unfolding remote_services
  remote_fields table = do
    ip_node ←
        require t.is_string (field_missing (codes "server_ip"))
          (t.at_path table (codes "gateway_ip"))
    port_node ←
        require t.is_integer (field_missing (codes "server_port"))
          (t.at_path table (codes "gateway_port"))
    token_node ←
        require t.is_string (field_missing (codes "token")) (t.at_path table (codes "token"))
    gateway_ip ← deref (t.as_string ip_node)
    gateway_port ← deref (t.as_integer port_node)
    token ← deref (t.as_string token_node)
    remote_services gateway_ip (to_int gateway_port) token

  -- `ClientConfig::parseAsControlChannelArgsVecFromRemoteConfig`
  unfoldable pub parse_remote_config : t.Node → Try (List CControlChannelArgs)
  unfolding remote_fields
  parse_remote_config config = catch_exit (
      if t.is_empty config
      then throws config_empty
      else root_table n t config >>= section n t (codes "client") >>= remote_fields)

  -- What a gateway's answer describes, where one comes.
  abbrev pub described_answer : Text → ℕ → Text → Option GetServiceResp
  described_answer gateway_ip gateway_port body =
      let net = env.network gateway_ip (env.to_string gateway_port) in
      if cut_off net
      then none
      else and_then (j.parse (net.answer (service_session gateway_ip body).req))
          (described_response j)

  abbrev pub described_services_of : Text → ℕ → Text → Option (List CControlChannelArgs)
  described_services_of gateway_ip gateway_port token =
      and_then (j.dump (j.object ((codes "token", j.string token) ∷ []))) λ body.
        and_then (described_answer gateway_ip gateway_port body) λ resp. some (response_args resp)

  abbrev pub described_remote : t.Table → Option (List CControlChannelArgs)
  described_remote table = and_then (string_field n t (codes "gateway_ip") table) λ gateway_ip.
      and_then (integer_field n t (codes "gateway_port") table) λ gateway_port.
        and_then (string_field n t (codes "token") table)
          λ token. described_services_of gateway_ip (to_int gateway_port) token

  abbrev pub described_remote_file : t.Node → Option (List CControlChannelArgs)
  described_remote_file config =
      if t.is_empty config
      then none
      else and_then (and_then (t.as_table config) (table_field n t (codes "client")))
          described_remote

  module _ (toml_laws : TomlLaws t) (json_laws : JsonLaws j) where
    request_to_json-Gives :
        (token : Text)
        → Gives (request_to_json j token) (j.dump (j.object ((codes "token", j.string token) ∷ [])))
    unfolding request_to_json
    request_to_json-Gives token =
        elim (Option-cases (j.dump (j.object ((codes "token", j.string token) ∷ [])))) [
          | inl e ↦ rw e tt
          | inr (s, e) ↦ rw e refl
        ]

    fetched :
        (cut : Bool) (s : Text) (text : Text)
        → text ≡ (if cut then [] else s)
        → Gives
            (parse_response j text)
            (if cut then none else and_then (j.parse s) (described_response j))
    fetched true s text e = rw e (
        subst (λ o. Gives (parse_response j []) (and_then o (described_response j)))
          json_laws.empty_text (parse_response-Gives j json_laws []))
    fetched false s text e = rw e (parse_response-Gives j json_laws s)

    session-res :
        (gateway_ip : Text) (gateway_port : ℕ) (body : Text)
        → fetch gateway_ip gateway_port body ≡ (
            if cut_off (env.network gateway_ip (env.to_string gateway_port))
            then []
            else (env.network gateway_ip (env.to_string gateway_port)).answer
                (service_session gateway_ip body).req)
    unfolding fetch service_session get_request new_session
    session-res gateway_ip gateway_port body =
        let net = env.network gateway_ip (env.to_string gateway_port) in
        (io_run-Ends net 0 (service_session gateway_ip body) refl).same_res

    fetch-Gives :
        (gateway_ip : Text) (gateway_port : ℕ) (body : Text)
        → Gives
            (parse_response j (fetch gateway_ip gateway_port body))
            (described_answer gateway_ip gateway_port body)
    unfolding fetch
    fetch-Gives gateway_ip gateway_port body =
        let net = env.network gateway_ip (env.to_string gateway_port) in
        fetched (cut_off net) (net.answer (service_session gateway_ip body).req)
          (fetch gateway_ip gateway_port body) (session-res gateway_ip gateway_port body)

    remote_services-Gives :
        (gateway_ip : Text) (gateway_port : ℕ) (token : Text)
        → Gives
            (remote_services gateway_ip gateway_port token)
            (described_services_of gateway_ip gateway_port token)
    unfolding remote_services
    remote_services-Gives gateway_ip gateway_port token =
        Gives->>= _ _ _ _ (request_to_json-Gives token)
          λ body. Gives->>= _ _ _ _ (fetch-Gives gateway_ip gateway_port body) λ resp. refl

    remote_fields-Gives : (table : t.Table) → Gives (remote_fields table) (described_remote table)
    unfolding remote_fields
    remote_fields-Gives table = string_rule n t toml_laws _ _ table _ _ λ ip_node ip e.
        integer_rule n t toml_laws _ _ table _ _ λ port_node port f.
          string_rule n t toml_laws _ _ table _ _
            λ token_node token g. rw (e, f, g) (remote_services-Gives ip (to_int port) token)

    -- With casts of nodes that agree with their tests and JSON laws as listed, the client's remote
    -- configuration is loaded just where the file has a gateway's address, port and token with
    -- their types, the request can be written, the name, the connection, the write and the read
    -- succeed and the body that came is a response with well-typed fields; the channels are then
    -- those that the response describes, in order, and otherwise the program ends by `exit`. What
    -- the assignment of the body does to the request is a parameter.
    pub parse_remote_config-Loads :
        (config : t.Node) → Loads (parse_remote_config config) (described_remote_file config)
    unfolding parse_remote_config
    parse_remote_config-Loads config = elim (Bool-cases (t.is_empty config)) [
      | inl e ↦ rw e tt
      | inr e ↦ rw e (
          Gives-Loads _ _ (
            Gives->>= _ _ _ _
              (Gives->>= _ _ _ _ (root_table-Gives n t toml_laws config)
                (section-Gives n t toml_laws (codes "client")))
              remote_fields-Gives))
    ]
