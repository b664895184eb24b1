-- ===== src/Tests/Gateways.antt =====
-- A gateway that lists one service.
use ncx_for_mall.Prelude.{
  ℕ, zero, suc, ◌%◌, ◌^◌, ◌≡◌, refl, ap, ◌∙◌, List, [], ◌∷◌, ◌++◌, map, append_assoc, append-nil,
  Option, none, some, Bool, true, false, codes, arith,
}
use ncx_for_mall.Exceptions.{Text, is_some, value}
use ncx_for_mall.Exceptions.Rules.{and_then, Gives, Loads}
use ncx_for_mall.Http.{
  HttpRequest, unknown, Network, done, Session, new_session, get_request, io_run,
}
use ncx_for_mall.Http.Run.{Ends, io_run-Ends}
use ncx_for_mall.Model.{Json, JsonLaws, GetServiceResp, assigned, response_to_json, parse_response}
use ncx_for_mall.Model.Parsed.{described_response, parse_response-Gives}
use ncx_for_mall.Model.RoundTrip.{parse_response-response_to_json}
use ncx_for_mall.Config.Remote.{
  Surroundings, parse_remote_config, described_remote_file, parse_remote_config-Loads,
}
use ncx_for_mall.Tests.Configs.{
  Node, table_node, string_node, integer_node, with_entry, no_entries, sample_inet, sample_toml,
  sample_toml_laws,
}

-- A list of texts in one text: each number is one higher, and a zero ends a text.
abbrev pub pack : List Text → Text
pack [] = []
pack (t ∷ ts) = map suc t ++ 0 ∷ pack ts

abbrev pub unpack : Text → Text → List Text
unpack t [] = []
unpack t (zero ∷ rest) = t ∷ unpack [] rest
unpack t (suc n ∷ rest) = unpack (t ++ n ∷ []) rest

unpack-map : (t acc rest : Text) → unpack acc (map suc t ++ 0 ∷ rest) ≡ (acc ++ t) ∷ unpack [] rest
unpack-map [] acc rest = rw (append-nil acc)
unpack-map (n ∷ t) acc rest = unpack-map t (acc ++ n ∷ []) rest ∙ rw (append_assoc acc (n ∷ []) t)

unpack-pack : (ts : List Text) → unpack [] (pack ts) ≡ ts
unpack-pack [] = refl
unpack-pack (t ∷ ts) = unpack-map t [] (pack ts) ∙ ap (◌∷◌ t) (unpack-pack ts)

-- The members of an object, a key before each.
abbrev pub flat : List (Text × Text) → List Text
flat [] = []
flat ((key, v) ∷ rest) = key ∷ v ∷ flat rest

abbrev pub paired : List Text → List (Text × Text)
paired (key ∷ v ∷ rest) = (key, v) ∷ paired rest
paired _ = []

paired-flat : (fields : List (Text × Text)) → paired (flat fields) ≡ fields
paired-flat [] = refl
paired-flat ((key, v) ∷ rest) = ap (◌∷◌ (key, v)) (paired-flat rest)

-- A value is its own text, which begins with its kind: 1 for a string, 2 for a number, 3 for an array
-- and 4 for an object.
abbrev pub value_string : Text → Option Text
value_string (suc zero ∷ s) = some s
value_string _ = none

abbrev pub value_int32 : Text → Option ℕ
value_int32 (suc (suc zero) ∷ n ∷ []) = some (n % 2 ^ 32)
value_int32 _ = none

abbrev pub value_elements : Text → List Text
value_elements (suc (suc (suc zero)) ∷ rest) = unpack [] rest
value_elements _ = []

abbrev pub value_is_array : Text → Bool
value_is_array (suc (suc (suc zero)) ∷ rest) = true
value_is_array _ = false

abbrev pub value_at : Text → Text → Option Text
value_at (suc (suc (suc (suc zero))) ∷ rest) key = assigned key (paired (unpack [] rest))
value_at _ key = none

abbrev pub not_empty : Text → Option Text
not_empty [] = none
not_empty (c ∷ cs) = some (c ∷ cs)

abbrev pub sample_json : Json
sample_json = record {
  Value = Text;
  parse = not_empty;
  dump = not_empty;
  object = λ fields. 4 ∷ pack (flat fields);
  array = λ vs. 3 ∷ pack vs;
  string = λ s. 1 ∷ s;
  integer = λ n. 2 ∷ n ∷ [];
  at = value_at;
  elements = value_elements;
  is_string = λ v. is_some (value_string v);
  is_number_integer = λ v. is_some (value_int32 v);
  is_array = value_is_array;
  as_string = value_string;
  as_int32 = value_int32;
  is_utf8 = λ s. true;
  is_printable = λ v. is_some (not_empty v);
}

sample_dump_back :
    (v : Text)
    → is_some (not_empty v) ≡ true
    → (s : Text) × (not_empty v ≡ some s) × (not_empty s ≡ some v)
sample_dump_back [] h = cc
sample_dump_back (c ∷ cs) h = (c ∷ cs, refl, refl)

pub sample_json_laws : JsonLaws sample_json
sample_json_laws = record {
  string_cast = λ v. refl;
  integer_cast = λ v h. h;
  integer_test = λ n. refl;
  string_back = λ s. refl;
  integer_back = λ n h. ap some (omega arith);
  array_test = λ vs. refl;
  array_back = unpack-pack;
  object_back = λ fields key.
      ap (λ x. assigned key (paired x)) (unpack-pack (flat fields))
      ∙ ap (assigned key) (paired-flat fields);
  printable_string = λ s h. refl;
  printable_integer = λ n. refl;
  printable_array = λ vs h. refl;
  printable_object = λ fields h. refl;
  empty_text = refl;
  dump_back = sample_dump_back;
}

abbrev sample_response : GetServiceResp
sample_response = record {
  services =
      record {
        service_name = codes "ssh";
        service_addr = 127 ∷ [];
        service_port = 22;
        proxy_port = 8022;
      }
      ∷ [];
  server_addr = 10 ∷ [];
  server_port = 8082;
}

parse_response-response_to_json_example :
    (s : Text) × (response_to_json sample_json sample_response ≡ value s)
    × (parse_response sample_json s ≡ value sample_response)
parse_response-response_to_json_example =
    parse_response-response_to_json sample_json sample_json_laws sample_response record {
      services_sendable = (
        record {
          name_utf8 = refl;
          addr_utf8 = refl;
          service_bound = omega arith;
          proxy_bound = omega arith;
        },
        tt,
      );
      server_utf8 = refl;
      server_bound = omega arith;
    }

-- A text that is an object without members, and so an empty response.
parse_response-Gives_example :
    Gives
      (parse_response sample_json (4 ∷ []))
      (and_then (sample_json.parse (4 ∷ [])) (described_response sample_json))
parse_response-Gives_example = parse_response-Gives sample_json sample_json_laws (4 ∷ [])

-- The gateway answers with an object that has a server's address alone.
abbrev pub sample_network : Network
sample_network = record {
  resolve_ec = false;
  connect_ec = false;
  write_ec = false;
  read_ec = false;
  answer = λ req. 4 ∷ pack (codes "server_addr" ∷ (1 ∷ 10 ∷ []) ∷ []);
  shutdown = done;
}

abbrev plain_request : HttpRequest
plain_request = record {
  version = 11;
  method = unknown;
  target = [];
  host = [];
  user_agent = [];
  content_type = none;
  body = [];
  prepared = false;
}

abbrev sample_session : Session
sample_session =
    get_request (codes "Beast") (10 ∷ []) (codes "/getservice") 11
      (new_session (record plain_request { body = 1 ∷ [] }))

io_run-Ends_example :
    Ends
      (io_run sample_network 4 sample_session)
      (sample_network.answer sample_session.req)
      (sample_session.req ∷ [])
unfolding get_request new_session
io_run-Ends_example = io_run-Ends sample_network 0 sample_session refl

abbrev pub sample_surroundings : Surroundings
sample_surroundings = record {
  to_string = λ n. n ∷ [];
  agent = codes "Beast";
  request = plain_request;
  assign_body = λ body req. record req { body = body };
  network = λ host port. sample_network;
}

abbrev remote_file : Node
remote_file = table_node (
    with_entry (codes "client")
      (table_node (
        with_entry (codes "gateway_ip") (string_node (10 ∷ [])) (
          with_entry (codes "gateway_port") (integer_node 8081)
            (with_entry (codes "token") (string_node (codes "secret")) no_entries))))
      no_entries)

parse_remote_config-Loads_example :
    Loads
      (parse_remote_config sample_inet sample_toml sample_json sample_surroundings remote_file)
      (described_remote_file sample_inet sample_toml sample_json sample_surroundings remote_file)
parse_remote_config-Loads_example =
    parse_remote_config-Loads sample_inet sample_toml sample_json sample_surroundings
      sample_toml_laws sample_json_laws remote_file
