-- ===== src/Model.antt =====
-- http/model.h: the messages between a client and its gateway, as JSON. The JSON library is a
-- parameter. An `int32_t` is its bit pattern.
pub mod Parsed
pub mod RoundTrip
pub mod Service
use ncx_for_mall.Prelude.{
  ℕ, List, [], ◌∷◌, ◌++◌, Option, none, some, Bool, true, false, ◌&&◌, if◌then◌else◌, ◌≡◌, ◌^◌, ◌<◌,
  codes, ltb,
}
use ncx_for_mall.Prelude.Maps.{text_beq}
use ncx_for_mall.Exceptions.{
  Text, is_some, field_missing, field_mistyped, unparsable, unserializable, Try, value, throws,
  ◌>>=◌, not_null,
}

-- nlohmann::json: `object` is the value after assignments to the keys of a fresh one, `at` the member of
-- an object, `dump` nothing for a text that is no UTF-8, and `as_int32` a `get_to` into an `int32_t`.
pub record Json : Type 1 where
  pub Value : Type 0
  pub parse : Text → Option Value
  pub dump : Value → Option Text
  pub object : List (Text × Value) → Value
  pub array : List Value → Value
  pub string : Text → Value
  pub integer : ℕ → Value
  pub at : Value → Text → Option Value
  pub elements : Value → List Value
  pub is_string : Value → Bool
  pub is_number_integer : Value → Bool
  pub is_array : Value → Bool
  pub as_string : Value → Option Text
  pub as_int32 : Value → Option ℕ
  pub is_utf8 : Text → Bool
  pub is_printable : Value → Bool

-- The last value that was assigned to a key.
abbrev pub assigned : {A : Type 0} → Text → List (Text × A) → Option A
assigned key [] = none
assigned key ((other, v) ∷ rest) = elim (assigned key rest) [
  | some later ↦ some later
  | none ↦ if text_beq key other then some v else none
]

abbrev pub is_ascii : Text → Bool
is_ascii [] = true
is_ascii (c ∷ cs) = ltb c 128 && is_ascii cs

abbrev pub all_printable : (j : Json) → List j.Value → Bool
all_printable j [] = true
all_printable j (v ∷ vs) = j.is_printable v && all_printable j vs

abbrev pub all_fields_printable : (j : Json) → List (Text × j.Value) → Bool
all_fields_printable j [] = true
all_fields_printable j ((key, v) ∷ rest) =
    is_ascii key && (j.is_printable v && all_fields_printable j rest)

pub record JsonLaws (j : Json) : Type 0 where
  -- only a string is taken as a string; an integer is taken as an `int32_t`, and so may be others
  pub string_cast : (v : j.Value) → is_some (j.as_string v) ≡ j.is_string v
  pub integer_cast : (v : j.Value) → j.is_number_integer v ≡ true → is_some (j.as_int32 v) ≡ true
  pub integer_test : (n : ℕ) → j.is_number_integer (j.integer n) ≡ true
  -- what was put into a value comes out of it
  pub string_back : (s : Text) → j.as_string (j.string s) ≡ some s
  pub integer_back : (n : ℕ) → n < 2 ^ 32 → j.as_int32 (j.integer n) ≡ some n
  pub array_test : (vs : List j.Value) → j.is_array (j.array vs) ≡ true
  pub array_back : (vs : List j.Value) → j.elements (j.array vs) ≡ vs
  pub object_back :
      (fields : List (Text × j.Value)) (key : Text)
      → j.at (j.object fields) key ≡ assigned key fields
  -- what can be printed, and that it is read again
  pub printable_string : (s : Text) → j.is_utf8 s ≡ true → j.is_printable (j.string s) ≡ true
  pub printable_integer : (n : ℕ) → j.is_printable (j.integer n) ≡ true
  pub printable_array :
      (vs : List j.Value) → all_printable j vs ≡ true → j.is_printable (j.array vs) ≡ true
  pub printable_object :
      (fields : List (Text × j.Value))
      → all_fields_printable j fields ≡ true
      → j.is_printable (j.object fields) ≡ true
  pub empty_text : j.parse [] ≡ none
  pub dump_back :
      (v : j.Value)
      → j.is_printable v ≡ true
      → (s : Text) × (j.dump v ≡ some s) × (j.parse s ≡ some v)

pub record ServiceInfo : Type 0 where
  pub service_name : Text
  pub service_addr : Text
  pub service_port : ℕ
  pub proxy_port : ℕ

pub record GetServiceResp : Type 0 where
  pub services : List ServiceInfo
  pub server_addr : Text
  pub server_port : ℕ

module _ (j : Json) where
  -- `if (!….is_…()) throw JsonException(…)`
  abbrev pub typed : Bool → Text → Try (Unit {0})
  typed holds key = if holds then value tt else throws (field_mistyped key)

  -- `GetServiceReq::to_json`, and `from_json`, which gives the token.
  unfoldable pub request_to_json : Text → Try Text
  request_to_json token =
      not_null unserializable (j.dump (j.object ((codes "token", j.string token) ∷ [])))

  unfoldable pub optional_string : Text → j.Value → Try Text
  optional_string key v = elim (j.at v key) [
    | none ↦ value []
    | some field ↦ do
      checked ← typed (j.is_string field) key
      not_null (field_mistyped key) (j.as_string field)
  ]

  unfoldable pub request_from_json : Text → Try Text
  unfolding optional_string
  request_from_json s = not_null unparsable (j.parse s) >>= optional_string (codes "token")

  -- `ServiceInfo::to_json` and `ServiceInfo::from_json`
  abbrev pub service_value : ServiceInfo → j.Value
  service_value info = j.object (
      (codes "service_name", j.string info.service_name)
      ∷ (codes "service_addr", j.string info.service_addr)
      ∷ (codes "service_port", j.integer info.service_port)
      ∷ (codes "proxy_port", j.integer info.proxy_port)
      ∷ [])

  unfoldable pub service_to_json : ServiceInfo → Try Text
  service_to_json info = not_null unserializable (j.dump (service_value info))

  unfoldable pub service_from_json : j.Value → Try ServiceInfo
  service_from_json v = do
    name ← not_null (field_missing (codes "service_name")) (j.at v (codes "service_name"))
    addr ← not_null (field_missing (codes "service_addr")) (j.at v (codes "service_addr"))
    port ← not_null (field_missing (codes "service_port")) (j.at v (codes "service_port"))
    proxy ← not_null (field_missing (codes "proxy_port")) (j.at v (codes "proxy_port"))
    name_typed ← typed (j.is_string name) (codes "service_name")
    addr_typed ← typed (j.is_string addr) (codes "service_addr")
    port_typed ← typed (j.is_number_integer port) (codes "service_port")
    proxy_typed ← typed (j.is_number_integer proxy) (codes "proxy_port")
    service_name ← not_null (field_mistyped (codes "service_name")) (j.as_string name)
    service_addr ← not_null (field_mistyped (codes "service_addr")) (j.as_string addr)
    service_port ← not_null (field_mistyped (codes "service_port")) (j.as_int32 port)
    proxy_port ← not_null (field_mistyped (codes "proxy_port")) (j.as_int32 proxy)
    value (record {
      service_name = service_name;
      service_addr = service_addr;
      service_port = service_port;
      proxy_port = proxy_port;
    })

  -- `ServiceInfo::from_json` of a text, and `ServiceInfo::parse`.
  unfoldable pub parse_service : Text → Try ServiceInfo
  unfolding service_from_json
  parse_service s = not_null unparsable (j.parse s) >>= service_from_json

  -- The two loops over the services, with the list so far.
  unfoldable pub services_to_values : List ServiceInfo → List j.Value → Try (List j.Value)
  unfolding service_to_json
  services_to_values [] services_array = value services_array
  services_to_values (service ∷ rest) services_array = do
    text ← service_to_json service
    service_json ← not_null unserializable (j.parse text)
    services_to_values rest (services_array ++ service_json ∷ [])

  unfoldable pub services_from_values : List j.Value → List ServiceInfo → Try (List ServiceInfo)
  unfolding service_from_json
  services_from_values [] services = value services
  services_from_values (service_json ∷ rest) services = do
    service ← service_from_json service_json
    services_from_values rest (services ++ service ∷ [])

  -- `GetServiceResp::to_json`
  abbrev pub response_value : List j.Value → GetServiceResp → j.Value
  response_value services_array resp = j.object (
      (codes "services", j.array services_array)
      ∷ (codes "server_addr", j.string resp.server_addr)
      ∷ (codes "server_port", j.integer resp.server_port)
      ∷ [])

  unfoldable pub response_to_json : GetServiceResp → Try Text
  unfolding services_to_values
  response_to_json resp = do
    services_array ← services_to_values resp.services []
    not_null unserializable (j.dump (response_value services_array resp))

  -- `GetServiceResp::from_json`, whose fields have defaults, and `GetServiceResp::parse`.
  unfoldable pub optional_services : j.Value → Try (List ServiceInfo)
  unfolding services_from_values
  optional_services v = elim (j.at v (codes "services")) [
    | none ↦ value []
    | some field ↦ do
      checked ← typed (j.is_array field) (codes "services")
      services_from_values (j.elements field) []
  ]

  unfoldable pub optional_port : j.Value → Try ℕ
  optional_port v = elim (j.at v (codes "server_port")) [
    | none ↦ value 0
    | some field ↦ do
      checked ← typed (j.is_number_integer field) (codes "server_port")
      not_null (field_mistyped (codes "server_port")) (j.as_int32 field)
  ]

  unfoldable pub response_from_json : j.Value → Try GetServiceResp
  unfolding optional_services optional_string optional_port
  response_from_json v = do
    services ← optional_services v
    server_addr ← optional_string (codes "server_addr") v
    server_port ← optional_port v
    value (record { services = services; server_addr = server_addr; server_port = server_port })

  unfoldable pub parse_response : Text → Try GetServiceResp
  unfolding response_from_json
  parse_response s = not_null unparsable (j.parse s) >>= response_from_json
