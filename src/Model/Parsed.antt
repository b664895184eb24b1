-- ===== src/Model/Parsed.antt =====
-- http/model.h: a response is read just where each of its fields has its type.
use ncx_for_mall.Prelude.{
  ℕ, ◌≡◌, true, arith, refl, sym, subst, append-nil, inl, inr, List, [], ◌∷◌, ◌++◌, Option, none,
  some, if◌then◌else◌, Bool-cases, Option-cases, codes,
}
use ncx_for_mall.Exceptions.{Text, is_some}
use ncx_for_mall.Exceptions.Rules.{
  and_then, and_then-some, every, pushed-and_then, Gives, Gives->>=,
}
use ncx_for_mall.Model.{
  Json, JsonLaws, ServiceInfo, GetServiceResp, optional_string, service_from_json,
  services_from_values, optional_services, optional_port, response_from_json, parse_response,
}
use ncx_for_mall.Model.Service.{described_service_info, integer_of, service_from_json-Gives}

module _ (j : Json) where
  -- A field that can be missing, with its default.
  abbrev pub described_or : {A : Type 0} → A → (j.Value → Option A) → Option j.Value → Option A
  described_or default cast none = some default
  described_or default cast (some v) = cast v

  abbrev pub described_list : j.Value → Option (List ServiceInfo)
  described_list v = if j.is_array v then every (described_service_info j) (j.elements v) else none

  -- What a value describes as a response.
  abbrev pub described_response : j.Value → Option GetServiceResp
  described_response v =
      and_then (described_or [] described_list (j.at v (codes "services"))) λ services.
        and_then (described_or [] j.as_string (j.at v (codes "server_addr"))) λ server_addr.
          and_then (described_or 0 (integer_of j) (j.at v (codes "server_port"))) λ server_port.
            some
              (record { services = services; server_addr = server_addr; server_port = server_port })

  module _ (laws : JsonLaws j) where
    services_from_values-Gives :
        (vs : List j.Value) (services : List ServiceInfo)
        → Gives
            (services_from_values j vs services)
            (and_then (every (described_service_info j) vs) λ more. some (services ++ more))
    unfolding services_from_values
    services_from_values-Gives [] services = sym (append-nil services)
    services_from_values-Gives (v ∷ rest) services =
        subst (Gives _)
          (pushed-and_then services (described_service_info j v)
            (every (described_service_info j) rest))
          (Gives->>= (service_from_json j v) (described_service_info j v) _ _
            (service_from_json-Gives j laws v)
            (λ service. services_from_values-Gives rest (services ++ service ∷ [])))

    optional_services-Gives :
        (v : j.Value)
        → Gives (optional_services j v) (described_or [] described_list (j.at v (codes "services")))
    unfolding optional_services
    optional_services-Gives v = elim (Option-cases (j.at v (codes "services"))) [
      | inl e ↦ rw (optional_services, e) refl
      | inr (field, e) ↦ elim (Bool-cases (j.is_array field)) [
        | inl test ↦
            rw (optional_services, e, test)
              (subst (Gives _) (and_then-some (every (described_service_info j) (j.elements field)))
                (services_from_values-Gives (j.elements field) []))
        | inr test ↦ rw (optional_services, e, test) tt
      ]
    ]

    pub optional_string-Gives :
        (key : Text) (v : j.Value)
        → Gives (optional_string j key v) (described_or [] j.as_string (j.at v key))
    unfolding optional_string
    optional_string-Gives key v = elim (Option-cases (j.at v key)) [
      | inl e ↦ rw (optional_string, e) refl
      | inr (field, e) ↦ elim (Option-cases (j.as_string field)) [
        | inl none_there ↦ rw (optional_string, e, sym (laws.string_cast field), none_there) tt
        | inr (s, there) ↦ rw (optional_string, e, sym (laws.string_cast field), there) refl
      ]
    ]

    some-there : (o : Option ℕ) → is_some o ≡ true → (n : ℕ) × (o ≡ some n)
    some-there none h = absurd (ground (arith, h))
    some-there (some n) h = (n, refl)

    optional_port-Gives :
        (v : j.Value)
        → Gives (optional_port j v) (described_or 0 (integer_of j) (j.at v (codes "server_port")))
    unfolding optional_port
    optional_port-Gives v = elim (Option-cases (j.at v (codes "server_port"))) [
      | inl e ↦ rw (optional_port, e) refl
      | inr (field, e) ↦ elim (Bool-cases (j.is_number_integer field)) [
        | inl test ↦
            let (n, there) = some-there (j.as_int32 field) (laws.integer_cast field test) in
            rw (optional_port, e, test, there) refl
        | inr test ↦ rw (optional_port, e, test) tt
      ]
    ]

    pub response_from_json-Gives :
        (v : j.Value) → Gives (response_from_json j v) (described_response v)
    unfolding response_from_json
    response_from_json-Gives v = Gives->>= _ _ _ _ (optional_services-Gives v) λ services.
        Gives->>= _ _ _ _ (optional_string-Gives (codes "server_addr") v)
          λ server_addr. Gives->>= _ _ _ _ (optional_port-Gives v) λ server_port. refl

    -- With a cast to a string that works just on strings, and one to `int32_t` that works on
    -- integers and perhaps on other values, `GetServiceResp::parse` returns just what the text
    -- describes: the services if they are missing or an array of objects with all four fields well
    -- typed, an empty address and port 0 if these are missing; where it describes nothing, as where
    -- a port is a number that is not an integer, it throws.
    pub parse_response-Gives :
        (s : Text) → Gives (parse_response j s) (and_then (j.parse s) described_response)
    unfolding parse_response
    parse_response-Gives s = elim (Option-cases (j.parse s)) [
      | inl e ↦ rw e tt
      | inr (v, e) ↦ rw e (response_from_json-Gives v)
    ]
