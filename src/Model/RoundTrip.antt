-- ===== src/Model/RoundTrip.antt =====
-- http/model.h: what is written is read again.
use ncx_for_mall.Prelude.{
  ◌≡◌, ◌^◌, ◌<◌, refl, sym, subst, ap, ◌∙◌, List, [], ◌∷◌, ◌++◌, map, append-nil, append_assoc,
  some, true, codes,
}
use ncx_for_mall.Exceptions.{Text, value}
use ncx_for_mall.Exceptions.Rules.{and_then, every, Gives, Gives-value}
use ncx_for_mall.Model.{
  Json, JsonLaws, ServiceInfo, GetServiceResp, all_printable, service_value, response_value,
  service_to_json, services_to_values, response_to_json, parse_response, request_to_json,
  request_from_json, optional_string,
}
use ncx_for_mall.Model.Service.{described_service_info}
use ncx_for_mall.Model.Parsed.{described_response, parse_response-Gives, optional_string-Gives}

module _ (j : Json) where
  -- Texts that are UTF-8, and ports that are an `int32_t`.
  pub record IsSendable (info : ServiceInfo) : Type 0 where
    pub name_utf8 : j.is_utf8 info.service_name ≡ true
    pub addr_utf8 : j.is_utf8 info.service_addr ≡ true
    pub service_bound : info.service_port < 2 ^ 32
    pub proxy_bound : info.proxy_port < 2 ^ 32

  abbrev pub AllSendable : List ServiceInfo → Type 0
  AllSendable [] = Unit {0}
  AllSendable (info ∷ rest) = IsSendable info × AllSendable rest

  pub record IsSendableResp (resp : GetServiceResp) : Type 0 where
    pub services_sendable : AllSendable resp.services
    pub server_utf8 : j.is_utf8 resp.server_addr ≡ true
    pub server_bound : resp.server_port < 2 ^ 32

  module _ (laws : JsonLaws j) where
    service_value-described :
        (info : ServiceInfo)
        → IsSendable info
        → described_service_info j (service_value j info) ≡ some info
    service_value-described info h =
        rw
          (
            laws.object_back _ (codes "service_name"),
            laws.object_back _ (codes "service_addr"),
            laws.object_back _ (codes "service_port"),
            laws.object_back _ (codes "proxy_port"),
            laws.string_back info.service_name,
            laws.string_back info.service_addr,
            laws.integer_test info.service_port,
            laws.integer_test info.proxy_port,
            laws.integer_back info.service_port h.service_bound,
            laws.integer_back info.proxy_port h.proxy_bound,
          )
          refl

    service_value-printable :
        (info : ServiceInfo) → IsSendable info → j.is_printable (service_value j info) ≡ true
    service_value-printable info h = laws.printable_object _ (
        rw
          (
            laws.printable_string info.service_name h.name_utf8,
            laws.printable_string info.service_addr h.addr_utf8,
            laws.printable_integer info.service_port,
            laws.printable_integer info.proxy_port,
          )
          refl)

    services_to_values-value :
        (services : List ServiceInfo) (done : List j.Value)
        → AllSendable services
        → services_to_values j services done ≡ value (done ++ map (service_value j) services)
    unfolding services_to_values service_to_json
    services_to_values-value [] done h = ap value (sym (append-nil done))
    services_to_values-value (info ∷ rest) done h =
        let (s, dumped, parsed) =
          laws.dump_back (service_value j info) (service_value-printable info h.0) in
        rw (dumped, parsed)
          (services_to_values-value rest (done ++ service_value j info ∷ []) h.1
            ∙ ap value (append_assoc done (service_value j info ∷ []) (map (service_value j) rest)))

    values-described :
        (services : List ServiceInfo)
        → AllSendable services
        → every (described_service_info j) (map (service_value j) services) ≡ some services
    values-described [] h = refl
    values-described (info ∷ rest) h =
        rw (every, service_value-described info h.0, values-described rest h.1) refl

    values-printable :
        (services : List ServiceInfo)
        → AllSendable services
        → all_printable j (map (service_value j) services) ≡ true
    values-printable [] h = refl
    values-printable (info ∷ rest) h =
        rw (service_value-printable info h.0, values-printable rest h.1) refl

    response_value-printable :
        (resp : GetServiceResp)
        → IsSendableResp resp
        → j.is_printable (response_value j (map (service_value j) resp.services) resp) ≡ true
    response_value-printable resp h = laws.printable_object _ (
        rw
          (
            laws.printable_array (map (service_value j) resp.services)
                (values-printable resp.services h.services_sendable),
            laws.printable_string resp.server_addr h.server_utf8,
            laws.printable_integer,
          )
          refl)

    response_value-described :
        (resp : GetServiceResp)
        → IsSendableResp resp
        → described_response j (response_value j (map (service_value j) resp.services) resp)
          ≡ some resp
    response_value-described resp h =
        rw
          (
            laws.object_back _ (codes "services"),
            laws.object_back _ (codes "server_addr"),
            laws.object_back _ (codes "server_port"),
            laws.array_test,
            laws.array_back,
            values-described resp.services h.services_sendable,
            laws.string_back,
            laws.integer_test resp.server_port,
            laws.integer_back resp.server_port h.server_bound,
          )
          refl

    -- A response whose texts are UTF-8 and whose ports are below 2^32, which an `int32_t` is as a
    -- bit pattern, is written without an exception, and what was written is parsed as the same
    -- response, its services in order, by the laws of the JSON library.
    pub parse_response-response_to_json :
        (resp : GetServiceResp)
        → IsSendableResp resp
        → (s : Text) × (response_to_json j resp ≡ value s) × (parse_response j s ≡ value resp)
    unfolding response_to_json
    parse_response-response_to_json resp h =
        let v = response_value j (map (service_value j) resp.services) resp in
        let (s, dumped, parsed) = laws.dump_back v (response_value-printable resp h) in
        (
          s,
          rw (services_to_values-value resp.services [] h.services_sendable, dumped) refl,
          Gives-value _ resp (
              subst (Gives _)
                (ap (λ o. and_then o (described_response j)) parsed
                  ∙ response_value-described resp h)
                (parse_response-Gives j laws s)),
        )

    -- x
    pub request_from_json-request_to_json :
        (token : Text)
        → j.is_utf8 token ≡ true
        → (s : Text) × (request_to_json j token ≡ value s) × (request_from_json j s ≡ value token)
    unfolding request_to_json request_from_json optional_string
    request_from_json-request_to_json token h =
        let v = j.object ((codes "token", j.string token) ∷ []) in
        let (s, dumped, parsed) =
          laws.dump_back v (laws.printable_object _ (rw (laws.printable_string token h) refl)) in
        (
          s,
          rw dumped refl,
          rw parsed (
              Gives-value _ token (
                subst (Gives _) (rw (laws.object_back, laws.string_back) refl)
                  (optional_string-Gives j laws (codes "token") v))),
        )
