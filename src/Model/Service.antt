-- ===== src/Model/Service.antt =====
-- http/model.h: a service is read just where all four of its fields have their types.
use ncx_for_mall.Prelude.{
  ℕ, ◌≡◌, refl, sym, subst, inl, inr, Option, none, some, Bool, true, false, arith, if◌then◌else◌,
  Option-cases, codes,
}
use ncx_for_mall.Exceptions.{
  Text, is_some, Reason, field_missing, field_mistyped, throws, Try, value, ◌>>=◌, not_null,
}
use ncx_for_mall.Exceptions.Rules.{and_then, Gives}
use ncx_for_mall.Model.{Json, JsonLaws, ServiceInfo, typed, service_from_json}

module _ (j : Json) where
  -- What the four fields of a service describe, and how they are checked and then taken.
  abbrev described_fields : Option Text → Option Text → Option ℕ → Option ℕ → Option ServiceInfo
  described_fields name addr port proxy = and_then name λ service_name.
      and_then addr λ service_addr. and_then port λ service_port. and_then proxy λ proxy_port.
        some (record {
          service_name = service_name;
          service_addr = service_addr;
          service_port = service_port;
          proxy_port = proxy_port;
        })

  abbrev taken_fields :
      Bool → Bool → Bool → Bool → Option Text → Option Text → Option ℕ → Option ℕ → Try ServiceInfo
  taken_fields name_test addr_test port_test proxy_test name addr port proxy = do
    name_typed ← typed j name_test (codes "service_name")
    addr_typed ← typed j addr_test (codes "service_addr")
    port_typed ← typed j port_test (codes "service_port")
    proxy_typed ← typed j proxy_test (codes "proxy_port")
    service_name ← not_null (field_mistyped (codes "service_name")) name
    service_addr ← not_null (field_mistyped (codes "service_addr")) addr
    service_port ← not_null (field_mistyped (codes "service_port")) port
    proxy_port ← not_null (field_mistyped (codes "proxy_port")) proxy
    value (record {
      service_name = service_name;
      service_addr = service_addr;
      service_port = service_port;
      proxy_port = proxy_port;
    })

  taken_fields-Gives :
      (name addr : Option Text) (port_test : Bool) (port : Option ℕ) (proxy_test : Bool)
      (proxy : Option ℕ)
      → (port_test ≡ true → is_some port ≡ true)
      → (proxy_test ≡ true → is_some proxy ≡ true)
      → Gives
          (taken_fields (is_some name) (is_some addr) port_test proxy_test name addr port proxy)
          (described_fields name addr
            (if port_test then port else none)
            (if proxy_test then proxy else none))
  taken_fields-Gives none addr port_test port proxy_test proxy h k = tt
  taken_fields-Gives (some a) none port_test port proxy_test proxy h k = tt
  taken_fields-Gives (some a) (some b) false port proxy_test proxy h k = tt
  taken_fields-Gives (some a) (some b) true none proxy_test proxy h k =
      absurd (ground (arith, h refl))
  taken_fields-Gives (some a) (some b) true (some c) false proxy h k = tt
  taken_fields-Gives (some a) (some b) true (some c) true none h k = absurd (ground (arith, k refl))
  taken_fields-Gives (some a) (some b) true (some c) true (some d) h k = refl

  -- A value as an integer, where it is one.
  abbrev pub integer_of : j.Value → Option ℕ
  integer_of v = if j.is_number_integer v then j.as_int32 v else none

  -- What a value describes as a service: all four fields with their types.
  abbrev pub described_service_info : j.Value → Option ServiceInfo
  described_service_info v =
      described_fields (and_then (j.at v (codes "service_name")) j.as_string)
        (and_then (j.at v (codes "service_addr")) j.as_string)
        (and_then (j.at v (codes "service_port")) integer_of)
        (and_then (j.at v (codes "proxy_port")) integer_of)

  module _ (laws : JsonLaws j) where
    -- Without one of the fields nothing is described, whatever the others are.
    addr_missing :
        (name : Option Text) (port proxy : Option ℕ) → described_fields name none port proxy ≡ none
    addr_missing none port proxy = refl
    addr_missing (some a) port proxy = refl

    port_missing :
        (name addr : Option Text) (proxy : Option ℕ) → described_fields name addr none proxy ≡ none
    port_missing none addr proxy = refl
    port_missing (some a) none proxy = refl
    port_missing (some a) (some b) proxy = refl

    proxy_missing :
        (name addr : Option Text) (port : Option ℕ) → described_fields name addr port none ≡ none
    proxy_missing none addr port = refl
    proxy_missing (some a) none port = refl
    proxy_missing (some a) (some b) none = refl
    proxy_missing (some a) (some b) (some c) = refl

    throws-Gives : {A : Type 0} (r : Reason) (o : Option A) → o ≡ none → Gives (throws r) o
    throws-Gives r o e = subst (Gives (throws r)) (sym e) tt

    all_there :
        (name addr port proxy : j.Value)
        → Gives
            (taken_fields
              (j.is_string name)
              (j.is_string addr)
              (j.is_number_integer port)
              (j.is_number_integer proxy)
              (j.as_string name)
              (j.as_string addr)
              (j.as_int32 port)
              (j.as_int32 proxy))
            (described_fields
              (j.as_string name)
              (j.as_string addr)
              (integer_of port)
              (integer_of proxy))
    all_there name addr port proxy =
        rw (sym (laws.string_cast name), sym (laws.string_cast addr))
          (taken_fields-Gives (j.as_string name) (j.as_string addr) (j.is_number_integer port)
            (j.as_int32 port) (j.is_number_integer proxy) (j.as_int32 proxy)
            (laws.integer_cast port) (laws.integer_cast proxy))

    pub service_from_json-Gives :
        (v : j.Value) → Gives (service_from_json j v) (described_service_info v)
    unfolding service_from_json
    service_from_json-Gives v = elim (Option-cases (j.at v (codes "service_name"))) [
      | inl e ↦ rw e tt
      | inr (name, e) ↦ elim (Option-cases (j.at v (codes "service_addr"))) [
        | inl f ↦
            rw (e, f)
              (throws-Gives (field_missing (codes "service_addr")) _ (
                addr_missing (j.as_string name)
                  (and_then (j.at v (codes "service_port")) integer_of)
                  (and_then (j.at v (codes "proxy_port")) integer_of)))
        | inr (addr, f) ↦ elim (Option-cases (j.at v (codes "service_port"))) [
          | inl g ↦
              rw (e, f, g)
                (throws-Gives (field_missing (codes "service_port")) _ (
                  port_missing (j.as_string name) (j.as_string addr)
                    (and_then (j.at v (codes "proxy_port")) integer_of)))
          | inr (port, g) ↦ elim (Option-cases (j.at v (codes "proxy_port"))) [
            | inl h ↦
                rw (e, f, g, h)
                  (throws-Gives (field_missing (codes "proxy_port")) _
                    (proxy_missing (j.as_string name) (j.as_string addr) (integer_of port)))
            | inr (proxy, h) ↦ rw (e, f, g, h) (all_there name addr port proxy)
          ]
        ]
      ]
    ]
