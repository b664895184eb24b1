-- ===== src/Tests/Startups.antt =====
-- A client with two services.
use ncx_for_mall.Prelude.{ℕ, ◌≡◌, refl, List, [], ◌∷◌, codes}
use ncx_for_mall.Config.{CControlChannelArgs}
use ncx_for_mall.Client.Startup.{new_nclient, run_client}
use ncx_for_mall.Client.Startup.Registered.{Registered, Rests, Greets, new_nclient-Registered}
use ncx_for_mall.Tests.Samples.{sample_wire}

abbrev pub service_args : List ℕ → ℕ → CControlChannelArgs
service_args name proxy_port = record {
  server_addr = record { s_addr = 10; sin_port = 8082 };
  service_name = name;
  service_addr = record { s_addr = 127; sin_port = 22 };
  proxy_port = proxy_port;
}

abbrev two_services : List (List ℕ × CControlChannelArgs)
two_services =
    (1 ∷ [], service_args (codes "ssh") 8022) ∷ (2 ∷ [], service_args (codes "web") 8080) ∷ []

new_nclient-Registered_example :
    Registered Rests two_services 0
      (new_nclient two_services).channels
      (new_nclient two_services).cc_map
    × ((new_nclient two_services).to_do ≡ 0 ∷ 1 ∷ [])
    × Registered
        (Greets sample_wire)
        two_services
        0
        (run_client sample_wire (new_nclient two_services)).channels
        (run_client sample_wire (new_nclient two_services)).cc_map
    × ((run_client sample_wire (new_nclient two_services)).to_do ≡ [])
new_nclient-Registered_example =
    new_nclient-Registered sample_wire two_services (refl, (refl, refl, tt), (refl, tt, tt))
