-- ===== src/Tests/Generator.antt =====
-- The generator of test objects at concrete inputs.
use nfproxy.Prelude.{
  ℕ, String, ◌==◌, ◌≡◌, refl, true, false, none, some, List, [], ◌∷◌, any, length, All, arith,
}
use nfproxy.Go.{ok}
use nfproxy.Kube.{EndpointSubset}
use nfproxy.Proxy.Types.{EpInfo, port_name_Eq}
use nfproxy.Proxy.Endpoints.Subsets.{
  process_addresses, process_ports, process_subsets, process_ep_subsets,
}
use nfproxy.Proxy.Services.Changes.{name_of}
use nfproxy.EndpointsGen.Objects.{total_ips, generate_subsets, generate_endpoints, generate_service}
use nfproxy.EndpointsGen.Cluster.{Clientset, generate_test_objects}
use nfproxy.EndpointsGen.Sizes.{HasSubsets, generate_endpoints-length}
use nfproxy.EndpointsGen.Services.{generate_service-ports}
use nfproxy.EndpointsGen.Modes.{generate_test_objects-Panics}
use nfproxy.Tests.{counting, endpoints, http_name, address, http_port}

abbrev uuid : ℕ → String
uuid i = "0b2e7a3c-14d8"

generate_endpoints-length_example :
    (made : List EndpointSubset) × (generate_subsets counting
        (10 ∷ 1 ∷ 0 ∷ 253 ∷ [])
        false
        (total_ips 2 3 4)
        4
      ≡ some made)
    × (length (generate_endpoints uuid made "shop" 3) ≡ 2)
    × All (HasSubsets 3 4) (generate_endpoints uuid made "shop" 3)
generate_endpoints-length_example =
    generate_endpoints-length counting uuid "shop" false (10 ∷ 1 ∷ 0 ∷ 253 ∷ []) 2 3 4 refl
      (omega arith) (omega arith) (omega arith)

abbrev info_at : String → EpInfo
info_at ip = record { name = http_name; addr = address ip; port = http_port; ready = false }

generate_service-ports_example :
    All
      (λ (info : EpInfo).
        any
          (λ p. name_of (generate_service endpoints) p == info.name)
          (generate_service endpoints).spec.ports
        ≡ true)
      (info_at "10.1.0.1" ∷ info_at "10.1.0.2" ∷ [])
unfolding process_ep_subsets process_subsets process_ports process_addresses
generate_service-ports_example =
    generate_service-ports endpoints (info_at "10.1.0.1" ∷ info_at "10.1.0.2" ∷ []) refl

abbrev silent : Clientset
silent = record {
  State = ℕ;
  namespaces_list = λ s. (ok [], s);
  namespaces_create = λ name s. (ok tt, s);
  endpoints_create = λ namespace ep s. (ok tt, s);
  services_create = λ namespace svc s. (ok tt, s);
  endpoints_delete_collection = λ namespace label s. (ok tt, s);
  services_list = λ namespace label s. (ok [], s);
  services_delete = λ namespace name s. (ok tt, s);
}

generate_test_objects-Panics_example :
    generate_test_objects silent counting uuid "shop" "IPv4" 1 1 1 "10.0.0.1" "2001::1" 0 ≡ none
generate_test_objects-Panics_example =
    generate_test_objects-Panics counting silent uuid "shop" "IPv4" 1 1 1 "10.0.0.1" "2001::1" 0
      refl refl
