-- ===== src/EndpointsGen/Objects.antt =====
-- pkg/endpointsgen/util.go: generateSusbsets, generateEndpoints and generateServices. A test
-- `s == n - 1` of ints that are not negative is `s + 1 == n`. `uuids` gives the first 13 characters
-- of the UUIDs, one after the other.
use nfproxy.Prelude.{
  ℕ, zero, suc, ◌*◌, ◌+◌, ◌-◌, ◌%◌, ◌^◌, String, text_append, nat_Eq, ◌==◌, Bool, Option, none,
  some, List, [], ◌∷◌, ◌++◌, map, if◌then◌else◌,
}
use nfproxy.External.{External}
use nfproxy.Kube.{
  ObjectMeta, KubePort, Service, EndpointAddress, EndpointPort, EndpointSubset, Endpoints,
}
use nfproxy.EndpointsGen.Addresses.{is_negative, addr_length, next_address, gen_addr_string}

-- The number of addresses, a product of ints, which wraps at 2 ^ 64.
abbrev pub total_ips : ℕ → ℕ → ℕ → ℕ
total_ips svc_number subset_number ip_in_subset =
    (svc_number * subset_number * ip_in_subset) % 2 ^ 64

abbrev pub stress_test_label : String
stress_test_label = "endpoints/stressTest"

abbrev test_meta : String → String → ObjectMeta
test_meta name namespace = record {
  name = name;
  namespace = namespace;
  resource_version = "";
  labels = (stress_test_label, "true") ∷ [];
}

abbrev pub subset_of : List (EndpointAddress × EndpointPort) → EndpointSubset
subset_of pairs = record {
  addresses = map (λ pair. pair.0) pairs;
  not_ready_addresses = [];
  ports = map (λ pair. pair.1) pairs;
}

module _ (ext : External) where
  -- An address with its port.
  unfoldable pub address_pair : String → Bool → ℕ → EndpointAddress × EndpointPort
  address_pair str is_ipv6 port =
      let text = ext.replace_all str (if is_ipv6 then ":" else ".") "-" in
      (
        record { ip = str; hostname = text_append "host-" text; node_name = none },
        record { name = text; port = port; protocol = "TCP" },
      )

  -- The loop of generateSusbsets, `n` times: the subsets so far, the address and the port, the
  -- pairs of the next subset, and their number.
  unfoldable pub subsets_loop :
      Bool
      → ℕ
      → ℕ
      → List EndpointSubset
      → List ℕ
      → ℕ
      → List (EndpointAddress × EndpointPort)
      → ℕ
      → Option (List EndpointSubset)
  unfolding next_address gen_addr_string address_pair
  subsets_loop is_ipv6 per_subset zero subsets addr port pairs s = some subsets
  subsets_loop is_ipv6 per_subset (suc n) subsets addr port pairs s =
      elim (next_address (addr_length is_ipv6 - 1) addr) [
        | none ↦ none
        | some next ↦ elim (gen_addr_string ext next is_ipv6) [
          | none ↦ none
          | some str ↦
              let grown = pairs ++ address_pair str is_ipv6 port ∷ [] in
              let full = s + 1 == per_subset in
              subsets_loop is_ipv6 per_subset n
                (if full then subsets ++ subset_of grown ∷ [] else subsets) next
                ((port + 1) % 2 ^ 16) (if full then [] else grown) (if full then 0 else s + 1)
        ]
      ]

  -- A loop with a negative bound has no round.
  unfoldable pub generate_subsets : List ℕ → Bool → ℕ → ℕ → Option (List EndpointSubset)
  unfolding subsets_loop
  generate_subsets addr is_ipv6 number per_subset =
      let all = subsets_loop is_ipv6 per_subset number [] addr 16384 [] 0 in
      if is_negative number then some [] else all

module _ (uuids : ℕ → String) where
  abbrev pub endpoints_named : String → ℕ → List EndpointSubset → Endpoints
  endpoints_named namespace i subsets = record {
    meta = test_meta (text_append "app-" (uuids i)) namespace;
    subsets = subsets;
  }

  -- The loop of generateEndpoints: the endpoints so far, the subsets of the next one, and `e`.
  unfoldable pub endpoints_loop :
      String
      → ℕ
      → List EndpointSubset
      → List Endpoints
      → ℕ
      → List EndpointSubset
      → ℕ
      → List Endpoints
  endpoints_loop namespace per_endpoints [] eps used sbs e = eps
  endpoints_loop namespace per_endpoints (x ∷ subsets) eps used sbs e =
      let grown = sbs ++ x ∷ [] in
      let full = e + 1 == per_endpoints in
      endpoints_loop namespace per_endpoints subsets
        (if full then eps ++ endpoints_named namespace used grown ∷ [] else eps)
        (if full then suc used else used) (if full then [] else grown) (if full then 0 else e + 1)

  unfoldable pub generate_endpoints : List EndpointSubset → String → ℕ → List Endpoints
  unfolding endpoints_loop
  generate_endpoints subsets namespace subset_number =
      endpoints_loop namespace subset_number subsets [] 0 [] 0

abbrev pub service_port : EndpointPort → KubePort
service_port port = record {
  name = port.name;
  protocol = port.protocol;
  port = port.port;
  node_port = 0;
}

-- The two loops over the ports of the subsets.
unfoldable pub service_ports : List EndpointSubset → List KubePort
service_ports [] = []
service_ports (subset ∷ subsets) = map service_port subset.ports ++ service_ports subsets

unfoldable pub generate_service : Endpoints → Service
unfolding service_ports
generate_service ep = record {
  meta = test_meta ep.meta.name ep.meta.namespace;
  spec = record {
    ports = service_ports ep.subsets;
    cluster_ip = "";
    external_ips = [];
    session_affinity = "";
    timeout_seconds = none;
    load_balancer_source_ranges = [];
    health_check_node_port = 0;
    ip_family = none;
  };
  ingress = [];
}

abbrev pub generate_services : List Endpoints → List Service
generate_services eps = map generate_service eps
