-- ===== src/Proxy/Bootstrap.antt =====
-- pkg/proxy/tools.go: BootstrapRules, the service and the endpoint of the API server that make it
-- reachable before the informers run. `int32(n)` keeps the low 32 bits.
use nfproxy.Prelude.{
  ℕ, String, text_Eq, ◌==◌, ◌%◌, ◌^◌, Bool, true, none, some, [], ◌∷◌, if◌then◌else◌,
}
use nfproxy.Go.{⊤}
use nfproxy.Go.Act.{Act, ◌>>◌}
use nfproxy.External.{External, Url}
use nfproxy.Kube.{ObjectMeta, Service, Endpoints, EndpointSlice}
use nfproxy.Proxy.Tools.{get_ip_family}
use nfproxy.Proxy.State.{Proxy}
use nfproxy.Proxy.Endpoints.Handlers.{add_endpoints}
use nfproxy.Proxy.Slices.{label_service_name, add_endpoint_slice}
use nfproxy.Proxy.Services.Handlers.{add_service}

abbrev pub to_int32 : ℕ → ℕ
to_int32 n = n % 2 ^ 32

abbrev api_meta : ObjectMeta
api_meta = record { name = "kubernetes"; namespace = "default"; resource_version = ""; labels = [] }

abbrev pub api_service : String → String → ℕ → String → Service
api_service scheme host port family = record {
  meta = api_meta;
  spec = record {
    ports = record { name = scheme; protocol = "TCP"; port = port; node_port = 0 } ∷ [];
    cluster_ip = host;
    external_ips = [];
    session_affinity = "";
    timeout_seconds = none;
    load_balancer_source_ranges = [];
    health_check_node_port = 0;
    ip_family = some family;
  };
  ingress = [];
}

abbrev pub api_slice : String → String → ℕ → String → EndpointSlice
api_slice scheme host port family = record {
  meta = record api_meta { labels = (label_service_name, "kubernetes") ∷ [] };
  address_type = if family == "IPv6" then "IPv6" else "IPv4";
  endpoints = record { addresses = host ∷ []; hostname = none; ready = some true } ∷ [];
  ports = record { name = some scheme; protocol = some "TCP"; port = some port } ∷ [];
}

abbrev pub api_endpoints : String → String → ℕ → Endpoints
api_endpoints scheme host port = record {
  meta = api_meta;
  subsets =
      record {
        addresses = record { ip = host; hostname = ""; node_name = none } ∷ [];
        not_ready_addresses = [];
        ports = record { name = scheme; port = port; protocol = "TCP" } ∷ [];
      }
      ∷ [];
}

module _ (ext : External) where
  open ext use {Kernel}

  unfoldable pub bootstrap_rules : String → String → Url → Bool → Act (Proxy Kernel) ⊤
  bootstrap_rules in_host in_port endpoint endpoint_slice =
      let (host, text) = ext.split_host_port endpoint.host in
      let port = to_int32 (ext.atoi text).0 in
      let family = (get_ip_family ext in_host).0 in
      let end =
        if endpoint_slice
        then add_endpoint_slice ext (api_slice endpoint.scheme host port family)
        else add_endpoints ext (api_endpoints endpoint.scheme host port) in
      add_service ext (api_service endpoint.scheme in_host (to_int32 (ext.atoi in_port).0) family)
      >> end
