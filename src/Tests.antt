-- ===== src/Tests.antt =====
-- Runs of the model at concrete inputs: the objects and the kernel of the tests, and in the child
-- modules the tests themselves.
pub mod Searches
pub mod Kernel
pub mod Runs
pub mod Isolation
pub mod Process
pub mod Generator
pub mod Changes
use nfproxy.Prelude.{
  ℕ, suc, String, Bool, true, false, none, some, Option, List, [], ◌∷◌, ◌==◌, text_Eq,
}
use nfproxy.Go.{⊤, Result, ok, err, from_lib, eexist, enoent}
use nfproxy.External.{External, TableFamily, ipv4}
use nfproxy.Kube.{
  ObjectMeta, KubePort, LoadBalancerIngress, ServiceSpec, Service, EndpointAddress, EndpointPort,
  EndpointSubset, Endpoints, SliceEndpoint, SlicePort, EndpointSlice,
}
use nfproxy.Nftables.Base.{NftInterface}
use nfproxy.Nftables.Types.{EpRule}
use nfproxy.Proxy.Types.{ServicePortName}
use nfproxy.Proxy.Tools.{get_svc_port_name}
use nfproxy.Proxy.State.{Proxy, new_proxy}

-- A kernel that gives each rule the next number. Its sets answer that an element to add is there,
-- and that one to delete is not.
abbrev pub counting : External
counting = record {
  Kernel = ℕ;
  Element = ℕ;
  Action = String;
  Addr = String;
  tables_exist = λ name fam k. (true, k);
  tables_create_imm = λ name fam k. (ok tt, k);
  tables_delete_imm = λ name fam k. (ok tt, k);
  tables_table_chains = λ name fam k. (ok k, suc k);
  tables_table_sets = λ name fam k. (ok k, suc k);
  chains_create_imm = λ h name attrs k. (ok tt, k);
  chains_delete_imm = λ h name k. (ok tt, k);
  chains_chain = λ h name k. (ok h, k);
  rules_create_imm = λ h r k. (ok k, suc k);
  rules_insert_imm = λ h r k. (ok k, suc k);
  rules_delete_imm = λ h id k. (ok tt, k);
  sets_add_elements = λ h name es k. (err (from_lib eexist), k);
  sets_del_elements = λ h name es k. (err (from_lib enoent), k);
  sets_create_set = λ h a k. (ok (record { name = "map"; id = k }), suc k);
  sets_del_set = λ h name k. (ok tt, k);
  sets_get_set_by_name = λ h name k. (ok (record { name = name; id = 7 }), k);
  make_concat_element = λ types values action. ok 1;
  set_verdict = λ key chains. ok "verdict";
  set_loadbalance = λ chains. ok "balance";
  set_dnat = λ addr port. ok "dnat";
  set_masq = ok "masq";
  set_reject = ok "reject";
  new_ip_addr = λ addr. ok addr;
  make_rule_comment = λ s. [];
  ct_state_new = 8;
  ct_state_invalid = 1;
  ct_state_related = 4;
  ct_state_established = 2;
  put_uint32 = λ n. n ∷ [];
  parse_ip = λ s. 10 ∷ [];
  to4 = λ ip. ip;
  to16 = λ ip. ip;
  ip_string = λ ip. "10.0.0.1";
  join_host_port = λ host port. host;
  itoa = λ n. "80";
  url_parse = λ s. ok (record { scheme = "https"; host = s });
  split_host_port = λ s. (s, "6443");
  atoi = λ s. (6443, ok tt);
  hex_byte = λ n. "0A";
  replace_all = λ s old new. s;
  sha256 = λ s. [];
  base32 = λ xs. "ABCDEFGHIJKLMNOPQRSTUVWXYZ";
  namespaced_name_string = λ namespace name. name;
  is_ipv6_string = λ s. false;
  should_skip_service = λ svc. false;
  requests_only_local_traffic = λ svc. false;
  needs_health_check = λ svc. false;
}

abbrev pub interface : NftInterface
interface = record {
  cluster_cidr_ipv4 = "10.0.0.0/8";
  cluster_cidr_ipv6 = "";
  ci_v4 = 1;
  ci_v6 = 2;
  si_v4 = 3;
  si_v6 = 4;
  sets = [];
}

abbrev pub meta : ObjectMeta
meta = record { name = "web"; namespace = "shop"; resource_version = "1"; labels = [] }

abbrev pub kube_port : String → ℕ → ℕ → KubePort
kube_port name port node_port = record {
  name = name;
  protocol = "TCP";
  port = port;
  node_port = node_port;
}

abbrev pub service : List KubePort → Service
service ports = record {
  meta = meta;
  spec = record {
    ports = ports;
    cluster_ip = "10.0.0.1";
    external_ips = [];
    session_affinity = "None";
    timeout_seconds = some 10;
    load_balancer_source_ranges = [];
    health_check_node_port = 0;
    ip_family = none;
  };
  ingress = [];
}

abbrev pub http : KubePort
http = kube_port "http" 80 0

abbrev pub address : String → EndpointAddress
address ip = record { ip = ip; hostname = ""; node_name = none }

abbrev pub http_port : EndpointPort
http_port = record { name = "http"; port = 8080; protocol = "TCP" }

abbrev pub endpoints : Endpoints
endpoints = record {
  meta = meta;
  subsets =
      record {
        addresses = address "10.1.0.1" ∷ address "10.1.0.2" ∷ [];
        not_ready_addresses = [];
        ports = http_port ∷ [];
      }
      ∷ [];
}

abbrev pub ingress_at : String → LoadBalancerIngress
ingress_at ip = record { ip = ip; hostname = "" }

abbrev pub http_name : ServicePortName
http_name = get_svc_port_name "web" "shop" "http" "TCP"

abbrev pub https_name : ServicePortName
https_name = get_svc_port_name "web" "shop" "https" "TCP"

abbrev pub ep_rule : ℕ → EpRule
ep_rule index = record {
  chain = "chain";
  rule_id = [];
  ep_index = index;
  with_affinity = false;
  max_age_seconds = 0;
  service_id = "id";
}

abbrev pub fresh : Proxy ℕ
fresh = new_proxy interface 0 "node" false
