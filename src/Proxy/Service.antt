-- ===== src/Proxy/Service.antt =====
-- pkg/proxy/service.go: the information of a service port. The commented-out field topologyKeys
-- is never set.
use nfproxy.Prelude.{
  ℕ, String, text_append, Bool, false, ◌==◌, text_Eq, nat_Eq, Option, none, some, List, [], map,
  or_else, if◌then◌else◌,
}
use nfproxy.External.{External}
use nfproxy.Kube.{KubePort, LoadBalancerIngress, Service}
use nfproxy.Nftables.Types.{SvcNft}
use nfproxy.Proxy.Types.{service_port_name_string}

pub record BaseServiceInfo : Type 0 where
  pub svc_name : String
  pub svc_namespace : String
  pub ip_family : String
  pub cluster_ip : List ℕ
  pub port : ℕ
  pub protocol : String
  pub node_port : ℕ
  pub load_balancer_status : List LoadBalancerIngress
  pub session_affinity_type : String
  pub sticky_max_age_seconds : ℕ
  pub external_ips : List String
  pub load_balancer_source_ranges : List String
  pub health_check_node_port : ℕ
  pub only_node_local_endpoints : Bool
  pub svcnft : SvcNft

pub record ServiceInfo : Type 0 where
  pub base : BaseServiceInfo
  pub service_name_string : String

-- LoadBalancerIPStrings
abbrev pub load_balancer_ip_strings : BaseServiceInfo → List String
load_balancer_ip_strings info = map (λ i. i.ip) info.load_balancer_status

-- ServiceAffinityClientIP and ServiceAffinityNone
abbrev pub affinity_client_ip : String
affinity_client_ip = "ClientIP"

abbrev pub affinity_none : String
affinity_none = "None"

-- &nftables.SVCnft{}
abbrev pub empty_svcnft : SvcNft
empty_svcnft = record {
  chains = [];
  with_endpoints = false;
  with_affinity = false;
  max_age_seconds = 0;
  service_id = "";
}

module _ (ext : External) where
  -- String: fmt.Sprintf("%s:%s:%d/%s", …)
  abbrev pub base_service_info_string : BaseServiceInfo → String
  base_service_info_string info = text_append info.ip_family (
      text_append ":" (
        text_append (ext.ip_string info.cluster_ip)
          (text_append ":" (text_append (ext.itoa info.port) (text_append "/" info.protocol)))))

  -- The service port's name has no protocol here.
  unfoldable pub new_service_info : KubePort → Service → BaseServiceInfo → ServiceInfo
  new_service_info port service base = record {
    base = base;
    service_name_string = service_port_name_string ext (record {
      namespaced = record { namespace = service.meta.namespace; name = service.meta.name };
      port = port.name;
      protocol = "";
    });
  }

  -- `none` is the panic on a nil timeout of a service with the affinity ClientIP.
  abbrev pub sticky_seconds : Service → Option ℕ
  sticky_seconds service =
      if service.spec.session_affinity == affinity_client_ip
      then service.spec.timeout_seconds
      else some 0

  abbrev base_info_with : KubePort → Service → ℕ → BaseServiceInfo
  base_info_with port service seconds = record {
    svc_name = service.meta.name;
    svc_namespace = service.meta.namespace;
    ip_family = or_else service.spec.ip_family "IPv4";
    cluster_ip = ext.parse_ip service.spec.cluster_ip;
    port = port.port;
    protocol = port.protocol;
    node_port = port.node_port;
    load_balancer_status = service.ingress;
    session_affinity_type = service.spec.session_affinity;
    sticky_max_age_seconds = seconds;
    external_ips = service.spec.external_ips;
    load_balancer_source_ranges = service.spec.load_balancer_source_ranges;
    health_check_node_port =
        if ext.needs_health_check service then service.spec.health_check_node_port else 0;
    only_node_local_endpoints = ext.requests_only_local_traffic service;
    svcnft = empty_svcnft;
  }

  unfoldable pub new_base_service_info : KubePort → Service → Option BaseServiceInfo
  new_base_service_info port service = elim (sticky_seconds service) [
    | none ↦ none
    | some seconds ↦ some (base_info_with port service seconds)
  ]
