-- ===== src/Kube.antt =====
-- The Kubernetes API objects (k8s.io/api), by the fields that the program reads. A nil pointer in
-- an object is `none`. Ports and counts are natural numbers.
use nfproxy.Prelude.{ℕ, String, Bool, Option, List, Assoc}

pub record ObjectMeta : Type 0 where
  pub name : String
  pub namespace : String
  pub resource_version : String
  pub labels : Assoc String String

-- v1.ServicePort
pub record KubePort : Type 0 where
  pub name : String
  pub protocol : String
  pub port : ℕ
  pub node_port : ℕ

pub record LoadBalancerIngress : Type 0 where
  pub ip : String
  pub hostname : String

-- `timeout_seconds` is `SessionAffinityConfig.ClientIP.TimeoutSeconds`, `none` if a pointer on the
-- way is nil.
pub record ServiceSpec : Type 0 where
  pub ports : List KubePort
  pub cluster_ip : String
  pub external_ips : List String
  pub session_affinity : String
  pub timeout_seconds : Option ℕ
  pub load_balancer_source_ranges : List String
  pub health_check_node_port : ℕ
  pub ip_family : Option String

-- `ingress` is `Status.LoadBalancer.Ingress`.
pub record Service : Type 0 where
  pub meta : ObjectMeta
  pub spec : ServiceSpec
  pub ingress : List LoadBalancerIngress

pub record EndpointAddress : Type 0 where
  pub ip : String
  pub hostname : String
  pub node_name : Option String

pub record EndpointPort : Type 0 where
  pub name : String
  pub port : ℕ
  pub protocol : String

pub record EndpointSubset : Type 0 where
  pub addresses : List EndpointAddress
  pub not_ready_addresses : List EndpointAddress
  pub ports : List EndpointPort

pub record Endpoints : Type 0 where
  pub meta : ObjectMeta
  pub subsets : List EndpointSubset

-- discovery.Endpoint; `ready` is `Conditions.Ready`.
pub record SliceEndpoint : Type 0 where
  pub addresses : List String
  pub hostname : Option String
  pub ready : Option Bool

-- discovery.EndpointPort
pub record SlicePort : Type 0 where
  pub name : Option String
  pub protocol : Option String
  pub port : Option ℕ

pub record EndpointSlice : Type 0 where
  pub meta : ObjectMeta
  pub address_type : String
  pub endpoints : List SliceEndpoint
  pub ports : List SlicePort
