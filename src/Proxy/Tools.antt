-- ===== src/Proxy/Tools.antt =====
-- pkg/proxy/tools.go: names and hashes, and searches of the API objects.
pub mod Searches
pub mod Ports
use Prim.Native.String.{slice}
use nfproxy.Prelude.{
  ℕ, suc, String, text_append, Bool, true, false, ◌&&◌, ◌||◌, not, ◌==◌, nat_Eq, text_Eq, Option,
  none, some, List, [], ◌∷◌, length, or_else, if◌then◌else◌,
}
use nfproxy.External.{External, TableFamily, ipv4, ipv6}
use nfproxy.Kube.{
  KubePort, LoadBalancerIngress, EndpointAddress, EndpointPort, EndpointSubset, SliceEndpoint,
  SlicePort, EndpointSlice,
}
use nfproxy.Proxy.Types.{ServicePortName}

module _ (ext : External) where
  -- base32 of the sha256 sum, its first 16 characters
  abbrev short_hash : String → String
  short_hash s = slice (ext.base32 (ext.sha256 s)) 0 16

  abbrev pub service_port_endpoint_chain_name : String → String → String → String
  service_port_endpoint_chain_name service_port_name protocol endpoint =
      text_append "k8s-nfproxy-sep-"
        (short_hash (text_append service_port_name (text_append protocol endpoint)))

  abbrev pub service_port_svc_id : String → String → String → String
  service_port_svc_id service_port_name protocol service =
      short_hash (text_append service_port_name (text_append protocol service))

  -- The family's name in the API, and the table.
  unfoldable pub get_ip_family : String → String × TableFamily
  get_ip_family ipaddr = if ext.is_ipv6_string ipaddr then ("IPv6", ipv6) else ("IPv4", ipv4)

  -- The choice of a table that the service handlers write out.
  abbrev pub table_family : String → TableFamily
  table_family ipaddr = if ext.is_ipv6_string ipaddr then ipv6 else ipv4

abbrev pub get_svc_port_name : String → String → String → String → ServicePortName
get_svc_port_name name namespace port_name protocol = record {
  namespaced = record { namespace = namespace; name = name };
  port = port_name;
  protocol = protocol;
}

-- The loop over the ports of a subset, for its address `subset_ip`.
unfoldable pub is_port_in_ports : List EndpointPort → EndpointPort → String → String → Bool
is_port_in_ports [] port subset_ip ip = false
is_port_in_ports (p ∷ ps) port subset_ip ip =
    (p.name == port.name
      && (p.port == port.port && (p.protocol == port.protocol && subset_ip == ip)))
    || is_port_in_ports ps port subset_ip ip

unfoldable pub is_port_at_addresses :
    List EndpointAddress → List EndpointPort → EndpointPort → EndpointAddress → Bool
unfolding is_port_in_ports
is_port_at_addresses [] ps port addr = false
is_port_at_addresses (a ∷ rest) ps port addr =
    is_port_in_ports ps port a.ip addr.ip || is_port_at_addresses rest ps port addr

unfoldable pub is_port_in_subset : List EndpointSubset → EndpointPort → EndpointAddress → Bool
unfolding is_port_at_addresses
is_port_in_subset [] port addr = false
is_port_in_subset (s ∷ ss) port addr =
    (is_port_at_addresses s.addresses s.ports port addr
      || is_port_at_addresses s.not_ready_addresses s.ports port addr)
    || is_port_in_subset ss port addr

-- The comparison of a slice's port, where a nil pointer counts as the zero value.
abbrev pub slice_port_matches : SlicePort → EndpointPort → Bool
slice_port_matches p port =
    or_else p.name "" == port.name
    && (or_else p.port 0 == port.port && or_else p.protocol "" == port.protocol)

unfoldable pub is_string_in_slice : String → List String → Bool
is_string_in_slice a [] = false
is_string_in_slice a (s ∷ b) = a == s || is_string_in_slice a b

-- The ports and addresses of one endpoint: the loops over the ports, for one endpoint.
unfoldable pub is_port_of_endpoint : SliceEndpoint → List SlicePort → EndpointPort → String → Bool
unfolding is_string_in_slice
is_port_of_endpoint e [] port ip = false
is_port_of_endpoint e (p ∷ ps) port ip =
    (slice_port_matches p port && is_string_in_slice ip e.addresses)
    || is_port_of_endpoint e ps port ip

-- The outer `none` is the panic on a nil `Ready`; the pair is (ready, found).
unfoldable pub is_port_in_endpoints :
    List SliceEndpoint → List SlicePort → EndpointPort → EndpointAddress → Option (Bool × Bool)
unfolding is_port_of_endpoint
is_port_in_endpoints [] ps port addr = some (false, false)
is_port_in_endpoints (e ∷ es) ps port addr =
    if is_port_of_endpoint e ps port addr.ip
    then elim e.ready [ none ↦ none | some ready ↦ some (ready, true) ]
    else is_port_in_endpoints es ps port addr

unfoldable pub is_port_in_endpoint_slice :
    EndpointSlice → EndpointPort → EndpointAddress → Option (Bool × Bool)
unfolding is_port_in_endpoints
is_port_in_endpoint_slice epsl port addr = is_port_in_endpoints epsl.endpoints epsl.ports port addr

-- The index of the first port that passes a test, counted from `i`.
unfoldable pub find_port : (KubePort → Bool) → ℕ → List KubePort → Option ℕ
find_port test i [] = none
find_port test i (p ∷ ps) = if test p then some i else find_port test (suc i) ps

abbrev pub same_name : KubePort → KubePort → Bool
same_name service_port p = service_port.name == p.name

abbrev pub same_pair : KubePort → KubePort → Bool
same_pair service_port p = service_port.protocol == p.protocol && service_port.port == p.port

-- Two passes: by name, then by protocol and port.
unfoldable pub is_service_port_in_ports : List KubePort → KubePort → ℕ × Bool
unfolding find_port
is_service_port_in_ports ports service_port = elim (find_port (same_name service_port) 0 ports) [
  | some i ↦ (i, true)
  | none ↦ elim (find_port (same_pair service_port) 0 ports) [
    | some i ↦ (i, true)
    | none ↦ (0, false)
  ]
]

-- The loop of `compareSliceOfString`, over two slices of one length.
unfoldable pub same_elements : List String → List String → Bool
same_elements [] b = true
same_elements (x ∷ a) [] = true
same_elements (x ∷ a) (y ∷ b) = if x == y then same_elements a b else false

unfoldable pub compare_slice_of_string : List String → List String → Bool
unfolding same_elements
compare_slice_of_string a b = if not (length a == length b) then false else same_elements a b

-- isAddressInIngress: the index and whether it was found
unfoldable pub find_ingress : ℕ → List LoadBalancerIngress → String → ℕ × Bool
find_ingress i [] address = (0, false)
find_ingress i (a ∷ rest) address =
    if a.ip == address then (i, true) else find_ingress (suc i) rest address

unfoldable pub is_address_in_ingress : List LoadBalancerIngress → String → ℕ × Bool
unfolding find_ingress
is_address_in_ingress ingress address = find_ingress 0 ingress address

-- One of the loops of `isIngressEqual`.
unfoldable pub all_in_ingress : List LoadBalancerIngress → List LoadBalancerIngress → Bool
unfolding is_address_in_ingress
all_in_ingress [] b = true
all_in_ingress (x ∷ a) b = if (is_address_in_ingress b x.ip).1 then all_in_ingress a b else false

unfoldable pub is_ingress_equal : List LoadBalancerIngress → List LoadBalancerIngress → Bool
unfolding all_in_ingress
is_ingress_equal a b =
    if not (length a == length b)
    then false
    else if all_in_ingress a b
    then all_in_ingress b a
    else false
