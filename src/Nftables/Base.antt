-- ===== src/Nftables/Base.antt =====
-- pkg/nftables/nftables.go and common.go: names, the interfaces of the two tables, and how a
-- protocol, an address and a verdict are translated.
use nfproxy.Prelude.{
  ℕ, ◌%◌, String, text_append, Option, none, some, List, Assoc, ◌==◌, text_Eq, if◌then◌else◌,
}
use nfproxy.Go.{Result, ok, err}
use nfproxy.External.{External, Verdict, SetRef, Handle, TableFamily, ipv4, ipv6}

abbrev pub filter_input : String
filter_input = "filter-input"

abbrev pub filter_output : String
filter_output = "filter-output"

abbrev pub filter_forward : String
filter_forward = "filter-forward"

abbrev pub filter_firewall : String
filter_firewall = "k8s-filter-firewall"

abbrev pub filter_services : String
filter_services = "k8s-filter-services"

abbrev pub k8s_filter_forward : String
k8s_filter_forward = "k8s-filter-forward"

abbrev pub nat_prerouting : String
nat_prerouting = "nat-prerouting"

abbrev pub nat_output : String
nat_output = "nat-output"

abbrev pub nat_postrouting : String
nat_postrouting = "nat-postrouting"

abbrev pub nat_mark_drop : String
nat_mark_drop = "k8s-nat-mark-drop"

abbrev pub nat_mark_masq : String
nat_mark_masq = "k8s-nat-mark-masq"

abbrev pub nat_do_masquerade : String
nat_do_masquerade = "k8s-nat-do-masquerade"

abbrev pub nat_services : String
nat_services = "k8s-nat-services"

abbrev pub nat_nodeports : String
nat_nodeports = "k8s-nat-nodeports"

abbrev pub k8s_nat_postrouting : String
k8s_nat_postrouting = "k8s-nat-postrouting"

abbrev pub no_endpoints_set : String
no_endpoints_set = "no-endpoints"

abbrev pub nodeport_set : String
nodeport_set = "nodeports"

abbrev pub mark_masq_set : String
mark_masq_set = "do-mark-masq"

abbrev pub cluster_ip_set : String
cluster_ip_set = "cluster-ip"

abbrev pub external_ip_set : String
external_ip_set = "external-ip"

abbrev pub loadbalancer_ip_set : String
loadbalancer_ip_set = "loadbalancer-ip"

abbrev pub nat_do_mark_masq : String
nat_do_mark_masq = "k8s-nat-do-mark-masq"

abbrev pub filter_do_reject : String
filter_do_reject = "k8s-filter-do-reject"

-- K8sSvcPrefix + svcID
abbrev pub svc_chain : String → String
svc_chain svc_id = text_append "k8s-nfproxy-svc-" svc_id

-- K8sAffinityMap + svcID
abbrev pub affinity_map : String → String
affinity_map svc_id = text_append "affinity-map-" svc_id

-- Go's conversion to uint16 and to uint32
abbrev pub uint16 : ℕ → ℕ
uint16 n = n % 65536

abbrev pub uint32 : ℕ → ℕ
uint32 n = n % 4294967296

-- `sets` is the map of the sets that the set-up has created, for both tables.
pub record NftInterface : Type 0 where
  pub cluster_cidr_ipv4 : String
  pub cluster_cidr_ipv6 : String
  pub ci_v4 : Handle
  pub ci_v6 : Handle
  pub si_v4 : Handle
  pub si_v6 : Handle
  pub sets : Assoc String SetRef

abbrev pub ci_for_table_family : NftInterface → TableFamily → Handle
ci_for_table_family nfti ipv6 = nfti.ci_v6
ci_for_table_family nfti ipv4 = nfti.ci_v4

-- The functions below choose the sets' interface in the same way.
abbrev pub si_for_table_family : NftInterface → TableFamily → Handle
si_for_table_family nfti ipv6 = nfti.si_v6
si_for_table_family nfti ipv4 = nfti.si_v4

-- IPPROTO_TCP is 6, IPPROTO_UDP 17 and IPPROTO_SCTP 132.
unfoldable pub proto_byte_from_v1_proto : String → ℕ
proto_byte_from_v1_proto proto =
    if proto == "TCP" then 6 else if proto == "UDP" then 17 else if proto == "SCTP" then 132 else 6

-- The value, or Go's nil if there is an error.
abbrev pub value_or_nil : {A : Type 0} → Result A → Option A
value_or_nil (ok a) = some a
value_or_nil (err e) = none

module _ (ext : External) where
  abbrev pub set_action_verdict : Verdict → List String → Option (ext.Action)
  set_action_verdict key chain = value_or_nil (ext.set_verdict key chain)

  abbrev pub set_ip_addr : String → Option (ext.Addr)
  set_ip_addr addr = value_or_nil (ext.new_ip_addr addr)
