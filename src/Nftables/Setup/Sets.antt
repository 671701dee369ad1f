-- ===== src/Nftables/Setup/Sets.antt =====
-- pkg/nftables/common.go: setupCommonSets. The map of sets is returned: after an error nobody reads
-- it any more.
use nfproxy.Prelude.{
  String, text_Eq, Bool, true, false, List, [], ◌∷◌, Assoc, insert, if◌then◌else◌,
}
use nfproxy.Go.Exec.{Exec, pure, wrap, ◌>>=◌}
use nfproxy.External.{
  External, Handle, SetRef, SetAttributes, SetDatatype, type_inet_proto, type_ip_addr,
  type_ip6_addr, type_inet_service, type_verdict,
}
use nfproxy.Nftables.Base.{
  no_endpoints_set, mark_masq_set, cluster_ip_set, external_ip_set, loadbalancer_ip_set,
  nodeport_set,
}

-- The key of the sets of services, and that of the set of node ports.
abbrev pub service_key : Bool → List SetDatatype
service_key ipv6 =
    type_inet_proto ∷ (if ipv6 then type_ip6_addr else type_ip_addr) ∷ type_inet_service ∷ []

abbrev pub nodeport_key : List SetDatatype
nodeport_key = type_inet_proto ∷ type_inet_service ∷ []

abbrev common_attributes : String → List SetDatatype → SetAttributes
common_attributes name key = record {
  name = name;
  constant = false;
  is_map = true;
  has_timeout = false;
  timeout = 0;
  key_type = key;
  data_type = type_verdict;
}

abbrev pub service_sets : List String
service_sets =
    no_endpoints_set ∷ mark_masq_set ∷ cluster_ip_set ∷ external_ip_set ∷ loadbalancer_ip_set ∷ []

module _ (ext : External) where
  abbrev pub create_common_set : Handle → String → List SetDatatype → Exec ext.Kernel SetRef
  create_common_set si name key =
      wrap "failed to create set" (ext.sets_create_set si (common_attributes name key))

  unfoldable pub create_sets :
      Handle → Bool → List String → Assoc String SetRef → Exec ext.Kernel (Assoc String SetRef)
  create_sets si ipv6 [] sets = pure sets
  create_sets si ipv6 (name ∷ names) sets = do
    set ← create_common_set si name (service_key ipv6)
    create_sets si ipv6 names (insert name set sets)

  unfoldable pub setup_common_sets :
      Assoc String SetRef → Handle → Bool → Exec ext.Kernel (Assoc String SetRef)
  setup_common_sets sets si ipv6 = do
    made ← create_sets si ipv6 service_sets sets
    set ← create_common_set si nodeport_set nodeport_key
    pure (insert nodeport_set set made)
