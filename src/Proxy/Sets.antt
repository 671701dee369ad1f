-- ===== src/Proxy/Sets.antt =====
-- pkg/proxy/sets.go: the elements of a service port in the common sets.
use nfproxy.Prelude.{ℕ, String, ◌==◌, text_Eq, nat_Eq, map, if◌then◌else◌}
use nfproxy.Go.{⊤}
use nfproxy.Go.Exec.{Exec, pure, lift, ◌>>=◌, ◌>>◌, for_each}
use nfproxy.External.{External, TableFamily}
use nfproxy.Kube.{Service, KubePort}
use nfproxy.Nftables.Base.{
  NftInterface, svc_chain, uint16, no_endpoints_set, mark_masq_set, cluster_ip_set, external_ip_set,
  loadbalancer_ip_set, nat_do_mark_masq, filter_do_reject,
}
use nfproxy.Nftables.Sets.{
  add_to_set, remove_from_set, add_to_nodeport_set, remove_from_nodeport_set,
}
use nfproxy.Proxy.Cache.{Cache, get_last_known_svc_from_cache}
use nfproxy.Proxy.Service.{BaseServiceInfo, load_balancer_ip_strings}

module _ (ext : External) (nfti : NftInterface) where
  open ext use {Kernel}

  -- One address in a service set, and in the set of what is to be masqueraded.
  abbrev add_address : TableFamily → String → ℕ → String → String → String → Exec Kernel ⊤
  add_address fam proto port svc_id set_name ip =
      add_to_set ext nfti fam proto ip port set_name (svc_chain svc_id)
      >> add_to_set ext nfti fam proto ip port mark_masq_set nat_do_mark_masq

  abbrev remove_address : TableFamily → String → ℕ → String → String → String → Exec Kernel ⊤
  remove_address fam proto port svc_id set_name ip =
      remove_from_set ext nfti fam proto ip port set_name (svc_chain svc_id)
      >> remove_from_set ext nfti fam proto ip port mark_masq_set nat_do_mark_masq

  unfoldable pub add_service_port_to_sets : BaseServiceInfo → TableFamily → String → Exec Kernel ⊤
  add_service_port_to_sets info fam svc_id = do
    let proto = info.protocol
    let port = uint16 info.port
    add_address fam proto port svc_id cluster_ip_set (ext.ip_string info.cluster_ip)
    for_each info.external_ips (add_address fam proto port svc_id external_ip_set)
    for_each (load_balancer_ip_strings info) (add_address fam proto port svc_id loadbalancer_ip_set)
    if info.node_port == 0
        then pure tt
        else add_to_nodeport_set ext nfti fam proto (uint16 info.node_port) (svc_chain svc_id)

  -- The element of one of the cached service's node ports.
  abbrev remove_node_port : TableFamily → String → String → KubePort → Exec Kernel ⊤
  remove_node_port fam proto svc_id port =
      if port.node_port == 0
      then pure tt
      else remove_from_nodeport_set ext nfti fam proto (uint16 port.node_port) (svc_chain svc_id)

  -- The addresses and node ports are those of the service in the cache.
  abbrev remove_stored : BaseServiceInfo → Service → TableFamily → String → Exec Kernel ⊤
  remove_stored info stored fam svc_id = do
    let proto = info.protocol
    let port = uint16 info.port
    if stored.spec.cluster_ip == ""
        then pure tt
        else remove_address fam proto port svc_id cluster_ip_set stored.spec.cluster_ip
    for_each stored.spec.external_ips (remove_address fam proto port svc_id external_ip_set)
    for_each (map (λ i. i.ip) stored.ingress)
        (remove_address fam proto port svc_id loadbalancer_ip_set)
    for_each stored.spec.ports (remove_node_port fam proto svc_id)

  unfoldable pub remove_service_port_from_sets :
      Cache → BaseServiceInfo → TableFamily → String → Exec Kernel ⊤
  remove_service_port_from_sets cache info fam svc_id = do
    stored ← lift (get_last_known_svc_from_cache cache info.svc_name info.svc_namespace)
    remove_stored info stored fam svc_id

  abbrev reject : TableFamily → String → ℕ → String → Exec Kernel ⊤
  reject fam proto port ip = add_to_set ext nfti fam proto ip port no_endpoints_set filter_do_reject

  abbrev accept : TableFamily → String → ℕ → String → Exec Kernel ⊤
  accept fam proto port ip =
      remove_from_set ext nfti fam proto ip port no_endpoints_set filter_do_reject

  unfoldable pub add_to_no_endpoints_list : BaseServiceInfo → TableFamily → Exec Kernel ⊤
  add_to_no_endpoints_list info fam = do
    let proto = info.protocol
    let port = uint16 info.port
    reject fam proto port (ext.ip_string info.cluster_ip)
    for_each info.external_ips (reject fam proto port)
    for_each (load_balancer_ip_strings info) (reject fam proto port)

  unfoldable pub remove_from_no_endpoints_list : BaseServiceInfo → TableFamily → Exec Kernel ⊤
  remove_from_no_endpoints_list info fam = do
    let proto = info.protocol
    let port = uint16 info.port
    if ext.ip_string info.cluster_ip == ""
        then pure tt
        else accept fam proto port (ext.ip_string info.cluster_ip)
    for_each info.external_ips (accept fam proto port)
    for_each (load_balancer_ip_strings info) (accept fam proto port)
