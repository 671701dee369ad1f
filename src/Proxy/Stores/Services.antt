-- ===== src/Proxy/Stores/Services.antt =====
-- pkg/proxy/proxy_service.go: what comes before the last step of a handler leaves the cache alone.
use nfproxy.Prelude.{ℕ, suc, String, Option, none, some, List, [], ◌∷◌}
use nfproxy.Go.{⊤}
use nfproxy.Go.Act.{Act}
use nfproxy.Go.Hoare.{Keeps, Keeps-pure, Keeps-bind}
use nfproxy.External.{External, TableFamily}
use nfproxy.Kube.{KubePort, Service}
use nfproxy.Nftables.Types.{SvcNft, SvcChain}
use nfproxy.Proxy.Types.{ServicePortName}
use nfproxy.Proxy.Cache.{Cache}
use nfproxy.Proxy.Service.{BaseServiceInfo, ServiceInfo}
use nfproxy.Proxy.Endpoint.{EndpointInfo}
use nfproxy.Proxy.State.{Proxy}
use nfproxy.Proxy.Services.{
  add_affinity, add_new_service_port, add_service_port, delete_rules_of, delete_affinity,
  delete_known_service_port, delete_service_port,
}
use nfproxy.Proxy.Services.Changes.{
  change_node_port, change_port, process_new_port, process_new_ports, process_old_port,
  process_service_port_changes,
}
use nfproxy.Proxy.Services.Addresses.{
  for_each_port, add_address, remove_address, process_cluster_ip_changes,
  process_external_ip_changes, process_load_balancer_ip_change,
}
use nfproxy.Proxy.Services.Affinity.{
  finish_affinity, enable_affinity, drop_match_act, drop_affinity_rules, disable_affinity,
  process_affinity_change,
}
use nfproxy.Proxy.Stores.{
  OfCache, cache_rules, update_service_chain-OfCache, add_affinity_endpoint-OfCache,
  delete_affinity_endpoint-OfCache,
}

module _ (ext : External) {Q : Cache → Type 0} where
  add_affinity-OfCache :
      (name : ServicePortName) (fam : TableFamily) (nft : SvcNft) (xs : List EndpointInfo)
      → Keeps (OfCache Q) (add_affinity ext name fam nft xs)
  unfolding add_affinity
  add_affinity-OfCache name fam nft xs =
      search (cache_rules, add_affinity_endpoint-OfCache) depth 12

  add_new_service_port-OfCache :
      (name : ServicePortName) (port : KubePort) (s : Service) (base : BaseServiceInfo)
      (max_age : ℕ)
      → Keeps (OfCache Q) (add_new_service_port ext name port s base max_age)
  unfolding add_new_service_port
  add_new_service_port-OfCache name port s base max_age =
      search (cache_rules, add_affinity-OfCache, update_service_chain-OfCache) depth 16

  pub add_service_port-OfCache :
      (name : ServicePortName) (port : KubePort) (s : Service) (base : BaseServiceInfo)
      → Keeps (OfCache Q) (add_service_port ext name port s base)
  unfolding add_service_port
  add_service_port-OfCache name port s base =
      search (cache_rules, add_new_service_port-OfCache) depth 10

  delete_rules_of-OfCache :
      (fam : TableFamily) (chains : Option SvcChain)
      → Keeps (OfCache Q) (delete_rules_of ext fam chains)
  unfolding delete_rules_of
  delete_rules_of-OfCache fam none = Keeps-pure tt
  delete_rules_of-OfCache fam (some chains) = search cache_rules depth 8

  delete_affinity-OfCache :
      (name : ServicePortName) (fam : TableFamily) (nft : SvcNft)
      → Keeps (OfCache Q) (delete_affinity ext name fam nft)
  unfolding delete_affinity
  delete_affinity-OfCache name fam nft =
      search (cache_rules, delete_affinity_endpoint-OfCache) depth 12

  delete_known_service_port-OfCache :
      (name : ServicePortName) (s : ServiceInfo)
      → Keeps (OfCache Q) (delete_known_service_port ext name s)
  unfolding delete_known_service_port
  delete_known_service_port-OfCache name s =
      search (cache_rules, delete_rules_of-OfCache, delete_affinity-OfCache) depth 16

  pub delete_service_port-OfCache :
      (name : ServicePortName) → Keeps (OfCache Q) (delete_service_port ext name)
  unfolding delete_service_port
  delete_service_port-OfCache name = search (cache_rules, delete_known_service_port-OfCache) depth 8

  change_node_port-OfCache :
      (new stored : Service) (i : ℕ) (port old : KubePort)
      → Keeps (OfCache Q) (change_node_port ext new stored i port old)
  unfolding change_node_port
  change_node_port-OfCache new stored i port old = search cache_rules depth 14

  ruleset port_rules =
      (cache_rules, add_service_port-OfCache, delete_service_port-OfCache, change_node_port-OfCache)

  change_port-OfCache :
      (new stored : Service) (i : ℕ) (port : KubePort) (base : BaseServiceInfo) (old : KubePort)
      → Keeps (OfCache Q) (change_port ext new stored i port base old)
  unfolding change_port
  change_port-OfCache new stored i port base old = search port_rules depth 10

  process_new_port-OfCache :
      (new stored : Service) (i : ℕ) (port : KubePort)
      → Keeps (OfCache Q) (process_new_port ext new stored i port)
  unfolding process_new_port
  process_new_port-OfCache new stored i port = search (port_rules, change_port-OfCache) depth 12

  process_new_ports-OfCache :
      (new stored : Service) (i : ℕ) (ports : List KubePort)
      → Keeps (OfCache Q) (process_new_ports ext new stored i ports)
  unfolding process_new_ports
  process_new_ports-OfCache new stored i [] = Keeps-pure tt
  process_new_ports-OfCache new stored i (p ∷ ps) =
      Keeps-bind _ _ (process_new_port-OfCache new stored i p)
        (λ _. process_new_ports-OfCache new stored (suc i) ps)

  process_old_port-OfCache :
      (new stored : Service) (port : KubePort)
      → Keeps (OfCache Q) (process_old_port ext new stored port)
  unfolding process_old_port
  process_old_port-OfCache new stored port = search port_rules depth 12

  pub process_service_port_changes-OfCache :
      (new stored : Service) → Keeps (OfCache Q) (process_service_port_changes ext new stored)
  unfolding process_service_port_changes
  process_service_port_changes-OfCache new stored =
      search (cache_rules, process_new_ports-OfCache, process_old_port-OfCache) depth 12

  for_each_port-OfCache :
      (new : Service) (f : KubePort → String → Act (Proxy ext.Kernel) ⊤)
      → ((port : KubePort) (chain : String) → Keeps (OfCache Q) (f port chain))
      → Keeps (OfCache Q) (for_each_port ext new f)
  unfolding for_each_port
  for_each_port-OfCache new f h = search cache_rules depth 10

  add_address-OfCache :
      (new : Service) (set_name addr : String)
      → Keeps (OfCache Q) (add_address ext new set_name addr)
  unfolding add_address
  add_address-OfCache new set_name addr = search (cache_rules, for_each_port-OfCache) depth 10

  remove_address-OfCache :
      (new : Service) (set_name addr : String)
      → Keeps (OfCache Q) (remove_address ext new set_name addr)
  unfolding remove_address
  remove_address-OfCache new set_name addr = search (cache_rules, for_each_port-OfCache) depth 10

  pub process_cluster_ip_changes-OfCache :
      (new stored : Service) → Keeps (OfCache Q) (process_cluster_ip_changes ext new stored)
  unfolding process_cluster_ip_changes
  process_cluster_ip_changes-OfCache new stored =
      search (cache_rules, for_each_port-OfCache) depth 12

  pub process_external_ip_changes-OfCache :
      (new stored : Service) → Keeps (OfCache Q) (process_external_ip_changes ext new stored)
  unfolding process_external_ip_changes
  process_external_ip_changes-OfCache new stored =
      search (cache_rules, add_address-OfCache, remove_address-OfCache) depth 12

  pub process_load_balancer_ip_change-OfCache :
      (new stored : Service) → Keeps (OfCache Q) (process_load_balancer_ip_change ext new stored)
  unfolding process_load_balancer_ip_change
  process_load_balancer_ip_change-OfCache new stored =
      search (cache_rules, add_address-OfCache, remove_address-OfCache) depth 12

  finish_affinity-OfCache :
      (name : ServicePortName) (fam : TableFamily) (svc : ServiceInfo)
      → Keeps (OfCache Q) (finish_affinity ext name fam svc)
  unfolding finish_affinity
  finish_affinity-OfCache name fam svc =
      search (cache_rules, add_affinity_endpoint-OfCache) depth 12

  enable_affinity-OfCache :
      (fam : TableFamily) (name : ServicePortName)
      → Keeps (OfCache Q) (enable_affinity ext fam name)
  unfolding enable_affinity
  enable_affinity-OfCache fam name = search (cache_rules, finish_affinity-OfCache) depth 16

  drop_match_act-OfCache :
      (fam : TableFamily) (name : ServicePortName) (svc : ServiceInfo) (ids : List ℕ)
      → Keeps (OfCache Q) (drop_match_act ext fam name svc ids)
  unfolding drop_match_act
  drop_match_act-OfCache fam name svc [] = Keeps-pure _
  drop_match_act-OfCache fam name svc (first ∷ []) = Keeps-pure _
  drop_match_act-OfCache fam name svc (first ∷ id ∷ others) =
      search (cache_rules, delete_affinity_endpoint-OfCache) depth 14

  drop_affinity_rules-OfCache :
      (fam : TableFamily) (name : ServicePortName) (svc : ServiceInfo)
      → Keeps (OfCache Q) (drop_affinity_rules ext fam name svc)
  unfolding drop_affinity_rules
  drop_affinity_rules-OfCache fam name svc = search (cache_rules, drop_match_act-OfCache) depth 10

  disable_affinity-OfCache :
      (fam : TableFamily) (name : ServicePortName)
      → Keeps (OfCache Q) (disable_affinity ext fam name)
  unfolding disable_affinity
  disable_affinity-OfCache fam name = search (cache_rules, drop_affinity_rules-OfCache) depth 12

  pub process_affinity_change-OfCache :
      (new stored : Service) → Keeps (OfCache Q) (process_affinity_change ext new stored)
  unfolding process_affinity_change
  process_affinity_change-OfCache new stored =
      search (cache_rules, enable_affinity-OfCache, disable_affinity-OfCache) depth 12
