-- ===== src/Proxy/Isolation/Services.antt =====
-- pkg/proxy/proxy_service.go: addServicePort and deleteServicePort touch one service port.
use nfproxy.Prelude.{ℕ, ◌≡◌, false, Option, none, some, List, ◌==◌, lookup}
use nfproxy.Go.{⊤}
use nfproxy.Go.Hoare.{Keeps, Keeps-run, Keeps-pure}
use nfproxy.External.{External, TableFamily}
use nfproxy.Kube.{KubePort, Service}
use nfproxy.Nftables.Types.{SvcNft, SvcChain}
use nfproxy.Proxy.Types.{ServicePortName, port_name_Eq}
use nfproxy.Proxy.Service.{BaseServiceInfo, ServiceInfo}
use nfproxy.Proxy.Endpoint.{EndpointInfo}
use nfproxy.Proxy.Services.{
  add_affinity, add_new_service_port, add_service_port, delete_rules_of, delete_affinity,
  delete_known_service_port, delete_service_port,
}
use nfproxy.Proxy.State.{Proxy, service_of}
use nfproxy.Proxy.Isolation.{
  own_entries, entries_kept, HasEntries, entries_rules, update_service_chain-HasEntries,
  add_affinity_endpoint-HasEntries, delete_affinity_endpoint-HasEntries,
}

module _ (ext : External) (other : ServicePortName) (svc : Option ServiceInfo)
    (eps : Option (List EndpointInfo)) (name : ServicePortName)
    (apart : (name == other) ≡ false) where
  add_affinity-HasEntries :
      (fam : TableFamily) (nft : SvcNft) (xs : List EndpointInfo)
      → Keeps (HasEntries other svc eps) (add_affinity ext name fam nft xs)
  unfolding add_affinity
  add_affinity-HasEntries fam nft xs =
      search (entries_rules, add_affinity_endpoint-HasEntries) depth 12

  add_new_service_port-HasEntries :
      (port : KubePort) (s : Service) (base : BaseServiceInfo) (max_age : ℕ)
      → Keeps (HasEntries other svc eps) (add_new_service_port ext name port s base max_age)
  unfolding add_new_service_port
  add_new_service_port-HasEntries port s base max_age =
      search (entries_rules, add_affinity-HasEntries, update_service_chain-HasEntries) depth 16

  add_service_port-HasEntries :
      (port : KubePort) (s : Service) (base : BaseServiceInfo)
      → Keeps (HasEntries other svc eps) (add_service_port ext name port s base)
  unfolding add_service_port
  add_service_port-HasEntries port s base =
      search (entries_rules, add_new_service_port-HasEntries) depth 10

  delete_rules_of-HasEntries :
      (fam : TableFamily) (chains : Option SvcChain)
      → Keeps (HasEntries other svc eps) (delete_rules_of ext fam chains)
  unfolding delete_rules_of
  delete_rules_of-HasEntries fam none = Keeps-pure tt
  delete_rules_of-HasEntries fam (some chains) = search entries_rules depth 8

  delete_affinity-HasEntries :
      (fam : TableFamily) (nft : SvcNft)
      → Keeps (HasEntries other svc eps) (delete_affinity ext name fam nft)
  unfolding delete_affinity
  delete_affinity-HasEntries fam nft =
      search (entries_rules, delete_affinity_endpoint-HasEntries) depth 12

  delete_known_service_port-HasEntries :
      (s : ServiceInfo) → Keeps (HasEntries other svc eps) (delete_known_service_port ext name s)
  unfolding delete_known_service_port
  delete_known_service_port-HasEntries s =
      search (entries_rules, delete_rules_of-HasEntries, delete_affinity-HasEntries) depth 16

  delete_service_port-HasEntries : Keeps (HasEntries other svc eps) (delete_service_port ext name)
  unfolding delete_service_port
  delete_service_port-HasEntries =
      search (entries_rules, delete_known_service_port-HasEntries) depth 8

-- If adding a service port ends, the entries of every other service port are as they were, in both
-- maps.
pub add_service_port-others :
    (ext : External) (name other : ServicePortName) (port : KubePort) (s : Service)
    (base : BaseServiceInfo) (p q : Proxy ext.Kernel) (r : ⊤)
    → (name == other) ≡ false
    → add_service_port ext name port s base p ≡ some (r, q)
    → (service_of other q ≡ service_of other p)
      × (lookup other q.endpoints_map ≡ lookup other p.endpoints_map)
add_service_port-others ext name other port s base p q r apart runs = entries_kept other p q (
    Keeps-run (add_service_port ext name port s base) p q r
      (add_service_port-HasEntries ext other _ _ name apart port s base) (own_entries other p) runs)

-- If deleting a service port ends, the entries of every other service port are as they were, in
-- both maps.
pub delete_service_port-others :
    (ext : External) (name other : ServicePortName) (p q : Proxy ext.Kernel) (r : ⊤)
    → (name == other) ≡ false
    → delete_service_port ext name p ≡ some (r, q)
    → (service_of other q ≡ service_of other p)
      × (lookup other q.endpoints_map ≡ lookup other p.endpoints_map)
delete_service_port-others ext name other p q r apart runs = entries_kept other p q (
    Keeps-run (delete_service_port ext name) p q r
      (delete_service_port-HasEntries ext other _ _ name apart) (own_entries other p) runs)
