-- ===== src/Proxy/Isolation/Endpoints.antt =====
-- pkg/proxy/proxy_endpoints.go: addEndpoint and deleteEndpoint touch one service port.
use nfproxy.Prelude.{ℕ, zero, suc, String, ◌≡◌, false, Option, List, ◌==◌, some, lookup, get_elem?}
use nfproxy.Go.{⊤, Result, ok}
use nfproxy.Go.Hoare.{
  Keeps, Keeps-run, Keeps-pure, Keeps-panic, Keeps-if, Keeps-checked, Keeps-if_some,
}
use nfproxy.External.{External, TableFamily}
use nfproxy.Kube.{EndpointAddress, EndpointPort}
use nfproxy.Proxy.Types.{ServicePortName, port_name_Eq}
use nfproxy.Proxy.Service.{ServiceInfo}
use nfproxy.Proxy.Endpoint.{EndpointInfo, endpoint_equal}
use nfproxy.Proxy.Endpoints.{
  add_endpoint, delete_endpoint_rules, delete_at, delete_loop, delete_endpoint, remove_at, shifted,
}
use nfproxy.Proxy.State.{Proxy, service_of}
use nfproxy.Proxy.Isolation.{
  own_entries, entries_kept, HasEntries, entries_rules, update_service_chain-HasEntries,
}

module _ (ext : External) (other : ServicePortName) (svc : Option ServiceInfo)
    (eps : Option (List EndpointInfo)) (name : ServicePortName)
    (apart : (name == other) ≡ false) where
  add_endpoint-HasEntries :
      (addr : EndpointAddress) (port : EndpointPort)
      → Keeps (HasEntries other svc eps) (add_endpoint ext name addr port)
  unfolding add_endpoint
  add_endpoint-HasEntries addr port =
      search (entries_rules, update_service_chain-HasEntries) depth 14

  delete_endpoint_rules-HasEntries :
      (fam : TableFamily) (cn : String) (ids : List ℕ)
      → Keeps (HasEntries other svc eps) (delete_endpoint_rules ext fam cn ids name)
  unfolding delete_endpoint_rules
  delete_endpoint_rules-HasEntries fam cn ids = search entries_rules depth 10

  delete_at-HasEntries :
      (fam : TableFamily) (ep : EndpointInfo) (left : List EndpointInfo)
      → Keeps (HasEntries other svc eps) (delete_at ext name fam ep left)
  unfolding delete_at
  delete_at-HasEntries fam ep left =
      search (entries_rules, update_service_chain-HasEntries, delete_endpoint_rules-HasEntries)
        depth 12

  delete_loop-HasEntries :
      (fam : TableFamily) (target : EndpointInfo) (rounds i : ℕ) (xs : List EndpointInfo)
      → Keeps (HasEntries other svc eps) (delete_loop ext name fam target rounds i xs)
  unfolding delete_loop
  delete_loop-HasEntries fam target zero i xs = Keeps-pure (ok tt)
  delete_loop-HasEntries fam target (suc rounds) i xs =
      Keeps-if_some _ _ (get_elem? xs i) Keeps-panic (λ ep.
        Keeps-if (endpoint_equal ep target) _ _
          (Keeps-checked _ _ (delete_at-HasEntries fam ep (remove_at i xs))
            (delete_loop-HasEntries fam target rounds (suc i) (shifted i xs)))
          (delete_loop-HasEntries fam target rounds (suc i) xs))

  delete_endpoint-HasEntries :
      (addr : EndpointAddress) (port : EndpointPort) (xs : List EndpointInfo)
      → Keeps (HasEntries other svc eps) (delete_endpoint ext name addr port xs)
  unfolding delete_endpoint
  delete_endpoint-HasEntries addr port xs = search (entries_rules, delete_loop-HasEntries) depth 10

-- If adding an endpoint to one service port ends, with an error or without, the entries of every
-- other service port are as they were, in both maps.
pub add_endpoint-others :
    (ext : External) (name other : ServicePortName) (addr : EndpointAddress) (port : EndpointPort)
    (p q : Proxy ext.Kernel) (r : Result ⊤)
    → (name == other) ≡ false
    → add_endpoint ext name addr port p ≡ some (r, q)
    → (service_of other q ≡ service_of other p)
      × (lookup other q.endpoints_map ≡ lookup other p.endpoints_map)
add_endpoint-others ext name other addr port p q r apart runs = entries_kept other p q (
    Keeps-run (add_endpoint ext name addr port) p q r
      (add_endpoint-HasEntries ext other _ _ name apart addr port) (own_entries other p) runs)

-- If deleting an endpoint of one service port ends, with an error or without, the entries of every
-- other service port are as they were, in both maps.
pub delete_endpoint-others :
    (ext : External) (name other : ServicePortName) (addr : EndpointAddress) (port : EndpointPort)
    (xs : List EndpointInfo) (p q : Proxy ext.Kernel) (r : Result ⊤)
    → (name == other) ≡ false
    → delete_endpoint ext name addr port xs p ≡ some (r, q)
    → (service_of other q ≡ service_of other p)
      × (lookup other q.endpoints_map ≡ lookup other p.endpoints_map)
delete_endpoint-others ext name other addr port xs p q r apart runs = entries_kept other p q (
    Keeps-run (delete_endpoint ext name addr port xs) p q r
      (delete_endpoint-HasEntries ext other _ _ name apart addr port xs) (own_entries other p) runs)
