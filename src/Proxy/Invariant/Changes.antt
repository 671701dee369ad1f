-- ===== src/Proxy/Invariant/Changes.antt =====
-- The steps of a Service update that change ports and addresses keep the invariant.
use nfproxy.Prelude.{ℕ, suc, String, List, [], ◌∷◌}
use nfproxy.Go.{⊤}
use nfproxy.Go.Act.{Act}
use nfproxy.Go.Hoare.{Keeps, Keeps-pure, Keeps-bind}
use nfproxy.External.{External}
use nfproxy.Kube.{KubePort, Service}
use nfproxy.Proxy.Service.{BaseServiceInfo}
use nfproxy.Proxy.Services.Changes.{
  change_node_port, change_port, process_new_port, process_new_ports, process_old_port,
  process_service_port_changes,
}
use nfproxy.Proxy.Services.Addresses.{
  for_each_port, add_address, remove_address, process_cluster_ip_changes,
  process_external_ip_changes, process_load_balancer_ip_change,
}
use nfproxy.Proxy.Invariant.{IsConsistent}
use nfproxy.Proxy.Invariant.Endpoints.{consistent_rules}
use nfproxy.Proxy.Invariant.Services.{
  add_service_port-IsConsistent, delete_service_port-IsConsistent,
}

module _ (ext : External) where
  change_node_port-IsConsistent :
      (new stored : Service) (i : ℕ) (port old : KubePort)
      → Keeps IsConsistent (change_node_port ext new stored i port old)
  unfolding change_node_port
  change_node_port-IsConsistent new stored i port old = search consistent_rules depth 14

  ruleset port_rules = (
    consistent_rules, add_service_port-IsConsistent, delete_service_port-IsConsistent,
    change_node_port-IsConsistent,
  )

  change_port-IsConsistent :
      (new stored : Service) (i : ℕ) (port : KubePort) (base : BaseServiceInfo) (old : KubePort)
      → Keeps IsConsistent (change_port ext new stored i port base old)
  unfolding change_port
  change_port-IsConsistent new stored i port base old = search port_rules depth 10

  process_new_port-IsConsistent :
      (new stored : Service) (i : ℕ) (port : KubePort)
      → Keeps IsConsistent (process_new_port ext new stored i port)
  unfolding process_new_port
  process_new_port-IsConsistent new stored i port =
      search (port_rules, change_port-IsConsistent) depth 12

  process_new_ports-IsConsistent :
      (new stored : Service) (i : ℕ) (ports : List KubePort)
      → Keeps IsConsistent (process_new_ports ext new stored i ports)
  unfolding process_new_ports
  process_new_ports-IsConsistent new stored i [] = Keeps-pure tt
  process_new_ports-IsConsistent new stored i (p ∷ ps) =
      Keeps-bind _ _ (process_new_port-IsConsistent new stored i p)
        (λ _. process_new_ports-IsConsistent new stored (suc i) ps)

  process_old_port-IsConsistent :
      (new stored : Service) (port : KubePort)
      → Keeps IsConsistent (process_old_port ext new stored port)
  unfolding process_old_port
  process_old_port-IsConsistent new stored port = search port_rules

  pub process_service_port_changes-IsConsistent :
      (new stored : Service) → Keeps IsConsistent (process_service_port_changes ext new stored)
  unfolding process_service_port_changes
  process_service_port_changes-IsConsistent new stored =
      search (port_rules, process_new_ports-IsConsistent, process_old_port-IsConsistent)

  for_each_port-IsConsistent :
      (new : Service) (f : KubePort → String → Act _ ⊤)
      → ((port : KubePort) (chain : String) → Keeps IsConsistent (f port chain))
      → Keeps IsConsistent (for_each_port ext new f)
  unfolding for_each_port
  for_each_port-IsConsistent new f h = search consistent_rules depth 10

  add_address-IsConsistent :
      (new : Service) (set_name addr : String)
      → Keeps IsConsistent (add_address ext new set_name addr)
  unfolding add_address
  add_address-IsConsistent new set_name addr =
      search (consistent_rules, for_each_port-IsConsistent) depth 10

  remove_address-IsConsistent :
      (new : Service) (set_name addr : String)
      → Keeps IsConsistent (remove_address ext new set_name addr)
  unfolding remove_address
  remove_address-IsConsistent new set_name addr =
      search (consistent_rules, for_each_port-IsConsistent) depth 10

  ruleset address_rules = (
    consistent_rules, for_each_port-IsConsistent, add_address-IsConsistent,
    remove_address-IsConsistent,
  )

  pub process_cluster_ip_changes-IsConsistent :
      (new stored : Service) → Keeps IsConsistent (process_cluster_ip_changes ext new stored)
  unfolding process_cluster_ip_changes
  process_cluster_ip_changes-IsConsistent new stored = search address_rules depth 12

  pub process_external_ip_changes-IsConsistent :
      (new stored : Service) → Keeps IsConsistent (process_external_ip_changes ext new stored)
  unfolding process_external_ip_changes
  process_external_ip_changes-IsConsistent new stored = search address_rules depth 12

  pub process_load_balancer_ip_change-IsConsistent :
      (new stored : Service) → Keeps IsConsistent (process_load_balancer_ip_change ext new stored)
  unfolding process_load_balancer_ip_change
  process_load_balancer_ip_change-IsConsistent new stored = search address_rules depth 12
