-- ===== src/Proxy/Services/Changes.antt =====
-- pkg/proxy/proxy_service.go: processServicePortChanges
use nfproxy.Prelude.{
  ℕ, suc, not, ◌&&◌, ◌||◌, ◌==◌, text_Eq, nat_Eq, List, [], ◌∷◌, get_elem?, is_some, if◌then◌else◌,
}
use nfproxy.Go.{⊤}
use nfproxy.Go.Act.{Act, pure, deref, gets, when, ◌>>=◌, ◌>>◌, for_each}
use nfproxy.External.{External}
use nfproxy.Kube.{KubePort, Service}
use nfproxy.Nftables.Base.{svc_chain, uint16}
use nfproxy.Nftables.Sets.{add_to_nodeport_set, remove_from_nodeport_set}
use nfproxy.Proxy.Types.{ServicePortName}
use nfproxy.Proxy.Tools.{get_svc_port_name, is_service_port_in_ports, table_family}
use nfproxy.Proxy.Service.{BaseServiceInfo, new_base_service_info}
use nfproxy.Proxy.State.{Proxy, kernel_call, service_of}
use nfproxy.Proxy.Services.{svc_id_of, add_service_port, delete_service_port}

-- The name of a port of a service.
abbrev pub name_of : Service → KubePort → ServicePortName
name_of svc port = get_svc_port_name svc.meta.name svc.meta.namespace port.name port.protocol

module _ (ext : External) where
  open ext use {Kernel}

  -- The new node port is added and the old one removed; errors are only logged. The old port is
  -- tested at the index `i` of the new port, and removed at its own.
  unfoldable pub change_node_port :
      Service → Service → ℕ → KubePort → KubePort → Act (Proxy Kernel) ⊤
  change_node_port new stored i port old = do
    let fam = table_family ext new.spec.cluster_ip
    known ← gets (service_of (name_of new port))
    svc ← deref known
    let chain = svc_chain (svc_id_of ext (name_of new port) port.protocol svc.base)
    when (not (port.node_port == 0)) (
        kernel_call
          (λ nfti. add_to_nodeport_set ext nfti fam port.protocol (uint16 port.node_port) chain)
        >> pure tt)
    at_i ← deref (get_elem? stored.spec.ports i)
    when (not (at_i.node_port == 0)) (
        kernel_call
          (λ nfti. remove_from_nodeport_set ext nfti fam port.protocol (uint16 old.node_port) chain)
        >> pure tt)

  -- A port that the stored service has too, as `old`.
  unfoldable pub change_port :
      Service → Service → ℕ → KubePort → BaseServiceInfo → KubePort → Act (Proxy Kernel) ⊤
  change_port new stored i port base old =
      if not (old.name == port.name)
      then delete_service_port ext (name_of stored old)
        >> add_service_port ext (name_of new port) port new base
      else when (not (old.protocol == port.protocol) || not (old.port == port.port)) (
          delete_service_port ext (name_of stored old)
          >> add_service_port ext (name_of new port) port new base)
        >> when (not (old.node_port == port.node_port)) (change_node_port new stored i port old)

  -- The body of the loop over the new service's ports. A port that is not found but has a known
  -- name is compared with the stored port 0.
  unfoldable pub process_new_port : Service → Service → ℕ → KubePort → Act (Proxy Kernel) ⊤
  process_new_port new stored i port = do
    base ← deref (new_base_service_info ext port new)
    let (id, found) = is_service_port_in_ports stored.spec.ports port
    known ← gets (service_of (name_of new port))
    if not found && not (is_some known)
        then add_service_port ext (name_of new port) port new base
        else (do
          old ← deref (get_elem? stored.spec.ports id)
          change_port new stored i port base old)

  unfoldable pub process_new_ports : Service → Service → ℕ → List KubePort → Act (Proxy Kernel) ⊤
  process_new_ports new stored i [] = pure tt
  process_new_ports new stored i (p ∷ ps) =
      let rest = process_new_ports new stored (suc i) ps in process_new_port new stored i p >> rest

  -- The body of the loop over the stored service's ports.
  unfoldable pub process_old_port : Service → Service → KubePort → Act (Proxy Kernel) ⊤
  process_old_port new stored port =
      if (is_service_port_in_ports new.spec.ports port).1
      then pure tt
      else delete_service_port ext (name_of stored port)

  unfoldable pub process_service_port_changes : Service → Service → Act (Proxy Kernel) ⊤
  process_service_port_changes new stored = do
    process_new_ports new stored 0 new.spec.ports
    for_each stored.spec.ports (process_old_port new stored)
