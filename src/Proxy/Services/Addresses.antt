-- ===== src/Proxy/Services/Addresses.antt =====
-- pkg/proxy/proxy_service.go: processClusterIPChanges, processExternalIPChanges and
-- processLoadBalancerIPChange. The errors of the set operations are ignored.
use nfproxy.Prelude.{String, not, ◌==◌, text_Eq, if◌then◌else◌}
use nfproxy.Go.{⊤}
use nfproxy.Go.Act.{Act, pure, deref, gets, when, ◌>>=◌, ◌>>◌, for_each}
use nfproxy.External.{External}
use nfproxy.Kube.{KubePort, Service}
use nfproxy.Nftables.Base.{
  svc_chain, uint16, cluster_ip_set, external_ip_set, loadbalancer_ip_set, mark_masq_set,
  nat_do_mark_masq,
}
use nfproxy.Nftables.Sets.{add_to_set, remove_from_set}
use nfproxy.Proxy.Tools.{
  table_family, compare_slice_of_string, is_string_in_slice, is_ingress_equal,
  is_address_in_ingress,
}
use nfproxy.Proxy.State.{Proxy, kernel_call, service_of}
use nfproxy.Proxy.Services.{svc_id_of}
use nfproxy.Proxy.Services.Changes.{name_of}

module _ (ext : External) where
  open ext use {Kernel}

  -- For every port of the new service, an operation on its port number and its service chain. A
  -- port that is not in the service map panics.
  unfoldable pub for_each_port :
      Service → (KubePort → String → Act (Proxy Kernel) ⊤) → Act (Proxy Kernel) ⊤
  for_each_port new f = for_each new.spec.ports λ port. do
    known ← gets (service_of (name_of new port))
    svc ← deref known
    f port (svc_chain (svc_id_of ext (name_of new port) port.protocol svc.base))

  abbrev add_at : String → String → KubePort → String → Act (Proxy Kernel) ⊤
  add_at set_name addr port chain =
      kernel_call (λ nfti.
        add_to_set ext nfti (table_family ext addr) port.protocol addr (uint16 port.port) set_name
          chain)
      >> pure tt

  abbrev remove_at : String → String → KubePort → String → Act (Proxy Kernel) ⊤
  remove_at set_name addr port chain =
      kernel_call (λ nfti.
        remove_from_set ext nfti (table_family ext addr) port.protocol addr (uint16 port.port)
          set_name chain)
      >> pure tt

  -- An address in the set of its kind and in the set of what is to be masqueraded.
  unfoldable pub add_address : Service → String → String → Act (Proxy Kernel) ⊤
  add_address new set_name addr = for_each_port new λ port chain.
      add_at set_name addr port chain >> add_at mark_masq_set addr port nat_do_mark_masq

  unfoldable pub remove_address : Service → String → String → Act (Proxy Kernel) ⊤
  remove_address new set_name addr = for_each_port new λ port chain.
      remove_at set_name addr port chain >> remove_at mark_masq_set addr port nat_do_mark_masq

  -- The cluster address is changed in its own set only.
  unfoldable pub process_cluster_ip_changes : Service → Service → Act (Proxy Kernel) ⊤
  process_cluster_ip_changes new stored =
      if stored.spec.cluster_ip == new.spec.cluster_ip
      then pure tt
      else when (not (new.spec.cluster_ip == ""))
          (for_each_port new (add_at cluster_ip_set new.spec.cluster_ip))
        >> when (not (stored.spec.cluster_ip == ""))
            (for_each_port new (remove_at cluster_ip_set stored.spec.cluster_ip))

  unfoldable pub process_external_ip_changes : Service → Service → Act (Proxy Kernel) ⊤
  process_external_ip_changes new stored =
      if compare_slice_of_string stored.spec.external_ips new.spec.external_ips
      then pure tt
      else for_each new.spec.external_ips (λ addr.
        when (not (is_string_in_slice addr stored.spec.external_ips))
          (add_address new external_ip_set addr))
        >> for_each stored.spec.external_ips (λ addr.
          when (not (is_string_in_slice addr new.spec.external_ips))
            (remove_address new external_ip_set addr))

  unfoldable pub process_load_balancer_ip_change : Service → Service → Act (Proxy Kernel) ⊤
  process_load_balancer_ip_change new stored =
      if is_ingress_equal new.ingress stored.ingress
      then pure tt
      else for_each new.ingress (λ i.
        when (not (is_address_in_ingress stored.ingress i.ip).1)
          (add_address new loadbalancer_ip_set i.ip))
        >> for_each stored.ingress (λ i.
          when (not (is_address_in_ingress new.ingress i.ip).1)
            (remove_address new loadbalancer_ip_set i.ip))
