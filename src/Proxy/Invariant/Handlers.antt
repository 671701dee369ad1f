-- ===== src/Proxy/Invariant/Handlers.antt =====
-- The handlers of Service events keep the invariant.
use nfproxy.Go.Hoare.{Keeps}
use nfproxy.External.{External}
use nfproxy.Kube.{Service}
use nfproxy.Proxy.Services.Handlers.{add_service, delete_service, change_service, update_service}
use nfproxy.Proxy.Invariant.{IsConsistent}
use nfproxy.Proxy.Invariant.Endpoints.{consistent_rules}
use nfproxy.Proxy.Invariant.Services.{
  add_service_port-IsConsistent, delete_service_port-IsConsistent,
}
use nfproxy.Proxy.Invariant.Changes.{
  process_service_port_changes-IsConsistent, process_cluster_ip_changes-IsConsistent,
  process_external_ip_changes-IsConsistent, process_load_balancer_ip_change-IsConsistent,
}
use nfproxy.Proxy.Invariant.Affinity.{process_affinity_change-IsConsistent}

module _ (ext : External) where
  pub add_service-IsConsistent : (svc : Service) → Keeps IsConsistent (add_service ext svc)
  unfolding add_service
  add_service-IsConsistent svc = search (consistent_rules, add_service_port-IsConsistent) depth 12

  pub delete_service-IsConsistent : (svc : Service) → Keeps IsConsistent (delete_service ext svc)
  unfolding delete_service
  delete_service-IsConsistent svc =
      search (consistent_rules, delete_service_port-IsConsistent) depth 10

  change_service-IsConsistent :
      (new stored : Service) → Keeps IsConsistent (change_service ext new stored)
  unfolding change_service
  change_service-IsConsistent new stored =
      search
        (
          consistent_rules, process_service_port_changes-IsConsistent,
          process_cluster_ip_changes-IsConsistent, process_external_ip_changes-IsConsistent,
          process_load_balancer_ip_change-IsConsistent, process_affinity_change-IsConsistent,
        )
        depth 14

  pub update_service-IsConsistent :
      (old new : Service) → Keeps IsConsistent (update_service ext old new)
  unfolding update_service
  update_service-IsConsistent old new = search (consistent_rules, change_service-IsConsistent)
