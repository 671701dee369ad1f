-- ===== src/Proxy/Services/Handlers.antt =====
-- pkg/proxy/proxy_service.go: the handlers of Service events. The objects are not nil: on a nil
-- one the source panics while it evaluates the arguments of its first log line.
use nfproxy.Prelude.{text_Eq, if◌then◌else◌}
use nfproxy.Go.{⊤}
use nfproxy.Go.Act.{Act, pure, deref, gets, ◌>>=◌, ◌>>◌, for_each}
use nfproxy.External.{External}
use nfproxy.Kube.{Service}
use nfproxy.Proxy.Cache.{store_svc_in_cache, remove_svc_from_cache, get_last_known_svc_from_cache}
use nfproxy.Proxy.Service.{new_base_service_info, sticky_seconds}
use nfproxy.Proxy.State.{Proxy, cache_act, set_cache}
use nfproxy.Proxy.Endpoints.Handlers.{stored_or}
use nfproxy.Proxy.Services.{add_service_port, delete_service_port}
use nfproxy.Proxy.Services.Changes.{name_of, process_service_port_changes}
use nfproxy.Proxy.Services.Addresses.{
  process_cluster_ip_changes, process_external_ip_changes, process_load_balancer_ip_change,
}
use nfproxy.Proxy.Services.Affinity.{process_affinity_change}

module _ (ext : External) where
  open ext use {Kernel}

  -- The timeout is read for a log line, and must be there.
  unfoldable pub add_service : Service → Act (Proxy Kernel) ⊤
  add_service svc = do
    cache_act (store_svc_in_cache svc)
    deref (sticky_seconds ext svc)
    if ext.should_skip_service svc
        then pure tt
        else for_each svc.spec.ports (λ port. do
          base ← deref (new_base_service_info ext port svc)
          add_service_port ext (name_of svc port) port svc base)

  unfoldable pub delete_service : Service → Act (Proxy Kernel) ⊤
  delete_service svc = do
    for_each svc.spec.ports (λ port. delete_service_port ext (name_of svc port))
    set_cache (remove_svc_from_cache svc.meta.name svc.meta.namespace)

  -- The five steps of an update, from the service that was stored.
  unfoldable pub change_service : Service → Service → Act (Proxy Kernel) ⊤
  change_service new stored = do
    process_service_port_changes ext new stored
    process_cluster_ip_changes ext new stored
    process_external_ip_changes ext new stored
    process_load_balancer_ip_change ext new stored
    process_affinity_change ext new stored
    cache_act (store_svc_in_cache new)

  unfoldable pub update_service : Service → Service → Act (Proxy Kernel) ⊤
  update_service old new = do
    cache ← gets (λ p. p.cache)
    change_service new
        (stored_or (get_last_known_svc_from_cache cache new.meta.name new.meta.namespace) old)
