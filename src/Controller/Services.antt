-- ===== src/Controller/Services.antt =====
-- pkg/controller/controller_service.go and pkg/proxy/cache.go together: what the cache of services
-- holds, compared with what the informer has told.
use nfproxy.Prelude.{
  String, text_Eq, ◌≡◌, refl, ap, ◌∙◌, inl, inr, ◌⊎◌, Bool, true, false, some, if◌then◌else◌,
  eq_iff, lookup,
}
use nfproxy.Go.{⊤, ok}
use nfproxy.Go.Act.{Act, pure, ◌>>=◌}
use nfproxy.External.{External, Url}
use nfproxy.Kube.{Service}
use nfproxy.Nftables.Base.{NftInterface}
use nfproxy.Proxy.Types.{namespaced_Eq}
use nfproxy.Proxy.Cache.{find, get_cached_svc_version}
use nfproxy.Proxy.State.{Proxy, new_proxy}
use nfproxy.Proxy.Invariant.Events.{service_added, service_deleted, service_updated, handle}
use nfproxy.Proxy.Bootstrap.{bootstrap_rules}
use nfproxy.Proxy.Stores.Bootstrap.{api, bootstrap_rules-stores}
use nfproxy.Proxy.Stores.Events.{handle-Records}
use nfproxy.Controller.{
  service_object, tombstone, delete_object, handle_add_service, handle_update_service,
  handle_delete_service, same_version,
}
use nfproxy.Controller.Notify.{
  Informer, services, endpoints, endpoint_slices, Notification, added, updated, deleted, notify,
}
use nfproxy.Controller.Refinement.{Moved, notify-Moved}
use nfproxy.Controller.Versions.{
  Known, nothing_known, learn, forget, Mirrors, learn-Mirrors, forget-Mirrors, Mirrors-same,
  learn-known-Mirrors, is_services, Records-services,
}

module _ (ext : External) where
  open ext use {Kernel}

  -- The states of the proxy, from NewProxy on, between notifications, with what the informer of
  -- services has by then, and with the service that BootstrapRules adds. The informer tells each
  -- change of its store, and an update from the version that it had; a deletion that it missed is a
  -- tombstone. The other informers may tell anything.
  pub data Watched : Known → Proxy Kernel → Type 0 where
    begun :
        (nfti : NftInterface) (k : Kernel) (host : String) (slices : Bool)
        → Watched nothing_known (new_proxy nfti k host slices)
    api_added :
        (known : Known) (p q : Proxy Kernel) (in_host in_port : String) (endpoint : Url)
        (slices : Bool)
        → Watched known p
        → bootstrap_rules ext in_host in_port endpoint slices p ≡ some (tt, q)
        → Watched (learn (api ext in_host in_port endpoint) known) q
    service_seen :
        (known : Known) (p q : Proxy Kernel) (svc : Service)
        → Watched known p
        → notify ext services (added (service_object svc)) p ≡ some (tt, q)
        → Watched (learn svc known) q
    service_changed :
        (known : Known) (p q : Proxy Kernel) (old new : Service)
        → Watched known p
        → known new.meta.name new.meta.namespace ≡ ok old.meta.resource_version
        → notify ext services (updated (service_object old) (service_object new)) p ≡ some (tt, q)
        → Watched (learn new known) q
    service_gone :
        (known : Known) (p q : Proxy Kernel) (svc : Service)
        → Watched known p
        → notify ext services (deleted (service_object svc)) p ≡ some (tt, q)
        → Watched (forget svc known) q
    service_lost :
        (known : Known) (p q : Proxy Kernel) (svc : Service)
        → Watched known p
        → notify ext services (deleted (tombstone (service_object svc))) p ≡ some (tt, q)
        → Watched (forget svc known) q
    endpoints_told :
        (known : Known) (p q : Proxy Kernel) (n : Notification)
        → Watched known p
        → notify ext endpoints n p ≡ some (tt, q)
        → Watched known q
    slices_told :
        (known : Known) (p q : Proxy Kernel) (n : Notification)
        → Watched known p
        → notify ext endpoint_slices n p ≡ some (tt, q)
        → Watched known q

module _ (ext : External) where
  open ext use {Kernel}

  Moved-services :
      (i : Informer) (p q : Proxy Kernel)
      → is_services i ≡ false
      → Moved ext i p q
      → q.cache.svc_cache ≡ p.cache.svc_cache
  Moved-services i p q other (inl same) = ap (λ (x : Proxy Kernel). x.cache.svc_cache) same
  Moved-services i p q other (inr (e, about, h)) =
      Records-services e p.cache q.cache (ap is_services about ∙ other) (handle-Records ext e p q h)

  run-if :
      (b : Bool) (m : Act (Proxy Kernel) ⊤) (p q : Proxy Kernel)
      → (if b then pure tt else m) p ≡ some (tt, q)
      → ((b ≡ true) × (q ≡ p)) ⊎ ((b ≡ false) × (m p ≡ some (tt, q)))
  unfolding ◌>>=◌
  run-if true m p q h = inl (refl, cc h)
  run-if false m p q h = inr (refl, h)

  changed-Mirrors :
      (known : Known) (p q : Proxy Kernel) (old new : Service)
      → Mirrors known p.cache
      → known new.meta.name new.meta.namespace ≡ ok old.meta.resource_version
      → notify ext services (updated (service_object old) (service_object new)) p ≡ some (tt, q)
      → Mirrors (learn new known) q.cache
  unfolding notify handle_update_service handle ◌>>=◌
  changed-Mirrors known p q old new agree had h =
      elim (run-if (same_version old.meta new.meta) _ p q h) [
        | inl (same, kept) ↦
            learn-known-Mirrors known p.cache q.cache agree new
              (had ∙ ap ok ((eq_iff old.meta.resource_version new.meta.resource_version).0 same))
              (ap (λ (x : Proxy Kernel). x.cache) kept)
        | inr (_, ran) ↦
            learn-Mirrors known p.cache q.cache agree new
              (handle-Records ext (service_updated old new) p q ran)
      ]

  -- As long as the process has not ended, the cache has a service under a name and a namespace
  -- exactly where the informer has one or BootstrapRules has added one that the informer has not
  -- deleted since, in the version that was told or added last; with any notifications of the other
  -- informers between, updates that are skipped as resyncs, and deletions told as tombstones, if the
  -- process has not ended by them.
  pub Watched-Mirrors :
      (known : Known) (p : Proxy Kernel) → Watched ext known p → Mirrors known p.cache
  unfolding notify handle_add_service handle_delete_service delete_object handle ◌>>=◌ new_proxy
      get_cached_svc_version find lookup
  Watched-Mirrors _ _ (begun nfti k host slices) = λ name namespace. refl
  Watched-Mirrors _ _ (api_added known p q in_host in_port endpoint slices w h) =
      let (r, stored, same) = bootstrap_rules-stores ext in_host in_port endpoint slices p q h in
      Mirrors-same _ r.cache q.cache
        (learn-Mirrors known p.cache r.cache (Watched-Mirrors known p w)
          (api ext in_host in_port endpoint) stored)
        same
  Watched-Mirrors _ _ (service_seen known p q svc w h) =
      learn-Mirrors known p.cache q.cache (Watched-Mirrors known p w) svc
        (handle-Records ext (service_added svc) p q h)
  Watched-Mirrors _ _ (service_changed known p q old new w had h) =
      changed-Mirrors known p q old new (Watched-Mirrors known p w) had h
  Watched-Mirrors _ _ (service_gone known p q svc w h) =
      forget-Mirrors known p.cache q.cache (Watched-Mirrors known p w) svc
        (handle-Records ext (service_deleted svc) p q h)
  Watched-Mirrors _ _ (service_lost known p q svc w h) = cc h
  Watched-Mirrors _ _ (endpoints_told known p q n w h) =
      Mirrors-same known p.cache q.cache (Watched-Mirrors known p w)
        (Moved-services endpoints p q refl (notify-Moved ext endpoints n p q h))
  Watched-Mirrors _ _ (slices_told known p q n w h) =
      Mirrors-same known p.cache q.cache (Watched-Mirrors known p w)
        (Moved-services endpoint_slices p q refl (notify-Moved ext endpoint_slices n p q h))
