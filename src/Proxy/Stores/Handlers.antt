-- ===== src/Proxy/Stores/Handlers.antt =====
-- What each handler does to the cache. An action starts with the cache `c`.
use nfproxy.Prelude.{text_Eq, ◌≡◌, sym, ap, Option, none, some}
use nfproxy.Go.{⊤}
use nfproxy.Go.Act.{Act}
use nfproxy.Go.Hoare.{Post, Hoare, Hoare-bind, Keeps-gets}
use nfproxy.External.{External}
use nfproxy.Kube.{Service}
use nfproxy.Proxy.Cache.{Cache, store_svc_in_cache, remove_svc_from_cache}
use nfproxy.Proxy.State.{Proxy, cache_act, set_cache}
use nfproxy.Proxy.Services.Handlers.{add_service, delete_service, change_service, update_service}
use nfproxy.Proxy.Stores.{OfCache, cache_rules}
use nfproxy.Proxy.Stores.Services.{
  add_service_port-OfCache, delete_service_port-OfCache, process_service_port_changes-OfCache,
  process_cluster_ip_changes-OfCache, process_external_ip_changes-OfCache,
  process_load_balancer_ip_change-OfCache, process_affinity_change-OfCache,
}

abbrev pub Stored : Act Cache ⊤ → Cache → Cache → Type 0
Stored m c c' = m c ≡ some (tt, c')

module _ {K : Type 0} (c : Cache) where
  store-Post :
      (m : Act Cache ⊤) (o : Option (⊤ × Cache)) (p : Proxy K)
      → m c ≡ o
      → Post
          (λ (_ : ⊤). OfCache (Stored m c))
          (elim o [ none ↦ none | some (_, c') ↦ some (tt, record p { cache = c' }) ])
  store-Post m none p e = tt
  store-Post m (some (_, c')) p e = record { of = e }

  pub cache_act-Stored :
      (m : Act Cache ⊤)
      → Hoare (OfCache (λ c'. c' ≡ c)) (cache_act {K = K} m) (λ _. OfCache (Stored m c))
  unfolding cache_act
  cache_act-Stored m = record { at = λ p h. store-Post m (m p.cache) p (ap m (sym h.of)) }

  pub set_cache-Set :
      (f : Cache → Cache)
      → Hoare (OfCache (λ c'. c' ≡ c)) (set_cache {K = K} f) (λ _. OfCache (λ c'. c' ≡ f c))
  unfolding set_cache
  set_cache-Set f = record { at = λ p h. record { of = ap f h.of } }

module _ (ext : External) (c : Cache) where
  -- A part that leaves the cache alone, and then a last step.
  abbrev Start : Proxy ext.Kernel → Type 0
  Start = OfCache (λ c'. c' ≡ c)

  pub add_service-Stored :
      (svc : Service)
      → Hoare Start (add_service ext svc) (λ _. OfCache (Stored (store_svc_in_cache svc) c))
  unfolding add_service
  add_service-Stored svc =
      Hoare-bind _ _ (λ _. OfCache (Stored (store_svc_in_cache svc) c)) _
        (cache_act-Stored c (store_svc_in_cache svc))
        (λ _. search (cache_rules, add_service_port-OfCache) depth 12)

  pub delete_service-Set :
      (svc : Service)
      → Hoare Start
          (delete_service ext svc)
          (λ _. OfCache (λ c'. c' ≡ remove_svc_from_cache svc.meta.name svc.meta.namespace c))
  unfolding delete_service
  delete_service-Set svc =
      Hoare-bind _ _ (λ _. Start) _ (search (cache_rules, delete_service_port-OfCache) depth 8)
        (λ _. set_cache-Set c _)

  change_service-Stored :
      (new stored : Service)
      → Hoare Start
          (change_service ext new stored)
          (λ _. OfCache (Stored (store_svc_in_cache new) c))
  unfolding change_service
  change_service-Stored new stored =
      Hoare-bind _ _ (λ _. Start) _ (process_service_port_changes-OfCache ext new stored)
        λ _.
          Hoare-bind _ _ (λ _. Start) _ (process_cluster_ip_changes-OfCache ext new stored)
            λ _.
              Hoare-bind _ _ (λ _. Start) _ (process_external_ip_changes-OfCache ext new stored)
                λ _.
                  Hoare-bind _ _ (λ _. Start) _
                    (process_load_balancer_ip_change-OfCache ext new stored)
                    λ _.
                      Hoare-bind _ _ (λ _. Start) _ (process_affinity_change-OfCache ext new stored)
                        λ _. cache_act-Stored c (store_svc_in_cache new)

  pub update_service-Stored :
      (old new : Service)
      → Hoare Start (update_service ext old new) (λ _. OfCache (Stored (store_svc_in_cache new) c))
  unfolding update_service
  update_service-Stored old new =
      Hoare-bind _ _ (λ _. Start) _ (Keeps-gets _) (λ cache. change_service-Stored new _)
