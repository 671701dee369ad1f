-- ===== src/Controller/Versions.antt =====
-- pkg/proxy/cache.go, as an informer of services sees it: the versions of the services.
use nfproxy.Prelude.{
  String, text_Eq, ◌==◌, ◌≡◌, refl, sym, ap, ◌∙◌, inl, inr, Bool, true, false, Bool-cases,
  if◌then◌else◌,
}
use nfproxy.Go.{Result, ok, err, message}
use nfproxy.Kube.{Service}
use nfproxy.Proxy.Types.{NamespacedName, namespaced_Eq, namespaced_eq_iff}
use nfproxy.Proxy.Cache.{
  Cache, Store, key, find, svc_text, version, get_cached_svc_version, get_last_known_svc_from_cache,
  store_svc_in_cache, remove_svc_from_cache, remove_ep_from_cache, remove_ep_sl_from_cache,
}
use nfproxy.Proxy.Cache.Laws.{remove_svc_from_cache-get}
use nfproxy.Proxy.Invariant.Events.{
  Event, service_added, service_deleted, service_updated, endpoints_added, endpoints_deleted,
  endpoints_updated, slice_added, slice_deleted, slice_updated,
}
use nfproxy.Proxy.Stores.Handlers.{Stored}
use nfproxy.Proxy.Stores.Reads.{read_svc, store_ep-same, store_ep_sl-same}
use nfproxy.Proxy.Stores.Events.{Records}
use nfproxy.Controller.Notify.{Informer, services}
use nfproxy.Controller.Refinement.{subject}

-- The versions of the services that an informer has, by name and namespace.
abbrev pub Known : Type 0
Known = String → String → Result String

abbrev no_service : {A : Type 0} → Result A
no_service = err (message "service not found in the cache")

abbrev pub nothing_known : Known
nothing_known name namespace = no_service

abbrev pub learn : Service → Known → Known
learn svc known name namespace =
    if key svc.meta.name svc.meta.namespace == key name namespace
    then ok svc.meta.resource_version
    else known name namespace

abbrev pub forget : Service → Known → Known
forget svc known name namespace =
    if key svc.meta.name svc.meta.namespace == key name namespace
    then no_service
    else known name namespace

-- The cache has the versions that the informer has.
abbrev pub Mirrors : Known → Cache → Type 0
Mirrors known c =
    (name namespace : String) → get_cached_svc_version c name namespace ≡ known name namespace

-- Reading versions.
module _ (c : Cache) where
  version_as_read :
      (name namespace : String)
      → get_cached_svc_version c name namespace
        ≡ version
            (λ (s : Service). s.meta.resource_version)
            (get_last_known_svc_from_cache c name namespace)
  unfolding get_cached_svc_version get_last_known_svc_from_cache
  version_as_read name namespace = refl

version-if :
    (b : Bool) (r r' : Result Service)
    → version (λ (s : Service). s.meta.resource_version) (if b then r else r') ≡ (
        if b
        then version (λ (s : Service). s.meta.resource_version) r
        else version (λ (s : Service). s.meta.resource_version) r')
version-if true r r' = refl
version-if false r r' = refl

module _ (known : Known) (c c' : Cache) (agree : Mirrors known c) where
  pub learn-Mirrors :
      (svc : Service) → Stored (store_svc_in_cache svc) c c' → Mirrors (learn svc known) c'
  learn-Mirrors svc s name namespace =
      version_as_read c' name namespace
      ∙ ap (λ (r : Result Service). version (λ x. x.meta.resource_version) r)
          (read_svc c c' svc s name namespace)
      ∙ version-if _ (ok svc) (get_last_known_svc_from_cache c name namespace)
      ∙ ap
          (λ (r : Result String).
            if key svc.meta.name svc.meta.namespace == key name namespace
            then ok svc.meta.resource_version
            else r)
          (sym (version_as_read c name namespace) ∙ agree name namespace)

  pub forget-Mirrors :
      (svc : Service)
      → c' ≡ remove_svc_from_cache svc.meta.name svc.meta.namespace c
      → Mirrors (forget svc known) c'
  forget-Mirrors svc e name namespace =
      version_as_read c' name namespace
      ∙ ap
          (λ (b : Cache).
            version (λ x. x.meta.resource_version) (get_last_known_svc_from_cache b name namespace))
          e
      ∙ ap (λ (r : Result Service). version (λ x. x.meta.resource_version) r)
          (remove_svc_from_cache-get c svc.meta.name svc.meta.namespace name namespace)
      ∙ version-if _ no_service (get_last_known_svc_from_cache c name namespace)
      ∙ ap
          (λ (r : Result String).
            if key svc.meta.name svc.meta.namespace == key name namespace then no_service else r)
          (sym (version_as_read c name namespace) ∙ agree name namespace)

  pub Mirrors-same : c'.svc_cache ≡ c.svc_cache → Mirrors known c'
  unfolding get_last_known_svc_from_cache
  Mirrors-same e name namespace =
      version_as_read c' name namespace
      ∙ ap
          (λ (o : Store Service).
            version (λ x. x.meta.resource_version) (find svc_text (key name namespace) o))
          e
      ∙ sym (version_as_read c name namespace)
      ∙ agree name namespace

  -- A version that is known already.
  pub learn-known-Mirrors :
      (svc : Service)
      → known svc.meta.name svc.meta.namespace ≡ ok svc.meta.resource_version
      → c' ≡ c
      → Mirrors (learn svc known) c'
  learn-known-Mirrors svc there e name namespace =
      ap (λ (b : Cache). get_cached_svc_version b name namespace) e
      ∙ agree name namespace
      ∙ elim (Bool-cases (key svc.meta.name svc.meta.namespace == key name namespace)) [
        | inl same ↦ rw same (
            ap (λ (k : NamespacedName). known k.name k.namespace)
              (sym (
                (namespaced_eq_iff (key svc.meta.name svc.meta.namespace) (key name namespace)).0
                  same))
            ∙ there)
        | inr other ↦ rw other refl
      ]

-- What the other events leave.
abbrev pub is_services : Informer → Bool
is_services services = true
is_services _ = false

pub Records-services :
    (e : Event) (c c' : Cache)
    → is_services (subject e) ≡ false
    → Records e c c'
    → c'.svc_cache ≡ c.svc_cache
unfolding remove_ep_from_cache remove_ep_sl_from_cache
Records-services (service_added svc) c c' h r = cc h
Records-services (service_deleted svc) c c' h r = cc h
Records-services (service_updated old new) c c' h r = cc h
Records-services (endpoints_added ep) c c' h r = store_ep-same c ep c' r
Records-services (endpoints_deleted ep) c c' h (inl r) = ap (λ (x : Cache). x.svc_cache) r
Records-services (endpoints_deleted ep) c c' h (inr r) = ap (λ (x : Cache). x.svc_cache) r
Records-services (endpoints_updated old new) c c' h (inl r) = store_ep-same c new c' r
Records-services (endpoints_updated old new) c c' h (inr r) = ap (λ (x : Cache). x.svc_cache) r
Records-services (slice_added epsl) c c' h r = store_ep_sl-same c epsl c' r
Records-services (slice_deleted epsl) c c' h (inl r) = ap (λ (x : Cache). x.svc_cache) r
Records-services (slice_deleted epsl) c c' h (inr r) = ap (λ (x : Cache). x.svc_cache) r
Records-services (slice_updated old new) c c' h (inl r) = store_ep_sl-same c new c' r
Records-services (slice_updated old new) c c' h (inr r) = ap (λ (x : Cache). x.svc_cache) r
