-- ===== src/Proxy/Stores/Events.antt =====
-- The cache between two events: what each event records in it, and that its maps are those that
-- NewProxy made.
use nfproxy.Prelude.{String, ◌≡◌, refl, sym, subst, inl, inr, Bool, true, false, Option, none, some}
use nfproxy.Go.{⊤}
use nfproxy.Go.Hoare.{Hoare, Post, Keeps}
use nfproxy.External.{External}
use nfproxy.Nftables.Base.{NftInterface}
use nfproxy.Proxy.Cache.{
  Cache, store_svc_in_cache, remove_svc_from_cache, store_ep_in_cache, remove_ep_from_cache,
  store_ep_sl_in_cache, remove_ep_sl_from_cache,
}
use nfproxy.Proxy.State.{Proxy, new_proxy}
use nfproxy.Proxy.Invariant.Events.{
  Event, service_added, service_deleted, service_updated, endpoints_added, endpoints_deleted,
  endpoints_updated, slice_added, slice_deleted, slice_updated, handle,
}
use nfproxy.Proxy.Stores.{OfCache}
use nfproxy.Proxy.Stores.Handlers.{
  Stored, add_service-Stored, delete_service-Set, update_service-Stored,
}
use nfproxy.Proxy.Stores.Shape.{
  HasStores, store_svc_in_cache-HasStores, store_ep_in_cache-HasStores,
  store_ep_sl_in_cache-HasStores, remove_svc_from_cache-HasStores, remove_ep_from_cache-HasStores,
  remove_ep_sl_from_cache-HasStores,
}
use nfproxy.Proxy.Stores.Endpoints.{
  Kept, Dropped, add_endpoints-Stored, delete_endpoints-Dropped, update_endpoints-Kept,
  add_endpoint_slice-Stored, delete_endpoint_slice-Dropped, update_endpoint_slice-Kept,
}

-- What an event does to the cache, of which the handlers of endpoints do nothing after some errors.
abbrev pub Records : Event → Cache → Cache → Type 0
Records (service_added svc) c c' = Stored (store_svc_in_cache svc) c c'
Records (service_deleted svc) c c' = c' ≡ remove_svc_from_cache svc.meta.name svc.meta.namespace c
Records (service_updated old new) c c' = Stored (store_svc_in_cache new) c c'
Records (endpoints_added ep) c c' = Stored (store_ep_in_cache ep) c c'
Records (endpoints_deleted ep) c c' =
    Dropped (remove_ep_from_cache ep.meta.name ep.meta.namespace) c c'
Records (endpoints_updated old new) c c' = Kept (store_ep_in_cache new) c c'
Records (slice_added epsl) c c' = Stored (store_ep_sl_in_cache epsl) c c'
Records (slice_deleted epsl) c c' =
    Dropped (remove_ep_sl_from_cache epsl.meta.name epsl.meta.namespace) c c'
Records (slice_updated old new) c c' = Kept (store_ep_sl_in_cache new) c c'

module _ (ext : External) where
  handle-Hoare :
      (e : Event) (c : Cache)
      → Hoare (OfCache (λ c'. c' ≡ c)) (handle ext e) (λ _. OfCache (Records e c))
  unfolding handle
  handle-Hoare (service_added svc) c = add_service-Stored ext c svc
  handle-Hoare (service_deleted svc) c = delete_service-Set ext c svc
  handle-Hoare (service_updated old new) c = update_service-Stored ext c old new
  handle-Hoare (endpoints_added ep) c = add_endpoints-Stored ext c ep
  handle-Hoare (endpoints_deleted ep) c = delete_endpoints-Dropped ext c ep
  handle-Hoare (endpoints_updated old new) c = update_endpoints-Kept ext c old new
  handle-Hoare (slice_added epsl) c = add_endpoint_slice-Stored ext c epsl
  handle-Hoare (slice_deleted epsl) c = delete_endpoint_slice-Dropped ext c epsl
  handle-Hoare (slice_updated old new) c = update_endpoint_slice-Kept ext c old new

  -- After an event that did not panic, the cache is the one from before with exactly what the event
  -- records: an added or updated service is stored under its name and a deleted one removed,
  -- whatever the kernel answered; so are endpoints and slices, unless the handler of a deletion or an
  -- update left the cache as it was.
  pub handle-Records :
      (e : Event) (p q : Proxy ext.Kernel)
      → handle ext e p ≡ some (tt, q)
      → Records e p.cache q.cache
  handle-Records e p q h =
      (subst (Post (λ (_ : ⊤). OfCache (Records e p.cache))) h
        ((handle-Hoare e p.cache).at p (record { of = refl }))).of

Records-HasStores :
    (e : Event) (slices : Bool) (c c' : Cache)
    → HasStores slices c
    → Records e c c'
    → HasStores slices c'
Records-HasStores (service_added svc) slices c c' h r =
    store_svc_in_cache-HasStores slices c c' h svc r
Records-HasStores (service_deleted svc) slices c c' h r =
    remove_svc_from_cache-HasStores slices c c' h _ _ r
Records-HasStores (service_updated old new) slices c c' h r =
    store_svc_in_cache-HasStores slices c c' h new r
Records-HasStores (endpoints_added ep) slices c c' h r =
    store_ep_in_cache-HasStores slices c c' h ep r
Records-HasStores (endpoints_deleted ep) slices c c' h (inl r) =
    remove_ep_from_cache-HasStores slices c c' h _ _ r
Records-HasStores (endpoints_deleted ep) slices c c' h (inr r) = subst (HasStores slices) (sym r) h
Records-HasStores (endpoints_updated old new) slices c c' h (inl r) =
    store_ep_in_cache-HasStores slices c c' h new r
Records-HasStores (endpoints_updated old new) slices c c' h (inr r) =
    subst (HasStores slices) (sym r) h
Records-HasStores (slice_added epsl) slices c c' h r =
    store_ep_sl_in_cache-HasStores slices c c' h epsl r
Records-HasStores (slice_deleted epsl) slices c c' h (inl r) =
    remove_ep_sl_from_cache-HasStores slices c c' h _ _ r
Records-HasStores (slice_deleted epsl) slices c c' h (inr r) = subst (HasStores slices) (sym r) h
Records-HasStores (slice_updated old new) slices c c' h (inl r) =
    store_ep_sl_in_cache-HasStores slices c c' h new r
Records-HasStores (slice_updated old new) slices c c' h (inr r) = subst (HasStores slices) (sym r) h

pub new_proxy-HasStores :
    {K : Type 0} (nfti : NftInterface) (k : K) (host : String) (slices : Bool)
    → OfCache (HasStores slices) (new_proxy nfti k host slices)
unfolding new_proxy
new_proxy-HasStores nfti k host true = record { of = record { svc = refl; ep = refl; epsl = refl } }
new_proxy-HasStores nfti k host false = record {
  of = record { svc = refl; ep = refl; epsl = refl };
}

recorded-Post :
    {K : Type 0} (e : Event) (slices : Bool) (c : Cache) (o : Option (⊤ × Proxy K))
    → HasStores slices c
    → Post (λ (_ : ⊤). OfCache (Records e c)) o
    → Post (λ (_ : ⊤). OfCache (HasStores slices)) o
recorded-Post e slices c none h r = tt
recorded-Post e slices c (some (_, q)) h r = record {
  of = Records-HasStores e slices c q.cache h r.of;
}

pub handle-HasStores :
    (ext : External) (slices : Bool) (e : Event) → Keeps (OfCache (HasStores slices)) (handle ext e)
handle-HasStores ext slices e = record {
  at = λ p h.
      recorded-Post e slices p.cache (handle ext e p) h.of
        ((handle-Hoare ext e p.cache).at p (record { of = refl }));
}
