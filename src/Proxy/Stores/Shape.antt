-- ===== src/Proxy/Stores/Shape.antt =====
-- The maps of the cache stay those that NewProxy made: no event makes or loses one.
use nfproxy.Prelude.{
  String, ◌≡◌, refl, sym, ap, subst, ◌∙◌, Bool, true, not, is_some, Option, none, some,
}
use nfproxy.Go.{⊤}
use nfproxy.Kube.{Service, Endpoints, EndpointSlice}
use nfproxy.Proxy.Cache.{
  Cache, Store, put, remove, key, store_svc_in_cache, remove_svc_from_cache, store_ep_in_cache,
  remove_ep_from_cache, store_ep_sl_in_cache, remove_ep_sl_from_cache,
}
use nfproxy.Proxy.Types.{NamespacedName}
use nfproxy.Proxy.Stores.Handlers.{Stored}

-- The maps that there are with and without the flag for slices.
pub record HasStores (slices : Bool) (c : Cache) : Type 0 where
  pub svc : is_some c.svc_cache ≡ true
  pub ep : is_some c.ep_cache ≡ not slices
  pub epsl : is_some c.epsl_cache ≡ slices

remove-is_some : {A : Type 0} (k : NamespacedName) (o : Store A) → is_some (remove k o) ≡ is_some o
unfolding remove
remove-is_some k none = refl
remove-is_some k (some m) = refl

stored_cache : (a b : Cache) → ◌≡◌ {A = Option (⊤ × Cache)} (some (tt, a)) (some (tt, b)) → a ≡ b
stored_cache a b e = cc e

module _ (slices : Bool) (c c' : Cache) (h : HasStores slices c) where
  store_svc_in_cache-from :
      (x : Service) (o : Store Service)
      → c.svc_cache ≡ o
      → ◌≡◌ {A = Option (⊤ × Cache)}
          (elim (put (key x.meta.name x.meta.namespace) x o) [
            | none ↦ none
            | some m ↦ some (tt, record c { svc_cache = m })
          ])
          (some (tt, c'))
      → HasStores slices c'
  unfolding put
  store_svc_in_cache-from x none e s = cc s
  store_svc_in_cache-from x (some m) e s =
      subst (HasStores slices) (stored_cache _ c' s)
        (record { svc = sym (ap is_some e) ∙ h.svc; ep = h.ep; epsl = h.epsl })

  pub store_svc_in_cache-HasStores :
      (x : Service) → Stored (store_svc_in_cache x) c c' → HasStores slices c'
  unfolding store_svc_in_cache put
  store_svc_in_cache-HasStores x s = store_svc_in_cache-from x c.svc_cache refl s

  store_ep_in_cache-from :
      (x : Endpoints) (o : Store Endpoints)
      → c.ep_cache ≡ o
      → ◌≡◌ {A = Option (⊤ × Cache)}
          (elim (put (key x.meta.name x.meta.namespace) x o) [
            | none ↦ none
            | some m ↦ some (tt, record c { ep_cache = m })
          ])
          (some (tt, c'))
      → HasStores slices c'
  unfolding put
  store_ep_in_cache-from x none e s = cc s
  store_ep_in_cache-from x (some m) e s =
      subst (HasStores slices) (stored_cache _ c' s)
        (record { svc = h.svc; ep = sym (ap is_some e) ∙ h.ep; epsl = h.epsl })

  pub store_ep_in_cache-HasStores :
      (x : Endpoints) → Stored (store_ep_in_cache x) c c' → HasStores slices c'
  unfolding store_ep_in_cache put
  store_ep_in_cache-HasStores x s = store_ep_in_cache-from x c.ep_cache refl s

  store_ep_sl_in_cache-from :
      (x : EndpointSlice) (o : Store EndpointSlice)
      → c.epsl_cache ≡ o
      → ◌≡◌ {A = Option (⊤ × Cache)}
          (elim (put (key x.meta.name x.meta.namespace) x o) [
            | none ↦ none
            | some m ↦ some (tt, record c { epsl_cache = m })
          ])
          (some (tt, c'))
      → HasStores slices c'
  unfolding put
  store_ep_sl_in_cache-from x none e s = cc s
  store_ep_sl_in_cache-from x (some m) e s =
      subst (HasStores slices) (stored_cache _ c' s)
        (record { svc = h.svc; ep = h.ep; epsl = sym (ap is_some e) ∙ h.epsl })

  pub store_ep_sl_in_cache-HasStores :
      (x : EndpointSlice) → Stored (store_ep_sl_in_cache x) c c' → HasStores slices c'
  unfolding store_ep_sl_in_cache put
  store_ep_sl_in_cache-HasStores x s = store_ep_sl_in_cache-from x c.epsl_cache refl s

  pub remove_svc_from_cache-HasStores :
      (name namespace : String) → c' ≡ remove_svc_from_cache name namespace c → HasStores slices c'
  unfolding remove_svc_from_cache remove
  remove_svc_from_cache-HasStores name namespace e =
      subst (HasStores slices) (sym e)
        (record { svc = remove-is_some _ c.svc_cache ∙ h.svc; ep = h.ep; epsl = h.epsl })

  pub remove_ep_from_cache-HasStores :
      (name namespace : String) → c' ≡ remove_ep_from_cache name namespace c → HasStores slices c'
  unfolding remove_ep_from_cache remove
  remove_ep_from_cache-HasStores name namespace e =
      subst (HasStores slices) (sym e)
        (record { svc = h.svc; ep = remove-is_some _ c.ep_cache ∙ h.ep; epsl = h.epsl })

  pub remove_ep_sl_from_cache-HasStores :
      (name namespace : String)
      → c' ≡ remove_ep_sl_from_cache name namespace c
      → HasStores slices c'
  unfolding remove_ep_sl_from_cache remove
  remove_ep_sl_from_cache-HasStores name namespace e =
      subst (HasStores slices) (sym e)
        (record { svc = h.svc; ep = h.ep; epsl = remove-is_some _ c.epsl_cache ∙ h.epsl })
