-- ===== src/Proxy/Cache/Laws.antt =====
-- pkg/proxy/cache.go: what is read from a cache after an object was stored or removed.
use nfproxy.Prelude.{
  String, ◌≡◌, refl, Bool, true, false, ◌==◌, Option, none, some, Assoc, lookup, insert, erase,
  lookup-insert, lookup-erase, if◌then◌else◌,
}
use nfproxy.Go.{Result, ok, err, message}
use nfproxy.Kube.{Service, Endpoints, EndpointSlice}
use nfproxy.Proxy.Types.{NamespacedName, namespaced_Eq}
use nfproxy.Proxy.Cache.{
  Cache, Store, key, find, put, remove, get_last_known_svc_from_cache, get_last_known_ep_from_cache,
  get_last_known_ep_sl_from_cache, store_svc_in_cache, store_ep_in_cache, store_ep_sl_in_cache,
  remove_svc_from_cache, remove_ep_from_cache, remove_ep_sl_from_cache,
}

module _ {A : Type 0} (text : String) (k j : NamespacedName) where
  abbrev read : Option A → Result A
  read none = err (message text)
  read (some b) = ok b

  found-if :
      (same : Bool) (a : A) (o : Option A)
      → read (if same then some a else o) ≡ (if same then ok a else read o)
  found-if true a o = refl
  found-if false a o = refl

  missing-if :
      (same : Bool) (o : Option A)
      → read (if same then none else o) ≡ (if same then err (message text) else read o)
  missing-if true o = refl
  missing-if false o = refl

  find-some :
      (m : Assoc NamespacedName A) (i : NamespacedName) → find text i (some m) ≡ read (lookup i m)
  unfolding find
  find-some m i = elim (lookup i m) [ none ↦ refl | some b ↦ refl ]

  find-insert :
      (a : A) (m : Assoc NamespacedName A)
      → find text j (some (insert k a m)) ≡ (if k == j then ok a else find text j (some m))
  find-insert a m =
      rw (find-some (insert k a m) j, find-some m j, lookup-insert k j a m)
        (found-if (k == j) a (lookup j m))

  if_same : (b : Bool) (r : Result A) → r ≡ (if b then r else r)
  if_same true r = refl
  if_same false r = refl

  find-remove :
      (m : Store A)
      → find text j (remove k m) ≡ (if k == j then err (message text) else find text j m)
  unfolding remove find
  find-remove none = if_same (k == j) _
  find-remove (some m) =
      rw (find-some (erase k m) j, find-some m j, lookup-erase k j m)
        (missing-if (k == j) (lookup j m))

-- A service can be stored in a cache that was made. What is read then is the new one under its
-- name and namespace, and what was read before under all others; the other caches are as they were.
pub store_svc_in_cache-get :
    (x : Service) (c : Cache) (m : Assoc NamespacedName Service)
    → c.svc_cache ≡ some m
    → (c' : Cache) × (store_svc_in_cache x c ≡ some (tt, c'))
      × ((name namespace : String)
          → get_last_known_svc_from_cache c' name namespace ≡ (
              if key x.meta.name x.meta.namespace == key name namespace
              then ok x
              else get_last_known_svc_from_cache c name namespace))
      × (c'.ep_cache ≡ c.ep_cache)
      × (c'.epsl_cache ≡ c.epsl_cache)
unfolding store_svc_in_cache get_last_known_svc_from_cache put
store_svc_in_cache-get x c m e = (
  record c { svc_cache = some (insert (key x.meta.name x.meta.namespace) x m) },
  rw e refl,
  (λ name namespace. rw e (find-insert _ _ _ x m)),
  refl,
  refl,
)

-- After a service was removed from the cache it is not found any more, and all others are read as
-- before.
pub remove_svc_from_cache-get :
    (c : Cache) (name namespace other other_namespace : String)
    → get_last_known_svc_from_cache (remove_svc_from_cache name namespace c) other other_namespace
      ≡ (if key name namespace == key other other_namespace
          then err (message "service not found in the cache")
          else get_last_known_svc_from_cache c other other_namespace)
unfolding remove_svc_from_cache get_last_known_svc_from_cache
remove_svc_from_cache-get c name namespace other other_namespace = find-remove _ _ _ c.svc_cache

-- An Endpoints object can be stored in a cache that was made. What is read then is the new one under its
-- name and namespace, and what was read before under all others; the other caches are as they were.
pub store_ep_in_cache-get :
    (x : Endpoints) (c : Cache) (m : Assoc NamespacedName Endpoints)
    → c.ep_cache ≡ some m
    → (c' : Cache) × (store_ep_in_cache x c ≡ some (tt, c'))
      × ((name namespace : String)
          → get_last_known_ep_from_cache c' name namespace ≡ (
              if key x.meta.name x.meta.namespace == key name namespace
              then ok x
              else get_last_known_ep_from_cache c name namespace))
      × (c'.svc_cache ≡ c.svc_cache)
      × (c'.epsl_cache ≡ c.epsl_cache)
unfolding store_ep_in_cache get_last_known_ep_from_cache put
store_ep_in_cache-get x c m e = (
  record c { ep_cache = some (insert (key x.meta.name x.meta.namespace) x m) },
  rw e refl,
  (λ name namespace. rw e (find-insert _ _ _ x m)),
  refl,
  refl,
)

-- After an Endpoints object was removed from the cache it is not found any more, and all others are read as
-- before.
pub remove_ep_from_cache-get :
    (c : Cache) (name namespace other other_namespace : String)
    → get_last_known_ep_from_cache (remove_ep_from_cache name namespace c) other other_namespace ≡ (
        if key name namespace == key other other_namespace
        then err (message "endpoint not found in the cache")
        else get_last_known_ep_from_cache c other other_namespace)
unfolding remove_ep_from_cache get_last_known_ep_from_cache
remove_ep_from_cache-get c name namespace other other_namespace = find-remove _ _ _ c.ep_cache

-- An EndpointSlice can be stored in a cache that was made. What is read then is the new one under its
-- name and namespace, and what was read before under all others; the other caches are as they were.
pub store_ep_sl_in_cache-get :
    (x : EndpointSlice) (c : Cache) (m : Assoc NamespacedName EndpointSlice)
    → c.epsl_cache ≡ some m
    → (c' : Cache) × (store_ep_sl_in_cache x c ≡ some (tt, c'))
      × ((name namespace : String)
          → get_last_known_ep_sl_from_cache c' name namespace ≡ (
              if key x.meta.name x.meta.namespace == key name namespace
              then ok x
              else get_last_known_ep_sl_from_cache c name namespace))
      × (c'.svc_cache ≡ c.svc_cache)
      × (c'.ep_cache ≡ c.ep_cache)
unfolding store_ep_sl_in_cache get_last_known_ep_sl_from_cache put
store_ep_sl_in_cache-get x c m e = (
  record c { epsl_cache = some (insert (key x.meta.name x.meta.namespace) x m) },
  rw e refl,
  (λ name namespace. rw e (find-insert _ _ _ x m)),
  refl,
  refl,
)

-- After an EndpointSlice was removed from the cache it is not found any more, and all others are read as
-- before.
pub remove_ep_sl_from_cache-get :
    (c : Cache) (name namespace other other_namespace : String)
    → get_last_known_ep_sl_from_cache
        (remove_ep_sl_from_cache name namespace c)
        other
        other_namespace
      ≡ (if key name namespace == key other other_namespace
          then err (message "endpoint slice not found in the cache")
          else get_last_known_ep_sl_from_cache c other other_namespace)
unfolding remove_ep_sl_from_cache get_last_known_ep_sl_from_cache
remove_ep_sl_from_cache-get c name namespace other other_namespace = find-remove _ _ _ c.epsl_cache
