-- ===== src/Proxy/Stores/Reads.antt =====
-- What is read from the cache after a handler has stored an object.
use nfproxy.Prelude.{
  ◌≡◌, refl, String, text_Eq, subst, ◌==◌, Option, none, some, Assoc, if◌then◌else◌,
}
use nfproxy.Go.{⊤, ok}
use nfproxy.Kube.{Service, Endpoints, EndpointSlice}
use nfproxy.Proxy.Types.{NamespacedName, namespaced_Eq}
use nfproxy.Proxy.Cache.{
  Cache, Store, key, put, get_last_known_svc_from_cache, get_last_known_ep_from_cache,
  get_last_known_ep_sl_from_cache, store_svc_in_cache, store_ep_in_cache, store_ep_sl_in_cache,
}
use nfproxy.Proxy.Cache.Laws.{
  store_svc_in_cache-get, store_ep_in_cache-get, store_ep_sl_in_cache-get,
}
use nfproxy.Proxy.Stores.Handlers.{Stored}

module _ (c c' : Cache) (x : Service) where
  made_svc_from :
      (o : Store Service)
      → c.svc_cache ≡ o
      → ◌≡◌ {A = Option (⊤ × Cache)}
          (elim (put (key x.meta.name x.meta.namespace) x o) [
            | none ↦ none
            | some m ↦ some (tt, record c { svc_cache = m })
          ])
          (some (tt, c'))
      → (m : Assoc NamespacedName Service) × (c.svc_cache ≡ some m)
  unfolding put
  made_svc_from none e s = cc s
  made_svc_from (some m) e s = (m, e)

  made_svc :
      Stored (store_svc_in_cache x) c c'
      → (m : Assoc NamespacedName Service) × (c.svc_cache ≡ some m)
  unfolding store_svc_in_cache put
  made_svc s = made_svc_from c.svc_cache refl s

  pub read_svc :
      Stored (store_svc_in_cache x) c c'
      → (name namespace : String)
      → get_last_known_svc_from_cache c' name namespace ≡ (
          if key x.meta.name x.meta.namespace == key name namespace
          then ok x
          else get_last_known_svc_from_cache c name namespace)
  read_svc s =
      let (m, e) = made_svc s in
      let (d, stored, reads, _, _) = store_svc_in_cache-get x c m e in
      let same : d ≡ c' = cc (stored, s) in
      subst
        (λ (b : Cache).
          (name namespace : String)
          → get_last_known_svc_from_cache b name namespace ≡ (
              if key x.meta.name x.meta.namespace == key name namespace
              then ok x
              else get_last_known_svc_from_cache c name namespace))
        same reads

module _ (c c' : Cache) (x : Endpoints) where
  made_ep_from :
      (o : Store Endpoints)
      → c.ep_cache ≡ o
      → ◌≡◌ {A = Option (⊤ × Cache)}
          (elim (put (key x.meta.name x.meta.namespace) x o) [
            | none ↦ none
            | some m ↦ some (tt, record c { ep_cache = m })
          ])
          (some (tt, c'))
      → (m : Assoc NamespacedName Endpoints) × (c.ep_cache ≡ some m)
  unfolding put
  made_ep_from none e s = cc s
  made_ep_from (some m) e s = (m, e)

  made_ep :
      Stored (store_ep_in_cache x) c c'
      → (m : Assoc NamespacedName Endpoints) × (c.ep_cache ≡ some m)
  unfolding store_ep_in_cache put
  made_ep s = made_ep_from c.ep_cache refl s

  pub read_ep :
      Stored (store_ep_in_cache x) c c'
      → (name namespace : String)
      → get_last_known_ep_from_cache c' name namespace ≡ (
          if key x.meta.name x.meta.namespace == key name namespace
          then ok x
          else get_last_known_ep_from_cache c name namespace)
  read_ep s =
      let (m, e) = made_ep s in
      let (d, stored, reads, _, _) = store_ep_in_cache-get x c m e in
      let same : d ≡ c' = cc (stored, s) in
      subst
        (λ (b : Cache).
          (name namespace : String)
          → get_last_known_ep_from_cache b name namespace ≡ (
              if key x.meta.name x.meta.namespace == key name namespace
              then ok x
              else get_last_known_ep_from_cache c name namespace))
        same reads

module _ (c c' : Cache) (x : EndpointSlice) where
  made_epsl_from :
      (o : Store EndpointSlice)
      → c.epsl_cache ≡ o
      → ◌≡◌ {A = Option (⊤ × Cache)}
          (elim (put (key x.meta.name x.meta.namespace) x o) [
            | none ↦ none
            | some m ↦ some (tt, record c { epsl_cache = m })
          ])
          (some (tt, c'))
      → (m : Assoc NamespacedName EndpointSlice) × (c.epsl_cache ≡ some m)
  unfolding put
  made_epsl_from none e s = cc s
  made_epsl_from (some m) e s = (m, e)

  made_epsl :
      Stored (store_ep_sl_in_cache x) c c'
      → (m : Assoc NamespacedName EndpointSlice) × (c.epsl_cache ≡ some m)
  unfolding store_ep_sl_in_cache put
  made_epsl s = made_epsl_from c.epsl_cache refl s

  pub read_epsl :
      Stored (store_ep_sl_in_cache x) c c'
      → (name namespace : String)
      → get_last_known_ep_sl_from_cache c' name namespace ≡ (
          if key x.meta.name x.meta.namespace == key name namespace
          then ok x
          else get_last_known_ep_sl_from_cache c name namespace)
  read_epsl s =
      let (m, e) = made_epsl s in
      let (d, stored, reads, _, _) = store_ep_sl_in_cache-get x c m e in
      let same : d ≡ c' = cc (stored, s) in
      subst
        (λ (b : Cache).
          (name namespace : String)
          → get_last_known_ep_sl_from_cache b name namespace ≡ (
              if key x.meta.name x.meta.namespace == key name namespace
              then ok x
              else get_last_known_ep_sl_from_cache c name namespace))
        same reads

-- Storing endpoints leaves the services alone.
abbrev pub SameServices : Cache → Option (⊤ × Cache) → Type 0
SameServices c o = (c' : Cache) → o ≡ some (tt, c') → c'.svc_cache ≡ c.svc_cache

SameServices-none : (c : Cache) → SameServices c none
SameServices-none c c' s = cc s

SameServices-some : (c d : Cache) → d.svc_cache ≡ c.svc_cache → SameServices c (some (tt, d))
SameServices-some c d e c' s =
    let same : d ≡ c' = cc s in subst (λ (x : Cache). x.svc_cache ≡ c.svc_cache) same e

pub store_ep-same : (c : Cache) (x : Endpoints) → SameServices c (store_ep_in_cache x c)
unfolding store_ep_in_cache
store_ep-same c x =
    elim (put (key x.meta.name x.meta.namespace) x c.ep_cache)
      as (λ o.
        SameServices c (elim o [ none ↦ none | some m ↦ some (tt, record c { ep_cache = m }) ])) [
          | none ↦ SameServices-none c
          | some m ↦ SameServices-some c (record c { ep_cache = m }) refl
        ]

pub store_ep_sl-same : (c : Cache) (x : EndpointSlice) → SameServices c (store_ep_sl_in_cache x c)
unfolding store_ep_sl_in_cache
store_ep_sl-same c x =
    elim (put (key x.meta.name x.meta.namespace) x c.epsl_cache)
      as (λ o.
        SameServices c (elim o [ none ↦ none | some m ↦ some (tt, record c { epsl_cache = m }) ])) [
          | none ↦ SameServices-none c
          | some m ↦ SameServices-some c (record c { epsl_cache = m }) refl
        ]
