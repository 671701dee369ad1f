-- ===== src/Proxy/Cache.antt =====
-- pkg/proxy/cache.go: the last version seen of each object. A nil map is `none`: it can be read,
-- and a write to it panics. A stored object is a copy.
pub mod Laws
use nfproxy.Prelude.{String, ◌==◌, Option, none, some, Assoc, lookup, insert, erase}
use nfproxy.Go.{⊤, Error, message, Result, ok, err}
use nfproxy.Go.Act.{Act}
use nfproxy.Kube.{Service, Endpoints, EndpointSlice}
use nfproxy.Proxy.Types.{NamespacedName, namespaced_Eq}

abbrev pub Store : Type 0 → Type 0
Store A = Option (Assoc NamespacedName A)

pub record Cache : Type 0 where
  pub svc_cache : Store Service
  pub ep_cache : Store Endpoints
  pub epsl_cache : Store EndpointSlice

abbrev pub key : String → String → NamespacedName
key name namespace = record { namespace = namespace; name = name }

-- `m[k]`, with an error if the key is missing
unfoldable pub find : {A : Type 0} → String → NamespacedName → Store A → Result A
unfolding lookup
find text k none = err (message text)
find text k (some m) = elim (lookup k m) [ none ↦ err (message text) | some a ↦ ok a ]

-- `m[k] = v`
unfoldable pub put : {A : Type 0} → NamespacedName → A → Store A → Option (Store A)
unfolding insert
put k a none = none
put k a (some m) = some (some (insert k a m))

-- `delete(m, k)`; a missing key is only logged.
unfoldable pub remove : {A : Type 0} → NamespacedName → Store A → Store A
unfolding erase
remove k none = none
remove k (some m) = some (erase k m)

abbrev pub version : {A : Type 0} → (A → String) → Result A → Result String
version f (ok a) = ok (f a)
version f (err e) = err e

abbrev pub svc_text : String
svc_text = "service not found in the cache"

abbrev ep_text : String
ep_text = "endpoint not found in the cache"

abbrev epsl_text : String
epsl_text = "endpoint slice not found in the cache"

unfoldable pub get_last_known_svc_from_cache : Cache → String → String → Result Service
unfolding find
get_last_known_svc_from_cache c name namespace = find svc_text (key name namespace) c.svc_cache

unfoldable pub get_cached_svc_version : Cache → String → String → Result String
unfolding find
get_cached_svc_version c name namespace =
    version (λ s. s.meta.resource_version) (find svc_text (key name namespace) c.svc_cache)

unfoldable pub store_svc_in_cache : Service → Act Cache ⊤
unfolding put
store_svc_in_cache s c = elim (put (key s.meta.name s.meta.namespace) s c.svc_cache) [
  | none ↦ none
  | some m ↦ some (tt, record c { svc_cache = m })
]

unfoldable pub remove_svc_from_cache : String → String → Cache → Cache
unfolding remove
remove_svc_from_cache name namespace c = record c {
  svc_cache = remove (key name namespace) c.svc_cache;
}

unfoldable pub get_last_known_ep_from_cache : Cache → String → String → Result Endpoints
unfolding find
get_last_known_ep_from_cache c name namespace = find ep_text (key name namespace) c.ep_cache

unfoldable pub get_cached_ep_version : Cache → String → String → Result String
unfolding find
get_cached_ep_version c name namespace =
    version (λ ep. ep.meta.resource_version) (find ep_text (key name namespace) c.ep_cache)

unfoldable pub store_ep_in_cache : Endpoints → Act Cache ⊤
unfolding put
store_ep_in_cache ep c = elim (put (key ep.meta.name ep.meta.namespace) ep c.ep_cache) [
  | none ↦ none
  | some m ↦ some (tt, record c { ep_cache = m })
]

unfoldable pub remove_ep_from_cache : String → String → Cache → Cache
unfolding remove
remove_ep_from_cache name namespace c = record c {
  ep_cache = remove (key name namespace) c.ep_cache;
}

unfoldable pub get_last_known_ep_sl_from_cache : Cache → String → String → Result EndpointSlice
unfolding find
get_last_known_ep_sl_from_cache c name namespace = find epsl_text (key name namespace) c.epsl_cache

unfoldable pub get_cached_ep_sl_version : Cache → String → String → Result String
unfolding find
get_cached_ep_sl_version c name namespace =
    version (λ e. e.meta.resource_version) (find epsl_text (key name namespace) c.epsl_cache)

unfoldable pub store_ep_sl_in_cache : EndpointSlice → Act Cache ⊤
unfolding put
store_ep_sl_in_cache epsl c =
    elim (put (key epsl.meta.name epsl.meta.namespace) epsl c.epsl_cache) [
      | none ↦ none
      | some m ↦ some (tt, record c { epsl_cache = m })
    ]

unfoldable pub remove_ep_sl_from_cache : String → String → Cache → Cache
unfolding remove
remove_ep_sl_from_cache name namespace c = record c {
  epsl_cache = remove (key name namespace) c.epsl_cache;
}
