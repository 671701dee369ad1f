-- ===== src/Tests/Searches.antt =====
-- The searches, the caches and the processing of subsets at concrete inputs.
use nfproxy.Prelude.{
  String, ◌≡◌, ◌↔◌, refl, true, some, List, [], ◌∷◌, Any, any, length, if◌then◌else◌, ◌==◌,
}
use nfproxy.Go.{ok, err, message}
use nfproxy.Kube.{KubePort, LoadBalancerIngress, EndpointSlice}
use nfproxy.Proxy.Types.{namespaced_Eq}
use nfproxy.Proxy.Tools.{
  is_string_in_slice, compare_slice_of_string, is_ingress_equal, is_port_in_subset,
  is_service_port_in_ports,
}
use nfproxy.Proxy.Tools.Searches.{
  Covers, has_port_at, is_string_in_slice-Any, compare_slice_of_string_iff, is_ingress_equal_iff,
  is_port_in_subset-any,
}
use nfproxy.Proxy.Tools.Ports.{Answer, is_service_port_in_ports-Answer}
use nfproxy.Proxy.Cache.{
  Cache, key, get_last_known_svc_from_cache, get_last_known_ep_from_cache,
  get_last_known_ep_sl_from_cache, store_svc_in_cache, store_ep_in_cache, store_ep_sl_in_cache,
  remove_svc_from_cache, remove_ep_from_cache, remove_ep_sl_from_cache,
}
use nfproxy.Proxy.Cache.Laws.{
  store_svc_in_cache-get, store_ep_in_cache-get, store_ep_sl_in_cache-get,
  remove_svc_from_cache-get, remove_ep_from_cache-get, remove_ep_sl_from_cache-get,
}
use nfproxy.Proxy.Endpoints.Subsets.{process_ep_subsets}
use nfproxy.Proxy.Endpoints.Laws.{AllOk, IsEntryOf, process_ep_subsets-IsEntryOf}
use nfproxy.Tests.{service, kube_port, http, address, http_port, endpoints, ingress_at, meta}

abbrev ab : List String
ab = "a" ∷ "b" ∷ []

abbrev ba : List String
ba = "b" ∷ "a" ∷ []

is_string_in_slice-Any_example :
    (is_string_in_slice "b" ab ≡ true) ↔ Any (λ (s : String). "b" ≡ s) ab
is_string_in_slice-Any_example = is_string_in_slice-Any "b" ab

compare_slice_of_string_iff_example : (compare_slice_of_string ab ba ≡ true) ↔ (ab ≡ ba)
compare_slice_of_string_iff_example = compare_slice_of_string_iff ab ba

abbrev two_points : List LoadBalancerIngress
two_points = ingress_at "1.1.1.1" ∷ ingress_at "2.2.2.2" ∷ []

abbrev swapped_points : List LoadBalancerIngress
swapped_points = ingress_at "2.2.2.2" ∷ ingress_at "1.1.1.1" ∷ []

is_ingress_equal_iff_example : (is_ingress_equal two_points swapped_points ≡ true) ↔ (
    (length two_points ≡ length swapped_points)
    × Covers two_points swapped_points
    × Covers swapped_points two_points)
is_ingress_equal_iff_example = is_ingress_equal_iff two_points swapped_points

is_port_in_subset-any_example :
    is_port_in_subset endpoints.subsets http_port (address "10.1.0.2")
    ≡ any (has_port_at http_port (address "10.1.0.2")) endpoints.subsets
is_port_in_subset-any_example =
    is_port_in_subset-any endpoints.subsets http_port (address "10.1.0.2")

abbrev two_ports : List KubePort
two_ports = kube_port "http" 80 0 ∷ kube_port "https" 443 0 ∷ []

is_service_port_in_ports-Answer_example :
    Answer two_ports
      (kube_port "web" 443 0)
      (is_service_port_in_ports two_ports (kube_port "web" 443 0))
is_service_port_in_ports-Answer_example =
    is_service_port_in_ports-Answer two_ports (kube_port "web" 443 0)

process_ep_subsets-IsEntryOf_example :
    AllOk
      (IsEntryOf endpoints.meta (is_port_in_subset endpoints.subsets))
      (process_ep_subsets endpoints)
process_ep_subsets-IsEntryOf_example = process_ep_subsets-IsEntryOf endpoints

abbrev slice : EndpointSlice
slice = record { meta = meta; address_type = "IPv4"; endpoints = []; ports = [] }

abbrev all_caches : Cache
all_caches = record { svc_cache = some []; ep_cache = some []; epsl_cache = some [] }

store_svc_in_cache-get_example :
    (c' : Cache) × (store_svc_in_cache (service (http ∷ [])) all_caches ≡ some (tt, c'))
    × ((name namespace : String)
        → get_last_known_svc_from_cache c' name namespace ≡ (
            if key "web" "shop" == key name namespace
            then ok (service (http ∷ []))
            else get_last_known_svc_from_cache all_caches name namespace))
    × (c'.ep_cache ≡ some [])
    × (c'.epsl_cache ≡ some [])
store_svc_in_cache-get_example = store_svc_in_cache-get (service (http ∷ [])) all_caches [] refl

remove_svc_from_cache-get_example :
    get_last_known_svc_from_cache (remove_svc_from_cache "web" "shop" all_caches) "web" "shop" ≡ (
      if key "web" "shop" == key "web" "shop"
      then err (message "service not found in the cache")
      else get_last_known_svc_from_cache all_caches "web" "shop")
remove_svc_from_cache-get_example = remove_svc_from_cache-get all_caches "web" "shop" "web" "shop"

store_ep_in_cache-get_example :
    (c' : Cache) × (store_ep_in_cache endpoints all_caches ≡ some (tt, c'))
    × ((name namespace : String)
        → get_last_known_ep_from_cache c' name namespace ≡ (
            if key "web" "shop" == key name namespace
            then ok endpoints
            else get_last_known_ep_from_cache all_caches name namespace))
    × (c'.svc_cache ≡ some [])
    × (c'.epsl_cache ≡ some [])
store_ep_in_cache-get_example = store_ep_in_cache-get endpoints all_caches [] refl

remove_ep_from_cache-get_example :
    get_last_known_ep_from_cache (remove_ep_from_cache "web" "shop" all_caches) "web" "shop" ≡ (
      if key "web" "shop" == key "web" "shop"
      then err (message "endpoint not found in the cache")
      else get_last_known_ep_from_cache all_caches "web" "shop")
remove_ep_from_cache-get_example = remove_ep_from_cache-get all_caches "web" "shop" "web" "shop"

store_ep_sl_in_cache-get_example :
    (c' : Cache) × (store_ep_sl_in_cache slice all_caches ≡ some (tt, c'))
    × ((name namespace : String)
        → get_last_known_ep_sl_from_cache c' name namespace ≡ (
            if key "web" "shop" == key name namespace
            then ok slice
            else get_last_known_ep_sl_from_cache all_caches name namespace))
    × (c'.svc_cache ≡ some [])
    × (c'.ep_cache ≡ some [])
store_ep_sl_in_cache-get_example = store_ep_sl_in_cache-get slice all_caches [] refl

remove_ep_sl_from_cache-get_example :
    get_last_known_ep_sl_from_cache (remove_ep_sl_from_cache "web" "shop" all_caches) "web" "shop"
    ≡ (if key "web" "shop" == key "web" "shop"
        then err (message "endpoint slice not found in the cache")
        else get_last_known_ep_sl_from_cache all_caches "web" "shop")
remove_ep_sl_from_cache-get_example =
    remove_ep_sl_from_cache-get all_caches "web" "shop" "web" "shop"
