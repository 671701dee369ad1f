-- ===== src/Proxy/Stores.antt =====
-- What the operations do to the cache of objects: all but the handlers leave it alone.
pub mod Services
pub mod Handlers
pub mod Endpoints
pub mod Shape
pub mod Reads
pub mod Bootstrap
pub mod Events
use nfproxy.Prelude.{
  ℕ, zero, suc, String, ◌≡◌, refl, Bool, true, false, Option, none, some, List, [], ◌∷◌, get_elem?,
}
use nfproxy.Go.{⊤, Result, ok, err}
use nfproxy.Go.Act.{Act, pure, ◌>>=◌, ◌>>◌}
use nfproxy.Go.Hoare.{
  Post, Hoare, Keeps, Keeps-pure, Keeps-panic, Keeps-bind, Keeps-deref, Keeps-on_ok, Keeps-if,
  Keeps-if_some, Keeps-checked, keeps_rules,
}
use nfproxy.External.{External, TableFamily}
use nfproxy.Kube.{EndpointAddress, EndpointPort}
use nfproxy.Nftables.Base.{NftInterface}
use nfproxy.Nftables.Types.{EpRule}
use nfproxy.Proxy.Types.{ServicePortName}
use nfproxy.Proxy.Cache.{Cache}
use nfproxy.Proxy.Service.{ServiceInfo}
use nfproxy.Proxy.Endpoint.{EndpointInfo, endpoint_equal}
use nfproxy.Proxy.State.{
  Proxy, kernel_call, kernel_act, cache_act, set_cache, set_service, drop_service, set_endpoints,
  drop_endpoints,
}
use nfproxy.Proxy.Update.{
  mark_endpoints, program_endpoints, update_known_chain, update_service_chain,
}
use nfproxy.Proxy.EndpointAffinity.{
  add_affinity_loop, add_affinity_endpoint, delete_affinity_loop, delete_affinity_endpoint,
}
use nfproxy.Proxy.Endpoints.{
  add_endpoint, delete_endpoint_rules, delete_at, delete_loop, delete_endpoint, remove_at, shifted,
}

pub record OfCache {K : Type 0} (Q : Cache → Type 0) (p : Proxy K) : Type 0 where
  pub of : Q p.cache

module _ {K : Type 0} {Q : Cache → Type 0} where
  pub kernel_call-OfCache :
      {A : Type 0} (m : NftInterface → K → A × K) → Keeps (OfCache Q) (kernel_call m)
  unfolding kernel_call
  kernel_call-OfCache m = record { at = λ p h. record { of = h.of } }

  kernel-Post :
      {A : Type 0} (o : Option (A × K)) (p : Proxy K)
      → OfCache Q p
      → Post
          (λ (a : A). OfCache Q)
          (elim o [ none ↦ none | some (a, k) ↦ some (a, record p { kernel = k }) ])
  kernel-Post none p h = tt
  kernel-Post (some (a, k)) p h = record { of = h.of }

  pub kernel_act-OfCache :
      {A : Type 0} (m : NftInterface → Act K A) → Keeps (OfCache Q) (kernel_act m)
  unfolding kernel_act
  kernel_act-OfCache m = record { at = λ p h. kernel-Post (m p.nfti p.kernel) p h }

  pub set_service-OfCache :
      (name : ServicePortName) (svc : ServiceInfo)
      → Keeps (OfCache Q) (set_service {K = K} name svc)
  unfolding set_service
  set_service-OfCache name svc = record { at = λ p h. record { of = h.of } }

  pub drop_service-OfCache :
      (name : ServicePortName) → Keeps (OfCache Q) (drop_service {K = K} name)
  unfolding drop_service
  drop_service-OfCache name = record { at = λ p h. record { of = h.of } }

  pub set_endpoints-OfCache :
      (name : ServicePortName) (eps : List EndpointInfo)
      → Keeps (OfCache Q) (set_endpoints {K = K} name eps)
  unfolding set_endpoints
  set_endpoints-OfCache name eps = record { at = λ p h. record { of = h.of } }

  pub drop_endpoints-OfCache :
      (name : ServicePortName) → Keeps (OfCache Q) (drop_endpoints {K = K} name)
  unfolding drop_endpoints
  drop_endpoints-OfCache name = record { at = λ p h. record { of = h.of } }

pub ruleset cache_rules = (
  keeps_rules, kernel_call-OfCache, kernel_act-OfCache, set_service-OfCache, drop_service-OfCache,
  set_endpoints-OfCache, drop_endpoints-OfCache,
)

module _ (ext : External) {Q : Cache → Type 0} where
  mark_endpoints-OfCache :
      (name : ServicePortName) (fam : TableFamily) (s : ServiceInfo) (b : Bool)
      → Keeps (OfCache Q) (mark_endpoints ext name fam s b)
  unfolding mark_endpoints
  mark_endpoints-OfCache name fam s true = search cache_rules depth 10
  mark_endpoints-OfCache name fam s false = search cache_rules depth 10

  program_endpoints-OfCache :
      (name : ServicePortName) (fam : TableFamily) (s : ServiceInfo) (rules : List (Option EpRule))
      (held : List ℕ)
      → Keeps (OfCache Q) (program_endpoints ext name fam s rules held)
  unfolding program_endpoints
  program_endpoints-OfCache name fam s [] held = search cache_rules depth 10
  program_endpoints-OfCache name fam s (r ∷ rules) held = search cache_rules depth 10

  update_known_chain-OfCache :
      (name : ServicePortName) (fam : TableFamily) (s : ServiceInfo) (xs : List EndpointInfo)
      → Keeps (OfCache Q) (update_known_chain ext name fam s xs)
  unfolding update_known_chain
  update_known_chain-OfCache name fam s xs =
      search (cache_rules, mark_endpoints-OfCache, program_endpoints-OfCache) depth 12

  pub update_service_chain-OfCache :
      (name : ServicePortName) (fam : TableFamily)
      → Keeps (OfCache Q) (update_service_chain ext name fam)
  unfolding update_service_chain
  update_service_chain-OfCache name fam = search (cache_rules, update_known_chain-OfCache) depth 12

  add_affinity_loop-OfCache :
      (name : ServicePortName) (fam : TableFamily) (svc_id : String) (max_age : ℕ)
      (xs done : List EndpointInfo)
      → Keeps (OfCache Q) (add_affinity_loop ext name fam svc_id max_age done xs)
  unfolding add_affinity_loop
  add_affinity_loop-OfCache name fam svc_id max_age [] done = Keeps-pure (ok tt)
  add_affinity_loop-OfCache name fam svc_id max_age (x ∷ xs) done =
      Keeps-bind _ _ (Keeps-deref _) (λ rule. Keeps-bind _ _ (kernel_call-OfCache _) (λ r.
        Keeps-on_ok _ r (λ ids.
          Keeps-bind _ _ (set_endpoints-OfCache _ _)
            (λ _. add_affinity_loop-OfCache name fam svc_id max_age xs _))))

  delete_affinity_loop-OfCache :
      (name : ServicePortName) (fam : TableFamily) (xs done : List EndpointInfo)
      → Keeps (OfCache Q) (delete_affinity_loop ext name fam done xs)
  unfolding delete_affinity_loop
  delete_affinity_loop-OfCache name fam [] done = Keeps-pure (ok tt)
  delete_affinity_loop-OfCache name fam (x ∷ xs) done = Keeps-bind _ _ (Keeps-deref _) (λ rule.
      Keeps-bind _ _ (Keeps-deref _) (λ id. Keeps-bind _ _ (kernel_call-OfCache _) (λ r.
        Keeps-on_ok _ r (λ _.
          Keeps-bind _ _ (set_endpoints-OfCache _ _)
            (λ _. delete_affinity_loop-OfCache name fam xs _)))))

  pub add_affinity_endpoint-OfCache :
      (name : ServicePortName) (xs : List EndpointInfo) (fam : TableFamily) (svc_id : String)
      (max_age : ℕ)
      → Keeps (OfCache Q) (add_affinity_endpoint ext name xs fam svc_id max_age)
  unfolding add_affinity_endpoint
  add_affinity_endpoint-OfCache name xs fam svc_id max_age =
      add_affinity_loop-OfCache name fam svc_id max_age xs []

  pub delete_affinity_endpoint-OfCache :
      (name : ServicePortName) (xs : List EndpointInfo) (fam : TableFamily)
      → Keeps (OfCache Q) (delete_affinity_endpoint ext name xs fam)
  unfolding delete_affinity_endpoint
  delete_affinity_endpoint-OfCache name xs fam = delete_affinity_loop-OfCache name fam xs []

  pub add_endpoint-OfCache :
      (name : ServicePortName) (addr : EndpointAddress) (port : EndpointPort)
      → Keeps (OfCache Q) (add_endpoint ext name addr port)
  unfolding add_endpoint
  add_endpoint-OfCache name addr port = search (cache_rules, update_service_chain-OfCache) depth 14

  delete_endpoint_rules-OfCache :
      (name : ServicePortName) (fam : TableFamily) (cn : String) (ids : List ℕ)
      → Keeps (OfCache Q) (delete_endpoint_rules ext fam cn ids name)
  unfolding delete_endpoint_rules
  delete_endpoint_rules-OfCache name fam cn ids = search cache_rules depth 12

  delete_at-OfCache :
      (name : ServicePortName) (fam : TableFamily) (ep : EndpointInfo) (left : List EndpointInfo)
      → Keeps (OfCache Q) (delete_at ext name fam ep left)
  unfolding delete_at
  delete_at-OfCache name fam ep left =
      search (cache_rules, update_service_chain-OfCache, delete_endpoint_rules-OfCache) depth 12

  delete_loop-OfCache :
      (name : ServicePortName) (fam : TableFamily) (target : EndpointInfo) (rounds i : ℕ)
      (xs : List EndpointInfo)
      → Keeps (OfCache Q) (delete_loop ext name fam target rounds i xs)
  unfolding delete_loop
  delete_loop-OfCache name fam target zero i xs = Keeps-pure (ok tt)
  delete_loop-OfCache name fam target (suc rounds) i xs =
      Keeps-if_some _ _ (get_elem? xs i) Keeps-panic (λ ep.
        Keeps-if (endpoint_equal ep target) _ _
          (Keeps-checked _ _ (delete_at-OfCache name fam ep (remove_at i xs))
            (delete_loop-OfCache name fam target rounds (suc i) (shifted i xs)))
          (delete_loop-OfCache name fam target rounds (suc i) xs))

  pub delete_endpoint-OfCache :
      (name : ServicePortName) (addr : EndpointAddress) (port : EndpointPort)
      (xs : List EndpointInfo)
      → Keeps (OfCache Q) (delete_endpoint ext name addr port xs)
  unfolding delete_endpoint
  delete_endpoint-OfCache name addr port xs = search (cache_rules, delete_loop-OfCache) depth 10
