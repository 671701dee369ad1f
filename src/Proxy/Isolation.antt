-- ===== src/Proxy/Isolation.antt =====
-- An operation on one service port leaves the entries of all others alone: the accesses of the
-- state, and the updates that the operations share.
pub mod Endpoints
pub mod Services
use nfproxy.Prelude.{
  ℕ, zero, suc, String, ◌≡◌, ◌≢◌, refl, ◌∙◌, Bool, true, false, Option, none, some, List, [], ◌∷◌,
  ◌==◌, lookup, insert, erase, lookup-insert, lookup-erase, if◌then◌else◌,
}
use nfproxy.Go.{⊤, Result, ok, err}
use nfproxy.Go.Act.{Act, pure, ◌>>=◌, ◌>>◌}
use nfproxy.Go.Hoare.{
  Post, Hoare, Keeps, Keeps-pure, Keeps-bind, Keeps-deref, Keeps-on_ok, keeps_rules,
}
use nfproxy.External.{External, TableFamily}
use nfproxy.Nftables.Base.{NftInterface}
use nfproxy.Nftables.Types.{EpRule}
use nfproxy.Proxy.Types.{ServicePortName, port_name_Eq}
use nfproxy.Proxy.Cache.{Cache}
use nfproxy.Proxy.Service.{ServiceInfo}
use nfproxy.Proxy.Endpoint.{EndpointInfo}
use nfproxy.Proxy.State.{
  Proxy, kernel_call, kernel_act, cache_act, set_cache, service_of, endpoints_of, set_service,
  drop_service, set_endpoints, drop_endpoints,
}
use nfproxy.Proxy.Update.{
  mark_endpoints, program_endpoints, update_known_chain, update_service_chain,
}
use nfproxy.Proxy.EndpointAffinity.{
  add_affinity_loop, add_affinity_endpoint, delete_affinity_loop, delete_affinity_endpoint,
}

-- The entries of a service port in the two maps.
pub record HasEntries {K : Type 0} (name : ServicePortName) (svc : Option ServiceInfo)
    (eps : Option (List EndpointInfo)) (p : Proxy K) : Type 0 where
  pub has_service : service_of name p ≡ svc
  pub has_endpoints : lookup name p.endpoints_map ≡ eps

pub own_entries :
    {K : Type 0} (name : ServicePortName) (p : Proxy K)
    → HasEntries name (service_of name p) (lookup name p.endpoints_map) p
own_entries name p = record { has_service = refl; has_endpoints = refl }

pub entries_kept :
    {K : Type 0} (name : ServicePortName) (p q : Proxy K)
    → HasEntries name (service_of name p) (lookup name p.endpoints_map) q
    → (service_of name q ≡ service_of name p)
      × (lookup name q.endpoints_map ≡ lookup name p.endpoints_map)
entries_kept name p q h = (h.has_service, h.has_endpoints)

if_false : {A : Type 0} (b : Bool) (x y z : A) → b ≡ false → y ≡ z → (if b then x else y) ≡ z
if_false true x y z h e = cc
if_false false x y z h e = e

module _ {K : Type 0} (other : ServicePortName) (svc : Option ServiceInfo)
    (eps : Option (List EndpointInfo)) where
  pub kernel_call-HasEntries :
      {A : Type 0} (m : NftInterface → K → A × K) → Keeps (HasEntries other svc eps) (kernel_call m)
  unfolding kernel_call
  kernel_call-HasEntries m = record {
    at = λ p h. record { has_service = h.has_service; has_endpoints = h.has_endpoints };
  }

  kernel-Post :
      {A : Type 0} (o : Option (A × K)) (p : Proxy K)
      → HasEntries other svc eps p
      → Post
          (λ (a : A). HasEntries other svc eps)
          (elim o [ none ↦ none | some (a, k) ↦ some (a, record p { kernel = k }) ])
  kernel-Post none p h = tt
  kernel-Post (some (a, k)) p h = record {
    has_service = h.has_service;
    has_endpoints = h.has_endpoints;
  }

  pub kernel_act-HasEntries :
      {A : Type 0} (m : NftInterface → Act K A) → Keeps (HasEntries other svc eps) (kernel_act m)
  unfolding kernel_act
  kernel_act-HasEntries m = record { at = λ p h. kernel-Post (m p.nfti p.kernel) p h }

  module _ (name : ServicePortName) (apart : (name == other) ≡ false) where
    pub set_service-HasEntries :
        (s : ServiceInfo) → Keeps (HasEntries {K = K} other svc eps) (set_service name s)
    unfolding set_service
    set_service-HasEntries s = record {
      at = λ p h. record {
        has_service =
            lookup-insert name other s p.service_map ∙ if_false _ _ _ _ apart h.has_service;
        has_endpoints = h.has_endpoints;
      };
    }

    pub drop_service-HasEntries : Keeps (HasEntries {K = K} other svc eps) (drop_service name)
    unfolding drop_service
    drop_service-HasEntries = record {
      at = λ p h. record {
        has_service = lookup-erase name other p.service_map ∙ if_false _ _ _ _ apart h.has_service;
        has_endpoints = h.has_endpoints;
      };
    }

    pub set_endpoints-HasEntries :
        (xs : List EndpointInfo) → Keeps (HasEntries {K = K} other svc eps) (set_endpoints name xs)
    unfolding set_endpoints
    set_endpoints-HasEntries xs = record {
      at = λ p h. record {
        has_service = h.has_service;
        has_endpoints =
            lookup-insert name other xs p.endpoints_map ∙ if_false _ _ _ _ apart h.has_endpoints;
      };
    }

    pub drop_endpoints-HasEntries : Keeps (HasEntries {K = K} other svc eps) (drop_endpoints name)
    unfolding drop_endpoints
    drop_endpoints-HasEntries = record {
      at = λ p h. record {
        has_service = h.has_service;
        has_endpoints =
            lookup-erase name other p.endpoints_map ∙ if_false _ _ _ _ apart h.has_endpoints;
      };
    }

pub ruleset entries_rules = (
  keeps_rules, kernel_call-HasEntries, kernel_act-HasEntries, set_service-HasEntries,
  drop_service-HasEntries, set_endpoints-HasEntries, drop_endpoints-HasEntries,
)

module _ (ext : External) (other : ServicePortName) (svc : Option ServiceInfo)
    (eps : Option (List EndpointInfo)) (name : ServicePortName)
    (apart : (name == other) ≡ false) where
  mark_endpoints-HasEntries :
      (fam : TableFamily) (s : ServiceInfo) (b : Bool)
      → Keeps (HasEntries other svc eps) (mark_endpoints ext name fam s b)
  unfolding mark_endpoints
  mark_endpoints-HasEntries fam s true = search entries_rules depth 10
  mark_endpoints-HasEntries fam s false = search entries_rules depth 10

  program_endpoints-HasEntries :
      (fam : TableFamily) (s : ServiceInfo) (rules : List (Option EpRule)) (held : List ℕ)
      → Keeps (HasEntries other svc eps) (program_endpoints ext name fam s rules held)
  unfolding program_endpoints
  program_endpoints-HasEntries fam s [] held = search entries_rules depth 10
  program_endpoints-HasEntries fam s (r ∷ rules) held = search entries_rules depth 10

  update_known_chain-HasEntries :
      (fam : TableFamily) (s : ServiceInfo) (xs : List EndpointInfo)
      → Keeps (HasEntries other svc eps) (update_known_chain ext name fam s xs)
  unfolding update_known_chain
  update_known_chain-HasEntries fam s xs =
      search (entries_rules, mark_endpoints-HasEntries, program_endpoints-HasEntries) depth 10

  pub update_service_chain-HasEntries :
      (fam : TableFamily) → Keeps (HasEntries other svc eps) (update_service_chain ext name fam)
  unfolding update_service_chain
  update_service_chain-HasEntries fam =
      search (entries_rules, update_known_chain-HasEntries) depth 10

  add_affinity_loop-HasEntries :
      (fam : TableFamily) (svc_id : String) (max_age : ℕ) (xs done : List EndpointInfo)
      → Keeps (HasEntries other svc eps) (add_affinity_loop ext name fam svc_id max_age done xs)
  unfolding add_affinity_loop
  add_affinity_loop-HasEntries fam svc_id max_age [] done = Keeps-pure (ok tt)
  add_affinity_loop-HasEntries fam svc_id max_age (x ∷ xs) done =
      Keeps-bind _ _ (Keeps-deref _) (λ rule. Keeps-bind _ _ (kernel_call-HasEntries _ _ _ _) (λ r.
        Keeps-on_ok _ r (λ ids.
          Keeps-bind _ _ (set_endpoints-HasEntries _ _ _ _ apart _)
            (λ _. add_affinity_loop-HasEntries fam svc_id max_age xs _))))

  delete_affinity_loop-HasEntries :
      (fam : TableFamily) (xs done : List EndpointInfo)
      → Keeps (HasEntries other svc eps) (delete_affinity_loop ext name fam done xs)
  unfolding delete_affinity_loop
  delete_affinity_loop-HasEntries fam [] done = Keeps-pure (ok tt)
  delete_affinity_loop-HasEntries fam (x ∷ xs) done = Keeps-bind _ _ (Keeps-deref _) (λ rule.
      Keeps-bind _ _ (Keeps-deref _) (λ id. Keeps-bind _ _ (kernel_call-HasEntries _ _ _ _) (λ r.
        Keeps-on_ok _ r (λ _.
          Keeps-bind _ _ (set_endpoints-HasEntries _ _ _ _ apart _)
            (λ _. delete_affinity_loop-HasEntries fam xs _)))))

  pub add_affinity_endpoint-HasEntries :
      (xs : List EndpointInfo) (fam : TableFamily) (svc_id : String) (max_age : ℕ)
      → Keeps (HasEntries other svc eps) (add_affinity_endpoint ext name xs fam svc_id max_age)
  unfolding add_affinity_endpoint
  add_affinity_endpoint-HasEntries xs fam svc_id max_age =
      add_affinity_loop-HasEntries fam svc_id max_age xs []

  pub delete_affinity_endpoint-HasEntries :
      (xs : List EndpointInfo) (fam : TableFamily)
      → Keeps (HasEntries other svc eps) (delete_affinity_endpoint ext name xs fam)
  unfolding delete_affinity_endpoint
  delete_affinity_endpoint-HasEntries xs fam = delete_affinity_loop-HasEntries fam xs []
