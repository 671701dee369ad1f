-- ===== src/Proxy/Endpoints/Effects.antt =====
-- What addEndpoint and deleteEndpoint do to the endpoints of their service port.
use nfproxy.Prelude.{
  ℕ, String, ◌≡◌, refl, subst, ◌⊎◌, inl, inr, Bool, true, false, Option, none, some, List, [], ◌∷◌,
  ◌++◌, insert, lookup-insert, beq_refl,
}
use nfproxy.Go.{⊤, Result, ok, err, is_ok}
use nfproxy.Go.Act.{Act, on_ok, ◌>>=◌, ◌>>◌}
use nfproxy.Go.Hoare.{
  Post, Hoare, Hoare-bind, Hoare-weaken, Hoare-gets, Hoare-if, Hoare-if_some, Keeps, Keeps-pure,
  Keeps-panic, Keeps-gets, Keeps-run, keeps_rules,
}
use nfproxy.External.{External, TableFamily, family_Eq}
use nfproxy.Kube.{EndpointAddress, EndpointPort}
use nfproxy.Nftables.Base.{NftInterface}
use nfproxy.Nftables.Types.{EpRule}
use nfproxy.Proxy.Types.{ServicePortName, port_name_Eq}
use nfproxy.Proxy.Service.{ServiceInfo}
use nfproxy.Proxy.Endpoint.{EndpointInfo, new_endpoint_info}
use nfproxy.Proxy.Tools.{get_ip_family}
use nfproxy.Proxy.State.{Proxy, kernel_call, kernel_act, set_service, set_endpoints, endpoints_of}
use nfproxy.Proxy.Update.{
  mark_endpoints, program_endpoints, update_known_chain, update_service_chain,
}
use nfproxy.Proxy.Endpoints.{is_local_address, add_endpoint}

-- The host, and the endpoints of a service port.
pub record HasOwn {K : Type 0} (host : String) (name : ServicePortName) (eps : List EndpointInfo)
    (p : Proxy K) : Type 0 where
  pub at_host : p.hostname ≡ host
  pub own : endpoints_of name p ≡ eps

module _ {K : Type 0} {host : String} {name : ServicePortName} {eps : List EndpointInfo} where
  pub kernel_call-HasOwn :
      {A : Type 0} (m : NftInterface → K → A × K) → Keeps (HasOwn host name eps) (kernel_call m)
  unfolding kernel_call
  kernel_call-HasOwn m = record { at = λ p h. record { at_host = h.at_host; own = h.own } }

  kernel-Post :
      {A : Type 0} (o : Option (A × K)) (p : Proxy K)
      → HasOwn host name eps p
      → Post
          (λ (a : A). HasOwn host name eps)
          (elim o [ none ↦ none | some (a, k) ↦ some (a, record p { kernel = k }) ])
  kernel-Post none p h = tt
  kernel-Post (some (a, k)) p h = record { at_host = h.at_host; own = h.own }

  pub kernel_act-HasOwn :
      {A : Type 0} (m : NftInterface → Act K A) → Keeps (HasOwn host name eps) (kernel_act m)
  unfolding kernel_act
  kernel_act-HasOwn m = record { at = λ p h. kernel-Post (m p.nfti p.kernel) p h }

  pub set_service-HasOwn :
      (n : ServicePortName) (svc : ServiceInfo)
      → Keeps (HasOwn {K = K} host name eps) (set_service n svc)
  unfolding set_service
  set_service-HasOwn n svc = record { at = λ p h. record { at_host = h.at_host; own = h.own } }

  pub set_endpoints-HasOwn :
      (xs : List EndpointInfo)
      → Hoare (HasOwn {K = K} host name eps) (set_endpoints name xs) (λ _. HasOwn host name xs)
  unfolding set_endpoints
  set_endpoints-HasOwn xs = record {
    at = λ p h. record { at_host = h.at_host; own = rw (lookup-insert, beq_refl name) refl };
  }

pub ruleset own_rules = (keeps_rules, kernel_call-HasOwn, kernel_act-HasOwn, set_service-HasOwn)

module _ (ext : External) {host : String} {own_name : ServicePortName}
    {own_eps : List EndpointInfo} where
  mark_endpoints-HasOwn :
      (name : ServicePortName) (fam : TableFamily) (s : ServiceInfo) (b : Bool)
      → Keeps (HasOwn host own_name own_eps) (mark_endpoints ext name fam s b)
  unfolding mark_endpoints
  mark_endpoints-HasOwn name fam s true = search own_rules depth 10
  mark_endpoints-HasOwn name fam s false = search own_rules depth 10

  program_endpoints-HasOwn :
      (name : ServicePortName) (fam : TableFamily) (s : ServiceInfo) (rules : List (Option EpRule))
      (held : List ℕ)
      → Keeps (HasOwn host own_name own_eps) (program_endpoints ext name fam s rules held)
  unfolding program_endpoints
  program_endpoints-HasOwn name fam s [] held = search own_rules depth 10
  program_endpoints-HasOwn name fam s (r ∷ rules) held = search own_rules depth 10

  update_known_chain-HasOwn :
      (name : ServicePortName) (fam : TableFamily) (s : ServiceInfo) (xs : List EndpointInfo)
      → Keeps (HasOwn host own_name own_eps) (update_known_chain ext name fam s xs)
  unfolding update_known_chain
  update_known_chain-HasOwn name fam s xs =
      search (own_rules, mark_endpoints-HasOwn, program_endpoints-HasOwn) depth 12

  pub update_service_chain-HasOwn :
      (name : ServicePortName) (fam : TableFamily)
      → Keeps (HasOwn host own_name own_eps) (update_service_chain ext name fam)
  unfolding update_service_chain
  update_service_chain-HasOwn name fam = search (own_rules, update_known_chain-HasOwn) depth 12

-- The endpoint was put behind the others, or an error came before that.
Appended :
    {K : Type 0}
    → String
    → ServicePortName
    → List EndpointInfo
    → TableFamily
    → EndpointInfo
    → Result ⊤
    → Proxy K
    → Type 0
Appended host name eps fam info r p =
    ((rule : EpRule) × HasOwn host name (eps ++ record info { rule = insert fam rule [] } ∷ []) p)
    ⊎ (HasOwn host name eps p × (is_ok r ≡ false))

module _ (ext : External) (addr : EndpointAddress) (port : EndpointPort) (host : String) where
  -- The endpoint that addEndpoint makes and that deleteEndpoint looks for.
  abbrev pub endpoint_for : EndpointInfo
  endpoint_for =
      new_endpoint_info ext (get_ip_family ext addr.ip).0 port.protocol addr.ip port.port
        (is_local_address host addr)

  abbrev pub family_of : TableFamily
  family_of = (get_ip_family ext addr.ip).1

  module _ (name : ServicePortName) (eps : List EndpointInfo) where
    abbrev with_rule : EpRule → List EndpointInfo
    with_rule rule = eps ++ record endpoint_for { rule = insert family_of rule [] } ∷ []

    rule_made :
        (r : Result EpRule)
        → Hoare
            (HasOwn {K = ext.Kernel} host name eps)
            (on_ok
              (λ rule.
                set_endpoints name (with_rule rule) >> update_service_chain ext name family_of)
              r)
            (Appended host name eps family_of endpoint_for)
    unfolding ◌>>=◌ Appended
    rule_made (ok rule) =
        Hoare-bind _ _ (λ _. HasOwn host name (with_rule rule)) _ (set_endpoints-HasOwn _)
          (λ _.
            Hoare-weaken _ _ _ (λ r p h. inl (rule, h))
              (update_service_chain-HasOwn ext name family_of))
    rule_made (err e) = record { at = λ p h. inr (h, refl) }

    add_endpoint-Appended :
        Hoare
          (HasOwn {K = ext.Kernel} host name eps)
          (add_endpoint ext name addr port)
          (Appended host name eps family_of endpoint_for)
    unfolding add_endpoint
    add_endpoint-Appended =
        Hoare-gets _ host _ _ (λ p h. h.at_host)
          (Hoare-gets _ eps _ _ (λ p h. h.own)
            (Hoare-bind _ _ (λ _. HasOwn host name eps) _ (Keeps-gets _)
              λ svc.
                Hoare-bind _ _ (λ _. HasOwn host name eps) _ (kernel_call-HasOwn _)
                  λ r. rule_made r))

-- If addEndpoint ends, the endpoints of the service port are those from before with the new one, and
-- a rule for its family, behind them, or, beside an error, those from before.
pub add_endpoint-append :
    (ext : External) (name : ServicePortName) (addr : EndpointAddress) (port : EndpointPort)
    (p q : Proxy ext.Kernel) (r : Result ⊤)
    → add_endpoint ext name addr port p ≡ some (r, q)
    → ((rule : EpRule) × (endpoints_of name q
          ≡ endpoints_of name p
            ++ record (endpoint_for ext addr port p.hostname) {
              rule = insert (family_of ext addr port p.hostname) rule [];
            }
              ∷ []))
      ⊎ ((endpoints_of name q ≡ endpoints_of name p) × (is_ok r ≡ false))
unfolding Appended
add_endpoint-append ext name addr port p q r h =
    elim (subst
      (Post (
        Appended p.hostname name (endpoints_of name p) (family_of ext addr port p.hostname)
          (endpoint_for ext addr port p.hostname)))
      h
      ((add_endpoint-Appended ext addr port p.hostname name (endpoints_of name p)).at p
        (record { at_host = refl; own = refl }))) [
          | inl (rule, k) ↦ inl (rule, k.own)
          | inr (k, failed) ↦ inr (k.own, failed)
        ]
