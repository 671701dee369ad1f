-- ===== src/Proxy/Update.antt =====
-- pkg/proxy/proxy.go: the rules of a service's chain after a change of its endpoints, and the
-- rules of an endpoint's chain.
use nfproxy.Prelude.{
  ℕ, String, Bool, true, false, not, Option, none, some, List, [], ◌∷◌, map, is_nil, lookup, insert,
  text_Eq, if◌then◌else◌,
}
use nfproxy.Go.{⊤, Result, ok, err}
use nfproxy.Go.Act.{if_some, checked, Act, pure, gets, ◌>>=◌, ◌>>◌}
use nfproxy.External.{External, TableFamily, family_Eq}
use nfproxy.Nftables.Base.{svc_chain}
use nfproxy.Nftables.Types.{ChainRule, EpRule, SvcNft}
use nfproxy.Nftables.Chains.{delete_service_rules}
use nfproxy.Nftables.Program.{program_service_endpoints}
use nfproxy.Proxy.Types.{ServicePortName, port_name_Eq, service_port_name_string}
use nfproxy.Proxy.Service.{ServiceInfo}
use nfproxy.Proxy.Endpoint.{EndpointInfo}
use nfproxy.Proxy.Sets.{add_to_no_endpoints_list, remove_from_no_endpoints_list}
use nfproxy.Proxy.State.{Proxy, kernel_call, kernel_act, service_of, endpoints_of, set_service}

-- `svcnft.Chains[fam].Chain[name]`: a missing family has a nil map.
unfoldable pub chain_rule : SvcNft → TableFamily → String → Option ChainRule
chain_rule nft fam chain = elim (lookup fam nft.chains) [ none ↦ none | some m ↦ lookup chain m ]

-- `svcnft.Chains[fam].Chain[name].RuleID = ids`, where the entry is there
unfoldable pub set_rule_id : TableFamily → String → List ℕ → SvcNft → SvcNft
set_rule_id fam chain ids nft = elim (lookup fam nft.chains) [
  | none ↦ nft
  | some m ↦ elim (lookup chain m) [
    | none ↦ nft
    | some r ↦ record nft {
      chains = insert fam (insert chain (record r { rule_id = ids }) m) nft.chains;
    }
  ]
]

-- A change of the `SVCnft` that a service points to.
abbrev pub change_svcnft : (SvcNft → SvcNft) → ServiceInfo → ServiceInfo
change_svcnft f svc = record svc { base = record svc.base { svcnft = f svc.base.svcnft } }

abbrev pub set_with_endpoints : Bool → ServiceInfo → ServiceInfo
set_with_endpoints b = change_svcnft (λ nft. record nft { with_endpoints = b })

-- getServicePortEndpointChains: nil for an endpoint of another family
unfoldable pub endpoint_chains : TableFamily → List EndpointInfo → List (Option EpRule)
endpoint_chains fam eps = map (λ ep. lookup fam ep.rule) eps

-- The handles that are kept after the rules have been programmed.
abbrev pub programmed : Result (List ℕ) → List ℕ → List ℕ
programmed (ok ids) held = ids
programmed (err e) held = held

abbrev pub as_error : {A : Type 0} → Result A → Result ⊤
as_error (ok a) = ok tt
as_error (err e) = err e

module _ (ext : External) where
  open ext use {Kernel}

  -- The service enters or leaves the set of those without endpoints; an error is only logged.
  unfoldable pub mark_endpoints :
      ServicePortName → TableFamily → ServiceInfo → Bool → Act (Proxy Kernel) ⊤
  mark_endpoints name fam svc true = do
    if svc.base.svcnft.with_endpoints
        then (do kernel_call (λ nfti. add_to_no_endpoints_list ext nfti svc.base fam); pure tt)
        else pure tt
    set_service name (set_with_endpoints false svc)
  mark_endpoints name fam svc false = do
    if svc.base.svcnft.with_endpoints
        then pure tt
        else (do kernel_call (λ nfti. remove_from_no_endpoints_list ext nfti svc.base fam); pure tt)
    set_service name (set_with_endpoints true svc)

  -- The rules for the endpoints that there are.
  unfoldable pub program_endpoints :
      ServicePortName
      → TableFamily
      → ServiceInfo
      → List (Option EpRule)
      → List ℕ
      → Act (Proxy Kernel) (Result ⊤)
  program_endpoints name fam svc [] held =
      checked
        (kernel_call
          λ nfti. delete_service_rules ext nfti fam (svc_chain svc.base.svcnft.service_id) held)
        (set_service name
            (change_svcnft (set_rule_id fam (svc_chain svc.base.svcnft.service_id) []) svc)
          >> pure (ok tt))
  program_endpoints name fam svc (ep ∷ eps) held = do
    (r, after) ← kernel_act λ nfti.
        program_service_endpoints ext nfti fam svc.base.svcnft.service_id (ep ∷ eps) held
          svc.base.svcnft.with_affinity (service_port_name_string ext name)
    set_service name (
        change_svcnft (set_rule_id fam (svc_chain svc.base.svcnft.service_id) (programmed r after))
          svc)
    pure (as_error r)

  -- A chain that is not known is only logged.
  unfoldable pub update_known_chain :
      ServicePortName
      → TableFamily
      → ServiceInfo
      → List EndpointInfo
      → Act (Proxy Kernel) (Result ⊤)
  update_known_chain name fam svc eps = do
    mark_endpoints name fam svc (is_nil eps)
    if_some (pure (ok tt))
        (λ rules.
          program_endpoints name fam (set_with_endpoints (not (is_nil eps)) svc)
            (endpoint_chains fam eps) rules.rule_id)
        (chain_rule svc.base.svcnft fam (svc_chain svc.base.svcnft.service_id))

  unfoldable pub update_service_chain :
      ServicePortName → TableFamily → Act (Proxy Kernel) (Result ⊤)
  update_service_chain name fam = do
    known ← gets (service_of name)
    eps ← gets (endpoints_of name)
    if_some (pure (ok tt)) (λ svc. update_known_chain name fam svc eps) known
