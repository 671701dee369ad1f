-- ===== src/Proxy/Endpoints.antt =====
-- pkg/proxy/proxy_endpoints.go: one endpoint added to or removed from a service port.
pub mod Subsets
pub mod Handlers
pub mod Laws
pub mod Shifted
pub mod Effects
pub mod Deletion
pub mod Resync
use nfproxy.Prelude.{
  ℕ, zero, suc, String, Bool, true, false, ◌==◌, text_Eq, Option, none, some, List, [], ◌∷◌, ◌++◌,
  is_nil, lookup, insert, length, get_elem?, take, drop, or_else, if◌then◌else◌,
}
use nfproxy.Go.{⊤, Result, ok, err}
use nfproxy.Go.Exec
use nfproxy.Go.Exec.{Exec}
use nfproxy.Go.Act.{if_some, panic, Act, pure, deref, gets, when, checked, on_ok, ◌>>=◌, ◌>>◌}
use nfproxy.External.{External, TableFamily, family_Eq}
use nfproxy.Kube.{EndpointAddress, EndpointPort}
use nfproxy.Nftables.Base.{NftInterface}
use nfproxy.Nftables.Types.{EpRule}
use nfproxy.Nftables.Chains.{delete_endpoint_rules as nft_delete_endpoint_rules, delete_chain}
use nfproxy.Nftables.Rules.{add_endpoint_rules as nft_add_endpoint_rules, add_endpoint_update_rule}
use nfproxy.Proxy.Types.{ServicePortName, port_name_Eq, service_port_name_string, EpKey}
use nfproxy.Proxy.Tools.{service_port_endpoint_chain_name, get_ip_family}
use nfproxy.Proxy.Service.{ServiceInfo}
use nfproxy.Proxy.Endpoint.{EndpointInfo, new_endpoint_info, endpoint_equal}
use nfproxy.Proxy.State.{
  Proxy, kernel_call, service_of, endpoints_of, set_endpoints, drop_endpoints,
}
use nfproxy.Proxy.Update.{update_service_chain}

-- The endpoint runs on this host.
abbrev pub is_local_address : String → EndpointAddress → Bool
is_local_address hostname addr = elim addr.node_name [ none ↦ false | some n ↦ n == hostname ]

-- The rule of a new endpoint, with the affinity of its service port if that is known.
abbrev new_ep_rule : String → ℕ → Option ServiceInfo → EpRule
new_ep_rule cn index none = record {
  chain = cn;
  rule_id = [];
  ep_index = index;
  with_affinity = false;
  max_age_seconds = 0;
  service_id = "";
}
new_ep_rule cn index (some svc) = record {
  chain = cn;
  rule_id = [];
  ep_index = index;
  with_affinity = svc.base.svcnft.with_affinity;
  max_age_seconds = svc.base.svcnft.max_age_seconds;
  service_id = svc.base.svcnft.service_id;
}

-- `eps[:i]` followed by `eps[i+1:]`
abbrev pub remove_at : ℕ → List EndpointInfo → List EndpointInfo
remove_at i eps = take i eps ++ drop (suc i) eps

-- The array behind `eps` after `append(eps[:i], eps[i+1:]...)`: the tail moves down in place, and
-- the last cell keeps its value.
abbrev pub shifted : ℕ → List EndpointInfo → List EndpointInfo
shifted i eps = remove_at i eps ++ drop (length (remove_at i eps)) eps

module _ (ext : External) where
  open ext use {Kernel}

  -- addEndpointRules: the update rule, if there is affinity, and the others behind it
  unfoldable pub add_endpoint_rules :
      NftInterface → EpRule → TableFamily → String → EpKey → Exec Kernel EpRule
  add_endpoint_rules nfti rule fam cn key =
      Exec.◌>>=◌
        (if rule.with_affinity
          then add_endpoint_update_rule ext nfti fam cn rule.ep_index rule.service_id
              rule.max_age_seconds
          else Exec.pure [])
        λ update_ids.
          Exec.◌>>=◌
            (nft_add_endpoint_rules ext nfti fam cn key.ipaddr key.proto key.port rule.service_id)
            λ ids. Exec.pure (record rule { rule_id = update_ids ++ ids })

  unfoldable pub add_endpoint :
      ServicePortName → EndpointAddress → EndpointPort → Act (Proxy Kernel) (Result ⊤)
  add_endpoint name addr port = do
    hostname ← gets (λ p. p.hostname)
    let (ip_family, fam) = get_ip_family ext addr.ip
    let info =
        new_endpoint_info ext ip_family port.protocol addr.ip port.port
          (is_local_address hostname addr)
    let cn =
        service_port_endpoint_chain_name ext (service_port_name_string ext name) port.protocol
          info.endpoint
    eps ← gets (endpoints_of name)
    svc ← gets (service_of name)
    r ← kernel_call (λ nfti.
        add_endpoint_rules nfti (new_ep_rule cn (length eps) svc) fam cn
          (record { proto = port.protocol; ipaddr = addr.ip; port = port.port }))
    on_ok
        (λ rule. do
          set_endpoints name (eps ++ record info { rule = insert fam rule [] } ∷ [])
          update_service_chain ext name fam)
        r

  -- deleteEndpointRules: the key of a service port without endpoints is deleted
  unfoldable pub delete_endpoint_rules :
      TableFamily → String → List ℕ → ServicePortName → Act (Proxy Kernel) (Result ⊤)
  delete_endpoint_rules fam cn rule_id name =
      checked
        (kernel_call (λ nfti.
          Exec.◌>>◌ (nft_delete_endpoint_rules ext nfti fam cn rule_id)
            (delete_chain ext nfti fam cn)))
        (do eps ← gets (endpoints_of name); when (is_nil eps) (drop_endpoints name); pure (ok tt))

  -- The body of the loop of `deleteEndpoint` at an endpoint `ep` that is to go.
  unfoldable pub delete_at :
      ServicePortName
      → TableFamily
      → EndpointInfo
      → List EndpointInfo
      → Act (Proxy Kernel) (Result ⊤)
  delete_at name fam ep left = do
    set_endpoints name left
    rule ← deref (lookup fam ep.rule)
    checked (update_service_chain ext name fam)
        (delete_endpoint_rules fam rule.chain rule.rule_id name)

  -- The loop of `deleteEndpoint`, with the rounds left, the index, and the array behind `eps`.
  unfoldable pub delete_loop :
      ServicePortName
      → TableFamily
      → EndpointInfo
      → ℕ
      → ℕ
      → List EndpointInfo
      → Act (Proxy Kernel) (Result ⊤)
  delete_loop name fam target zero i eps = pure (ok tt)
  delete_loop name fam target (suc rounds) i eps =
      let later = delete_loop name fam target rounds (suc i) eps in
      let after = delete_loop name fam target rounds (suc i) (shifted i eps) in
      if_some panic
        (λ ep.
          if endpoint_equal ep target
          then checked (delete_at name fam ep (remove_at i eps)) after
          else later)
        (get_elem? eps i)

  unfoldable pub delete_endpoint :
      ServicePortName
      → EndpointAddress
      → EndpointPort
      → List EndpointInfo
      → Act (Proxy Kernel) (Result ⊤)
  delete_endpoint name addr port eps = do
    hostname ← gets (λ p. p.hostname)
    let (ip_family, fam) = get_ip_family ext addr.ip
    let target =
        new_endpoint_info ext ip_family port.protocol addr.ip port.port
          (is_local_address hostname addr)
    delete_loop name fam target (length eps) 0 eps
