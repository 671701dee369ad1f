-- ===== src/Proxy/Services.antt =====
-- pkg/proxy/proxy_service.go: one service port added or deleted, and the handlers of the events
-- that add or delete a service.
pub mod Changes
pub mod Addresses
pub mod Affinity
pub mod Handlers
pub mod Panics
use nfproxy.Prelude.{
  ℕ, String, Bool, true, false, not, ◌==◌, text_Eq, Option, none, some, List, [], ◌∷◌, is_nil,
  is_some, lookup, if◌then◌else◌,
}
use nfproxy.Go.{⊤, Result, ok, err}
use nfproxy.Go.Exec
use nfproxy.Go.Act.{if_some, Act, pure, deref, gets, when, checked, ◌>>=◌, ◌>>◌, for_each}
use nfproxy.External.{External, TableFamily, family_Eq}
use nfproxy.Kube.{KubePort, Service}
use nfproxy.Nftables.Types.{ChainRule, SvcChain, SvcNft, get_svc_chain}
use nfproxy.Nftables.Sets.{add_service_affinity_map, delete_service_affinity_map}
use nfproxy.Nftables.Chains.{add_service_chains, delete_service_chains, delete_service_rules}
use nfproxy.Proxy.Types.{ServicePortName, service_port_name_string}
use nfproxy.Proxy.Tools.{service_port_svc_id, table_family, get_ip_family}
use nfproxy.Proxy.Service.{
  BaseServiceInfo, ServiceInfo, affinity_client_ip, base_service_info_string, new_service_info,
  sticky_seconds,
}
use nfproxy.Proxy.Endpoint.{EndpointInfo}
use nfproxy.Proxy.State.{Proxy, kernel_call, service_of, endpoints_of, set_service, drop_service}
use nfproxy.Proxy.Sets.{
  add_service_port_to_sets, remove_service_port_from_sets, add_to_no_endpoints_list,
  remove_from_no_endpoints_list,
}
use nfproxy.Proxy.Update.{update_service_chain}
use nfproxy.Proxy.EndpointAffinity.{add_affinity_endpoint, delete_affinity_endpoint}

module _ (ext : External) where
  open ext use {Kernel}

  -- The identity of a service port in the names of its chain and its map.
  abbrev pub svc_id_of : ServicePortName → String → BaseServiceInfo → String
  svc_id_of name protocol base =
      service_port_svc_id ext (service_port_name_string ext name) protocol
        (base_service_info_string ext base)

  -- What a new service port keeps of its rules.
  abbrev new_svcnft : TableFamily → String → Bool → Bool → ℕ → SvcNft
  new_svcnft fam svc_id with_endpoints with_affinity max_age = record {
    chains = get_svc_chain fam svc_id;
    with_endpoints = with_endpoints;
    with_affinity = with_affinity;
    max_age_seconds = max_age;
    service_id = svc_id;
  }

  -- The affinity map, and the update rules of the endpoints that are there. An error of the
  -- latter is only logged.
  unfoldable pub add_affinity :
      ServicePortName → TableFamily → SvcNft → List EndpointInfo → Act (Proxy Kernel) (Result ⊤)
  add_affinity name fam nft eps =
      if nft.with_affinity
      then checked
          (kernel_call
            λ nfti. add_service_affinity_map ext nfti fam nft.service_id nft.max_age_seconds)
          (when nft.with_endpoints
              (add_affinity_endpoint ext name eps fam nft.service_id nft.max_age_seconds >> pure tt)
            >> pure (ok tt))
      else pure (ok tt)

  unfoldable pub add_new_service_port :
      ServicePortName → KubePort → Service → BaseServiceInfo → ℕ → Act (Proxy Kernel) (Result ⊤)
  add_new_service_port name port svc base max_age = do
    let fam = table_family ext svc.spec.cluster_ip
    let svc_id = svc_id_of name port.protocol base
    eps ← gets (endpoints_of name)
    let info = record base {
      svcnft =
          new_svcnft fam svc_id (not (is_nil eps)) (svc.spec.session_affinity == affinity_client_ip)
            max_age;
    }
    when (is_nil eps) (kernel_call (λ nfti. add_to_no_endpoints_list ext nfti info fam) >> pure tt)
    checked (kernel_call λ nfti. add_service_chains ext nfti fam svc_id) (
        checked (add_affinity name fam info.svcnft eps) (
          checked (kernel_call λ nfti. add_service_port_to_sets ext nfti info fam svc_id) (do
            set_service name (new_service_info ext port svc info)
            update_service_chain ext name fam)))

  -- A service port that is known already is left alone. An error is only logged.
  unfoldable pub add_service_port :
      ServicePortName → KubePort → Service → BaseServiceInfo → Act (Proxy Kernel) ⊤
  add_service_port name port svc base = do
    known ← gets (service_of name)
    if is_some known then pure tt else (do
      max_age ← deref (sticky_seconds ext svc)
      add_new_service_port name port svc base max_age
      pure tt)

  -- The rules of the service's chains; errors are only logged.
  unfoldable pub delete_rules_of : TableFamily → Option SvcChain → Act (Proxy Kernel) ⊤
  delete_rules_of fam none = pure tt
  delete_rules_of fam (some chains) = for_each chains λ entry.
      when (not (is_nil entry.1.rule_id))
        (kernel_call (λ nfti. delete_service_rules ext nfti fam entry.0 entry.1.rule_id) >> pure tt)

  unfoldable pub delete_affinity :
      ServicePortName → TableFamily → SvcNft → Act (Proxy Kernel) (Result ⊤)
  delete_affinity name fam nft =
      if nft.with_affinity
      then checked
          (if nft.with_endpoints
            then (gets (endpoints_of name) >>= λ eps. delete_affinity_endpoint ext name eps fam)
            else pure (ok tt))
          (kernel_call λ nfti. delete_service_affinity_map ext nfti fam nft.service_id)
      else pure (ok tt)

  unfoldable pub delete_known_service_port :
      ServicePortName → ServiceInfo → Act (Proxy Kernel) (Result ⊤)
  delete_known_service_port name svc = do
    let base = svc.base
    let fam = (get_ip_family ext (ext.ip_string base.cluster_ip)).1
    when (not base.svcnft.with_endpoints)
        (kernel_call (λ nfti. remove_from_no_endpoints_list ext nfti base fam) >> pure tt)
    cache ← gets (λ p. p.cache)
    kernel_call λ nfti. remove_service_port_from_sets ext nfti cache base fam base.svcnft.service_id
    delete_rules_of fam (lookup fam base.svcnft.chains)
    checked (delete_affinity name fam base.svcnft) (do
      kernel_call λ nfti. delete_service_chains ext nfti fam base.svcnft.service_id
      drop_service name
      pure (ok tt))

  -- An error is only logged.
  unfoldable pub delete_service_port : ServicePortName → Act (Proxy Kernel) ⊤
  delete_service_port name = do
    known ← gets (service_of name)
    if_some (pure tt) (λ svc. delete_known_service_port name svc >> pure tt) known
