-- ===== src/Proxy/Services/Affinity.antt =====
-- pkg/proxy/proxy_service.go: processAffinityChange. The source changes the service's SVCnft
-- through a pointer, so each change is written back to the map.
use nfproxy.Prelude.{
  ℕ, Bool, true, false, ◌==◌, text_Eq, List, [], ◌∷◌, ◌++◌, get_elem?, drop, if◌then◌else◌,
}
use nfproxy.Go.{⊤, Result, ok, err, message}
use nfproxy.Go.Act.{Act, pure, deref, gets, checked, on_ok, ◌>>=◌, ◌>>◌, for_each}
use nfproxy.External.{External, TableFamily}
use nfproxy.Kube.{Service}
use nfproxy.Nftables.Base.{svc_chain}
use nfproxy.Nftables.Sets.{add_service_affinity_map, delete_service_affinity_map}
use nfproxy.Nftables.Chains.{delete_service_rules}
use nfproxy.Nftables.Program.{add_service_match_act_rule}
use nfproxy.Proxy.Types.{ServicePortName}
use nfproxy.Proxy.Tools.{get_ip_family}
use nfproxy.Proxy.Service.{ServiceInfo, affinity_client_ip, affinity_none}
use nfproxy.Proxy.State.{Proxy, kernel_call, kernel_act, service_of, endpoints_of, set_service}
use nfproxy.Proxy.Update.{chain_rule, set_rule_id, change_svcnft, endpoint_chains}
use nfproxy.Proxy.EndpointAffinity.{add_affinity_endpoint, delete_affinity_endpoint}
use nfproxy.Proxy.Services.Changes.{name_of}

abbrev pub set_with_affinity : Bool → ServiceInfo → ServiceInfo
set_with_affinity b = change_svcnft (λ nft. record nft { with_affinity = b })

module _ (ext : External) where
  open ext use {Kernel}

  -- The update rules of the endpoints, for a service port that has some.
  unfoldable pub finish_affinity :
      ServicePortName → TableFamily → ServiceInfo → Act (Proxy Kernel) (Result ⊤)
  finish_affinity name fam svc =
      if svc.base.svcnft.with_endpoints
      then (do
        eps ← gets (endpoints_of name)
        checked
            (add_affinity_endpoint ext name eps fam svc.base.svcnft.service_id
              svc.base.svcnft.max_age_seconds)
            (set_service name (set_with_affinity true svc) >> pure (ok tt)))
      else pure (ok tt)

  -- The body of the loop that adds affinity to a service port; an error goes on with the next.
  unfoldable pub enable_affinity : TableFamily → ServicePortName → Act (Proxy Kernel) (Result ⊤)
  enable_affinity fam name = do
    known ← gets (service_of name)
    svc ← deref known
    let nft = svc.base.svcnft
    let chain = svc_chain nft.service_id
    checked
        (kernel_call
          (λ nfti. add_service_affinity_map ext nfti fam nft.service_id nft.max_age_seconds))
        (do
          rules ← deref (chain_rule nft fam chain)
          first ← deref (get_elem? rules.rule_id 0)
          id ← deref (get_elem? rules.rule_id 1)
          eps ← gets (endpoints_of name)
          r ← kernel_act (λ nfti.
              add_service_match_act_rule ext nfti fam nft.service_id (endpoint_chains fam eps) id)
          on_ok
              (λ rid. do
                let ids = first ∷ (rid ++ drop 1 rules.rule_id)
                let changed = change_svcnft (set_rule_id fam chain ids) svc
                set_service name changed
                finish_affinity name fam changed)
              r)

  -- With endpoints the MatchAct rule is the second of the chain's rules: it goes, and then the
  -- update rules of the endpoints.
  unfoldable pub drop_match_act :
      TableFamily → ServicePortName → ServiceInfo → List ℕ → Act (Proxy Kernel) (Result ServiceInfo)
  drop_match_act fam name svc (first ∷ id ∷ others) = do
    let chain = svc_chain svc.base.svcnft.service_id
    checked (kernel_call (λ nfti. delete_service_rules ext nfti fam chain (id ∷ []))) (do
      eps ← gets (endpoints_of name)
      checked (delete_affinity_endpoint ext name eps fam) (do
        let changed = change_svcnft (set_rule_id fam chain (first ∷ others)) svc
        set_service name changed
        pure (ok changed)))
  drop_match_act fam name svc ids = pure (err (message "failed to delete MatchAct rule"))

  unfoldable pub drop_affinity_rules :
      TableFamily → ServicePortName → ServiceInfo → Act (Proxy Kernel) (Result ServiceInfo)
  drop_affinity_rules fam name svc =
      if svc.base.svcnft.with_endpoints
      then (do
        rules ← deref (chain_rule svc.base.svcnft fam (svc_chain svc.base.svcnft.service_id))
        drop_match_act fam name svc rules.rule_id)
      else pure (ok svc)

  -- The body of the loop that removes affinity from a service port.
  unfoldable pub disable_affinity : TableFamily → ServicePortName → Act (Proxy Kernel) (Result ⊤)
  disable_affinity fam name = do
    known ← gets (service_of name)
    svc ← deref known
    r ← drop_affinity_rules fam name svc
    on_ok
        (λ changed.
          checked
            (kernel_call
              (λ nfti. delete_service_affinity_map ext nfti fam changed.base.svcnft.service_id))
            (set_service name (set_with_affinity false changed) >> pure (ok tt)))
        r

  unfoldable pub process_affinity_change : Service → Service → Act (Proxy Kernel) ⊤
  process_affinity_change new stored =
      let fam = (get_ip_family ext new.spec.cluster_ip).1 in
      if new.spec.session_affinity == stored.spec.session_affinity
      then pure tt
      else if new.spec.session_affinity == affinity_client_ip
      then for_each new.spec.ports (λ port. enable_affinity fam (name_of new port) >> pure tt)
      else if new.spec.session_affinity == affinity_none
      then for_each new.spec.ports (λ port. disable_affinity fam (name_of new port) >> pure tt)
      else pure tt
