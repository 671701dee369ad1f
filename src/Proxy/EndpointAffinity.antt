-- ===== src/Proxy/EndpointAffinity.antt =====
-- pkg/proxy/proxy.go: the update rules of a service port's endpoints. The source changes the
-- endpoints through pointers, so each change is written back to the map.
use nfproxy.Prelude.{ℕ, true, false, String, List, [], ◌∷◌, ◌++◌, get_elem?, drop, lookup, insert}
use nfproxy.Go.{⊤, Result, ok}
use nfproxy.Go.Act.{Act, pure, deref, on_ok, ◌>>=◌, ◌>>◌}
use nfproxy.External.{External, TableFamily, family_Eq}
use nfproxy.Nftables.Types.{EpRule}
use nfproxy.Nftables.Rules.{add_endpoint_update_rule, delete_endpoint_update_rule}
use nfproxy.Proxy.Types.{ServicePortName}
use nfproxy.Proxy.Endpoint.{EndpointInfo}
use nfproxy.Proxy.State.{Proxy, kernel_call, set_endpoints}

-- `ep.epnft.Rule[fam] = rule`
abbrev pub with_rule : TableFamily → EpRule → EndpointInfo → EndpointInfo
with_rule fam rule ep = record ep { rule = insert fam rule ep.rule }

module _ (ext : External) where
  open ext use {Kernel}

  -- The endpoints in `done` have been changed; those that follow are as they were.
  unfoldable pub add_affinity_loop :
      ServicePortName
      → TableFamily
      → String
      → ℕ
      → List EndpointInfo
      → List EndpointInfo
      → Act (Proxy Kernel) (Result ⊤)
  add_affinity_loop name fam svc_id max_age done [] = pure (ok tt)
  add_affinity_loop name fam svc_id max_age done (ep ∷ eps) = do
    rule ← deref (lookup fam ep.rule)
    r ←
        kernel_call
          (λ nfti. add_endpoint_update_rule ext nfti fam rule.chain rule.ep_index svc_id max_age)
    on_ok
        (λ ids. do
          let changed =
              with_rule fam
                (record rule {
                  with_affinity = true;
                  max_age_seconds = max_age;
                  rule_id = ids ++ rule.rule_id;
                })
                ep
          set_endpoints name (done ++ changed ∷ eps)
          add_affinity_loop name fam svc_id max_age (done ++ changed ∷ []) eps)
        r

  -- The service port's name stands for the map entry that `eps` is.
  unfoldable pub add_affinity_endpoint :
      ServicePortName → List EndpointInfo → TableFamily → String → ℕ → Act (Proxy Kernel) (Result ⊤)
  add_affinity_endpoint name eps fam svc_id max_age =
      add_affinity_loop name fam svc_id max_age [] eps

  unfoldable pub delete_affinity_loop :
      ServicePortName
      → TableFamily
      → List EndpointInfo
      → List EndpointInfo
      → Act (Proxy Kernel) (Result ⊤)
  delete_affinity_loop name fam done [] = pure (ok tt)
  delete_affinity_loop name fam done (ep ∷ eps) = do
    rule ← deref (lookup fam ep.rule)
    id ← deref (get_elem? rule.rule_id 0)
    r ← kernel_call (λ nfti. delete_endpoint_update_rule ext nfti fam rule.chain id)
    on_ok
        (λ _. do
          let changed =
              with_rule fam
                (record rule {
                  with_affinity = false;
                  max_age_seconds = 0;
                  rule_id = drop 1 rule.rule_id;
                })
                ep
          set_endpoints name (done ++ changed ∷ eps)
          delete_affinity_loop name fam (done ++ changed ∷ []) eps)
        r

  unfoldable pub delete_affinity_endpoint :
      ServicePortName → List EndpointInfo → TableFamily → Act (Proxy Kernel) (Result ⊤)
  delete_affinity_endpoint name eps fam = delete_affinity_loop name fam [] eps
