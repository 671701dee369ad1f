-- ===== src/Proxy/Invariant/Endpoints.antt =====
-- The endpoint handlers keep the invariant.
use nfproxy.Prelude.{
  ℕ, zero, suc, String, ◌≡◌, refl, Bool, true, false, not, List, [], ◌∷◌, is_nil, get_elem?,
}
use nfproxy.Go.{⊤, Result, ok}
use nfproxy.Go.Act.{pure, ◌>>=◌, ◌>>◌, when, gets}
use nfproxy.Go.Hoare.{
  Post, Hoare, Hoare-bind, Hoare-weaken, Keeps, Keeps-pure, Keeps-panic, Keeps-if, Keeps-bind,
  Keeps-checked, Keeps-if_some, Keeps-on_ok, Keeps-gets, Keeps-deref, keeps_rules,
}
use nfproxy.External.{External, TableFamily}
use nfproxy.Kube.{EndpointAddress, EndpointPort, Endpoints}
use nfproxy.Proxy.Types.{ServicePortName, EpInfo}
use nfproxy.Proxy.Endpoint.{EndpointInfo, endpoint_equal}
use nfproxy.Proxy.State.{Proxy, endpoints_of, set_endpoints, drop_endpoints}
use nfproxy.Proxy.Update.{update_service_chain}
use nfproxy.Proxy.Endpoints.{
  add_endpoint, delete_endpoint_rules, delete_at, delete_loop, delete_endpoint, remove_at, shifted,
}
use nfproxy.Proxy.Endpoints.Handlers.{
  add_each, delete_known, add_endpoints, delete_endpoints, replace_endpoints, update_endpoints,
}
use nfproxy.Proxy.Invariant.{IsConsistent, IsReady}
use nfproxy.Proxy.Invariant.Frame.{
  kernel_call-IsConsistent, kernel_act-IsConsistent, cache_act-IsConsistent, set_cache-IsConsistent,
  set_endpoints-Hoare, drop_endpoints-IsConsistent,
}
use nfproxy.Proxy.Invariant.Update.{update_service_chain-Hoare}

pub ruleset consistent_rules = (
  keeps_rules, kernel_call-IsConsistent, kernel_act-IsConsistent, cache_act-IsConsistent,
  set_cache-IsConsistent,
)

module _ (ext : External) where
  -- New endpoints of a service port, and then the update of its chain.
  set_and_update :
      (name : ServicePortName) (fam : TableFamily) (eps : List EndpointInfo)
      → Keeps IsConsistent (set_endpoints name eps >> update_service_chain ext name fam)
  set_and_update name fam eps =
      Hoare-bind _ _ (λ _. IsReady name (not (is_nil eps))) _ (set_endpoints-Hoare name eps)
        (λ _. update_service_chain-Hoare ext name fam (not (is_nil eps)))

  pub add_endpoint-IsConsistent :
      (name : ServicePortName) (addr : EndpointAddress) (port : EndpointPort)
      → Keeps IsConsistent (add_endpoint ext name addr port)
  unfolding add_endpoint
  add_endpoint-IsConsistent name addr port = search (consistent_rules, set_and_update) depth 12

  drop_if_empty :
      (name : ServicePortName) (p : Proxy ext.Kernel) (b : Bool)
      → is_nil (endpoints_of name p) ≡ b
      → IsConsistent p
      → Post (λ (_ : Result ⊤). IsConsistent) ((when b (drop_endpoints name) >> pure (ok tt)) p)
  unfolding ◌>>=◌ drop_endpoints
  drop_if_empty name p true e h = drop_endpoints-IsConsistent name p e h
  drop_if_empty name p false e h = h

  drop_empty-IsConsistent :
      (name : ServicePortName)
      → Keeps (IsConsistent {K = ext.Kernel}) (
          gets (endpoints_of name) >>= λ eps.
          when (is_nil eps) (drop_endpoints name) >> pure {A = Result ⊤} (ok tt))
  unfolding ◌>>=◌
  drop_empty-IsConsistent name = record {
    at = λ p h. drop_if_empty name p (is_nil (endpoints_of name p)) refl h;
  }

  delete_endpoint_rules-IsConsistent :
      (fam : TableFamily) (cn : String) (ids : List ℕ) (name : ServicePortName)
      → Keeps IsConsistent (delete_endpoint_rules ext fam cn ids name)
  unfolding delete_endpoint_rules
  delete_endpoint_rules-IsConsistent fam cn ids name =
      Keeps-checked _ _ (kernel_call-IsConsistent _) (drop_empty-IsConsistent name)

  -- The endpoints may be wrong only until the chain is updated.
  delete_at-IsConsistent :
      (name : ServicePortName) (fam : TableFamily) (ep : EndpointInfo) (left : List EndpointInfo)
      → Keeps IsConsistent (delete_at ext name fam ep left)
  unfolding delete_at
  delete_at-IsConsistent name fam ep left =
      Hoare-bind _ _ (λ _. IsReady name (not (is_nil left))) _ (set_endpoints-Hoare name left)
        (λ _.
          Hoare-bind _ _ (λ _. IsReady name (not (is_nil left))) _ (Keeps-deref _)
            (λ rule.
              Hoare-bind _ _ (λ _. IsConsistent) _
                (update_service_chain-Hoare ext name fam (not (is_nil left)))
                (λ r.
                  Keeps-on_ok _ r
                    (λ _. delete_endpoint_rules-IsConsistent fam rule.chain rule.rule_id name))))

  delete_loop-IsConsistent :
      (name : ServicePortName) (fam : TableFamily) (target : EndpointInfo) (rounds i : ℕ)
      (eps : List EndpointInfo)
      → Keeps IsConsistent (delete_loop ext name fam target rounds i eps)
  unfolding delete_loop
  delete_loop-IsConsistent name fam target zero i eps = Keeps-pure (ok tt)
  delete_loop-IsConsistent name fam target (suc rounds) i eps =
      Keeps-if_some _ _ (get_elem? eps i) Keeps-panic (λ ep.
        Keeps-if (endpoint_equal ep target) _ _
          (Keeps-checked _ _ (delete_at-IsConsistent name fam ep (remove_at i eps))
            (delete_loop-IsConsistent name fam target rounds (suc i) (shifted i eps)))
          (delete_loop-IsConsistent name fam target rounds (suc i) eps))

  pub delete_endpoint-IsConsistent :
      (name : ServicePortName) (addr : EndpointAddress) (port : EndpointPort)
      (eps : List EndpointInfo)
      → Keeps IsConsistent (delete_endpoint ext name addr port eps)
  unfolding delete_endpoint
  delete_endpoint-IsConsistent name addr port eps =
      search (consistent_rules, delete_loop-IsConsistent)

  pub add_each-IsConsistent :
      (wanted : EpInfo → Bool) (es : List EpInfo) → Keeps IsConsistent (add_each ext wanted es)
  unfolding add_each
  add_each-IsConsistent wanted [] = Keeps-pure (ok tt)
  add_each-IsConsistent wanted (e ∷ es) =
      Keeps-if (wanted e) _ _
        (Keeps-checked _ _ (add_endpoint-IsConsistent e.name e.addr e.port)
          (add_each-IsConsistent wanted es))
        (add_each-IsConsistent wanted es)

  pub delete_known-IsConsistent : (e : EpInfo) → Keeps IsConsistent (delete_known ext e)
  unfolding delete_known
  delete_known-IsConsistent e = search (consistent_rules, delete_endpoint-IsConsistent)

  pub ruleset endpoint_rules = (consistent_rules, add_each-IsConsistent, delete_known-IsConsistent)

  pub add_endpoints-IsConsistent : (ep : Endpoints) → Keeps IsConsistent (add_endpoints ext ep)
  unfolding add_endpoints
  add_endpoints-IsConsistent ep = search endpoint_rules

  pub delete_endpoints-IsConsistent :
      (ep : Endpoints) → Keeps IsConsistent (delete_endpoints ext ep)
  unfolding delete_endpoints
  delete_endpoints-IsConsistent ep = search endpoint_rules

  replace_endpoints-IsConsistent :
      (stored new : Endpoints) → Keeps IsConsistent (replace_endpoints ext stored new)
  unfolding replace_endpoints
  replace_endpoints-IsConsistent stored new = search endpoint_rules depth 10

  pub update_endpoints-IsConsistent :
      (old new : Endpoints) → Keeps IsConsistent (update_endpoints ext old new)
  unfolding update_endpoints
  update_endpoints-IsConsistent old new = search (endpoint_rules, replace_endpoints-IsConsistent)
