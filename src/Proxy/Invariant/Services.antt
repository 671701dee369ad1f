-- ===== src/Proxy/Invariant/Services.antt =====
-- The service handlers keep the invariant.
use nfproxy.Prelude.{ℕ, refl, Bool, not, Option, none, some, List, is_nil}
use nfproxy.Go.{ok}
use nfproxy.Go.Hoare.{
  Hoare, Hoare-bind, Hoare-checked, Keeps, Keeps-pure, Keeps-if, Keeps-bind, Keeps-checked,
  Keeps-when,
}
use nfproxy.External.{External, TableFamily}
use nfproxy.Kube.{KubePort, Service}
use nfproxy.Nftables.Types.{SvcNft, SvcChain}
use nfproxy.Proxy.Types.{ServicePortName}
use nfproxy.Proxy.Service.{BaseServiceInfo, ServiceInfo, new_service_info}
use nfproxy.Proxy.Endpoint.{EndpointInfo}
use nfproxy.Proxy.Update.{update_service_chain}
use nfproxy.Proxy.Services.{
  add_affinity, add_new_service_port, add_service_port, delete_rules_of, delete_affinity,
  delete_known_service_port, delete_service_port,
}
use nfproxy.Proxy.Invariant.{IsConsistent, IsSettled}
use nfproxy.Proxy.Invariant.Frame.{
  kernel_call-IsSettled, kernel_call-IsConsistent, set_service-IsSettled, drop_service-IsConsistent,
  IsReady-IsSettled,
}
use nfproxy.Proxy.Invariant.Update.{update_service_chain-Hoare}
use nfproxy.Proxy.Invariant.Reads.{
  IsSettled-IsConsistent, gets_endpoints, add_affinity_endpoint-IsSettled,
  delete_affinity_endpoint-IsSettled,
}
use nfproxy.Proxy.Invariant.Endpoints.{consistent_rules}

module _ (ext : External) where
  add_affinity-IsSettled :
      (name : ServicePortName) (fam : TableFamily) (nft : SvcNft) (eps : List EndpointInfo)
      → Keeps (IsSettled name (not (is_nil eps))) (add_affinity ext name fam nft eps)
  unfolding add_affinity
  add_affinity-IsSettled name fam nft eps =
      Keeps-if nft.with_affinity _ _
        (Keeps-checked _ _ (kernel_call-IsSettled name _ _) (
          Keeps-bind _ _
            (Keeps-when nft.with_endpoints _ (
              Keeps-bind _ _
                (add_affinity_endpoint-IsSettled ext name fam _ eps nft.service_id
                  nft.max_age_seconds refl)
                (λ _. Keeps-pure tt)))
            (λ _. Keeps-pure (ok tt))))
        (Keeps-pure (ok tt))

  update-IsSettled :
      (name : ServicePortName) (fam : TableFamily) (b : Bool)
      → Hoare (IsSettled name b) (update_service_chain ext name fam) (λ _. IsConsistent)
  update-IsSettled name fam b = record {
    at = λ p h. (update_service_chain-Hoare ext name fam b).at p (IsReady-IsSettled name b p h);
  }

  -- The mark of a new service port is made from the endpoints that there are.
  add_new_service_port-IsConsistent :
      (name : ServicePortName) (port : KubePort) (svc : Service) (base : BaseServiceInfo)
      (max_age : ℕ)
      → Keeps IsConsistent (add_new_service_port ext name port svc base max_age)
  unfolding add_new_service_port new_service_info
  add_new_service_port-IsConsistent name port svc base max_age = gets_endpoints name _ _ (λ eps.
      Hoare-bind _ _ (λ _. IsSettled name (not (is_nil eps))) _
        (Keeps-when (is_nil eps) _
          (Keeps-bind _ _ (kernel_call-IsSettled name _ _) (λ _. Keeps-pure tt)))
        (λ _.
          Hoare-checked _ _ (λ _ h. h.consistent) (kernel_call-IsSettled name _ _)
            (Hoare-checked _ _ (λ _ h. h.consistent) (add_affinity-IsSettled name _ _ eps)
              (Hoare-checked _ _ (λ _ h. h.consistent) (kernel_call-IsSettled name _ _)
                (Hoare-bind _ _ (λ _. IsSettled name (not (is_nil eps))) _
                  (set_service-IsSettled name _ _ refl) (λ _. update-IsSettled name _ _))))))

  pub add_service_port-IsConsistent :
      (name : ServicePortName) (port : KubePort) (svc : Service) (base : BaseServiceInfo)
      → Keeps IsConsistent (add_service_port ext name port svc base)
  unfolding add_service_port
  add_service_port-IsConsistent name port svc base =
      search (consistent_rules, add_new_service_port-IsConsistent) depth 10

  delete_rules_of-IsConsistent :
      (fam : TableFamily) (chains : Option SvcChain)
      → Keeps IsConsistent (delete_rules_of ext fam chains)
  unfolding delete_rules_of
  delete_rules_of-IsConsistent fam none = Keeps-pure tt
  delete_rules_of-IsConsistent fam (some chains) = search consistent_rules depth 8

  delete_affinity-IsConsistent :
      (name : ServicePortName) (fam : TableFamily) (nft : SvcNft)
      → Keeps IsConsistent (delete_affinity ext name fam nft)
  unfolding delete_affinity
  delete_affinity-IsConsistent name fam nft =
      Keeps-if nft.with_affinity _ _
        (Keeps-checked _ _
          (Keeps-if nft.with_endpoints _ _
            (gets_endpoints name _ _ (λ eps.
              IsSettled-IsConsistent name _ _
                (delete_affinity_endpoint-IsSettled ext name fam _ eps refl)))
            (Keeps-pure (ok tt)))
          (kernel_call-IsConsistent _))
        (Keeps-pure (ok tt))

  ruleset delete_rules = (
    consistent_rules, delete_rules_of-IsConsistent, delete_affinity-IsConsistent,
    drop_service-IsConsistent,
  )

  delete_known_service_port-IsConsistent :
      (name : ServicePortName) (svc : ServiceInfo)
      → Keeps IsConsistent (delete_known_service_port ext name svc)
  unfolding delete_known_service_port
  delete_known_service_port-IsConsistent name svc = search delete_rules depth 14

  pub delete_service_port-IsConsistent :
      (name : ServicePortName) → Keeps IsConsistent (delete_service_port ext name)
  unfolding delete_service_port
  delete_service_port-IsConsistent name =
      search (consistent_rules, delete_known_service_port-IsConsistent)
