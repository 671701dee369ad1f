-- ===== src/Proxy/Invariant/Affinity.antt =====
-- The change of a service's session affinity keeps the invariant.
use nfproxy.Prelude.{ℕ, ◌≡◌, refl, ◌∙◌, Bool, true, false, List, [], ◌∷◌, ◌++◌, drop, if◌then◌else◌}
use nfproxy.Go.{⊤, Error, Result, ok, err}
use nfproxy.Go.Act.{Act, pure, on_ok, checked, ◌>>=◌, ◌>>◌}
use nfproxy.Go.Hoare.{
  Hoare, Hoare-bind, Keeps, Keeps-pure, Keeps-if, Keeps-bind, Keeps-checked, Keeps-on_ok,
  Keeps-deref,
}
use nfproxy.External.{External, TableFamily}
use nfproxy.Kube.{Service}
use nfproxy.Nftables.Sets.{delete_service_affinity_map}
use nfproxy.Proxy.State.{Proxy, kernel_call, set_service}
use nfproxy.Proxy.Types.{ServicePortName}
use nfproxy.Proxy.Service.{ServiceInfo}
use nfproxy.Proxy.Services.Affinity.{
  finish_affinity, enable_affinity, drop_match_act, drop_affinity_rules, disable_affinity,
  process_affinity_change, set_with_affinity,
}
use nfproxy.Proxy.Invariant.{IsConsistent, IsSettled}
use nfproxy.Proxy.Invariant.Frame.{
  kernel_call-IsSettled, kernel_act-IsSettled, set_service-IsSettled,
}
use nfproxy.Proxy.Invariant.Update.{with_endpoints-set_rule_id}
use nfproxy.Proxy.Invariant.Reads.{
  IsSettled-IsConsistent, gets_service, gets_endpoints-IsSettled, add_affinity_endpoint-IsSettled,
  delete_affinity_endpoint-IsSettled,
}
use nfproxy.Proxy.Invariant.Endpoints.{consistent_rules}

module _ (ext : External) where
  finish_affinity-IsSettled :
      (name : ServicePortName) (fam : TableFamily) (b : Bool) (svc : ServiceInfo)
      → svc.base.svcnft.with_endpoints ≡ b
      → Keeps (IsSettled name b) (finish_affinity ext name fam svc)
  unfolding finish_affinity
  finish_affinity-IsSettled name fam b svc e =
      Keeps-if svc.base.svcnft.with_endpoints _ _
        (gets_endpoints-IsSettled name _ b _ (λ eps count.
          Keeps-checked _ _
            (add_affinity_endpoint-IsSettled ext name fam b eps svc.base.svcnft.service_id
              svc.base.svcnft.max_age_seconds count)
            (Keeps-bind _ _ (set_service-IsSettled name b _ e) (λ _. Keeps-pure (ok tt)))))
        (Keeps-pure (ok tt))

  enable_affinity-IsConsistent :
      (fam : TableFamily) (name : ServicePortName)
      → Keeps IsConsistent (enable_affinity ext fam name)
  unfolding enable_affinity
  enable_affinity-IsConsistent fam name = gets_service name _ _ (λ svc.
      IsSettled-IsConsistent name _ _ (
        Keeps-checked _ _ (kernel_call-IsSettled name _ _) (
          Keeps-bind _ _ (Keeps-deref _) (λ rules. Keeps-bind _ _ (Keeps-deref _) (λ first.
            Keeps-bind _ _ (Keeps-deref _) (λ id. gets_endpoints-IsSettled name _ _ _ (λ eps count.
              Keeps-bind _ _ (kernel_act-IsSettled name _ _) (λ r. Keeps-on_ok _ r (λ rid.
                Keeps-bind _ _
                  (set_service-IsSettled name _ _ (
                    with_endpoints-set_rule_id fam _ (first ∷ (rid ++ drop 1 rules.rule_id))
                      svc.base.svcnft))
                  (λ _. finish_affinity-IsSettled name fam _ _ (
                    with_endpoints-set_rule_id fam _ (first ∷ (rid ++ drop 1 rules.rule_id))
                      svc.base.svcnft)))))))))))

  -- The service port that these leave has the mark that it had.
  HasMark : Bool → Result ServiceInfo → Type 0
  HasMark b (ok svc) = svc.base.svcnft.with_endpoints ≡ b
  HasMark b (err e) = Unit

  Marked : ServicePortName → Bool → Result ServiceInfo → Proxy ext.Kernel → Type 0
  Marked name b r p = IsSettled name b p × HasMark b r

  module _ (name : ServicePortName) (b : Bool) where
    on_ok-Marked :
        {A : Type 0} (r : Result A) (f : A → Act (Proxy ext.Kernel) (Result ServiceInfo))
        → ((a : A) → Hoare (IsSettled name b) (f a) (Marked name b))
        → Hoare (IsSettled name b) (on_ok f r) (Marked name b)
    unfolding ◌>>=◌ Marked HasMark
    on_ok-Marked (ok a) f h = h a
    on_ok-Marked (err e) f h = record { at = λ p s. (s, tt) }

    pure-Marked :
        (svc : ServiceInfo)
        → svc.base.svcnft.with_endpoints ≡ b
        → Hoare (IsSettled name b) (pure (ok svc)) (Marked name b)
    unfolding ◌>>=◌ Marked HasMark
    pure-Marked svc e = record { at = λ p s. (s, e) }

    failed-Marked : (e : Error) → Hoare (IsSettled name b) (pure (err e)) (Marked name b)
    unfolding ◌>>=◌ Marked HasMark
    failed-Marked e = record { at = λ p s. (s, tt) }

    if_Marked :
        (c : Bool) (m n : Act (Proxy ext.Kernel) (Result ServiceInfo))
        → Hoare (IsSettled name b) m (Marked name b)
        → Hoare (IsSettled name b) n (Marked name b)
        → Hoare (IsSettled name b) (if c then m else n) (Marked name b)
    if_Marked true m n hm hn = hm
    if_Marked false m n hm hn = hn

    drop_match_act-Marked :
        (fam : TableFamily) (svc : ServiceInfo) (ids : List ℕ)
        → svc.base.svcnft.with_endpoints ≡ b
        → Hoare (IsSettled name b) (drop_match_act ext fam name svc ids) (Marked name b)
    unfolding drop_match_act
    drop_match_act-Marked fam svc [] e = failed-Marked _
    drop_match_act-Marked fam svc (first ∷ []) e = failed-Marked _
    drop_match_act-Marked fam svc (first ∷ id ∷ others) e =
        Hoare-bind _ _ (λ _. IsSettled name b) _ (kernel_call-IsSettled name b _)
          (λ r. on_ok-Marked r _ (λ _. gets_endpoints-IsSettled name _ b _ (λ eps count.
            Hoare-bind _ _ (λ _. IsSettled name b) _
              (delete_affinity_endpoint-IsSettled ext name fam b eps count)
              (λ q. on_ok-Marked q _ (λ _.
                Hoare-bind _ _ (λ _. IsSettled name b) _
                  (set_service-IsSettled name b _
                    (with_endpoints-set_rule_id fam _ (first ∷ others) svc.base.svcnft ∙ e))
                  (λ _.
                    pure-Marked _
                      (with_endpoints-set_rule_id fam _ (first ∷ others) svc.base.svcnft ∙ e)))))))

    drop_affinity_rules-Marked :
        (fam : TableFamily) (svc : ServiceInfo)
        → svc.base.svcnft.with_endpoints ≡ b
        → Hoare (IsSettled name b) (drop_affinity_rules ext fam name svc) (Marked name b)
    unfolding drop_affinity_rules
    drop_affinity_rules-Marked fam svc e =
        if_Marked svc.base.svcnft.with_endpoints _ _
          (Hoare-bind _ _ (λ _. IsSettled name b) _ (Keeps-deref _)
            (λ rules. drop_match_act-Marked fam svc rules.rule_id e))
          (pure-Marked svc e)

    remove_map-IsConsistent :
        (fam : TableFamily) (svc : ServiceInfo)
        → svc.base.svcnft.with_endpoints ≡ b
        → Hoare
            (IsSettled name b)
            (checked
              (kernel_call
                (λ nfti. delete_service_affinity_map ext nfti fam svc.base.svcnft.service_id))
              (set_service name (set_with_affinity false svc) >> pure (ok tt)))
            (λ (_ : Result ⊤). IsConsistent)
    remove_map-IsConsistent fam svc e = IsSettled-IsConsistent name b _ (
        Keeps-checked _ _ (kernel_call-IsSettled name b _)
          (Keeps-bind _ _ (set_service-IsSettled name b _ e) (λ _. Keeps-pure (ok tt))))

    after_drop :
        (fam : TableFamily) (r : Result ServiceInfo)
        → Hoare
            (Marked name b r)
            (on_ok
              (λ changed.
                checked
                  (kernel_call (λ nfti.
                    delete_service_affinity_map ext nfti fam changed.base.svcnft.service_id))
                  (set_service name (set_with_affinity false changed) >> pure (ok tt)))
              r)
            (λ (_ : Result ⊤). IsConsistent)
    unfolding ◌>>=◌ Marked HasMark
    after_drop fam (ok svc) = record { at = λ p h. (remove_map-IsConsistent fam svc h.1).at p h.0 }
    after_drop fam (err e) = record { at = λ p h. h.0.consistent }

  disable_affinity-IsConsistent :
      (fam : TableFamily) (name : ServicePortName)
      → Keeps IsConsistent (disable_affinity ext fam name)
  unfolding disable_affinity
  disable_affinity-IsConsistent fam name = gets_service name _ _ (λ svc.
      Hoare-bind _ _ (Marked name svc.base.svcnft.with_endpoints) _
        (drop_affinity_rules-Marked name _ fam svc refl)
        (after_drop name svc.base.svcnft.with_endpoints fam))

  pub process_affinity_change-IsConsistent :
      (new stored : Service) → Keeps IsConsistent (process_affinity_change ext new stored)
  unfolding process_affinity_change
  process_affinity_change-IsConsistent new stored =
      search (consistent_rules, enable_affinity-IsConsistent, disable_affinity-IsConsistent) depth
        10
