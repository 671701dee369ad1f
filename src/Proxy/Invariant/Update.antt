-- ===== src/Proxy/Invariant/Update.antt =====
-- `updateServiceChain` restores the invariant after the endpoints of its service port changed.
use nfproxy.Prelude.{
  ℕ, String, ◌≡◌, refl, Bool, true, false, not, Option, none, some, List, [], ◌∷◌, is_nil, ◌∙◌, sym,
  subst, ◌==◌, Bool-cases, arith, inl, inr,
}
use nfproxy.Go.{⊤, Result, ok}
use nfproxy.Go.Act.{if_some, pure, ◌>>=◌}
use nfproxy.Go.Hoare.{
  Post, Hoare, Hoare-bind, Hoare-weaken, Keeps, Keeps-pure, Keeps-if, Keeps-bind, Keeps-checked,
  Keeps-if_some,
}
use nfproxy.External.{External, TableFamily, family_Eq}
use nfproxy.Nftables.Types.{EpRule, SvcNft}
use nfproxy.Proxy.Types.{ServicePortName, port_name_Eq, port_name_eq_iff}
use nfproxy.Proxy.Service.{ServiceInfo}
use nfproxy.Proxy.Endpoint.{EndpointInfo}
use nfproxy.Proxy.State.{Proxy, service_of, endpoints_of}
use nfproxy.Proxy.Update.{
  set_rule_id, set_with_endpoints, mark_endpoints, programmed, as_error, program_endpoints,
  update_known_chain, update_service_chain, endpoint_chains,
}
use nfproxy.Proxy.Invariant.{Agrees, IsConsistent, IsReady, IsSettled}
use nfproxy.Proxy.Invariant.Frame.{
  kernel_call-IsReady, kernel_call-IsSettled, kernel_act-IsSettled, set_service-Hoare,
  set_service-IsSettled,
}

-- Storing handles does not touch the mark.
pub with_endpoints-set_rule_id :
    (fam : TableFamily) (chain : String) (ids : List ℕ) (nft : SvcNft)
    → (set_rule_id fam chain ids nft).with_endpoints ≡ nft.with_endpoints
unfolding set_rule_id
with_endpoints-set_rule_id fam chain ids nft = ground arith

module _ (ext : External) where
  mark_endpoints-Hoare :
      (name : ServicePortName) (fam : TableFamily) (svc : ServiceInfo) (empty : Bool)
      → Hoare
          (IsReady name (not empty))
          (mark_endpoints ext name fam svc empty)
          (λ _. IsSettled name (not empty))
  unfolding mark_endpoints
  mark_endpoints-Hoare name fam svc true =
      Hoare-bind _ _ (λ _. IsReady name false) _
        (Keeps-if svc.base.svcnft.with_endpoints _ _
          (Keeps-bind _ _ (kernel_call-IsReady name false _) (λ _. Keeps-pure tt)) (Keeps-pure tt))
        (λ _. set_service-Hoare name false (set_with_endpoints false svc) refl)
  mark_endpoints-Hoare name fam svc false =
      Hoare-bind _ _ (λ _. IsReady name true) _
        (Keeps-if svc.base.svcnft.with_endpoints _ _ (Keeps-pure tt)
          (Keeps-bind _ _ (kernel_call-IsReady name true _) (λ _. Keeps-pure tt)))
        (λ _. set_service-Hoare name true (set_with_endpoints true svc) refl)

  module _ (name : ServicePortName) (b : Bool) where
    program_endpoints-IsSettled :
        (fam : TableFamily) (svc : ServiceInfo) (eps : List (Option EpRule)) (held : List ℕ)
        → svc.base.svcnft.with_endpoints ≡ b
        → Keeps (IsSettled name b) (program_endpoints ext name fam svc eps held)
    unfolding program_endpoints
    program_endpoints-IsSettled fam svc [] held e =
        Keeps-checked _ _ (kernel_call-IsSettled name b _) (
          Keeps-bind _ _
            (set_service-IsSettled name b _
              (with_endpoints-set_rule_id fam _ [] svc.base.svcnft ∙ e))
            (λ _. Keeps-pure (ok tt)))
    program_endpoints-IsSettled fam svc (ep ∷ eps) held e =
        Keeps-bind _ _ (kernel_act-IsSettled name b _) (λ (r, after).
          Keeps-bind _ _
            (set_service-IsSettled name b _
              (with_endpoints-set_rule_id fam _ (programmed r after) svc.base.svcnft ∙ e))
            (λ _. Keeps-pure (as_error r)))

  update_known_chain-Hoare :
      (name : ServicePortName) (fam : TableFamily) (svc : ServiceInfo) (eps : List EndpointInfo)
      → Hoare
          (IsReady name (not (is_nil eps)))
          (update_known_chain ext name fam svc eps)
          (λ _. IsSettled name (not (is_nil eps)))
  unfolding update_known_chain
  update_known_chain-Hoare name fam svc eps =
      Hoare-bind _ _ (λ _. IsSettled name (not (is_nil eps))) _
        (mark_endpoints-Hoare name fam svc (is_nil eps))
        (λ _. Keeps-if_some _ _ _ (Keeps-pure (ok tt)) (λ rules.
          program_endpoints-IsSettled name (not (is_nil eps)) fam
            (set_with_endpoints (not (is_nil eps)) svc) (endpoint_chains fam eps) rules.rule_id
            refl))

  -- A service port that is not known agrees with any endpoints.
  unknown-Agrees :
      (name n : ServicePortName) (b : Bool) (p : Proxy ext.Kernel)
      → service_of name p ≡ none
      → IsReady name b p
      → Agrees n p
  unknown-Agrees name n b p e h = elim (Bool-cases (name == n)) [
    | inl same ↦ subst (λ m. Agrees m p) ((port_name_eq_iff name n).0 same) (rw e tt)
    | inr other ↦ h.at_other n (λ q. cc (other, (port_name_eq_iff name n).1 (sym q)))
  ]

  settle :
      (name : ServicePortName) (fam : TableFamily) (b : Bool) (p : Proxy ext.Kernel)
      (o : Option ServiceInfo)
      → service_of name p ≡ o
      → IsReady name b p
      → Post
          (λ (_ : Result ⊤). IsConsistent)
          (if_some
            (pure (ok tt))
            (λ svc. update_known_chain ext name fam svc (endpoints_of name p))
            o
            p)
  unfolding ◌>>=◌
  settle name fam b p none e h = record { at_name = λ n. unknown-Agrees name n b p e h }
  settle name fam b p (some svc) e h =
      (Hoare-weaken _ _ (λ _. IsConsistent) (λ _ s settled. settled.consistent)
          (update_known_chain-Hoare name fam svc (endpoints_of name p))).at
        p (record { at_other = h.at_other; count = refl })

  -- After the update all service ports agree with their endpoints, whatever the kernel did.
  pub update_service_chain-Hoare :
      (name : ServicePortName) (fam : TableFamily) (b : Bool)
      → Hoare (IsReady name b) (update_service_chain ext name fam) (λ _. IsConsistent)
  unfolding update_service_chain ◌>>=◌
  update_service_chain-Hoare name fam b = record {
    at = λ p h. settle name fam b p (service_of name p) refl h;
  }
