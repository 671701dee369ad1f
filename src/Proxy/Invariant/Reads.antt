-- ===== src/Proxy/Invariant/Reads.antt =====
-- What an operation knows after it has read a service port's entry or its endpoints, and the
-- update rules of the endpoints.
use nfproxy.Prelude.{
  ℕ, String, ◌≡◌, refl, sym, Bool, true, not, Option, none, some, List, [], ◌∷◌, ◌++◌, is_nil,
  subst,
}
use nfproxy.Go.{ok}
use nfproxy.Go.Act.{Act, ◌>>=◌, gets, deref}
use nfproxy.Go.Hoare.{
  Post, Hoare, Hoare-weaken, Keeps, Keeps-pure, Keeps-bind, Keeps-on_ok, Keeps-deref,
}
use nfproxy.External.{External, TableFamily}
use nfproxy.Proxy.Types.{ServicePortName, port_name_Eq}
use nfproxy.Proxy.Service.{ServiceInfo}
use nfproxy.Proxy.Endpoint.{EndpointInfo}
use nfproxy.Proxy.State.{Proxy, service_of, endpoints_of}
use nfproxy.Proxy.EndpointAffinity.{
  add_affinity_loop, add_affinity_endpoint, delete_affinity_loop, delete_affinity_endpoint,
}
use nfproxy.Proxy.Invariant.{Marks, IsConsistent, IsSettled}
use nfproxy.Proxy.Invariant.Frame.{kernel_call-IsSettled, set_endpoints-IsSettled}

module _ {K : Type 0} where
  pub IsSettled-IsConsistent :
      {A : Type 0} (name : ServicePortName) (b : Bool) (m : Act (Proxy K) A)
      → Keeps (IsSettled name b) m
      → Hoare (IsSettled name b) m (λ _. IsConsistent)
  IsSettled-IsConsistent name b m =
      Hoare-weaken m (λ _. IsSettled name b) (λ _. IsConsistent) (λ _ _ h. h.consistent)

module _ {K : Type 0} {A : Type 0} (name : ServicePortName) (R : A → Proxy K → Type 0) where
  pub gets_endpoints :
      (f : List EndpointInfo → Act (Proxy K) A)
      → ((eps : List EndpointInfo) → Hoare (IsSettled name (not (is_nil eps))) (f eps) R)
      → Hoare IsConsistent (gets (endpoints_of name) >>= f) R
  unfolding ◌>>=◌
  gets_endpoints f h = record {
    at = λ p c. (h (endpoints_of name p)).at p (record { consistent = c; count = refl });
  }

  pub gets_endpoints-IsSettled :
      (b : Bool) (f : List EndpointInfo → Act (Proxy K) A)
      → ((eps : List EndpointInfo) → not (is_nil eps) ≡ b → Hoare (IsSettled name b) (f eps) R)
      → Hoare (IsSettled name b) (gets (endpoints_of name) >>= f) R
  unfolding ◌>>=◌
  gets_endpoints-IsSettled b f h = record { at = λ p c. (h (endpoints_of name p) c.count).at p c }

  -- The entry that was found agrees with the endpoints.
  found_entry :
      (f : ServiceInfo → Act (Proxy K) A) (p : Proxy K) (o : Option ServiceInfo)
      → Marks o (endpoints_of name p)
      → IsConsistent p
      → ((svc : ServiceInfo) → Hoare (IsSettled name svc.base.svcnft.with_endpoints) (f svc) R)
      → Post R ((deref o >>= f) p)
  unfolding ◌>>=◌
  found_entry f p none m c h = tt
  found_entry f p (some svc) m c h = (h svc).at p (record { consistent = c; count = sym m })

  pub gets_service :
      (f : ServiceInfo → Act (Proxy K) A)
      → ((svc : ServiceInfo) → Hoare (IsSettled name svc.base.svcnft.with_endpoints) (f svc) R)
      → Hoare IsConsistent (gets (service_of name) >>= λ known. deref known >>= f) R
  unfolding ◌>>=◌
  gets_service f h = record { at = λ p c. found_entry f p (service_of name p) (c.at_name name) c h }

not-nil_middle :
    (done : List EndpointInfo) (ep : EndpointInfo) (eps : List EndpointInfo)
    → not (is_nil (done ++ ep ∷ eps)) ≡ true
not-nil_middle [] ep eps = refl
not-nil_middle (x ∷ done) ep eps = refl

module _ (ext : External) (name : ServicePortName) (fam : TableFamily) where
  add_affinity_loop-IsSettled :
      (svc_id : String) (max_age : ℕ) (eps done : List EndpointInfo)
      → Keeps (IsSettled name true) (add_affinity_loop ext name fam svc_id max_age done eps)
  unfolding add_affinity_loop
  add_affinity_loop-IsSettled svc_id max_age [] done = Keeps-pure (ok tt)
  add_affinity_loop-IsSettled svc_id max_age (ep ∷ eps) done =
      Keeps-bind _ _ (Keeps-deref _) (λ rule.
        Keeps-bind _ _ (kernel_call-IsSettled name true _) (λ r. Keeps-on_ok _ r (λ ids.
          Keeps-bind _ _ (set_endpoints-IsSettled name true _ (not-nil_middle done _ eps))
            (λ _. add_affinity_loop-IsSettled svc_id max_age eps _))))

  delete_affinity_loop-IsSettled :
      (eps done : List EndpointInfo)
      → Keeps (IsSettled name true) (delete_affinity_loop ext name fam done eps)
  unfolding delete_affinity_loop
  delete_affinity_loop-IsSettled [] done = Keeps-pure (ok tt)
  delete_affinity_loop-IsSettled (ep ∷ eps) done = Keeps-bind _ _ (Keeps-deref _) (λ rule.
      Keeps-bind _ _ (Keeps-deref _) (λ id. Keeps-bind _ _ (kernel_call-IsSettled name true _) (λ r.
        Keeps-on_ok _ r (λ _.
          Keeps-bind _ _ (set_endpoints-IsSettled name true _ (not-nil_middle done _ eps))
            (λ _. delete_affinity_loop-IsSettled eps _)))))

  pub add_affinity_endpoint-IsSettled :
      (b : Bool) (eps : List EndpointInfo) (svc_id : String) (max_age : ℕ)
      → not (is_nil eps) ≡ b
      → Keeps (IsSettled name b) (add_affinity_endpoint ext name eps fam svc_id max_age)
  unfolding add_affinity_endpoint add_affinity_loop
  add_affinity_endpoint-IsSettled b [] svc_id max_age e = Keeps-pure (ok tt)
  add_affinity_endpoint-IsSettled b (ep ∷ eps) svc_id max_age e =
      subst
        (λ c.
          Keeps (IsSettled name c) (add_affinity_endpoint ext name (ep ∷ eps) fam svc_id max_age))
        e (add_affinity_loop-IsSettled svc_id max_age (ep ∷ eps) [])

  pub delete_affinity_endpoint-IsSettled :
      (b : Bool) (eps : List EndpointInfo)
      → not (is_nil eps) ≡ b
      → Keeps (IsSettled name b) (delete_affinity_endpoint ext name eps fam)
  unfolding delete_affinity_endpoint delete_affinity_loop
  delete_affinity_endpoint-IsSettled b [] e = Keeps-pure (ok tt)
  delete_affinity_endpoint-IsSettled b (ep ∷ eps) e =
      subst (λ c. Keeps (IsSettled name c) (delete_affinity_endpoint ext name (ep ∷ eps) fam)) e
        (delete_affinity_loop-IsSettled (ep ∷ eps) [])
