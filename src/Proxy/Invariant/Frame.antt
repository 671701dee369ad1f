-- ===== src/Proxy/Invariant/Frame.antt =====
-- How the accesses of the state keep the invariant of the maps.
use nfproxy.Prelude.{
  ◌≡◌, ◌≢◌, refl, sym, ◌∙◌, subst, Bool, true, false, not, Option, none, some, List, [], ◌∷◌,
  is_nil, ◌==◌, lookup, lookup-insert, lookup-erase, or_else, if◌then◌else◌, beq_refl,
}
use nfproxy.Go.{⊤}
use nfproxy.Go.Act.{Act}
use nfproxy.Go.Hoare.{Post, Hoare, Keeps}
use nfproxy.Nftables.Base.{NftInterface}
use nfproxy.Proxy.Types.{ServicePortName, port_name_Eq, port_name_eq_iff}
use nfproxy.Proxy.Cache.{Cache}
use nfproxy.Proxy.Service.{ServiceInfo}
use nfproxy.Proxy.Endpoint.{EndpointInfo}
use nfproxy.Proxy.State.{
  Proxy, kernel_call, kernel_act, cache_act, set_cache, service_of, endpoints_of, set_service,
  drop_service, set_endpoints, drop_endpoints,
}
use nfproxy.Proxy.Invariant.{Marks, IsConsistent, IsReady, IsSettled}

-- The mark of a service port, when the entry of another may have been written over or deleted.
Marks-if :
    (c : Bool) (new old : Option ServiceInfo) (eps : List EndpointInfo)
    → (c ≡ true → Marks new eps)
    → (c ≡ false → Marks old eps)
    → Marks (if c then new else old) eps
Marks-if true new old eps h k = h refl
Marks-if false new old eps h k = k refl

-- The same for its endpoints.
Marks-endpoints_if :
    (c : Bool) (new old : Option (List EndpointInfo)) (svc : Option ServiceInfo)
    → (c ≡ true → Marks svc (or_else new []))
    → (c ≡ false → Marks svc (or_else old []))
    → Marks svc (or_else (if c then new else old) [])
Marks-endpoints_if true new old svc h k = h refl
Marks-endpoints_if false new old svc h k = k refl

eq_of_same : (a b : ServicePortName) → (a == b) ≡ true → a ≡ b
eq_of_same a b h = (port_name_eq_iff a b).0 h

ne_of_other : (a b : ServicePortName) → (a == b) ≡ false → b ≢ a
ne_of_other a b h e = cc (h, (port_name_eq_iff a b).1 (sym e))

-- No endpoints: the list is empty.
nil_endpoints : (o : Option (List EndpointInfo)) → is_nil (or_else o []) ≡ true → or_else o [] ≡ []
nil_endpoints none h = refl
nil_endpoints (some []) h = refl
nil_endpoints (some (x ∷ xs)) h = cc

module _ {K : Type 0} where
  pub kernel_call-IsConsistent :
      {A : Type 0} (m : NftInterface → K → A × K) → Keeps IsConsistent (kernel_call m)
  unfolding kernel_call
  kernel_call-IsConsistent m = record { at = λ p h. record { at_name = h.at_name } }

  pub kernel_call-IsReady :
      {A : Type 0} (hole : ServicePortName) (b : Bool) (m : NftInterface → K → A × K)
      → Keeps (IsReady hole b) (kernel_call m)
  unfolding kernel_call
  kernel_call-IsReady hole b m = record {
    at = λ p h. record { at_other = h.at_other; count = h.count };
  }

  pub kernel_call-IsSettled :
      {A : Type 0} (hole : ServicePortName) (b : Bool) (m : NftInterface → K → A × K)
      → Keeps (IsSettled hole b) (kernel_call m)
  unfolding kernel_call
  kernel_call-IsSettled hole b m = record {
    at = λ p h. record { consistent = record { at_name = h.consistent.at_name }; count = h.count };
  }

  kernel-Post :
      {A : Type 0} (o : Option (A × K)) (p : Proxy K) (P : Proxy K → Type 0)
      → ((k : K) → P (record p { kernel = k }))
      → Post
          (λ (a : A). P)
          (elim o [ none ↦ none | some (a, k) ↦ some (a, record p { kernel = k }) ])
  kernel-Post none p P h = tt
  kernel-Post (some (a, k)) p P h = h k

  pub kernel_act-IsConsistent :
      {A : Type 0} (m : NftInterface → Act K A) → Keeps IsConsistent (kernel_act m)
  unfolding kernel_act
  kernel_act-IsConsistent m = record {
    at =
        λ p h. kernel-Post (m p.nfti p.kernel) p IsConsistent (λ k. record { at_name = h.at_name });
  }

  pub kernel_act-IsSettled :
      {A : Type 0} (hole : ServicePortName) (b : Bool) (m : NftInterface → Act K A)
      → Keeps (IsSettled hole b) (kernel_act m)
  unfolding kernel_act
  kernel_act-IsSettled hole b m = record {
    at = λ p h.
        kernel-Post (m p.nfti p.kernel) p (IsSettled hole b)
          (λ k. record { consistent = record { at_name = h.consistent.at_name }; count = h.count });
  }

  cache-Post :
      (o : Option (⊤ × Cache)) (p : Proxy K)
      → IsConsistent p
      → Post
          (λ (a : ⊤). IsConsistent)
          (elim o [ none ↦ none | some (_, c) ↦ some (tt, record p { cache = c }) ])
  cache-Post none p h = tt
  cache-Post (some (a, c)) p h = record { at_name = h.at_name }

  pub cache_act-IsConsistent : (m : Act Cache ⊤) → Keeps (IsConsistent {K = K}) (cache_act m)
  unfolding cache_act
  cache_act-IsConsistent m = record { at = λ p h. cache-Post (m p.cache) p h }

  pub set_cache-IsConsistent : (f : Cache → Cache) → Keeps (IsConsistent {K = K}) (set_cache f)
  unfolding set_cache
  set_cache-IsConsistent f = record { at = λ p h. record { at_name = h.at_name } }

  -- With the right mark, writing the service port's entry makes all agree.
  pub set_service-Hoare :
      (hole : ServicePortName) (b : Bool) (svc : ServiceInfo)
      → svc.base.svcnft.with_endpoints ≡ b
      → Hoare (IsReady {K = K} hole b) (set_service hole svc) (λ _. IsSettled hole b)
  unfolding set_service
  set_service-Hoare hole b svc e = record {
    at = λ p h. record {
      consistent = record {
        at_name = λ name. rw lookup-insert (
            Marks-if (hole == name) (some svc) (service_of name p) (endpoints_of name p)
              (λ same.
                subst (λ n. Marks (some svc) (endpoints_of n p)) (eq_of_same hole name same)
                  (e ∙ sym h.count))
              (λ other. h.at_other name (ne_of_other hole name other)));
      };
      count = h.count;
    };
  }

  pub IsReady-IsSettled :
      (hole : ServicePortName) (b : Bool) (p : Proxy K) → IsSettled hole b p → IsReady hole b p
  IsReady-IsSettled hole b p h = record {
    at_other = λ name _. h.consistent.at_name name;
    count = h.count;
  }

  pub set_service-IsSettled :
      (hole : ServicePortName) (b : Bool) (svc : ServiceInfo)
      → svc.base.svcnft.with_endpoints ≡ b
      → Keeps (IsSettled {K = K} hole b) (set_service hole svc)
  set_service-IsSettled hole b svc e = record {
    at = λ p h. (set_service-Hoare hole b svc e).at p (IsReady-IsSettled hole b p h);
  }

  -- Writing the endpoints of one service port leaves the others as they were.
  pub set_endpoints-Hoare :
      (hole : ServicePortName) (eps : List EndpointInfo)
      → Hoare (IsConsistent {K = K}) (set_endpoints hole eps) (λ _. IsReady hole (not (is_nil eps)))
  unfolding set_endpoints
  set_endpoints-Hoare hole eps = record {
    at = λ p h. record {
      at_other = λ name ne. rw lookup-insert (
          Marks-endpoints_if (hole == name) (some eps) (lookup name p.endpoints_map)
            (service_of name p) (λ same. absurd (ne (sym (eq_of_same hole name same))))
            (λ other. h.at_name name));
      count = rw (lookup-insert, beq_refl hole);
    };
  }

  pub drop_service-IsConsistent :
      (hole : ServicePortName) → Keeps (IsConsistent {K = K}) (drop_service hole)
  unfolding drop_service
  drop_service-IsConsistent hole = record {
    at = λ p h. record {
      at_name = λ name. rw lookup-erase (
          Marks-if (hole == name) none (service_of name p) (endpoints_of name p) (λ same. tt)
            (λ other. h.at_name name));
    };
  }

  -- Deleting the key of a service port without endpoints.
  pub drop_endpoints-IsConsistent :
      (hole : ServicePortName) (p : Proxy K)
      → is_nil (endpoints_of hole p) ≡ true
      → IsConsistent p
      → Post (λ (_ : ⊤). IsConsistent) (drop_endpoints hole p)
  unfolding drop_endpoints
  drop_endpoints-IsConsistent hole p empty h = record {
    at_name = λ name. rw lookup-erase (
        Marks-endpoints_if (hole == name) none (lookup name p.endpoints_map) (service_of name p)
          (λ same.
            let path = eq_of_same hole name same in
            subst (λ n. Marks (service_of n p) []) path
              (subst (Marks (service_of hole p)) (nil_endpoints (lookup hole p.endpoints_map) empty)
                (h.at_name hole)))
          (λ other. h.at_name name));
  }

Marks-same :
    (o : Option ServiceInfo) (a b : List EndpointInfo)
    → not (is_nil a) ≡ not (is_nil b)
    → Marks o a
    → Marks o b
Marks-same none a b e m = tt
Marks-same (some svc) a b e m = m ∙ e

module _ {K : Type 0} where
  -- Other endpoints of a service port, as long as it has some or none as before.
  pub set_endpoints-IsSettled :
      (hole : ServicePortName) (b : Bool) (eps : List EndpointInfo)
      → not (is_nil eps) ≡ b
      → Keeps (IsSettled {K = K} hole b) (set_endpoints hole eps)
  unfolding set_endpoints
  set_endpoints-IsSettled hole b eps e = record {
    at = λ p h. record {
      consistent = record {
        at_name = λ name. rw lookup-insert (
            Marks-endpoints_if (hole == name) (some eps) (lookup name p.endpoints_map)
              (service_of name p)
              (λ same.
                let path = eq_of_same hole name same in
                Marks-same (service_of name p) (endpoints_of name p) eps
                  (subst (λ n. not (is_nil (endpoints_of n p)) ≡ b) path h.count ∙ sym e)
                  (h.consistent.at_name name))
              (λ other. h.consistent.at_name name));
      };
      count = rw (lookup-insert, beq_refl hole) e;
    };
  }
