-- ===== src/Proxy/Endpoints/Deletion.antt =====
-- What deleteEndpoint does to the endpoints of its service port, if it is there once.
use nfproxy.Prelude.{
  ℕ, zero, suc, ◌+◌, ◌<◌, ◌≤◌, String, ◌≡◌, refl, subst, true, false, some, List, [], ◌∷◌, length,
  get_elem?, is_nil, lookup-erase, ◌==◌, beq_refl, arith, Bool-cases, nat_Eq, nat_eq_iff, inl, inr,
}
use nfproxy.Go.{⊤, Result, ok, err}
use nfproxy.Go.Act.{Act, checked, on_ok, when, ◌>>=◌}
use nfproxy.Go.Hoare.{
  Post, Hoare, Hoare-bind, Hoare-weaken, Hoare-gets, Hoare-if, Hoare-if_some, Keeps, Keeps-pure,
  Keeps-panic, Keeps-deref, Keeps-bind, Keeps-checked,
}
use nfproxy.External.{External, TableFamily}
use nfproxy.Kube.{EndpointAddress, EndpointPort}
use nfproxy.Proxy.Types.{ServicePortName, port_name_Eq}
use nfproxy.Proxy.Endpoint.{EndpointInfo, endpoint_equal}
use nfproxy.Proxy.State.{Proxy, drop_endpoints, endpoints_of}
use nfproxy.Proxy.Endpoints.{
  delete_endpoint_rules, delete_at, delete_loop, delete_endpoint, remove_at, shifted,
}
use nfproxy.Proxy.Endpoints.Shifted.{get_elem-shifted}
use nfproxy.Proxy.Endpoints.Effects.{
  HasOwn, kernel_call-HasOwn, set_endpoints-HasOwn, update_service_chain-HasOwn, endpoint_for,
}

-- The endpoints, where there is no error.
abbrev HasLeft :
    {K : Type 0} → String → ServicePortName → List EndpointInfo → Result ⊤ → Proxy K → Type 0
HasLeft host name left (ok _) p = HasOwn host name left p
HasLeft host name left (err e) p = Unit

module _ (ext : External) (host : String) (name : ServicePortName) where
  open ext use {Kernel}

  abbrev Own : List EndpointInfo → Proxy Kernel → Type 0
  Own = HasOwn host name

  abbrev Left : List EndpointInfo → Result ⊤ → Proxy Kernel → Type 0
  Left = HasLeft host name

  drop_if_empty :
      (eps : List EndpointInfo) → Keeps (Own eps) (when (is_nil eps) (drop_endpoints name))
  unfolding ◌>>=◌ drop_endpoints
  drop_if_empty [] = record {
    at = λ p h. record { at_host = h.at_host; own = rw (lookup-erase, beq_refl name) refl };
  }
  drop_if_empty (x ∷ eps) = Keeps-pure tt

  -- The rest after a part that may fail.
  on_ok-Left :
      (left : List EndpointInfo) (n : Act (Proxy Kernel) (Result ⊤))
      → Hoare (Own left) n (Left left)
      → (r : Result ⊤) → Hoare (Left left r) (on_ok (λ _. n) r) (Left left)
  unfolding ◌>>=◌
  on_ok-Left left n hn (ok _) = hn
  on_ok-Left left n hn (err e) = record { at = λ p h. tt }

  checked-Left :
      {P : Proxy Kernel → Type 0} (left : List EndpointInfo) (m n : Act (Proxy Kernel) (Result ⊤))
      → Hoare P m (Left left)
      → Hoare (Own left) n (Left left)
      → Hoare P (checked m n) (Left left)
  checked-Left left m n hm hn =
      Hoare-bind m _ (Left left) (Left left) hm (λ r. on_ok-Left left n hn r)

  Own-Left :
      (left : List EndpointInfo) (r : Result ⊤) (p : Proxy Kernel) → Own left p → Left left r p
  Own-Left left (ok _) p h = h
  Own-Left left (err e) p h = tt

  kept-Left :
      (left : List EndpointInfo) (m : Act (Proxy Kernel) (Result ⊤))
      → Keeps (Own left) m
      → Hoare (Own left) m (Left left)
  kept-Left left m h = Hoare-weaken m _ _ (Own-Left left) h

  delete_endpoint_rules-Own :
      (fam : TableFamily) (cn : String) (ids : List ℕ) (left : List EndpointInfo)
      → Keeps (Own left) (delete_endpoint_rules ext fam cn ids name)
  unfolding delete_endpoint_rules
  delete_endpoint_rules-Own fam cn ids left = Keeps-checked _ _ (kernel_call-HasOwn _) (
      Hoare-gets _ left _ _ (λ p h. h.own)
        (Keeps-bind _ _ (drop_if_empty left) (λ _. Keeps-pure (ok tt))))

  delete_at-Left :
      (fam : TableFamily) (ep : EndpointInfo) (eps left : List EndpointInfo)
      → Hoare (Own eps) (delete_at ext name fam ep left) (Left left)
  unfolding delete_at
  delete_at-Left fam ep eps left =
      Hoare-bind _ _ (λ _. Own left) _ (set_endpoints-HasOwn left)
        λ _.
          Hoare-bind _ _ (λ _. Own left) _ (Keeps-deref _)
            λ rule.
              checked-Left left _ _ (kept-Left left _ (update_service_chain-HasOwn ext name fam))
                (kept-Left left _ (delete_endpoint_rules-Own fam rule.chain rule.rule_id left))

  module _ (fam : TableFamily) (target : EndpointInfo) where
    -- Nothing equal to the target from this index on.
    no_more :
        (rounds k : ℕ) (xs left : List EndpointInfo)
        → ((j : ℕ) (x : EndpointInfo)
            → k ≤ j
            → get_elem? xs j ≡ some x
            → endpoint_equal x target ≡ true
            → ⊥)
        → Keeps (Own left) (delete_loop ext name fam target rounds k xs)
    unfolding delete_loop
    no_more zero k xs left h = Keeps-pure (ok tt)
    no_more (suc rounds) k xs left h =
        Hoare-if_some _ _ (get_elem? xs k) _ (λ _. Keeps-panic)
          (λ x at.
            Hoare-if (endpoint_equal x target) _ _ _ (λ same. absurd (h k x (omega arith) at same))
              (λ _. no_more rounds (suc k) xs left (λ j y later. h j y (omega arith))))

    clash :
        (xs : List EndpointInfo) (k i : ℕ) (x ep : EndpointInfo)
        → k ≡ i
        → get_elem? xs k ≡ some x
        → get_elem? xs i ≡ some ep
        → endpoint_equal x target ≡ false
        → endpoint_equal ep target ≡ true
        → ⊥
    clash xs k i x ep e here at other same = cc (e, here, at, other, same)

    -- An index whose endpoint is not equal to the target comes before the one whose endpoint is.
    passed :
        (xs : List EndpointInfo) (k i : ℕ) (x ep : EndpointInfo)
        → k ≤ i
        → get_elem? xs k ≡ some x
        → get_elem? xs i ≡ some ep
        → endpoint_equal x target ≡ false
        → endpoint_equal ep target ≡ true
        → suc k ≤ i
    passed xs k i x ep low here at other same = elim (Bool-cases (k == i)) [
      | inl e ↦ absurd (clash xs k i x ep ((nat_eq_iff k i).0 e) here at other same)
      | inr e ↦ ground (arith, nat_eq_iff k i)
    ]

    once :
        (rounds k i : ℕ) (xs : List EndpointInfo) (ep : EndpointInfo)
        → k ≤ i
        → i < k + rounds
        → get_elem? xs i ≡ some ep
        → endpoint_equal ep target ≡ true
        → ((j : ℕ) (x : EndpointInfo)
            → get_elem? xs j ≡ some x
            → endpoint_equal x target ≡ true
            → j ≡ i)
        → Hoare (Own xs) (delete_loop ext name fam target rounds k xs) (Left (remove_at i xs))
    unfolding delete_loop ◌>>=◌
    once zero k i xs ep low high at same only = absurd (omega (arith, low, high))
    once (suc rounds) k i xs ep low high at same only =
        Hoare-if_some _ _ (get_elem? xs k) _ (λ _. record { at = λ p h. tt })
          (λ x here.
            Hoare-if (endpoint_equal x target) _ _ _
              (λ equal.
                let k_is_i = only k x here equal in
                subst
                  (λ (m : ℕ).
                    Hoare (Own xs)
                      (checked (delete_at ext name fam x (remove_at k xs))
                        (delete_loop ext name fam target rounds (suc k) (shifted k xs)))
                      (Left (remove_at m xs)))
                  k_is_i
                  (checked-Left (remove_at k xs) _ _ (delete_at-Left fam x xs (remove_at k xs)) (
                    kept-Left (remove_at k xs) _ (
                      no_more rounds (suc k) (shifted k xs) (remove_at k xs)
                        (λ j y later there equal_too.
                          let (m, after, was) = get_elem-shifted k j xs y (omega arith) there in
                          absurd (omega (arith, after, only m y was equal_too, k_is_i)))))))
              (λ other.
                once rounds (suc k) i xs ep (passed xs k i x ep low here at other same)
                  (omega arith) at same only))

get_elem-length :
    {A : Type 0} (xs : List A) (i : ℕ) (x : A) → get_elem? xs i ≡ some x → i < length xs
get_elem-length [] i x h = cc h
get_elem-length (y ∷ xs) zero x h = omega arith
get_elem-length (y ∷ xs) (suc i) x h = omega (arith, get_elem-length xs i x h)

delete_endpoint-Left :
    (ext : External) (addr : EndpointAddress) (port : EndpointPort) (host : String)
    (name : ServicePortName) (i : ℕ) (eps : List EndpointInfo) (ep : EndpointInfo)
    → get_elem? eps i ≡ some ep
    → endpoint_equal ep (endpoint_for ext addr port host) ≡ true
    → ((j : ℕ) (x : EndpointInfo)
        → get_elem? eps j ≡ some x
        → endpoint_equal x (endpoint_for ext addr port host) ≡ true
        → j ≡ i)
    → Hoare
        (HasOwn {K = ext.Kernel} host name eps)
        (delete_endpoint ext name addr port eps)
        (HasLeft host name (remove_at i eps))
unfolding delete_endpoint
delete_endpoint-Left ext addr port host name i eps ep at same only =
    Hoare-gets _ host _ _ (λ p h. h.at_host)
      (once ext host name _ (endpoint_for ext addr port host) (length eps) 0 i eps ep (omega arith)
        (omega (arith, get_elem-length eps i ep at)) at same only)

-- If exactly one of the endpoints of a service port is the one to delete, and deleteEndpoint ends
-- without an error, the endpoints that are left are the others, in their order.
pub delete_endpoint-removes :
    (ext : External) (name : ServicePortName) (addr : EndpointAddress) (port : EndpointPort)
    (p q : Proxy ext.Kernel) (i : ℕ) (ep : EndpointInfo)
    → get_elem? (endpoints_of name p) i ≡ some ep
    → endpoint_equal ep (endpoint_for ext addr port p.hostname) ≡ true
    → ((j : ℕ) (x : EndpointInfo)
        → get_elem? (endpoints_of name p) j ≡ some x
        → endpoint_equal x (endpoint_for ext addr port p.hostname) ≡ true
        → j ≡ i)
    → delete_endpoint ext name addr port (endpoints_of name p) p ≡ some (ok tt, q)
    → endpoints_of name q ≡ remove_at i (endpoints_of name p)
delete_endpoint-removes ext name addr port p q i ep at same only h =
    (subst (Post (HasLeft p.hostname name (remove_at i (endpoints_of name p)))) h (
      (delete_endpoint-Left ext addr port p.hostname name i (endpoints_of name p) ep at same
          only).at
        p (record { at_host = refl; own = refl }))).own
