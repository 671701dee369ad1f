-- ===== src/Proxy/Endpoints/Laws.antt =====
-- pkg/proxy/proxy_endpoints.go: what processEpSubsets makes of an Endpoints object, and what an
-- update with the same subsets does.
use nfproxy.Prelude.{
  ℕ, ◌≡◌, refl, ◌∙◌, Bool, true, false, ◌||◌, ◌==◌, text_Eq, nat_Eq, beq_refl, some, List, [], ◌∷◌,
  All, All-append, All-get_elem, get_elem?, any, any_at, arith, Bool-cases, inl, inr,
}
use nfproxy.Go.{Result, ok, err}
use nfproxy.Kube.{EndpointAddress, EndpointPort, EndpointSubset, Endpoints, ObjectMeta}
use nfproxy.Proxy.Types.{EpInfo}
use nfproxy.Proxy.Tools.{get_svc_port_name, is_port_in_subset}
use nfproxy.Proxy.Tools.Searches.{same_port, has_port_at, is_port_in_subset-any}
use nfproxy.Proxy.Endpoints.Subsets.{
  also, ep_info, process_addresses, process_ports, process_subsets, process_ep_subsets,
}

-- All entries of a list that was made without an error have the property.
abbrev pub AllOk : (EpInfo → Type 0) → Result (List EpInfo) → Type 0
AllOk P (ok xs) = All P xs
AllOk P (err e) = Unit

pub AllOk-also :
    (P : EpInfo → Type 0) (r q : Result (List EpInfo)) → AllOk P r → AllOk P q → AllOk P (also r q)
AllOk-also P (ok xs) (ok ys) hx hy = All-append P xs ys hx hy
AllOk-also P (ok xs) (err e) hx hy = tt
AllOk-also P (err e) q hx hy = tt

-- What is known of an entry of an object with these subsets.
pub record IsEntryOf (meta : ObjectMeta) (found : EndpointPort → EndpointAddress → Bool)
    (e : EpInfo) : Type 0 where
  pub named : e.name ≡ get_svc_port_name meta.name meta.namespace e.port.name e.port.protocol
  pub has_port : (e.port.port == 0) ≡ false
  pub has_ip : (e.addr.ip == "") ≡ false
  pub in_subsets : found e.port e.addr ≡ true

-- All ports of a subset are found with all its addresses.
abbrev AreFound :
    (EndpointPort → EndpointAddress → Bool) → EndpointSubset → List EndpointPort → Type 0
AreFound found ss ports =
    All
      (λ p.
        All (λ a. found p a ≡ true) ss.addresses
        × All (λ a. found p a ≡ true) ss.not_ready_addresses)
      ports

same_port_refl : (p : EndpointPort) → same_port p p ≡ true
same_port_refl p = rw (beq_refl p.name, beq_refl p.port, beq_refl p.protocol) refl

left_hit : (a b : Bool) → a ≡ true → (a || b) ≡ true
left_hit a b h = ground arith

right_hit : (a b : Bool) → b ≡ true → (a || b) ≡ true
right_hit a b h = ground arith

module _ (meta : ObjectMeta) (found : EndpointPort → EndpointAddress → Bool) where
  process_addresses-IsEntryOf :
      (p : EndpointPort) (addrs : List EndpointAddress)
      → (p.port == 0) ≡ false
      → All (λ a. found p a ≡ true) addrs
      → AllOk
          (IsEntryOf meta found)
          (process_addresses (get_svc_port_name meta.name meta.namespace p.name p.protocol) p addrs)
  unfolding process_addresses
  process_addresses-IsEntryOf p [] h all = tt
  process_addresses-IsEntryOf p (a ∷ rest) h all = elim (Bool-cases (a.ip == "")) [
    | inl empty ↦ rw empty tt
    | inr full ↦ rw full (
        AllOk-also _ (ok (ep_info _ p a ∷ [])) (process_addresses _ p rest)
          (record { named = refl; has_port = h; has_ip = full; in_subsets = all.0 }, tt)
          (process_addresses-IsEntryOf p rest h all.1))
  ]

  process_ports-IsEntryOf :
      (ss : EndpointSubset) (ports : List EndpointPort)
      → AreFound found ss ports
      → AllOk (IsEntryOf meta found) (process_ports meta ss ports)
  unfolding process_ports
  process_ports-IsEntryOf ss [] all = tt
  process_ports-IsEntryOf ss (p ∷ ports) all = elim (Bool-cases (p.port == 0)) [
    | inl zero_port ↦ rw zero_port tt
    | inr real ↦ rw real (
        AllOk-also _ (process_addresses _ p ss.addresses)
          (also (process_addresses _ p ss.not_ready_addresses) (process_ports meta ss ports))
          (process_addresses-IsEntryOf p ss.addresses real all.0.0)
          (AllOk-also _ (process_addresses _ p ss.not_ready_addresses) (process_ports meta ss ports)
            (process_addresses-IsEntryOf p ss.not_ready_addresses real all.0.1)
            (process_ports-IsEntryOf ss ports all.1)))
  ]

  process_subsets-IsEntryOf :
      (subsets : List EndpointSubset)
      → All (λ ss. AreFound found ss ss.ports) subsets
      → AllOk (IsEntryOf meta found) (process_subsets meta subsets)
  unfolding process_subsets
  process_subsets-IsEntryOf [] all = tt
  process_subsets-IsEntryOf (ss ∷ rest) all =
      AllOk-also _ (process_ports meta ss ss.ports) (process_subsets meta rest)
        (process_ports-IsEntryOf ss ss.ports all.0) (process_subsets-IsEntryOf rest all.1)

found_at :
    (subsets : List EndpointSubset) (i j : ℕ) (ss : EndpointSubset) (p : EndpointPort)
    (a : EndpointAddress)
    → get_elem? subsets i ≡ some ss
    → get_elem? ss.ports j ≡ some p
    → (any (λ b. b.ip == a.ip) ss.addresses || any (λ b. b.ip == a.ip) ss.not_ready_addresses)
      ≡ true
    → is_port_in_subset subsets p a ≡ true
found_at subsets i j ss p a at_i at_j h =
    is_port_in_subset-any subsets p a
    ∙ any_at (has_port_at p a) subsets i ss at_i
        (rw (any_at (same_port p) ss.ports j p at_j (same_port_refl p)) h)

subsets-AreFound :
    (subsets : List EndpointSubset)
    → All (λ ss. AreFound (is_port_in_subset subsets) ss ss.ports) subsets
subsets-AreFound subsets = All-get_elem _ subsets (λ i ss at_i. All-get_elem _ ss.ports (λ j p at_j.
    (
      All-get_elem _ ss.addresses (λ k a at_k.
          found_at subsets i j ss p a at_i at_j
            (left_hit _ _ (any_at (λ b. b.ip == a.ip) ss.addresses k a at_k (beq_refl a.ip)))),
      All-get_elem _ ss.not_ready_addresses (λ k a at_k. found_at subsets i j ss p a at_i at_j (
          right_hit _ _
            (any_at (λ b. b.ip == a.ip) ss.not_ready_addresses k a at_k (beq_refl a.ip)))),
    )))

-- If an Endpoints object is processed without an error, each entry is named after the object and
-- its port, has a port other than 0 and an address that is not empty, and is found in the object.
pub process_ep_subsets-IsEntryOf :
    (ep : Endpoints)
    → AllOk (IsEntryOf ep.meta (is_port_in_subset ep.subsets)) (process_ep_subsets ep)
unfolding process_ep_subsets
process_ep_subsets-IsEntryOf ep =
    process_subsets-IsEntryOf ep.meta (is_port_in_subset ep.subsets) ep.subsets
      (subsets-AreFound ep.subsets)
