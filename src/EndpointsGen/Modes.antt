-- ===== src/EndpointsGen/Modes.antt =====
-- GenerateTestObjects in a mode for which it has no starting address.
use nfproxy.Prelude.{
  ℕ, zero, suc, String, text_Eq, nat_Eq, ◌==◌, ltb, ◌≡◌, refl, true, false, none, some, [],
  Bool-cases, inl, inr, if◌then◌else◌, arith,
}
use nfproxy.Go.{ok}
use nfproxy.Go.Exec
use nfproxy.Go.Act.{◌>>=◌}
use nfproxy.External.{External}
use nfproxy.EndpointsGen.Addresses.{is_more, is_negative, next_address}
use nfproxy.EndpointsGen.Objects.{
  total_ips, subsets_loop, generate_subsets, generate_endpoints, endpoints_loop,
}
use nfproxy.EndpointsGen.Cluster.{
  Clientset, starting_address, generate_test_objects, create_service, create_end_point,
}

module _ (ext : External) where
  positive : (n : ℕ) → ltb 0 (suc n) ≡ true
  positive n = ground arith

  no_address :
      (n per_subset : ℕ)
      → generate_subsets ext [] false n per_subset ≡ (if is_more n 0 then none else some [])
  unfolding generate_subsets subsets_loop next_address
  no_address zero per_subset = refl
  no_address (suc n) per_subset = elim (Bool-cases (is_negative (suc n))) [
    | inl below ↦ rw below refl
    | inr above ↦ rw (above, positive n) refl
  ]

  -- In a mode other than "ipv4" and "ipv6", which are compared as they are written, the generator
  -- panics if the number of addresses, a product of ints that may wrap, is positive, and returns
  -- without an error and with nothing created otherwise.
  pub generate_test_objects-Panics :
      (k8s : Clientset) (uuids : ℕ → String) (namespace mode : String) (svcs subsets ips : ℕ)
      (start_ipv4 start_ipv6 : String) (s : k8s.State)
      → (mode == "ipv4") ≡ false
      → (mode == "ipv6") ≡ false
      → generate_test_objects k8s ext uuids namespace mode svcs subsets ips start_ipv4 start_ipv6 s
        ≡ (if is_more (total_ips svcs subsets ips) 0 then none else some (ok tt, s))
  unfolding generate_test_objects starting_address generate_endpoints endpoints_loop create_service
      create_end_point Exec.for_each ◌>>=◌
  generate_test_objects-Panics k8s uuids namespace mode svcs subsets ips start_ipv4 start_ipv6 s
        four six =
      elim (Bool-cases (is_more (total_ips svcs subsets ips) 0)) [
        | inl some_of ↦ rw (four, six, no_address (total_ips svcs subsets ips) ips, some_of) refl
        | inr none_of ↦ rw (four, six, no_address (total_ips svcs subsets ips) ips, none_of) refl
      ]
