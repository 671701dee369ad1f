-- ===== src/EndpointsGen/Laws.antt =====
-- The objects of the generator: how many there are, and which ports the services have.
use nfproxy.Prelude.{
  ℕ, zero, suc, ◌+◌, ◌-◌, ◌%◌, ◌^◌, String, ◌≡◌, refl, sym, ap, ◌∙◌, nat_Eq, ◌==◌, Bool, some, List,
  [], ◌∷◌, ◌++◌, map, length, arith, Bool-cases, inl, inr,
}
use nfproxy.External.{External}
use nfproxy.Kube.{EndpointAddress, EndpointPort, EndpointSubset, Endpoints}
use nfproxy.EndpointsGen.Addresses.{addr_length, next_address, gen_addr_string}
use nfproxy.EndpointsGen.Objects.{
  subset_of, address_pair, subsets_loop, endpoints_named, endpoints_loop, generate_endpoints,
}
use nfproxy.EndpointsGen.Totals.{next_address-length, gen_addr_string-some}
use nfproxy.EndpointsGen.Groups.{groups, append_assoc, append-nil, length-snoc}

module _ (uuids : ℕ → String) (namespace : String) where
  -- Endpoints with these subsets, under the names from the i-th on.
  abbrev pub all_named : ℕ → List (List EndpointSubset) → List Endpoints
  all_named i [] = []
  all_named i (g ∷ gs) = endpoints_named uuids namespace i g ∷ all_named (suc i) gs

  endpoints_loop-groups :
      (n : ℕ) (xs : List EndpointSubset) (eps : List Endpoints) (used : ℕ)
      (held : List EndpointSubset)
      → endpoints_loop uuids namespace n xs eps used held (length held)
        ≡ eps ++ all_named used (groups n held xs)
  unfolding endpoints_loop
  endpoints_loop-groups n [] eps used held = append-nil eps
  endpoints_loop-groups n (x ∷ xs) eps used held = elim (Bool-cases (length held + 1 == n)) [
    | inl full ↦ rw full (
        endpoints_loop-groups n xs
          (eps ++ endpoints_named uuids namespace used (held ++ x ∷ []) ∷ []) (suc used) []
        ∙ append_assoc eps _ _)
    | inr part ↦
        rw (part, sym (length-snoc held x)) (endpoints_loop-groups n xs eps used (held ++ x ∷ []))
  ]

  -- generateEndpoints cuts the subsets, in their order, into groups of the given size, one for each
  -- object.
  pub generate_endpoints-all_named :
      (n : ℕ) (xs : List EndpointSubset)
      → generate_endpoints uuids xs namespace n ≡ all_named 0 (groups n [] xs)
  unfolding generate_endpoints
  generate_endpoints-all_named n xs = endpoints_loop-groups n xs [] 0 []

-- What the loop of generateSusbsets makes of an address: the pairs, cut into groups.
module _ (ext : External) (is_ipv6 : Bool) (per_subset : ℕ) where
  abbrev pub Pairs : Type 0
  Pairs = List (EndpointAddress × EndpointPort)

  pub record Cut (n : ℕ) (addr : List ℕ) (port : ℕ) : Type 0 where
    pub pairs : Pairs
    pub number : length pairs ≡ n
    pub runs :
        (subsets : List EndpointSubset) (held : Pairs)
        → subsets_loop ext is_ipv6 per_subset n subsets addr port held (length held)
          ≡ some (subsets ++ map subset_of (groups per_subset held pairs))

  loop_step :
      (n : ℕ) (addr next : List ℕ) (port : ℕ) (str : String)
      → next_address (addr_length is_ipv6 - 1) addr ≡ some next
      → gen_addr_string ext next is_ipv6 ≡ some str
      → Cut n next ((port + 1) % 2 ^ 16)
      → Cut (suc n) addr port
  unfolding subsets_loop
  loop_step n addr next port str stepped written rest = record {
    pairs = address_pair ext str is_ipv6 port ∷ rest.pairs;
    number = ap suc rest.number;
    runs = λ subsets held.
        rw (subsets_loop, stepped, written)
          (elim (Bool-cases (length held + 1 == per_subset)) [
            | inl full ↦ rw full (
                rest.runs
                  (subsets ++ subset_of (held ++ address_pair ext str is_ipv6 port ∷ []) ∷ []) []
                ∙ ap some (append_assoc subsets _ _))
            | inr part ↦
                rw (part, sym (length-snoc held (address_pair ext str is_ipv6 port)))
                  (rest.runs subsets (held ++ address_pair ext str is_ipv6 port ∷ []))
          ]);
  }

  pub subsets_loop-Cut :
      (n : ℕ) (addr : List ℕ) (port : ℕ) → length addr ≡ addr_length is_ipv6 → Cut n addr port
  unfolding subsets_loop
  subsets_loop-Cut zero addr port h = record {
    pairs = [];
    number = refl;
    runs = λ subsets held. ap some (append-nil subsets);
  }
  subsets_loop-Cut (suc n) addr port h =
      let (next, stepped, same) =
        next_address-length (addr_length is_ipv6 - 1) addr (ground arith) in
      let (str, written) = gen_addr_string-some ext next is_ipv6 (same ∙ h) in
      loop_step n addr next port str stepped written (subsets_loop-Cut n next _ (same ∙ h))
