-- ===== src/EndpointsGen/Sizes.antt =====
-- How many services, subsets and addresses the generator makes.
use nfproxy.Prelude.{
  ℕ, suc, ◌*◌, ◌%◌, ◌^◌, ◌<◌, false, String, ◌≡◌, refl, sym, ap, ◌∙◌, subst, Bool, some, List, [],
  ◌∷◌, map, length, length-map, All, arith,
}
use nfproxy.External.{External}
use nfproxy.Kube.{EndpointAddress, EndpointPort, EndpointSubset, Endpoints}
use nfproxy.EndpointsGen.Addresses.{is_negative, addr_length}
use nfproxy.EndpointsGen.Objects.{total_ips, subset_of, generate_subsets, generate_endpoints}
use nfproxy.EndpointsGen.Groups.{groups, groups-length, groups-All, length-groups}
use nfproxy.EndpointsGen.Laws.{all_named, generate_endpoints-all_named, subsets_loop-Cut}

-- A subset of `n` addresses and as many ports.
pub record HasPairs (n : ℕ) (subset : EndpointSubset) : Type 0 where
  pub addresses : length subset.addresses ≡ n
  pub ports : length subset.ports ≡ n

-- Endpoints of `m` subsets of `n` pairs.
pub record HasSubsets (m n : ℕ) (ep : Endpoints) : Type 0 where
  pub number : length ep.subsets ≡ m
  pub pairs : All (HasPairs n) ep.subsets

subset_of-HasPairs :
    (n : ℕ) (gs : List (List (EndpointAddress × EndpointPort)))
    → All (λ (g : List (EndpointAddress × EndpointPort)). length g ≡ n) gs
    → All (HasPairs n) (map subset_of gs)
subset_of-HasPairs n [] h = tt
subset_of-HasPairs n (g ∷ gs) h = (
  record { addresses = length-map _ g ∙ h.0; ports = length-map _ g ∙ h.0 },
  subset_of-HasPairs n gs h.1,
)

all_named-HasSubsets :
    (uuids : ℕ → String) (namespace : String) (m n i : ℕ) (gs : List (List EndpointSubset))
    → All (λ (g : List EndpointSubset). length g ≡ m) gs
    → All (All (HasPairs n)) gs
    → All (HasSubsets m n) (all_named uuids namespace i gs)
all_named-HasSubsets uuids namespace m n i [] h k = tt
all_named-HasSubsets uuids namespace m n i (g ∷ gs) h k = (
  record { number = h.0; pairs = k.0 },
  all_named-HasSubsets uuids namespace m n (suc i) gs h.1 k.1,
)

length-all_named :
    (uuids : ℕ → String) (namespace : String) (i : ℕ) (gs : List (List EndpointSubset))
    → length (all_named uuids namespace i gs) ≡ length gs
length-all_named uuids namespace i [] = refl
length-all_named uuids namespace i (g ∷ gs) = ap suc (length-all_named uuids namespace (suc i) gs)

-- A product that is an int of the source.
total_ips-small : (t : ℕ) → t < 2 ^ 63 → (t % 2 ^ 64 ≡ t) × (is_negative t ≡ false)
total_ips-small t h = (omega arith, ground arith)

-- From an address of the full length, for numbers of services, subsets and addresses of which the
-- last two are not 0 and the product is less than 2 ^ 63, generateSusbsets does not index out of range, and generateEndpoints makes
-- as many objects as there are services, each with the given number of subsets, each subset
-- with the given number of addresses and ports.
pub generate_endpoints-length :
    (ext : External) (uuids : ℕ → String) (namespace : String) (is_ipv6 : Bool) (addr : List ℕ)
    (svcs subsets ips : ℕ)
    → length addr ≡ addr_length is_ipv6
    → 0 < subsets
    → 0 < ips
    → svcs * subsets * ips < 2 ^ 63
    → (made : List EndpointSubset) × (generate_subsets ext addr is_ipv6
          (total_ips svcs subsets ips)
          ips
        ≡ some made)
      × (length (generate_endpoints uuids made namespace subsets) ≡ svcs)
      × All (HasSubsets subsets ips) (generate_endpoints uuids made namespace subsets)
unfolding generate_subsets
generate_endpoints-length ext uuids namespace is_ipv6 addr svcs subsets ips full h k small =
    let (same, positive) = total_ips-small (svcs * subsets * ips) small in
    let cut = subsets_loop-Cut ext is_ipv6 ips (svcs * subsets * ips) addr 16384 full in
    let gs = groups ips [] cut.pairs in
    let made = map subset_of gs in
    let (many, _) = length-groups (svcs * subsets) ips cut.pairs k cut.number in
    let (all, _) = length-groups svcs subsets made h (length-map subset_of gs ∙ many) in
    let named = generate_endpoints-all_named uuids namespace subsets made in
    (
      made,
      rw (same, positive) (cut.runs [] []),
      ap length named ∙ length-all_named uuids namespace 0 (groups subsets [] made) ∙ all,
      subst (All (HasSubsets subsets ips)) (sym named) (
          all_named-HasSubsets uuids namespace subsets ips 0 (groups subsets [] made)
            (groups-length subsets [] made)
            (groups-All (HasPairs ips) subsets [] made tt
              (subset_of-HasPairs ips gs (groups-length ips [] cut.pairs)))),
    )
