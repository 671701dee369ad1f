-- ===== src/Proxy/Tools/Searches.antt =====
-- pkg/proxy/tools.go: what the searches of texts, addresses and subsets answer.
use nfproxy.Prelude.{
  ℕ, suc, String, ◌≡◌, refl, sym, ap, ◌∙◌, Bool, true, false, ◌&&◌, ◌||◌, not, ◌==◌, ◌↔◌, inl, inr,
  List, [], ◌∷◌, length, any, Any, All, any-Any, Any-iff, arith, text_Eq, nat_Eq, eq_iff,
  nat_eq_iff, Bool-cases, if◌then◌else◌,
}
use nfproxy.Kube.{LoadBalancerIngress, EndpointAddress, EndpointPort, EndpointSubset}
use nfproxy.Proxy.Tools.{
  is_string_in_slice, same_elements, compare_slice_of_string, find_ingress, is_address_in_ingress,
  all_in_ingress, is_ingress_equal, is_port_in_ports, is_port_at_addresses, is_port_in_subset,
}

is_string_in_slice-any :
    (a : String) (b : List String) → is_string_in_slice a b ≡ any (λ s. a == s) b
unfolding is_string_in_slice
is_string_in_slice-any a [] = refl
is_string_in_slice-any a (s ∷ b) = rw (is_string_in_slice-any a b) refl

-- A text is found in a slice exactly if it is one of its elements.
pub is_string_in_slice-Any :
    (a : String) (b : List String) → (is_string_in_slice a b ≡ true) ↔ Any (λ s. a ≡ s) b
is_string_in_slice-Any a b =
    let is_any = any-Any (λ s. a == s) b in
    let matches = Any-iff (λ s. (a == s) ≡ true) (λ s. a ≡ s) b (λ s. eq_iff a s) in
    (
      (λ h. matches.0 (is_any.0 (sym (is_string_in_slice-any a b) ∙ h))),
      (λ h. is_string_in_slice-any a b ∙ is_any.1 (matches.1 h)),
    )

same_elements_iff : (a b : List String) → length a ≡ length b → (same_elements a b ≡ true) ↔ (a ≡ b)
unfolding same_elements
same_elements_iff [] [] e = ground arith
same_elements_iff [] (y ∷ b) e = ground arith
same_elements_iff (x ∷ a) [] e = ground arith
same_elements_iff (x ∷ a) (y ∷ b) e =
    let rest = same_elements_iff a b (ground arith) in ground (arith, eq_iff x y, rest)

-- Two slices of texts compare as equal exactly if they have the same elements in the same order.
pub compare_slice_of_string_iff :
    (a b : List String) → (compare_slice_of_string a b ≡ true) ↔ (a ≡ b)
unfolding compare_slice_of_string
compare_slice_of_string_iff a b = elim (Bool-cases (length a == length b)) [
  | inl same ↦ rw same (same_elements_iff a b ((nat_eq_iff (length a) (length b)).0 same))
  | inr other ↦
      rw other ((λ h. cc h), (λ h. cc (other, (nat_eq_iff (length a) (length b)).1 (ap length h))))
]

find_ingress-any :
    (ingress : List LoadBalancerIngress) (address : String) (i : ℕ)
    → (find_ingress i ingress address).1 ≡ any (λ x. x.ip == address) ingress
unfolding find_ingress
find_ingress-any [] address i = refl
find_ingress-any (x ∷ rest) address i = ground (arith, find_ingress-any rest address (suc i))

-- Every address of the one list is an address of the other.
abbrev pub Covers : List LoadBalancerIngress → List LoadBalancerIngress → Type 0
Covers a b = All (λ x. Any (λ y. y.ip ≡ x.ip) b) a

is_address_in_ingress-Any :
    (b : List LoadBalancerIngress) (address : String)
    → ((is_address_in_ingress b address).1 ≡ true) ↔ Any (λ y. y.ip ≡ address) b
unfolding is_address_in_ingress
is_address_in_ingress-Any b address =
    let is_any = any-Any (λ y. y.ip == address) b in
    let matches =
      Any-iff (λ y. (y.ip == address) ≡ true) (λ y. y.ip ≡ address) b (λ y. eq_iff y.ip address) in
    (
      (λ h. matches.0 (is_any.0 (sym (find_ingress-any b address 0) ∙ h))),
      (λ h. find_ingress-any b address 0 ∙ is_any.1 (matches.1 h)),
    )

all_in_ingress-Covers : (a b : List LoadBalancerIngress) → (all_in_ingress a b ≡ true) ↔ Covers a b
unfolding all_in_ingress
all_in_ingress-Covers [] b = ((λ h. tt), (λ h. refl))
all_in_ingress-Covers (x ∷ a) b = elim (Bool-cases (is_address_in_ingress b x.ip).1) [
  | inl found ↦ rw found (
    (λ h. ((is_address_in_ingress-Any b x.ip).0 found, (all_in_ingress-Covers a b).0 h)),
    (λ h. (all_in_ingress-Covers a b).1 h.1),
  )
  | inr missing ↦
      rw missing ((λ h. cc h), (λ h. cc (missing, (is_address_in_ingress-Any b x.ip).1 h.0)))
]

all_hold :
    (c l r : Bool)
    → ((if not c then false else if l then r else false) ≡ true)
      ↔ ((c ≡ true) × (l ≡ true) × (r ≡ true))
all_hold true true r = ((λ h. (refl, refl, h)), (λ h. h.2))
all_hold true false r = ((λ h. cc h), (λ h. cc h.1))
all_hold false l r = ((λ h. cc h), (λ h. cc h.0))

-- Two lists of ingress points count as equal exactly if they are of one length and each address of
-- either is an address of the other.
pub is_ingress_equal_iff :
    (a b : List LoadBalancerIngress)
    → (is_ingress_equal a b ≡ true) ↔ ((length a ≡ length b) × Covers a b × Covers b a)
unfolding is_ingress_equal
is_ingress_equal_iff a b =
    let lengths = nat_eq_iff (length a) (length b) in
    let left = all_in_ingress-Covers a b in
    let right = all_in_ingress-Covers b a in
    let tests = all_hold (length a == length b) (all_in_ingress a b) (all_in_ingress b a) in
    (
      (λ h. let t = tests.0 h in (lengths.0 t.0, left.0 t.1, right.0 t.2)),
      (λ h. tests.1 (lengths.1 h.0, left.1 h.1, right.1 h.2)),
    )

-- What the search of a subset's port compares.
abbrev pub same_port : EndpointPort → EndpointPort → Bool
same_port port p = p.name == port.name && (p.port == port.port && p.protocol == port.protocol)

is_port_in_ports-any :
    (ps : List EndpointPort) (port : EndpointPort) (subset_ip ip : String)
    → is_port_in_ports ps port subset_ip ip ≡ (any (same_port port) ps && subset_ip == ip)
unfolding is_port_in_ports
is_port_in_ports-any [] port subset_ip ip = refl
is_port_in_ports-any (p ∷ ps) port subset_ip ip =
    ground (arith, is_port_in_ports-any ps port subset_ip ip)

is_port_at_addresses-any :
    (addrs : List EndpointAddress) (ps : List EndpointPort) (port : EndpointPort)
    (addr : EndpointAddress)
    → is_port_at_addresses addrs ps port addr
      ≡ (any (same_port port) ps && any (λ a. a.ip == addr.ip) addrs)
unfolding is_port_at_addresses
is_port_at_addresses-any [] ps port addr = ground arith
is_port_at_addresses-any (a ∷ rest) ps port addr =
    ground
      (arith, is_port_in_ports-any ps port a.ip addr.ip, is_port_at_addresses-any rest ps port addr)

-- A subset that has the port, and the address among the ready or the other ones.
abbrev pub has_port_at : EndpointPort → EndpointAddress → EndpointSubset → Bool
has_port_at port addr s =
    any (same_port port) s.ports
    && (any (λ a. a.ip == addr.ip) s.addresses || any (λ a. a.ip == addr.ip) s.not_ready_addresses)

-- An address and port are found in the subsets exactly if some subset has a port of the same
-- name, number and protocol, and the address among its ready or its not ready ones.
pub is_port_in_subset-any :
    (ss : List EndpointSubset) (port : EndpointPort) (addr : EndpointAddress)
    → is_port_in_subset ss port addr ≡ any (has_port_at port addr) ss
unfolding is_port_in_subset
is_port_in_subset-any [] port addr = refl
is_port_in_subset-any (s ∷ ss) port addr = ground (
  arith,
  is_port_at_addresses-any s.addresses s.ports port addr,
  is_port_at_addresses-any s.not_ready_addresses s.ports port addr,
  is_port_in_subset-any ss port addr,
)
