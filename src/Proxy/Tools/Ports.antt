-- ===== src/Proxy/Tools/Ports.antt =====
-- pkg/proxy/tools.go: isServicePortInPorts.
use nfproxy.Prelude.{
  ℕ, zero, suc, ◌+◌, ◌<◌, ◌≡◌, refl, subst, Bool, true, false, inl, inr, Option, none, some, List,
  [], ◌∷◌, get_elem?, All, arith, Bool-cases,
}
use nfproxy.Kube.{KubePort}
use nfproxy.Proxy.Tools.{find_port, same_name, same_pair, is_service_port_in_ports}

-- The first port that passes the test, at its index.
pub record IsFirst (test : KubePort → Bool) (ports : List KubePort) (i : ℕ) : Type 0 where
  pub port : KubePort
  pub at : get_elem? ports i ≡ some port
  pub passes : test port ≡ true
  pub before : (j : ℕ) (p : KubePort) → j < i → get_elem? ports j ≡ some p → test p ≡ false

none_before :
    (test : KubePort → Bool) (p : KubePort) (ports : List KubePort) (j : ℕ)
    → test p ≡ false
    → IsFirst test ports j
    → (k : ℕ) (q : KubePort) → k < suc j
    → get_elem? (p ∷ ports) k ≡ some q
    → test q ≡ false
none_before test p ports j miss f zero q lt at = ground (arith, at, miss)
none_before test p ports j miss f (suc k) q lt at = f.before k q (omega arith) at

IsFirst-next :
    (test : KubePort → Bool) (p : KubePort) (ports : List KubePort) (j : ℕ)
    → test p ≡ false
    → IsFirst test ports j
    → IsFirst test (p ∷ ports) (suc j)
IsFirst-next test p ports j miss f = record {
  port = f.port;
  at = f.at;
  passes = f.passes;
  before = none_before test p ports j miss f;
}

-- A search from `i` finds the first port at its distance from `i`.
find_port-some :
    (test : KubePort → Bool) (ports : List KubePort) (i n : ℕ)
    → find_port test i ports ≡ some n
    → (j : ℕ) × (n ≡ i + j) × IsFirst test ports j
unfolding find_port
find_port-some test [] i n h = cc
find_port-some test (p ∷ ports) i n h = elim (Bool-cases (test p)) [
  | inl hit ↦ (
    0,
    ground arith,
    record { port = p; at = refl; passes = hit; before = λ j q lt at. absurd (omega arith) },
  )
  | inr miss ↦
      let (j, e, f) = find_port-some test ports (suc i) n (ground arith) in
      (suc j, omega arith, IsFirst-next test p ports j miss f)
]

find_port-none :
    (test : KubePort → Bool) (ports : List KubePort) (i : ℕ)
    → find_port test i ports ≡ none
    → All (λ p. test p ≡ false) ports
unfolding find_port
find_port-none test [] i h = tt
find_port-none test (p ∷ ports) i h = elim (Bool-cases (test p)) [
  | inl hit ↦ absurd (ground arith)
  | inr miss ↦ (miss, find_port-none test ports (suc i) (ground arith))
]

-- What the two passes may answer: an index and whether the port was found.
pub data Answer (ports : List KubePort) (sp : KubePort) : ℕ × Bool → Type 0 where
  by_name : (i : ℕ) → IsFirst (same_name sp) ports i → Answer ports sp (i, true)
  by_pair :
      (i : ℕ)
      → All (λ p. same_name sp p ≡ false) ports
      → IsFirst (same_pair sp) ports i
      → Answer ports sp (i, true)
  nowhere :
      All (λ p. same_name sp p ≡ false) ports
      → All (λ p. same_pair sp p ≡ false) ports
      → Answer ports sp (0, false)

at_zero : (i j : ℕ) → i ≡ 0 + j → j ≡ i
at_zero i j e = omega arith

second_pass :
    (ports : List KubePort) (sp : KubePort) (o : Option ℕ)
    → find_port (same_pair sp) 0 ports ≡ o
    → All (λ p. same_name sp p ≡ false) ports
    → Answer ports sp (elim o [ some i ↦ (i, true) | none ↦ (0, false) ])
second_pass ports sp none e names = nowhere names (find_port-none (same_pair sp) ports 0 e)
second_pass ports sp (some i) e names =
    let (j, at, first) = find_port-some (same_pair sp) ports 0 i e in
    by_pair i names (subst (IsFirst (same_pair sp) ports) (at_zero i j at) first)

first_pass :
    (ports : List KubePort) (sp : KubePort) (o : Option ℕ)
    → find_port (same_name sp) 0 ports ≡ o
    → Answer ports sp (elim o [
      | some i ↦ (i, true)
      | none ↦ elim (find_port (same_pair sp) 0 ports) [ some i ↦ (i, true) | none ↦ (0, false) ]
    ])
first_pass ports sp none e =
    second_pass ports sp (find_port (same_pair sp) 0 ports) refl
      (find_port-none (same_name sp) ports 0 e)
first_pass ports sp (some i) e =
    let (j, at, first) = find_port-some (same_name sp) ports 0 i e in
    by_name i (subst (IsFirst (same_name sp) ports) (at_zero i j at) first)

-- The search of a service's port answers with the first port of the same name; if there is none,
-- with the first port of the same protocol and number; and if there is none either, with (0, false).
pub is_service_port_in_ports-Answer :
    (ports : List KubePort) (sp : KubePort) → Answer ports sp (is_service_port_in_ports ports sp)
unfolding is_service_port_in_ports
is_service_port_in_ports-Answer ports sp =
    first_pass ports sp (find_port (same_name sp) 0 ports) refl
