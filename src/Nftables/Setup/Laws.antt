-- ===== src/Nftables/Setup/Laws.antt =====
-- The set-up of the tables does not panic: the sets that its rules refer to are there.
use nfproxy.Prelude.{
  String, text_Eq, ◌==◌, ◌≡◌, Bool, some, List, [], ◌∷◌, Assoc, lookup, insert, lookup-insert, All,
  All-map, arith, Bool-cases, inl, inr, beq_refl,
}
use nfproxy.Go.{ok}
use nfproxy.Go.Exec
use nfproxy.Go.Exec.{Exec}
use nfproxy.Go.Act.{run}
use nfproxy.Go.Returns.{OnOk, Returns, Returns-bind, Returns-pure, Returns-any, Returns-weaken}
use nfproxy.Go.Total.{
  Total, Total-pure, Total-deref_then, Total-then, Total-returns, Total-checked, Total-checked-run,
}
use nfproxy.External.{External, Handle, SetRef}
use nfproxy.Nftables.Base.{
  no_endpoints_set, mark_masq_set, cluster_ip_set, external_ip_set, loadbalancer_ip_set,
  nodeport_set,
}
use nfproxy.Nftables.Setup.Sets.{
  service_sets, service_key, nodeport_key, create_common_set, create_sets, setup_common_sets,
}
use nfproxy.Nftables.Setup.Chains.{setup_nfproxy_chains}
use nfproxy.Nftables.Setup.Filter.{setup_static_filter_rules, setup_k8s_filter_rules}
use nfproxy.Nftables.Setup.Init.{setup_table}
use nfproxy.Nftables.Setup.Nat.{setup_set_rules, setup_static_nat_rules}

-- The map has a set of that name.
abbrev pub Has : Assoc String SetRef → String → Type 0
Has sets name = (set : SetRef) × (lookup name sets ≡ some set)

-- The map has the sets that the static rules refer to.
abbrev pub HasSets : Assoc String SetRef → Type 0
HasSets sets = Has sets nodeport_set × All (Has sets) service_sets

Has-insert :
    (sets : Assoc String SetRef) (name other : String) (set : SetRef)
    → Has sets other
    → Has (insert name set sets) other
Has-insert sets name other set (old, h) = elim (Bool-cases (name == other)) [
  | inl e ↦ (set, ground (arith, lookup-insert name other set sets))
  | inr e ↦ (old, ground (arith, lookup-insert name other set sets))
]

Has-inserted :
    (sets : Assoc String SetRef) (name : String) (set : SetRef) → Has (insert name set sets) name
Has-inserted sets name set = (set, ground (arith, lookup-insert name name set sets, beq_refl name))

-- What the loop that creates sets leaves: those from before and the new ones.
record Made (before : Assoc String SetRef) (names : List String) (after : Assoc String SetRef)
    : Type 0 where
  kept : (name : String) → Has before name → Has after name
  made : All (Has after) names

module _ (ext : External) where
  open ext use {Kernel}

  create_sets-Made :
      (si : Handle) (is_ipv6 : Bool) (names : List String) (sets : Assoc String SetRef)
      → Returns (create_sets ext si is_ipv6 names sets) (Made sets names)
  unfolding create_sets
  create_sets-Made si is_ipv6 [] sets =
      Returns-pure _ sets (record { kept = λ name h. h; made = tt })
  create_sets-Made si is_ipv6 (name ∷ names) sets =
      Returns-bind (create_common_set ext si name (service_key is_ipv6))
        (λ set. create_sets ext si is_ipv6 names (insert name set sets)) (λ _. Unit)
        (Made sets (name ∷ names)) (Returns-any _)
        λ set _.
          Returns-weaken _ (Made (insert name set sets) names) (Made sets (name ∷ names))
            (λ after m. record {
              kept = λ other h. m.kept other (Has-insert sets name other set h);
              made = (m.kept name (Has-inserted sets name set), m.made);
            })
            (create_sets-Made si is_ipv6 names (insert name set sets))

  setup_common_sets-HasSets :
      (sets : Assoc String SetRef) (si : Handle) (is_ipv6 : Bool)
      → Returns (setup_common_sets ext sets si is_ipv6) HasSets
  unfolding setup_common_sets
  setup_common_sets-HasSets sets si is_ipv6 =
      Returns-bind (create_sets ext si is_ipv6 service_sets sets) _ (Made sets service_sets) HasSets
        (create_sets-Made si is_ipv6 service_sets sets)
        λ made m.
          Returns-bind (create_common_set ext si nodeport_set nodeport_key)
            (λ set. Exec.pure (insert nodeport_set set made)) (λ _. Unit) HasSets (Returns-any _)
            λ set _. Returns-pure HasSets _ (
              Has-inserted made nodeport_set set,
              All-map service_sets (λ name h. Has-insert made nodeport_set name set h) m.made,
            )

  setup_static_filter_rules-Total :
      (ci : Handle) (cidr : String)
      → Total (setup_static_filter_rules ext ci cidr) (OnOk (λ _. Unit))
  unfolding setup_static_filter_rules
  setup_static_filter_rules-Total ci cidr = search (Total-checked-run, Total-pure) depth 20

  setup_k8s_filter_rules-Total :
      (sets : Assoc String SetRef) (ci : Handle) (is_ipv6 : Bool)
      → HasSets sets
      → Total (setup_k8s_filter_rules ext sets ci is_ipv6) (OnOk (λ _. Unit))
  unfolding setup_k8s_filter_rules
  setup_k8s_filter_rules-Total sets ci is_ipv6 h =
      let (set, e) = h.1.0 in
      Total-deref_then (lookup no_endpoints_set sets) _ set (OnOk (λ _. Unit)) e
        (search (Total-checked-run, Total-pure))

  setup_set_rules-Total :
      (sets : Assoc String SetRef) (ci : Handle) (cidr : String) (is_ipv6 : Bool)
      → HasSets sets
      → Total (setup_set_rules ext sets ci cidr is_ipv6) (OnOk (λ _. Unit))
  unfolding setup_set_rules
  setup_set_rules-Total sets ci cidr is_ipv6 h =
      Total-deref_then (lookup cluster_ip_set sets) _ h.1.1.1.0.0 (OnOk (λ _. Unit)) h.1.1.1.0.1 (
        Total-deref_then (lookup external_ip_set sets) _ h.1.1.1.1.0.0 (OnOk (λ _. Unit))
          h.1.1.1.1.0.1
          (Total-deref_then (lookup loadbalancer_ip_set sets) _ h.1.1.1.1.1.0.0 (OnOk (λ _. Unit))
            h.1.1.1.1.1.0.1
            (Total-checked-run _ _ _ (
              Total-deref_then (lookup nodeport_set sets) _ h.0.0 (OnOk (λ _. Unit)) h.0.1 (
                Total-checked-run _ _ _ (
                  Total-checked-run _ _ _ (
                    Total-deref_then (lookup mark_masq_set sets) _ h.1.1.0.0 (OnOk (λ _. Unit))
                      h.1.1.0.1 (search (Total-checked-run, Total-pure)))))))))

  setup_static_nat_rules-Total :
      (sets : Assoc String SetRef) (ci : Handle) (cidr : String) (is_ipv6 : Bool)
      → HasSets sets
      → Total (setup_static_nat_rules ext sets ci cidr is_ipv6) (OnOk (λ _. Unit))
  unfolding setup_static_nat_rules
  setup_static_nat_rules-Total sets ci cidr is_ipv6 h =
      search (Total-checked-run, setup_set_rules-Total) depth 20

  pub setup_table-HasSets :
      (sets : Assoc String SetRef) (ci si : Handle) (cidr : String) (is_ipv6 : Bool)
      → Total (setup_table ext sets ci si cidr is_ipv6) (OnOk HasSets)
  unfolding setup_table
  setup_table-HasSets sets ci si cidr is_ipv6 =
      Total-checked-run HasSets (setup_nfproxy_chains ext ci) _ (
        Total-then HasSets HasSets (run (setup_common_sets ext sets si is_ipv6)) _
          (Total-returns _ HasSets (setup_common_sets-HasSets sets si is_ipv6))
          λ made h. Total-checked HasSets _ _ (setup_static_filter_rules-Total ci cidr) (
            Total-checked HasSets _ _ (setup_k8s_filter_rules-Total made ci is_ipv6 h) (
              Total-checked HasSets _ _ (setup_static_nat_rules-Total made ci cidr is_ipv6 h)
                (Total-pure (OnOk HasSets) (ok made) h))))
