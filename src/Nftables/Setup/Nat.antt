-- ===== src/Nftables/Setup/Nat.antt =====
-- pkg/nftables/common.go: setupStaticNATRules
use nfproxy.Prelude.{String, text_Eq, Bool, none, List, [], ◌∷◌, Assoc, lookup}
use nfproxy.Go.{⊤, Result, ok}
use nfproxy.Go.Act.{Act, pure, run, deref, checked, ◌>>=◌}
use nfproxy.External.{
  External, Handle, Rule, SetRef, counter, verdict, set_mark, matching, verdict_map, marked,
  source_not, local_destination, nft_return,
}
use nfproxy.Nftables.Base.{
  set_action_verdict, set_ip_addr, value_or_nil, nat_prerouting, nat_output, nat_postrouting,
  nat_mark_drop, nat_do_mark_masq, nat_mark_masq, nat_do_masquerade, nat_services, nat_nodeports,
  k8s_nat_postrouting, cluster_ip_set, external_ip_set, loadbalancer_ip_set, nodeport_set,
  mark_masq_set,
}
use nfproxy.Nftables.Rules.{plain_rule}
use nfproxy.Nftables.Setup.Sets.{service_key, nodeport_key}
use nfproxy.Nftables.Setup.Filter.{commented, jump, program}

module _ (ext : External) where
  open ext use {Kernel, Action, Addr}

  abbrev pub prerouting_rules : List (Rule Action Addr)
  prerouting_rules =
      plain_rule ext counter
      ∷ commented ext "jump to kubernetes services portal" (verdict (jump ext nat_services))
      ∷ []

  abbrev pub nat_output_rules : List (Rule Action Addr)
  nat_output_rules = plain_rule ext counter ∷ plain_rule ext (verdict (jump ext nat_services)) ∷ []

  abbrev pub postrouting_rules : List (Rule Action Addr)
  postrouting_rules =
      plain_rule ext counter
      ∷ commented ext "jump kubernetes postrouting rules processing"
          (verdict (jump ext k8s_nat_postrouting))
      ∷ []

  abbrev pub mark_drop_rules : List (Rule Action Addr)
  mark_drop_rules = plain_rule ext counter ∷ plain_rule ext (set_mark 0x8000 none) ∷ []

  abbrev pub do_masq_rules : List (Rule Action Addr)
  do_masq_rules = plain_rule ext counter ∷ plain_rule ext (verdict (value_or_nil ext.set_masq)) ∷ []

  abbrev pub k8s_postrouting_rules : String → List (Rule Action Addr)
  k8s_postrouting_rules cidr =
      plain_rule ext counter
      ∷ plain_rule ext (matching (source_not (set_ip_addr ext cidr)) (jump ext nat_do_masquerade))
      ∷ commented ext "masquerade marked packets"
          (matching (marked 0x4000) (jump ext nat_do_masquerade))
      ∷ []

  abbrev pub static_service_rules :
      String → Bool → SetRef → SetRef → SetRef → List (Rule Action Addr)
  static_service_rules cidr ipv6 cluster external balancer =
      plain_rule ext counter
      ∷ plain_rule ext (matching (source_not (set_ip_addr ext cidr)) (jump ext nat_mark_masq))
      ∷ plain_rule ext (verdict_map cluster (service_key ipv6))
      ∷ plain_rule ext (verdict_map external (service_key ipv6))
      ∷ plain_rule ext (verdict_map balancer (service_key ipv6))
      ∷ commented ext "kubernetes service nodeports; this must be the last rule in this chain"
          (matching local_destination (jump ext nat_nodeports))
      ∷ []

  abbrev pub static_nodeport_rules : SetRef → List (Rule Action Addr)
  static_nodeport_rules nodeports =
      plain_rule ext counter ∷ plain_rule ext (verdict_map nodeports nodeport_key) ∷ []

  abbrev pub do_mark_masq_rules : List (Rule Action Addr)
  do_mark_masq_rules =
      plain_rule ext counter
      ∷ commented ext "mark packets for masquerading"
          (set_mark 0x4000 (set_action_verdict ext nft_return []))
      ∷ []

  abbrev pub masq_rules : Bool → SetRef → List (Rule Action Addr)
  masq_rules ipv6 mark_masq =
      plain_rule ext counter
      ∷ plain_rule ext (verdict_map mark_masq (service_key ipv6))
      ∷ plain_rule ext (verdict (set_action_verdict ext nft_return []))
      ∷ []

  -- The rules that refer to a set: the first of them that is missing panics.
  unfoldable pub setup_set_rules :
      Assoc String SetRef → Handle → String → Bool → Act Kernel (Result ⊤)
  setup_set_rules sets ci cidr ipv6 = do
    cluster ← deref (lookup cluster_ip_set sets)
    external ← deref (lookup external_ip_set sets)
    balancer ← deref (lookup loadbalancer_ip_set sets)
    checked
        (run
          (program ext ci nat_services (static_service_rules cidr ipv6 cluster external balancer)))
        (do
          nodeports ← deref (lookup nodeport_set sets)
          checked (run (program ext ci nat_nodeports (static_nodeport_rules nodeports))) (
              checked (run (program ext ci nat_do_mark_masq do_mark_masq_rules)) (do
                mark_masq ← deref (lookup mark_masq_set sets)
                checked (run (program ext ci nat_mark_masq (masq_rules ipv6 mark_masq)))
                    (pure (ok tt)))))

  unfoldable pub setup_static_nat_rules :
      Assoc String SetRef → Handle → String → Bool → Act Kernel (Result ⊤)
  setup_static_nat_rules sets ci cidr ipv6 =
      checked (run (program ext ci nat_prerouting prerouting_rules)) (
        checked (run (program ext ci nat_output nat_output_rules)) (
          checked (run (program ext ci nat_postrouting postrouting_rules)) (
            checked (run (program ext ci nat_mark_drop mark_drop_rules)) (
              checked (run (program ext ci nat_do_masquerade do_masq_rules)) (
                checked (run (program ext ci k8s_nat_postrouting (k8s_postrouting_rules cidr)))
                  (setup_set_rules sets ci cidr ipv6))))))
