-- ===== src/Nftables/Setup/Filter.antt =====
-- pkg/nftables/common.go: setupStaticFilterRules and setupK8sFilterRules
use Prim.Native.Nat.{bit_or}
use nfproxy.Prelude.{ℕ, String, text_Eq, Bool, Option, some, List, [], ◌∷◌, Assoc, lookup}
use nfproxy.Go.{⊤, Result, ok}
use nfproxy.Go.Exec.{Exec}
use nfproxy.Go.Act.{Act, pure, run, deref, checked, ◌>>=◌}
use nfproxy.External.{
  External, Handle, Rule, RuleBody, Match, SetRef, counter, verdict, matching, verdict_map,
  ct_state, marked, source_in_state, destination_in_state, nft_jump, nft_drop, nft_accept,
}
use nfproxy.Nftables.Base.{
  set_action_verdict, set_ip_addr, value_or_nil, filter_input, filter_output, filter_forward,
  filter_firewall, filter_services, k8s_filter_forward, filter_do_reject, no_endpoints_set,
}
use nfproxy.Nftables.Chains.{program_chain_rules}
use nfproxy.Nftables.Rules.{plain_rule}
use nfproxy.Nftables.Setup.Sets.{service_key}

module _ (ext : External) where
  open ext use {Kernel, Action, Addr}

  abbrev pub commented : String → RuleBody Action Addr → Rule Action Addr
  commented text body = record {
    body = body;
    position = 0;
    user_data = some (ext.make_rule_comment text);
  }

  abbrev pub jump : String → Option Action
  jump chain = set_action_verdict ext nft_jump (chain ∷ [])

  abbrev new_state : Match Addr
  new_state = ct_state (ext.put_uint32 ext.ct_state_new)

  abbrev known_state : List ℕ
  known_state = ext.put_uint32 (bit_or ext.ct_state_related ext.ct_state_established)

  -- `programChainRules`, of which the handles are dropped
  abbrev pub program : Handle → String → List (Rule Action Addr) → Exec Kernel (List ℕ)
  program ci chain rules = program_chain_rules ext ci chain rules 0

  abbrev pub input_rules : List (Rule Action Addr)
  input_rules =
      plain_rule ext counter
      ∷ plain_rule ext (matching new_state (jump filter_services))
      ∷ plain_rule ext (verdict (jump filter_firewall))
      ∷ []

  abbrev pub forward_rules : List (Rule Action Addr)
  forward_rules =
      plain_rule ext counter
      ∷ plain_rule ext (verdict (jump k8s_filter_forward))
      ∷ plain_rule ext (matching new_state (jump filter_services))
      ∷ []

  abbrev pub output_rules : List (Rule Action Addr)
  output_rules =
      plain_rule ext counter
      ∷ plain_rule ext (matching new_state (jump filter_services))
      ∷ plain_rule ext (verdict (jump filter_firewall))
      ∷ []

  abbrev pub firewall_rules : List (Rule Action Addr)
  firewall_rules =
      plain_rule ext counter
      ∷ commented "kubernetes firewall for dropping marked packets"
          (matching (marked 0x8000) (set_action_verdict ext nft_drop []))
      ∷ []

  abbrev pub k8s_forward_rules : String → List (Rule Action Addr)
  k8s_forward_rules cluster_cidr =
      plain_rule ext counter
      ∷ plain_rule ext (
          matching (ct_state (ext.put_uint32 ext.ct_state_invalid))
            (set_action_verdict ext nft_drop []))
      ∷ plain_rule ext (matching (marked 0x4000) (set_action_verdict ext nft_accept []))
      ∷ commented "kubernetes forwarding conntrack pod source rule" (
          matching (source_in_state (set_ip_addr ext cluster_cidr) known_state)
            (set_action_verdict ext nft_accept []))
      ∷ commented "kubernetes forwarding conntrack pod destination rule" (
          matching (destination_in_state (set_ip_addr ext cluster_cidr) known_state)
            (set_action_verdict ext nft_accept []))
      ∷ []

  -- An error of SetReject leaves the rule without an action.
  abbrev pub reject_rules : List (Rule Action Addr)
  reject_rules =
      plain_rule ext counter
      ∷ commented "kubernetes reject for services without endpoints"
          (verdict (value_or_nil ext.set_reject))
      ∷ []

  unfoldable pub setup_static_filter_rules : Handle → String → Act Kernel (Result ⊤)
  setup_static_filter_rules ci cluster_cidr = checked (run (program ci filter_input input_rules)) (
      checked (run (program ci filter_forward forward_rules)) (
        checked (run (program ci filter_output output_rules)) (
          checked (run (program ci filter_firewall firewall_rules)) (
            checked (run (program ci k8s_filter_forward (k8s_forward_rules cluster_cidr)))
              (checked (run (program ci filter_do_reject reject_rules)) (pure (ok tt)))))))

  abbrev pub services_rules : Bool → SetRef → List (Rule Action Addr)
  services_rules ipv6 no_endpoints =
      plain_rule ext counter ∷ plain_rule ext (verdict_map no_endpoints (service_key ipv6)) ∷ []

  -- `sets[K8sNoEndpointsSet].Name` panics if the set is missing.
  unfoldable pub setup_k8s_filter_rules :
      Assoc String SetRef → Handle → Bool → Act Kernel (Result ⊤)
  setup_k8s_filter_rules sets ci ipv6 = do
    no_endpoints ← deref (lookup no_endpoints_set sets)
    checked (run (program ci filter_services (services_rules ipv6 no_endpoints))) (pure (ok tt))
