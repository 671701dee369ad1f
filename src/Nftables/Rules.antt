-- ===== src/Nftables/Rules.antt =====
-- pkg/nftables/nftables.go: the rules of an endpoint's chain, and the MatchAct rule of a service.
use nfproxy.Prelude.{
  ℕ, String, Option, none, some, List, [], ◌∷◌, ◌==◌, nat_Eq, text_Eq, insert, if◌then◌else◌, Assoc,
  text_append,
}
use nfproxy.Go.{⊤}
use nfproxy.Go.Exec.{Exec, pure, wrap, ◌>>=◌, ◌>>◌}
use nfproxy.External.{
  External, nft_jump, TableFamily, Rule, RuleBody, counter, mark_source, verdict, update_set,
  match_act, SetRef,
}
use nfproxy.Nftables.Base.{
  NftInterface, ci_for_table_family, si_for_table_family, svc_chain, affinity_map, uint16, uint32,
  value_or_nil, set_action_verdict, set_ip_addr,
}
use nfproxy.Nftables.Types.{EpRule}
use nfproxy.Nftables.Chains.{program_chain_rules}

module _ (ext : External) where
  open ext use {Kernel, Action, Addr}

  abbrev pub plain_rule : RuleBody Action Addr → Rule Action Addr
  plain_rule body = record { body = body; position = 0; user_data = none }

  -- The counter has a comment if the endpoint's service is known.
  abbrev endpoint_counter : String → Rule Action Addr
  endpoint_counter service_id = record {
    body = counter;
    position = 0;
    user_data =
        if service_id == ""
        then none
        else some (ext.make_rule_comment (text_append "endpoint for " (svc_chain service_id)));
  }

  abbrev endpoint_rules : String → ℕ → String → List (Rule Action Addr)
  endpoint_rules ipaddr port service_id =
      endpoint_counter service_id
      ∷ plain_rule (mark_source (set_ip_addr ext ipaddr) 0x4000)
      ∷ plain_rule (
          verdict (
            value_or_nil
              (ext.set_dnat (set_ip_addr ext ipaddr) (if port == 0 then 0 else uint16 port))))
      ∷ []

  -- The protocol is a parameter that the source does not use.
  unfoldable pub add_endpoint_rules :
      NftInterface → TableFamily → String → String → String → ℕ → String → Exec Kernel (List ℕ)
  add_endpoint_rules nfti fam chain ipaddr proto port service_id = do
    wrap "AddEndpointRules: ci.Chains().CreateImm exit with error"
        (ext.chains_create_imm (ci_for_table_family nfti fam) chain none)
    wrap "AddEndpointRules: programChainRules exit with error" (
        program_chain_rules ext (ci_for_table_family nfti fam) chain
          (endpoint_rules ipaddr port service_id) 0)

  unfoldable pub add_endpoint_update_rule :
      NftInterface → TableFamily → String → ℕ → String → ℕ → Exec Kernel (List ℕ)
  add_endpoint_update_rule nfti fam chain index svc_id timeout = do
    s ← ext.sets_get_set_by_name (si_for_table_family nfti fam) (affinity_map svc_id)
    wrap "failed to create endpoint chain"
        (ext.chains_create_imm (ci_for_table_family nfti fam) chain none)
    ri ←
        wrap "fail to get rules' interface for endpoint chain"
          (ext.chains_chain (ci_for_table_family nfti fam) chain)
    id ←
        wrap "fail to insert Update rule"
          (ext.rules_insert_imm ri (plain_rule (update_set (uint32 index) s)))
    pure (id ∷ [])

  unfoldable pub delete_endpoint_update_rule :
      NftInterface → TableFamily → String → ℕ → Exec Kernel ⊤
  delete_endpoint_update_rule nfti fam chain update_rule_id = do
    ri ←
        wrap "fail to get rules' interface for endpoint chain"
          (ext.chains_chain (ci_for_table_family nfti fam) chain)
    wrap "fail to delete Update rule" (ext.rules_delete_imm ri update_rule_id)

  -- The Go map `act`: the jump to each endpoint's chain, keyed by the endpoint's index.
  unfoldable pub affinity_actions : Assoc ℕ (Option Action) → List EpRule → Assoc ℕ (Option Action)
  affinity_actions act [] = act
  affinity_actions act (ep ∷ eps) =
      affinity_actions (insert ep.ep_index (set_action_verdict ext nft_jump (ep.chain ∷ [])) act)
        eps

  abbrev pub match_act_rule : SetRef → List EpRule → Rule Action Addr
  match_act_rule s eps = plain_rule (match_act s (affinity_actions [] eps))
