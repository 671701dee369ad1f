-- ===== src/Nftables/Chains.antt =====
-- pkg/nftables/nftables.go: chains, and lists of rules in one chain.
use nfproxy.Prelude.{ℕ, none, String, List, [], ◌∷◌}
use nfproxy.Go.{⊤}
use nfproxy.Go.Exec.{Exec, pure, ◌>>=◌, for_each}
use nfproxy.External.{External, Handle, TableFamily, Rule}
use nfproxy.Nftables.Base.{NftInterface, ci_for_table_family, svc_chain}

module _ (ext : External) where
  open ext use {Kernel, Action, Addr}

  -- The loop of `programChainRules`: each rule is created after the one before it.
  unfoldable pub create_rules : Handle → ℕ → List (Rule Action Addr) → Exec Kernel (List ℕ)
  create_rules ri id [] = pure []
  create_rules ri id (r ∷ rules) = do
    id' ← ext.rules_create_imm ri (record r { position = id })
    ids ← create_rules ri id' rules
    pure (id' ∷ ids)

  unfoldable pub program_chain_rules :
      Handle → String → List (Rule Action Addr) → ℕ → Exec Kernel (List ℕ)
  program_chain_rules ci chain rules position = do
    ri ← ext.chains_chain ci chain
    create_rules ri position rules

  unfoldable pub delete_chain_rules : Handle → String → List ℕ → Exec Kernel ⊤
  delete_chain_rules ci chain rules = do
    ri ← ext.chains_chain ci chain
    for_each rules (ext.rules_delete_imm ri)

  unfoldable pub delete_endpoint_rules :
      NftInterface → TableFamily → String → List ℕ → Exec Kernel ⊤
  delete_endpoint_rules nfti fam chain rule_id =
      delete_chain_rules (ci_for_table_family nfti fam) chain rule_id

  unfoldable pub delete_service_rules : NftInterface → TableFamily → String → List ℕ → Exec Kernel ⊤
  delete_service_rules nfti fam chain rule_id =
      delete_chain_rules (ci_for_table_family nfti fam) chain rule_id

  unfoldable pub delete_chain : NftInterface → TableFamily → String → Exec Kernel ⊤
  delete_chain nfti fam chain = ext.chains_delete_imm (ci_for_table_family nfti fam) chain

  -- The list of prefixes has one entry.
  unfoldable pub add_service_chains : NftInterface → TableFamily → String → Exec Kernel ⊤
  add_service_chains nfti fam svc_id =
      for_each (svc_chain svc_id ∷ [])
        (λ chain. ext.chains_create_imm (ci_for_table_family nfti fam) chain none)

  unfoldable pub delete_service_chains : NftInterface → TableFamily → String → Exec Kernel ⊤
  delete_service_chains nfti fam svc_id =
      for_each (svc_chain svc_id ∷ []) (ext.chains_delete_imm (ci_for_table_family nfti fam))
