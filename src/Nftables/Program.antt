-- ===== src/Nftables/Program.antt =====
-- pkg/nftables/nftables.go: the rules of a service's chain. `id = ruleID` shares the caller's
-- slice, so these return its elements beside the result: a handle that was Replaced before an
-- error stays Replaced. A nil element of `epchains` is `none`.
use nfproxy.Prelude.{
  ℕ, String, Bool, true, false, Option, none, some, List, [], ◌∷◌, ◌++◌, map, get_elem?, set,
  text_append,
}
use nfproxy.Go.{⊤, Result, ok, err}
use nfproxy.Go.Exec.{wrap}
use nfproxy.Go.Act.{Act, pure, deref, run, ◌>>=◌, ◌>>◌}
use nfproxy.External.{External, Handle, TableFamily, Rule, counter, verdict, match_act}
use nfproxy.Nftables.Base.{
  NftInterface, ci_for_table_family, si_for_table_family, svc_chain, affinity_map,
}
use nfproxy.Nftables.Types.{EpRule}
use nfproxy.Nftables.Chains.{program_chain_rules}
use nfproxy.Nftables.Rules.{plain_rule, match_act_rule, affinity_actions}

-- The elements, if none is nil.
unfoldable pub all_some : {A : Type 0} → List (Option A) → Option (List A)
all_some [] = some []
all_some (none ∷ xs) = none
all_some (some x ∷ xs) = elim (all_some xs) [ none ↦ none | some ys ↦ some (x ∷ ys) ]

-- An early return with the caller's slice as it is.
abbrev pub attempt :
    {S A B : Type 0}
    → Result A
    → List ℕ
    → (A → Act S (Result B × List ℕ))
    → Act S (Result B × List ℕ)
attempt (ok a) ids k = k a
attempt (err e) ids k = pure (err e, ids)

module _ (ext : External) where
  open ext use {Kernel, Action, Addr}

  abbrev service_counter : String → Rule Action Addr
  service_counter svc_port_name = record {
    body = counter;
    position = 0;
    user_data =
        some (
          ext.make_rule_comment (text_append "service chain for Service Port Name " svc_port_name));
  }

  -- With affinity, the MatchAct rule; without, no rule.
  unfoldable pub affinity_rules :
      NftInterface
      → TableFamily
      → String
      → List (Option EpRule)
      → Bool
      → Act Kernel (Result (List (Rule Action Addr)))
  affinity_rules nfti fam svc_id epchains false = pure (ok [])
  affinity_rules nfti fam svc_id epchains true = do
    s ← run (ext.sets_get_set_by_name (si_for_table_family nfti fam) (affinity_map svc_id))
    elim s [
      | err e ↦ pure (err e)
      | ok ref ↦ do eps ← deref (all_some epchains); pure (ok (match_act_rule ext ref eps ∷ []))
    ]

  -- The new rule goes in before the old one, which is deleted then; an error of the deletion is
  -- only logged.
  unfoldable pub replace_rule :
      Handle → List (Rule Action Addr) → ℕ → List ℕ → Act Kernel (Result ⊤ × List ℕ)
  replace_rule ri rules i ids = do
    rule ← deref (get_elem? rules i)
    old ← deref (get_elem? ids i)
    rid ← run (
        wrap "fail to program endpoints rules for service chain"
          (ext.rules_insert_imm ri (record rule { position = old })))
    attempt rid ids λ new. do run (ext.rules_delete_imm ri old); pure (ok tt, set ids i new)

  -- The branch of a chain that has rules: rule 1, and rule 2 too with affinity.
  unfoldable pub replace_rules :
      Handle → List (Rule Action Addr) → Bool → List ℕ → Act Kernel (Result (List ℕ) × List ℕ)
  replace_rules ri rules true ids = do
    (r, ids') ← replace_rule ri rules 1 ids
    attempt r ids' λ _. do
      (q, ids'') ← replace_rule ri rules 2 ids'
      attempt q ids'' λ _. pure (ok ids'', ids'')
  replace_rules ri rules false ids = do
    (r, ids') ← replace_rule ri rules 1 ids
    attempt r ids' λ _. pure (ok ids', ids')

  -- A chain without rules gets all of them.
  unfoldable pub place_rules :
      Handle
      → Handle
      → String
      → List (Rule Action Addr)
      → Bool
      → List ℕ
      → Act Kernel (Result (List ℕ) × List ℕ)
  place_rules ci ri chain rules with_affinity [] = do
    ids ← run (
        wrap "fail to program endpoints rules for service chain"
          (program_chain_rules ext ci chain rules 0))
    pure (ids, [])
  place_rules ci ri chain rules with_affinity rule_id = replace_rules ri rules with_affinity rule_id

  unfoldable pub program_service_endpoints :
      NftInterface
      → TableFamily
      → String
      → List (Option EpRule)
      → List ℕ
      → Bool
      → String
      → Act Kernel (Result (List ℕ) × List ℕ)
  program_service_endpoints nfti fam svc_id epchains rule_id with_affinity svc_port_name = do
    chain ← run (
        wrap "fail to get rules interface for service chain"
          (ext.chains_chain (ci_for_table_family nfti fam) (svc_chain svc_id)))
    attempt chain rule_id λ ri. do
      matching ← affinity_rules nfti fam svc_id epchains with_affinity
      attempt matching rule_id λ affinity. do
        eps ← deref (all_some epchains)
        attempt (ext.set_loadbalance (map (λ ep. ep.chain) eps)) rule_id λ balance. do
          let rules =
              service_counter svc_port_name
              ∷ (affinity ++ plain_rule ext (verdict (some balance)) ∷ [])
          place_rules (ci_for_table_family nfti fam) ri (svc_chain svc_id) rules with_affinity
              rule_id

  -- The MatchAct rule goes in before the rule with the given handle.
  unfoldable pub add_service_match_act_rule :
      NftInterface → TableFamily → String → List (Option EpRule) → ℕ → Act Kernel (Result (List ℕ))
  add_service_match_act_rule nfti fam svc_id epchains rule_id = do
    chain ← run (
        wrap "fail to get rules interface for service chain"
          (ext.chains_chain (ci_for_table_family nfti fam) (svc_chain svc_id)))
    elim chain [
      | err e ↦ pure (err e)
      | ok ri ↦ do
        s ← run (ext.sets_get_set_by_name (si_for_table_family nfti fam) (affinity_map svc_id))
        elim s [
          | err e ↦ pure (err e)
          | ok ref ↦ do
            eps ← deref (all_some epchains)
            rid ← run (
                wrap "fail to program MatchAct rule for service chain" (
                  ext.rules_insert_imm ri (record {
                    body = match_act ref (affinity_actions ext [] eps);
                    position = rule_id;
                    user_data = none;
                  })))
            elim rid [ err e ↦ pure (err e) | ok id ↦ pure (ok (id ∷ [])) ]
        ]
    ]
