-- ===== src/Nftables/Setup/Init.antt =====
-- pkg/nftables/common.go: programCommonChainsRules; nftables.go: InitNFTables, getNFTInterface and
-- programClusterIPRules.
use nfproxy.Prelude.{
  ℕ, String, text_Eq, nat_Eq, ◌==◌, Bool, true, false, List, [], ◌∷◌, Assoc, if◌then◌else◌,
}
use nfproxy.Go.{⊤, Result, ok}
use nfproxy.Go.Exec
use nfproxy.Go.Exec.{Exec}
use nfproxy.Go.Act.{Act, pure, panic, run, when, checked, on_ok, ◌>>=◌, ◌>>◌}
use nfproxy.External.{External, Handle, TableFamily, ipv4, ipv6, Rule, SetRef}
use nfproxy.Nftables.Base.{NftInterface, nat_services}
use nfproxy.Nftables.Setup.Chains.{setup_nfproxy_chains}
use nfproxy.Nftables.Setup.Sets.{setup_common_sets}
use nfproxy.Nftables.Setup.Filter.{setup_static_filter_rules, setup_k8s_filter_rules}
use nfproxy.Nftables.Setup.Nat.{setup_static_nat_rules}

abbrev pub v4_table_name : String
v4_table_name = "kube-nfproxy-v4"

abbrev pub v6_table_name : String
v6_table_name = "kube-nfproxy-v6"

module _ (ext : External) where
  open ext use {Kernel, Action, Addr}

  -- The body of the loop of programCommonChainsRules for a table that is wanted.
  unfoldable pub setup_table :
      Assoc String SetRef
      → Handle
      → Handle
      → String
      → Bool
      → Act Kernel (Result (Assoc String SetRef))
  setup_table sets ci si cidr is_ipv6 = checked (run (setup_nfproxy_chains ext ci)) (do
    r ← run (setup_common_sets ext sets si is_ipv6)
    on_ok
        (λ made. checked (setup_static_filter_rules ext ci cidr) (
          checked (setup_k8s_filter_rules ext made ci is_ipv6)
            (checked (setup_static_nat_rules ext made ci cidr is_ipv6) (pure (ok made)))))
        r)

  unfoldable pub setup_family :
      NftInterface → String → String → Handle → Act Kernel (Result NftInterface)
  setup_family nfti cidr_ipv4 cidr_ipv6 ci = do
    let first = ci == nfti.ci_v4
    let cidr = if first then cidr_ipv4 else cidr_ipv6
    if cidr == "" then pure (ok nfti) else (do
      r ←
          setup_table nfti.sets ci (if first then nfti.si_v4 else nfti.si_v6) cidr
            (if first then false else true)
      on_ok (λ made. pure (ok (record nfti { sets = made }))) r)

  -- The IPv4 table and then the IPv6 table, each if its cluster range is given.
  unfoldable pub program_common_chains_rules :
      NftInterface → String → String → Act Kernel (Result NftInterface)
  program_common_chains_rules nfti cidr_ipv4 cidr_ipv6 = do
    r ← setup_family nfti cidr_ipv4 cidr_ipv6 nfti.ci_v4
    on_ok (λ after. setup_family after cidr_ipv4 cidr_ipv6 after.ci_v6) r

  unfoldable pub get_nft_interface : Exec Kernel NftInterface
  get_nft_interface = Exec.◌>>=◌ (ext.tables_table_chains v4_table_name ipv4) λ civ4.
      Exec.◌>>=◌ (ext.tables_table_chains v6_table_name ipv6) λ civ6.
        Exec.◌>>=◌ (ext.tables_table_sets v4_table_name ipv4) λ siv4.
          Exec.◌>>=◌ (ext.tables_table_sets v6_table_name ipv6) λ siv6. Exec.pure (record {
            cluster_cidr_ipv4 = "";
            cluster_cidr_ipv6 = "";
            ci_v4 = civ4;
            ci_v6 = civ6;
            si_v4 = siv4;
            si_v6 = siv6;
            sets = [];
          })

  -- A table that is there is removed; an error of the removal is ignored.
  unfoldable pub remove_table : String → TableFamily → Act Kernel ⊤
  remove_table name fam = do
    exists ← run (ext.tables_exist name fam)
    when exists (run (ext.tables_delete_imm name fam) >> pure tt)

  unfoldable pub init_nftables : String → String → Act Kernel (Result NftInterface)
  init_nftables cidr_ipv4 cidr_ipv6 = do
    remove_table v4_table_name ipv4
    remove_table v6_table_name ipv6
    checked (run (ext.tables_create_imm v4_table_name ipv4)) (
        checked (run (ext.tables_create_imm v6_table_name ipv6)) (do
          r ← run get_nft_interface
          on_ok
              (λ nfti.
                program_common_chains_rules
                  (record nfti { cluster_cidr_ipv4 = cidr_ipv4; cluster_cidr_ipv6 = cidr_ipv6 })
                  cidr_ipv4 cidr_ipv6)
              r))

  -- The loop of programClusterIPRules: `id, err :=` in its body declares another `id`, so that each
  -- rule is placed after the first one.
  unfoldable pub create_after : Handle → ℕ → List (Rule Action Addr) → Exec Kernel (List ℕ)
  create_after ri id [] = Exec.pure []
  create_after ri id (r ∷ rules) =
      Exec.◌>>=◌ (ext.rules_create_imm ri (record r { position = id }))
        λ new. Exec.◌>>=◌ (create_after ri id rules) λ ids. Exec.pure (new ∷ ids)

  -- `rules[0]` panics if there is no rule.
  unfoldable pub insert_first : Handle → List (Rule Action Addr) → Act Kernel (Result (List ℕ))
  insert_first ri [] = panic
  insert_first ri (r ∷ rules) = do
    id ← run (ext.rules_insert_imm ri (record r { position = 0 }))
    on_ok (λ first. run (Exec.◌>>=◌ (create_after ri first rules) λ ids. Exec.pure (first ∷ ids)))
        id

  unfoldable pub program_cluster_ip_rules :
      Handle → List (Rule Action Addr) → Act Kernel (Result (List ℕ))
  program_cluster_ip_rules ci rules = do
    chain ← run (ext.chains_chain ci nat_services)
    on_ok (λ ri. insert_first ri rules) chain
