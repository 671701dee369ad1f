-- ===== src/Nftables/Setup/Ready.antt =====
-- InitNFTables as a whole: it does not panic, and what it leaves in the interface.
use nfproxy.Prelude.{
  String, text_Eq, nat_Eq, ◌==◌, ◌≡◌, refl, ◌∙◌, Bool, true, false, if◌then◌else◌, Bool-cases, inl,
  inr, beq_refl,
}
use nfproxy.Go.{ok}
use nfproxy.Go.Act.{run}
use nfproxy.Go.Returns.{OnOk, Returns-any}
use nfproxy.Go.Total.{
  Ends, Total, Total-bind, Total-weaken, Total-pure, Total-if, Total-when, Total-run, Total-then,
  Total-returns, Total-checked-run,
}
use nfproxy.External.{External, Handle, TableFamily, ipv4, ipv6}
use nfproxy.Nftables.Base.{NftInterface}
use nfproxy.Nftables.Setup.Init.{
  setup_family, program_common_chains_rules, get_nft_interface, remove_table, init_nftables,
  v4_table_name, v6_table_name,
}
use nfproxy.Nftables.Setup.Laws.{HasSets, setup_table-HasSets}

-- What the set-up of one family does to the interface.
if-map : {P Q : Type 0} (b : Bool) → (P → Q) → (if b then Unit else P) → if b then Unit else Q
if-map true f h = tt
if-map false f h = f h

record IsGrown (before after : NftInterface) : Type 0 where
  cidr_ipv4 : after.cluster_cidr_ipv4 ≡ before.cluster_cidr_ipv4
  cidr_ipv6 : after.cluster_cidr_ipv6 ≡ before.cluster_cidr_ipv6
  sets : HasSets before.sets → HasSets after.sets

-- The interface has the cluster ranges and, if an IPv4 range is given, the sets of the static rules.
pub record IsReady (cluster_ipv4 cluster_ipv6 given : String) (nfti : NftInterface) : Type 0 where
  pub is_ipv4 : nfti.cluster_cidr_ipv4 ≡ cluster_ipv4
  pub is_ipv6 : nfti.cluster_cidr_ipv6 ≡ cluster_ipv6
  pub has_sets : if given == "" then Unit else HasSets nfti.sets

IsReady-IsGrown :
    (cluster_ipv4 cluster_ipv6 given : String) (before after : NftInterface)
    → IsReady cluster_ipv4 cluster_ipv6 given before
    → IsGrown before after
    → IsReady cluster_ipv4 cluster_ipv6 given after
IsReady-IsGrown cluster_ipv4 cluster_ipv6 given before after h g = record {
  is_ipv4 = g.cidr_ipv4 ∙ h.is_ipv4;
  is_ipv6 = g.cidr_ipv6 ∙ h.is_ipv6;
  has_sets = if-map (given == "") g.sets h.has_sets;
}

module _ (ext : External) (nfti : NftInterface) (cidr_ipv4 cidr_ipv6 : String) where
  setup_family-IsGrown :
      (ci : Handle) → Total (setup_family ext nfti cidr_ipv4 cidr_ipv6 ci) (OnOk (IsGrown nfti))
  unfolding setup_family
  setup_family-IsGrown ci =
      let cidr = if ci == nfti.ci_v4 then cidr_ipv4 else cidr_ipv6 in
      Total-if (OnOk (IsGrown nfti)) (cidr == "") _ _
        (Total-pure (OnOk (IsGrown nfti)) (ok nfti)
          (record { cidr_ipv4 = refl; cidr_ipv6 = refl; sets = λ h. h }))
        (Total-then HasSets (IsGrown nfti) _ _ (setup_table-HasSets ext nfti.sets ci _ cidr _)
          λ made h.
            Total-pure (OnOk (IsGrown nfti)) (ok (record nfti { sets = made }))
              (record { cidr_ipv4 = refl; cidr_ipv6 = refl; sets = λ _. h }))

  abbrev Ready : NftInterface → Type 0
  Ready = IsReady nfti.cluster_cidr_ipv4 nfti.cluster_cidr_ipv6 cidr_ipv4

  -- The family of the IPv4 chains.
  setup_family-IsReady :
      Total
        (setup_family ext nfti cidr_ipv4 cidr_ipv6 nfti.ci_v4)
        (OnOk (IsReady nfti.cluster_cidr_ipv4 nfti.cluster_cidr_ipv6 cidr_ipv4))
  unfolding setup_family
  setup_family-IsReady = elim (Bool-cases (cidr_ipv4 == "")) [
    | inl e ↦
        rw (beq_refl nfti.ci_v4, e)
          (Total-pure (OnOk Ready) (ok nfti)
            (record { is_ipv4 = refl; is_ipv6 = refl; has_sets = rw e tt }))
    | inr e ↦
        rw (beq_refl nfti.ci_v4, e)
          (Total-then HasSets Ready _ _
            (setup_table-HasSets ext nfti.sets nfti.ci_v4 nfti.si_v4 cidr_ipv4 false)
            λ made h.
              Total-pure (OnOk Ready) (ok (record nfti { sets = made }))
                (record { is_ipv4 = refl; is_ipv6 = refl; has_sets = rw e h }))
  ]

module _ (ext : External) (cidr_ipv4 cidr_ipv6 : String) where
  program_common_chains_rules-IsReady :
      (nfti : NftInterface)
      → Total
          (program_common_chains_rules ext nfti cidr_ipv4 cidr_ipv6)
          (OnOk (IsReady nfti.cluster_cidr_ipv4 nfti.cluster_cidr_ipv6 cidr_ipv4))
  unfolding program_common_chains_rules
  program_common_chains_rules-IsReady nfti =
      Total-then (IsReady nfti.cluster_cidr_ipv4 nfti.cluster_cidr_ipv6 cidr_ipv4)
        (IsReady nfti.cluster_cidr_ipv4 nfti.cluster_cidr_ipv6 cidr_ipv4) _ _
        (setup_family-IsReady ext nfti cidr_ipv4 cidr_ipv6)
        λ after h.
          Total-weaken (IsGrown after)
            (IsReady nfti.cluster_cidr_ipv4 nfti.cluster_cidr_ipv6 cidr_ipv4) _
            (λ final g. IsReady-IsGrown _ _ cidr_ipv4 after final h g)
            (setup_family-IsGrown ext after cidr_ipv4 cidr_ipv6 after.ci_v6)

  remove_table-Total :
      (name : String) (fam : TableFamily) → Total (remove_table ext name fam) (λ _. Unit)
  unfolding remove_table
  remove_table-Total name fam =
      Total-bind _ _ (λ _. Unit) (λ _. Unit)
        (Total-run (λ _. Unit) (ext.tables_exist name fam) (λ s. tt))
        λ exists _. Total-when exists _ (
          Total-bind _ _ (λ _. Unit) (λ _. Unit)
            (Total-run (λ _. Unit) (ext.tables_delete_imm name fam) (λ s. tt))
            (λ _ _. Total-pure (λ _. Unit) tt tt))

  init_nftables-Total :
      Total (init_nftables ext cidr_ipv4 cidr_ipv6) (OnOk (IsReady cidr_ipv4 cidr_ipv6 cidr_ipv4))
  unfolding init_nftables
  init_nftables-Total =
      Total-bind _ _ (λ _. Unit) (OnOk (IsReady cidr_ipv4 cidr_ipv6 cidr_ipv4))
        (remove_table-Total v4_table_name ipv4)
        λ _ _.
          Total-bind _ _ (λ _. Unit) (OnOk (IsReady cidr_ipv4 cidr_ipv6 cidr_ipv4))
            (remove_table-Total v6_table_name ipv6)
            λ _ _. Total-checked-run (IsReady cidr_ipv4 cidr_ipv6 cidr_ipv4) _ _ (
              Total-checked-run (IsReady cidr_ipv4 cidr_ipv6 cidr_ipv4) _ _ (
                Total-then (λ _. Unit) (IsReady cidr_ipv4 cidr_ipv6 cidr_ipv4)
                  (run (get_nft_interface ext)) _ (Total-returns _ (λ _. Unit) (Returns-any _))
                  λ nfti _.
                    program_common_chains_rules-IsReady (record nfti {
                      cluster_cidr_ipv4 = cidr_ipv4;
                      cluster_cidr_ipv6 = cidr_ipv6;
                    })))

  -- Whatever the library answers, InitNFTables does not panic, and where it returns no error, the
  -- interface that it returns has the two cluster ranges it was given and, if the IPv4 range is not
  -- empty, each of the six sets that the static rules refer to.
  pub init_nftables-IsReady :
      (s : ext.Kernel)
      → Ends
          (OnOk (IsReady cidr_ipv4 cidr_ipv6 cidr_ipv4))
          (init_nftables ext cidr_ipv4 cidr_ipv6 s)
  init_nftables-IsReady s = init_nftables-Total.at s
