-- ===== src/Nftables/Setup/Chains.antt =====
-- pkg/nftables/common.go: setupNFProxyChains
use nfproxy.Prelude.{String, Option, none, some, List, [], ◌∷◌}
use nfproxy.Go.{⊤}
use nfproxy.Go.Exec.{Exec, wrap, for_each}
use nfproxy.External.{
  External, Handle, ChainAttributes, ChainHook, chain_type_filter, chain_type_nat, hook_input,
  hook_output, hook_forward, hook_prerouting, hook_postrouting,
}
use nfproxy.Nftables.Base.{
  filter_input, filter_output, filter_forward, filter_firewall, filter_services, k8s_filter_forward,
  filter_do_reject, nat_prerouting, nat_output, nat_postrouting, nat_mark_drop, nat_do_mark_masq,
  nat_mark_masq, nat_do_masquerade, nat_services, nat_nodeports, k8s_nat_postrouting,
}

abbrev filter_chain : String → ChainHook → String × Option ChainAttributes
filter_chain name hook = (name, some (record { chain_type = chain_type_filter; hook = hook }))

abbrev nat_chain : String → ChainHook → String × Option ChainAttributes
nat_chain name hook = (name, some (record { chain_type = chain_type_nat; hook = hook }))

abbrev pub static_chains : List (String × Option ChainAttributes)
static_chains =
    filter_chain filter_input hook_input
    ∷ filter_chain filter_output hook_output
    ∷ filter_chain filter_forward hook_forward
    ∷ (filter_firewall, none)
    ∷ (filter_services, none)
    ∷ (k8s_filter_forward, none)
    ∷ (filter_do_reject, none)
    ∷ nat_chain nat_prerouting hook_prerouting
    ∷ nat_chain nat_output hook_output
    ∷ nat_chain nat_postrouting hook_postrouting
    ∷ (nat_mark_drop, none)
    ∷ (nat_do_mark_masq, none)
    ∷ (nat_mark_masq, none)
    ∷ (nat_do_masquerade, none)
    ∷ (nat_services, none)
    ∷ (nat_nodeports, none)
    ∷ (k8s_nat_postrouting, none)
    ∷ []

module _ (ext : External) where
  unfoldable pub setup_nfproxy_chains : Handle → Exec ext.Kernel ⊤
  setup_nfproxy_chains ci =
      for_each static_chains
        λ (name, attrs). wrap "failed to create chain" (ext.chains_create_imm ci name attrs)
