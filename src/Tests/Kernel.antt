-- ===== src/Tests/Kernel.antt =====
-- The operations on the kernel at concrete inputs.
use nfproxy.Prelude.{refl, true, some, [], ◌∷◌}
use nfproxy.Go.{from_lib, eexist, enoent}
use nfproxy.Go.Total.{Ends}
use nfproxy.External.{ipv4}
use nfproxy.Nftables.Base.{si_for_table_family, nodeport_set}
use nfproxy.Nftables.Sets.{
  add_to_set, remove_from_set, add_to_nodeport_set, remove_from_nodeport_set,
}
use nfproxy.Nftables.Sets.Laws.{Forgives, set_elements-Forgive, nodeport_elements-Forgive}
use nfproxy.Nftables.Program.{all_some, program_service_endpoints}
use nfproxy.Nftables.Runs.{AreProgrammed, program_service_endpoints-Ends}
use nfproxy.Tests.{counting, interface, ep_rule}

set_elements-Forgive_example :
    Forgives
      (from_lib eexist)
      (counting.sets_add_elements (si_for_table_family interface ipv4) "cluster-ip" (1 ∷ []) 0).0
      (add_to_set counting interface ipv4 "TCP" "10.0.0.1" 80 "cluster-ip" "chain" 0).0
    × Forgives
        (from_lib enoent)
        (counting.sets_del_elements (si_for_table_family interface ipv4) "cluster-ip" (1 ∷ []) 0).0
        (remove_from_set counting interface ipv4 "TCP" "10.0.0.1" 80 "cluster-ip" "chain" 0).0
set_elements-Forgive_example =
    set_elements-Forgive counting interface ipv4 "TCP" "10.0.0.1" 80 "cluster-ip" "chain" 1 0 refl

nodeport_elements-Forgive_example :
    Forgives
      (from_lib eexist)
      (counting.sets_add_elements (si_for_table_family interface ipv4) nodeport_set (1 ∷ []) 0).0
      (add_to_nodeport_set counting interface ipv4 "TCP" 30080 "chain" 0).0
    × Forgives
        (from_lib enoent)
        (counting.sets_del_elements (si_for_table_family interface ipv4) nodeport_set (1 ∷ []) 0).0
        (remove_from_nodeport_set counting interface ipv4 "TCP" 30080 "chain" 0).0
nodeport_elements-Forgive_example =
    nodeport_elements-Forgive counting interface ipv4 "TCP" 30080 "chain" 1 0 refl

-- A chain with affinity that holds three rules gets two new ones.
program_service_endpoints-Ends_example : Ends (AreProgrammed counting true (4 ∷ 5 ∷ 6 ∷ [])) (
    program_service_endpoints counting interface ipv4 "id"
      (some (ep_rule 0) ∷ some (ep_rule 1) ∷ [])
      (4 ∷ 5 ∷ 6 ∷ [])
      true
      "web"
      9)
unfolding all_some
program_service_endpoints-Ends_example =
    program_service_endpoints-Ends counting interface ipv4 "id"
      (some (ep_rule 0) ∷ some (ep_rule 1) ∷ []) (ep_rule 0 ∷ ep_rule 1 ∷ []) (4 ∷ 5 ∷ 6 ∷ []) true
      "web" 9 refl refl
