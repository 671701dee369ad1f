-- ===== src/Tests/Changes.antt =====
-- addEndpoint and deleteEndpoint at concrete inputs.
use nfproxy.Prelude.{
  ℕ, zero, suc, String, ◌≡◌, ◌⊎◌, refl, sym, subst, true, false, none, some, Option, List, [], ◌∷◌,
  ◌++◌, get_elem?, insert,
}
use nfproxy.Go.{⊤, Result, ok, err, is_ok}
use nfproxy.External.{ipv4, family_Eq}
use nfproxy.Nftables.Types.{EpRule}
use nfproxy.Proxy.Endpoint.{EndpointInfo, endpoint_equal}
use nfproxy.Proxy.State.{Proxy, endpoints_of, new_proxy}
use nfproxy.Proxy.Endpoints.{add_endpoint, delete_endpoint, remove_at}
use nfproxy.Proxy.Endpoints.Effects.{endpoint_for, family_of, add_endpoint-append}
use nfproxy.Proxy.Endpoints.Deletion.{delete_endpoint-removes}
use nfproxy.Tests.{counting, interface, http_name, http_port, address, ep_rule}

abbrev info_of : String → EndpointInfo
info_of ip = record (endpoint_for counting (address ip) http_port "node") {
  rule = (ipv4, ep_rule 0) ∷ [];
}

-- Two endpoints of a service port that is not known.
abbrev two : Proxy ℕ
two = record {
  hostname = "node";
  nfti = interface;
  kernel = 0;
  service_map = [];
  endpoints_map = (http_name, info_of "10.1.0.1" ∷ info_of "10.1.0.2" ∷ []) ∷ [];
  cache = record { svc_cache = some []; ep_cache = some []; epsl_cache = none };
}

abbrev state_of : Option (Result ⊤ × Proxy ℕ) → Proxy ℕ
state_of none = two
state_of (some (_, q)) = q

abbrev both : List EndpointInfo
both = info_of "10.1.0.1" ∷ info_of "10.1.0.2" ∷ []

abbrev one_left : Proxy ℕ
one_left = state_of (delete_endpoint counting http_name (address "10.1.0.1") http_port both two)

deletion_run :
    delete_endpoint counting http_name (address "10.1.0.1") http_port both two
    ≡ some (ok tt, one_left)
unfolding nfproxy.Go.Act.deref nfproxy.Go.Act.for_each nfproxy.Go.Act.gets nfproxy.Go.Act.if_ok
    nfproxy.Go.Act.if_some nfproxy.Go.Act.modify nfproxy.Go.Act.on_ok nfproxy.Go.Act.panic
    nfproxy.Go.Act.pure nfproxy.Go.Act.run nfproxy.Go.Act.when nfproxy.Go.Act.◌>>=◌
    nfproxy.Go.Exec.for_each nfproxy.Nftables.Base.proto_byte_from_v1_proto
    nfproxy.Nftables.Chains.add_service_chains nfproxy.Nftables.Chains.create_rules
    nfproxy.Nftables.Chains.delete_chain_rules nfproxy.Nftables.Chains.delete_service_rules
    nfproxy.Nftables.Chains.program_chain_rules nfproxy.Nftables.Program.add_service_match_act_rule
    nfproxy.Nftables.Program.affinity_rules nfproxy.Nftables.Program.all_some
    nfproxy.Nftables.Program.place_rules nfproxy.Nftables.Program.program_service_endpoints
    nfproxy.Nftables.Rules.add_endpoint_rules nfproxy.Nftables.Rules.add_endpoint_update_rule
    nfproxy.Nftables.Rules.affinity_actions nfproxy.Nftables.Sets.add_service_affinity_map
    nfproxy.Nftables.Sets.add_to_nodeport_set nfproxy.Nftables.Sets.add_to_set
    nfproxy.Nftables.Sets.remove_from_set nfproxy.Nftables.Types.get_svc_chain
    nfproxy.Prelude.insert nfproxy.Prelude.lookup nfproxy.Proxy.Cache.find
    nfproxy.Proxy.Cache.get_last_known_ep_from_cache
    nfproxy.Proxy.Cache.get_last_known_svc_from_cache nfproxy.Proxy.Cache.put
    nfproxy.Proxy.Cache.remove nfproxy.Proxy.Cache.store_ep_in_cache
    nfproxy.Proxy.Cache.store_svc_in_cache nfproxy.Proxy.Endpoint.filter_topology_endpoint
    nfproxy.Proxy.Endpoint.new_endpoint_info nfproxy.Proxy.Endpoints.Handlers.add_each
    nfproxy.Proxy.Endpoints.Handlers.add_endpoints nfproxy.Proxy.Endpoints.Subsets.process_addresses
    nfproxy.Proxy.Endpoints.Subsets.process_ep_subsets nfproxy.Proxy.Endpoints.Subsets.process_ports
    nfproxy.Proxy.Endpoints.Subsets.process_subsets nfproxy.Proxy.Endpoints.add_endpoint
    nfproxy.Proxy.Endpoints.add_endpoint_rules nfproxy.Proxy.Invariant.Events.handle
    nfproxy.Proxy.Service.new_base_service_info nfproxy.Proxy.Service.new_service_info
    nfproxy.Proxy.Services.Handlers.add_service nfproxy.Proxy.Services.Handlers.change_service
    nfproxy.Proxy.Services.add_affinity nfproxy.Proxy.Services.add_new_service_port
    nfproxy.Proxy.Services.add_service_port nfproxy.Proxy.Sets.add_service_port_to_sets
    nfproxy.Proxy.Sets.add_to_no_endpoints_list nfproxy.Proxy.Sets.remove_from_no_endpoints_list
    nfproxy.Proxy.State.cache_act nfproxy.Proxy.State.kernel_act nfproxy.Proxy.State.kernel_call
    nfproxy.Proxy.State.new_proxy nfproxy.Proxy.State.set_cache nfproxy.Proxy.State.set_endpoints
    nfproxy.Proxy.State.set_service nfproxy.Proxy.Tools.find_port nfproxy.Proxy.Tools.get_ip_family
    nfproxy.Proxy.Tools.is_port_at_addresses nfproxy.Proxy.Tools.is_port_in_endpoint_slice
    nfproxy.Proxy.Tools.is_port_in_endpoints nfproxy.Proxy.Tools.is_port_in_ports
    nfproxy.Proxy.Tools.is_port_in_subset nfproxy.Proxy.Tools.is_port_of_endpoint
    nfproxy.Proxy.Tools.is_service_port_in_ports nfproxy.Proxy.Tools.is_string_in_slice
    nfproxy.Proxy.Update.chain_rule nfproxy.Proxy.Update.endpoint_chains
    nfproxy.Proxy.Update.mark_endpoints nfproxy.Proxy.Update.program_endpoints
    nfproxy.Proxy.Update.set_rule_id nfproxy.Proxy.Update.update_known_chain
    nfproxy.Proxy.Update.update_service_chain nfproxy.Nftables.Program.replace_rules
    nfproxy.Nftables.Program.replace_rule nfproxy.Proxy.Endpoints.delete_endpoint
    nfproxy.Proxy.Endpoints.delete_loop nfproxy.Proxy.Endpoints.delete_at
    nfproxy.Proxy.Endpoints.delete_endpoint_rules nfproxy.Nftables.Chains.delete_endpoint_rules
    nfproxy.Nftables.Chains.delete_chain
deletion_run = refl

both_there : endpoints_of http_name two ≡ both
unfolding nfproxy.Prelude.lookup
both_there = refl

not_second :
    endpoint_equal
        (info_of "10.1.0.2")
        (endpoint_for counting (address "10.1.0.1") http_port "node")
      ≡ true
    → ⊥
unfolding nfproxy.Proxy.Endpoint.new_endpoint_info nfproxy.Proxy.Tools.get_ip_family
not_second h = cc h

unsome : {A : Type 0} (a b : A) → some a ≡ some b → a ≡ b
unsome a b h = cc h

only_first :
    (j : ℕ) (x : EndpointInfo)
    → get_elem? both j ≡ some x
    → endpoint_equal x (endpoint_for counting (address "10.1.0.1") http_port "node") ≡ true
    → j ≡ 0
only_first zero x at same = refl
only_first (suc zero) x at same = absurd (
    not_second (
      subst
        (λ (y : EndpointInfo).
          endpoint_equal y (endpoint_for counting (address "10.1.0.1") http_port "node") ≡ true)
        (sym (unsome (info_of "10.1.0.2") x at)) same))
only_first (suc (suc j)) x at same = cc at

delete_endpoint-removes_example :
    endpoints_of http_name one_left ≡ remove_at 0 (endpoints_of http_name two)
unfolding nfproxy.Prelude.lookup nfproxy.Proxy.Endpoint.new_endpoint_info
    nfproxy.Proxy.Tools.get_ip_family
delete_endpoint-removes_example =
    delete_endpoint-removes counting http_name (address "10.1.0.1") http_port two one_left 0
      (info_of "10.1.0.1") refl refl only_first deletion_run

abbrev three : Proxy ℕ
three = state_of (add_endpoint counting http_name (address "10.1.0.3") http_port two)

addition_run :
    add_endpoint counting http_name (address "10.1.0.3") http_port two ≡ some (ok tt, three)
unfolding nfproxy.Go.Act.deref nfproxy.Go.Act.for_each nfproxy.Go.Act.gets nfproxy.Go.Act.if_ok
    nfproxy.Go.Act.if_some nfproxy.Go.Act.modify nfproxy.Go.Act.on_ok nfproxy.Go.Act.panic
    nfproxy.Go.Act.pure nfproxy.Go.Act.run nfproxy.Go.Act.when nfproxy.Go.Act.◌>>=◌
    nfproxy.Go.Exec.for_each nfproxy.Nftables.Base.proto_byte_from_v1_proto
    nfproxy.Nftables.Chains.add_service_chains nfproxy.Nftables.Chains.create_rules
    nfproxy.Nftables.Chains.delete_chain_rules nfproxy.Nftables.Chains.delete_service_rules
    nfproxy.Nftables.Chains.program_chain_rules nfproxy.Nftables.Program.add_service_match_act_rule
    nfproxy.Nftables.Program.affinity_rules nfproxy.Nftables.Program.all_some
    nfproxy.Nftables.Program.place_rules nfproxy.Nftables.Program.program_service_endpoints
    nfproxy.Nftables.Rules.add_endpoint_rules nfproxy.Nftables.Rules.add_endpoint_update_rule
    nfproxy.Nftables.Rules.affinity_actions nfproxy.Nftables.Sets.add_service_affinity_map
    nfproxy.Nftables.Sets.add_to_nodeport_set nfproxy.Nftables.Sets.add_to_set
    nfproxy.Nftables.Sets.remove_from_set nfproxy.Nftables.Types.get_svc_chain
    nfproxy.Prelude.insert nfproxy.Prelude.lookup nfproxy.Proxy.Cache.find
    nfproxy.Proxy.Cache.get_last_known_ep_from_cache
    nfproxy.Proxy.Cache.get_last_known_svc_from_cache nfproxy.Proxy.Cache.put
    nfproxy.Proxy.Cache.remove nfproxy.Proxy.Cache.store_ep_in_cache
    nfproxy.Proxy.Cache.store_svc_in_cache nfproxy.Proxy.Endpoint.filter_topology_endpoint
    nfproxy.Proxy.Endpoint.new_endpoint_info nfproxy.Proxy.Endpoints.Handlers.add_each
    nfproxy.Proxy.Endpoints.Handlers.add_endpoints nfproxy.Proxy.Endpoints.Subsets.process_addresses
    nfproxy.Proxy.Endpoints.Subsets.process_ep_subsets nfproxy.Proxy.Endpoints.Subsets.process_ports
    nfproxy.Proxy.Endpoints.Subsets.process_subsets nfproxy.Proxy.Endpoints.add_endpoint
    nfproxy.Proxy.Endpoints.add_endpoint_rules nfproxy.Proxy.Invariant.Events.handle
    nfproxy.Proxy.Service.new_base_service_info nfproxy.Proxy.Service.new_service_info
    nfproxy.Proxy.Services.Handlers.add_service nfproxy.Proxy.Services.Handlers.change_service
    nfproxy.Proxy.Services.add_affinity nfproxy.Proxy.Services.add_new_service_port
    nfproxy.Proxy.Services.add_service_port nfproxy.Proxy.Sets.add_service_port_to_sets
    nfproxy.Proxy.Sets.add_to_no_endpoints_list nfproxy.Proxy.Sets.remove_from_no_endpoints_list
    nfproxy.Proxy.State.cache_act nfproxy.Proxy.State.kernel_act nfproxy.Proxy.State.kernel_call
    nfproxy.Proxy.State.new_proxy nfproxy.Proxy.State.set_cache nfproxy.Proxy.State.set_endpoints
    nfproxy.Proxy.State.set_service nfproxy.Proxy.Tools.find_port nfproxy.Proxy.Tools.get_ip_family
    nfproxy.Proxy.Tools.is_port_at_addresses nfproxy.Proxy.Tools.is_port_in_endpoint_slice
    nfproxy.Proxy.Tools.is_port_in_endpoints nfproxy.Proxy.Tools.is_port_in_ports
    nfproxy.Proxy.Tools.is_port_in_subset nfproxy.Proxy.Tools.is_port_of_endpoint
    nfproxy.Proxy.Tools.is_service_port_in_ports nfproxy.Proxy.Tools.is_string_in_slice
    nfproxy.Proxy.Update.chain_rule nfproxy.Proxy.Update.endpoint_chains
    nfproxy.Proxy.Update.mark_endpoints nfproxy.Proxy.Update.program_endpoints
    nfproxy.Proxy.Update.set_rule_id nfproxy.Proxy.Update.update_known_chain
    nfproxy.Proxy.Update.update_service_chain nfproxy.Nftables.Program.replace_rules
    nfproxy.Nftables.Program.replace_rule nfproxy.Proxy.Endpoints.delete_endpoint
    nfproxy.Proxy.Endpoints.delete_loop nfproxy.Proxy.Endpoints.delete_at
    nfproxy.Proxy.Endpoints.delete_endpoint_rules nfproxy.Nftables.Chains.delete_endpoint_rules
    nfproxy.Nftables.Chains.delete_chain
addition_run = refl

add_endpoint-append_example :
    ((rule : EpRule) × (endpoints_of http_name three
        ≡ endpoints_of http_name two
          ++ record (endpoint_for counting (address "10.1.0.3") http_port "node") {
            rule = insert (family_of counting (address "10.1.0.3") http_port "node") rule [];
          }
            ∷ []))
    ⊎ ((endpoints_of http_name three ≡ endpoints_of http_name two)
        × (is_ok {A = ⊤} (ok tt) ≡ false))
add_endpoint-append_example =
    add_endpoint-append counting http_name (address "10.1.0.3") http_port two three (ok tt)
      addition_run
