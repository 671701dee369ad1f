-- ===== src/Tests/Isolation.antt =====
-- Operations on one service port at concrete inputs, and what they leave of another.
use nfproxy.Prelude.{
  ℕ, String, ◌≡◌, refl, Bool, true, false, none, some, Option, List, [], ◌∷◌, lookup,
}
use nfproxy.Go.{⊤, Result, ok, err}
use nfproxy.External.{family_Eq}
use nfproxy.Nftables.Base.{svc_chain}
use nfproxy.Nftables.Types.{ChainRule, SvcNft}
use nfproxy.Proxy.Types.{port_name_Eq}
use nfproxy.Proxy.State.{Proxy, service_of, endpoints_of}
use nfproxy.Proxy.Service.{BaseServiceInfo, ServiceInfo, empty_svcnft}
use nfproxy.Proxy.Services.{add_service_port, delete_service_port}
use nfproxy.Proxy.Endpoints.{add_endpoint, delete_endpoint}
use nfproxy.Proxy.Isolation.Endpoints.{add_endpoint-others, delete_endpoint-others}
use nfproxy.Proxy.Isolation.Services.{add_service_port-others, delete_service_port-others}
use nfproxy.Tests.{counting, service, http, address, http_port, http_name, https_name, fresh}

abbrev http_base : BaseServiceInfo
http_base = record {
  svc_name = "web";
  svc_namespace = "shop";
  ip_family = "IPv4";
  cluster_ip = 10 ∷ [];
  port = 80;
  protocol = "TCP";
  node_port = 0;
  load_balancer_status = [];
  session_affinity_type = "None";
  sticky_max_age_seconds = 0;
  external_ips = [];
  load_balancer_source_ranges = [];
  health_check_node_port = 0;
  only_node_local_endpoints = false;
  svcnft = empty_svcnft;
}

-- The state in which an action ends, or the one that it started in if there was a panic.
abbrev end_of : {A : Type 0} → Option (A × Proxy ℕ) → Proxy ℕ → Proxy ℕ
end_of none p = p
end_of (some (_, q)) p = q

abbrev added : Proxy ℕ
added =
    end_of (add_service_port counting http_name http (service (http ∷ [])) http_base fresh) fresh

added_runs :
    add_service_port counting http_name http (service (http ∷ [])) http_base fresh
    ≡ some (tt, added)
unfolding nfproxy.Go.Act.deref nfproxy.Go.Act.for_each nfproxy.Go.Act.gets nfproxy.Go.Act.if_ok
    nfproxy.Go.Act.if_some nfproxy.Go.Act.modify nfproxy.Go.Act.on_ok nfproxy.Go.Act.panic
    nfproxy.Go.Act.pure nfproxy.Go.Act.run nfproxy.Go.Act.when nfproxy.Go.Act.◌>>=◌
    nfproxy.Go.Exec.for_each nfproxy.Nftables.Base.proto_byte_from_v1_proto
    nfproxy.Nftables.Chains.add_service_chains nfproxy.Nftables.Chains.create_rules
    nfproxy.Nftables.Chains.delete_chain_rules nfproxy.Nftables.Chains.delete_service_rules
    nfproxy.Nftables.Chains.program_chain_rules nfproxy.Nftables.Program.add_service_match_act_rule
    nfproxy.Nftables.Program.affinity_rules nfproxy.Nftables.Program.all_some
    nfproxy.Nftables.Program.place_rules nfproxy.Nftables.Program.program_service_endpoints
    nfproxy.Nftables.Rules.add_endpoint_rules nfproxy.Nftables.Rules.add_endpoint_update_rule
    nfproxy.Nftables.Rules.affinity_actions nfproxy.Nftables.Sets.add_service_affinity_map
    nfproxy.Nftables.Sets.add_to_nodeport_set nfproxy.Nftables.Sets.add_to_set
    nfproxy.Nftables.Sets.remove_from_set nfproxy.Nftables.Types.get_svc_chain
    nfproxy.Prelude.insert nfproxy.Prelude.lookup nfproxy.Proxy.Cache.find
    nfproxy.Proxy.Cache.get_last_known_ep_from_cache
    nfproxy.Proxy.Cache.get_last_known_svc_from_cache nfproxy.Proxy.Cache.put
    nfproxy.Proxy.Cache.remove nfproxy.Proxy.Cache.store_ep_in_cache
    nfproxy.Proxy.Cache.store_svc_in_cache nfproxy.Proxy.Endpoint.filter_topology_endpoint
    nfproxy.Proxy.Endpoint.new_endpoint_info nfproxy.Proxy.Endpoints.Handlers.add_each
    nfproxy.Proxy.Endpoints.Handlers.add_endpoints nfproxy.Proxy.Endpoints.Subsets.process_addresses
    nfproxy.Proxy.Endpoints.Subsets.process_ep_subsets nfproxy.Proxy.Endpoints.Subsets.process_ports
    nfproxy.Proxy.Endpoints.Subsets.process_subsets nfproxy.Proxy.Endpoints.add_endpoint
    nfproxy.Proxy.Endpoints.add_endpoint_rules nfproxy.Proxy.Invariant.Events.handle
    nfproxy.Proxy.Service.new_base_service_info nfproxy.Proxy.Service.new_service_info
    nfproxy.Proxy.Services.Handlers.add_service nfproxy.Proxy.Services.Handlers.change_service
    nfproxy.Proxy.Services.add_affinity nfproxy.Proxy.Services.add_new_service_port
    nfproxy.Proxy.Services.add_service_port nfproxy.Proxy.Sets.add_service_port_to_sets
    nfproxy.Proxy.Sets.add_to_no_endpoints_list nfproxy.Proxy.Sets.remove_from_no_endpoints_list
    nfproxy.Proxy.State.cache_act nfproxy.Proxy.State.kernel_act nfproxy.Proxy.State.kernel_call
    nfproxy.Proxy.State.new_proxy nfproxy.Proxy.State.set_cache nfproxy.Proxy.State.set_endpoints
    nfproxy.Proxy.State.set_service nfproxy.Proxy.Tools.find_port nfproxy.Proxy.Tools.get_ip_family
    nfproxy.Proxy.Tools.is_port_at_addresses nfproxy.Proxy.Tools.is_port_in_endpoint_slice
    nfproxy.Proxy.Tools.is_port_in_endpoints nfproxy.Proxy.Tools.is_port_in_ports
    nfproxy.Proxy.Tools.is_port_in_subset nfproxy.Proxy.Tools.is_port_of_endpoint
    nfproxy.Proxy.Tools.is_service_port_in_ports nfproxy.Proxy.Tools.is_string_in_slice
    nfproxy.Proxy.Update.chain_rule nfproxy.Proxy.Update.endpoint_chains
    nfproxy.Proxy.Update.mark_endpoints nfproxy.Proxy.Update.program_endpoints
    nfproxy.Proxy.Update.set_rule_id nfproxy.Proxy.Update.update_known_chain
    nfproxy.Proxy.Update.update_service_chain nfproxy.Nftables.Program.replace_rules
    nfproxy.Nftables.Program.replace_rule
added_runs = refl

add_service_port-others_example :
    (service_of https_name added ≡ service_of https_name fresh)
    × (lookup https_name added.endpoints_map ≡ lookup https_name fresh.endpoints_map)
add_service_port-others_example =
    add_service_port-others counting http_name https_name http (service (http ∷ [])) http_base fresh
      added tt refl added_runs

abbrev with_endpoint : Proxy ℕ
with_endpoint = end_of (add_endpoint counting http_name (address "10.1.0.1") http_port added) added

endpoint_runs :
    add_endpoint counting http_name (address "10.1.0.1") http_port added
    ≡ some (ok tt, with_endpoint)
unfolding nfproxy.Go.Act.deref nfproxy.Go.Act.for_each nfproxy.Go.Act.gets nfproxy.Go.Act.if_ok
    nfproxy.Go.Act.if_some nfproxy.Go.Act.modify nfproxy.Go.Act.on_ok nfproxy.Go.Act.panic
    nfproxy.Go.Act.pure nfproxy.Go.Act.run nfproxy.Go.Act.when nfproxy.Go.Act.◌>>=◌
    nfproxy.Go.Exec.for_each nfproxy.Nftables.Base.proto_byte_from_v1_proto
    nfproxy.Nftables.Chains.add_service_chains nfproxy.Nftables.Chains.create_rules
    nfproxy.Nftables.Chains.delete_chain_rules nfproxy.Nftables.Chains.delete_service_rules
    nfproxy.Nftables.Chains.program_chain_rules nfproxy.Nftables.Program.add_service_match_act_rule
    nfproxy.Nftables.Program.affinity_rules nfproxy.Nftables.Program.all_some
    nfproxy.Nftables.Program.place_rules nfproxy.Nftables.Program.program_service_endpoints
    nfproxy.Nftables.Rules.add_endpoint_rules nfproxy.Nftables.Rules.add_endpoint_update_rule
    nfproxy.Nftables.Rules.affinity_actions nfproxy.Nftables.Sets.add_service_affinity_map
    nfproxy.Nftables.Sets.add_to_nodeport_set nfproxy.Nftables.Sets.add_to_set
    nfproxy.Nftables.Sets.remove_from_set nfproxy.Nftables.Types.get_svc_chain
    nfproxy.Prelude.insert nfproxy.Prelude.lookup nfproxy.Proxy.Cache.find
    nfproxy.Proxy.Cache.get_last_known_ep_from_cache
    nfproxy.Proxy.Cache.get_last_known_svc_from_cache nfproxy.Proxy.Cache.put
    nfproxy.Proxy.Cache.remove nfproxy.Proxy.Cache.store_ep_in_cache
    nfproxy.Proxy.Cache.store_svc_in_cache nfproxy.Proxy.Endpoint.filter_topology_endpoint
    nfproxy.Proxy.Endpoint.new_endpoint_info nfproxy.Proxy.Endpoints.Handlers.add_each
    nfproxy.Proxy.Endpoints.Handlers.add_endpoints nfproxy.Proxy.Endpoints.Subsets.process_addresses
    nfproxy.Proxy.Endpoints.Subsets.process_ep_subsets nfproxy.Proxy.Endpoints.Subsets.process_ports
    nfproxy.Proxy.Endpoints.Subsets.process_subsets nfproxy.Proxy.Endpoints.add_endpoint
    nfproxy.Proxy.Endpoints.add_endpoint_rules nfproxy.Proxy.Invariant.Events.handle
    nfproxy.Proxy.Service.new_base_service_info nfproxy.Proxy.Service.new_service_info
    nfproxy.Proxy.Services.Handlers.add_service nfproxy.Proxy.Services.Handlers.change_service
    nfproxy.Proxy.Services.add_affinity nfproxy.Proxy.Services.add_new_service_port
    nfproxy.Proxy.Services.add_service_port nfproxy.Proxy.Sets.add_service_port_to_sets
    nfproxy.Proxy.Sets.add_to_no_endpoints_list nfproxy.Proxy.Sets.remove_from_no_endpoints_list
    nfproxy.Proxy.State.cache_act nfproxy.Proxy.State.kernel_act nfproxy.Proxy.State.kernel_call
    nfproxy.Proxy.State.new_proxy nfproxy.Proxy.State.set_cache nfproxy.Proxy.State.set_endpoints
    nfproxy.Proxy.State.set_service nfproxy.Proxy.Tools.find_port nfproxy.Proxy.Tools.get_ip_family
    nfproxy.Proxy.Tools.is_port_at_addresses nfproxy.Proxy.Tools.is_port_in_endpoint_slice
    nfproxy.Proxy.Tools.is_port_in_endpoints nfproxy.Proxy.Tools.is_port_in_ports
    nfproxy.Proxy.Tools.is_port_in_subset nfproxy.Proxy.Tools.is_port_of_endpoint
    nfproxy.Proxy.Tools.is_service_port_in_ports nfproxy.Proxy.Tools.is_string_in_slice
    nfproxy.Proxy.Update.chain_rule nfproxy.Proxy.Update.endpoint_chains
    nfproxy.Proxy.Update.mark_endpoints nfproxy.Proxy.Update.program_endpoints
    nfproxy.Proxy.Update.set_rule_id nfproxy.Proxy.Update.update_known_chain
    nfproxy.Proxy.Update.update_service_chain nfproxy.Nftables.Program.replace_rules
    nfproxy.Nftables.Program.replace_rule
endpoint_runs = refl

add_endpoint-others_example :
    (service_of https_name with_endpoint ≡ service_of https_name added)
    × (lookup https_name with_endpoint.endpoints_map ≡ lookup https_name added.endpoints_map)
add_endpoint-others_example =
    add_endpoint-others counting http_name https_name (address "10.1.0.1") http_port added
      with_endpoint (ok tt) refl endpoint_runs

abbrev without_endpoint : Proxy ℕ
without_endpoint =
    end_of
      (delete_endpoint counting http_name (address "10.1.0.1") http_port
        (endpoints_of http_name with_endpoint) with_endpoint)
      with_endpoint

delete_endpoint_runs :
    delete_endpoint counting http_name
      (address "10.1.0.1")
      http_port
      (endpoints_of http_name with_endpoint)
      with_endpoint
    ≡ some (ok tt, without_endpoint)
unfolding nfproxy.Go.Act.deref nfproxy.Go.Act.for_each nfproxy.Go.Act.gets nfproxy.Go.Act.if_ok
    nfproxy.Go.Act.if_some nfproxy.Go.Act.modify nfproxy.Go.Act.on_ok nfproxy.Go.Act.panic
    nfproxy.Go.Act.pure nfproxy.Go.Act.run nfproxy.Go.Act.when nfproxy.Go.Act.◌>>=◌
    nfproxy.Go.Exec.for_each nfproxy.Nftables.Base.proto_byte_from_v1_proto
    nfproxy.Nftables.Chains.add_service_chains nfproxy.Nftables.Chains.create_rules
    nfproxy.Nftables.Chains.delete_chain_rules nfproxy.Nftables.Chains.delete_service_rules
    nfproxy.Nftables.Chains.program_chain_rules nfproxy.Nftables.Program.add_service_match_act_rule
    nfproxy.Nftables.Program.affinity_rules nfproxy.Nftables.Program.all_some
    nfproxy.Nftables.Program.place_rules nfproxy.Nftables.Program.program_service_endpoints
    nfproxy.Nftables.Rules.add_endpoint_rules nfproxy.Nftables.Rules.add_endpoint_update_rule
    nfproxy.Nftables.Rules.affinity_actions nfproxy.Nftables.Sets.add_service_affinity_map
    nfproxy.Nftables.Sets.add_to_nodeport_set nfproxy.Nftables.Sets.add_to_set
    nfproxy.Nftables.Sets.remove_from_set nfproxy.Nftables.Types.get_svc_chain
    nfproxy.Prelude.insert nfproxy.Prelude.lookup nfproxy.Proxy.Cache.find
    nfproxy.Proxy.Cache.get_last_known_ep_from_cache
    nfproxy.Proxy.Cache.get_last_known_svc_from_cache nfproxy.Proxy.Cache.put
    nfproxy.Proxy.Cache.remove nfproxy.Proxy.Cache.store_ep_in_cache
    nfproxy.Proxy.Cache.store_svc_in_cache nfproxy.Proxy.Endpoint.filter_topology_endpoint
    nfproxy.Proxy.Endpoint.new_endpoint_info nfproxy.Proxy.Endpoints.Handlers.add_each
    nfproxy.Proxy.Endpoints.Handlers.add_endpoints nfproxy.Proxy.Endpoints.Subsets.process_addresses
    nfproxy.Proxy.Endpoints.Subsets.process_ep_subsets nfproxy.Proxy.Endpoints.Subsets.process_ports
    nfproxy.Proxy.Endpoints.Subsets.process_subsets nfproxy.Proxy.Endpoints.add_endpoint
    nfproxy.Proxy.Endpoints.add_endpoint_rules nfproxy.Proxy.Invariant.Events.handle
    nfproxy.Proxy.Service.new_base_service_info nfproxy.Proxy.Service.new_service_info
    nfproxy.Proxy.Services.Handlers.add_service nfproxy.Proxy.Services.Handlers.change_service
    nfproxy.Proxy.Services.add_affinity nfproxy.Proxy.Services.add_new_service_port
    nfproxy.Proxy.Services.add_service_port nfproxy.Proxy.Sets.add_service_port_to_sets
    nfproxy.Proxy.Sets.add_to_no_endpoints_list nfproxy.Proxy.Sets.remove_from_no_endpoints_list
    nfproxy.Proxy.State.cache_act nfproxy.Proxy.State.kernel_act nfproxy.Proxy.State.kernel_call
    nfproxy.Proxy.State.new_proxy nfproxy.Proxy.State.set_cache nfproxy.Proxy.State.set_endpoints
    nfproxy.Proxy.State.set_service nfproxy.Proxy.Tools.find_port nfproxy.Proxy.Tools.get_ip_family
    nfproxy.Proxy.Tools.is_port_at_addresses nfproxy.Proxy.Tools.is_port_in_endpoint_slice
    nfproxy.Proxy.Tools.is_port_in_endpoints nfproxy.Proxy.Tools.is_port_in_ports
    nfproxy.Proxy.Tools.is_port_in_subset nfproxy.Proxy.Tools.is_port_of_endpoint
    nfproxy.Proxy.Tools.is_service_port_in_ports nfproxy.Proxy.Tools.is_string_in_slice
    nfproxy.Proxy.Update.chain_rule nfproxy.Proxy.Update.endpoint_chains
    nfproxy.Proxy.Update.mark_endpoints nfproxy.Proxy.Update.program_endpoints
    nfproxy.Proxy.Update.set_rule_id nfproxy.Proxy.Update.update_known_chain
    nfproxy.Proxy.Update.update_service_chain nfproxy.Nftables.Program.replace_rules
    nfproxy.Nftables.Program.replace_rule nfproxy.Proxy.Endpoints.delete_endpoint
    nfproxy.Proxy.Endpoints.delete_loop nfproxy.Proxy.Endpoints.delete_at
    nfproxy.Proxy.Endpoints.delete_endpoint_rules nfproxy.Nftables.Chains.delete_endpoint_rules
    nfproxy.Nftables.Chains.delete_chain nfproxy.Proxy.State.drop_endpoints nfproxy.Prelude.erase
delete_endpoint_runs = refl

delete_endpoint-others_example :
    (service_of https_name without_endpoint ≡ service_of https_name with_endpoint)
    × (lookup https_name without_endpoint.endpoints_map
        ≡ lookup https_name with_endpoint.endpoints_map)
delete_endpoint-others_example =
    delete_endpoint-others counting http_name https_name (address "10.1.0.1") http_port
      (endpoints_of http_name with_endpoint) with_endpoint without_endpoint (ok tt) refl
      delete_endpoint_runs

abbrev removed : Proxy ℕ
removed = end_of (delete_service_port counting http_name with_endpoint) with_endpoint

removed_runs : delete_service_port counting http_name with_endpoint ≡ some (tt, removed)
unfolding nfproxy.Go.Act.deref nfproxy.Go.Act.for_each nfproxy.Go.Act.gets nfproxy.Go.Act.if_ok
    nfproxy.Go.Act.if_some nfproxy.Go.Act.modify nfproxy.Go.Act.on_ok nfproxy.Go.Act.panic
    nfproxy.Go.Act.pure nfproxy.Go.Act.run nfproxy.Go.Act.when nfproxy.Go.Act.◌>>=◌
    nfproxy.Go.Exec.for_each nfproxy.Nftables.Base.proto_byte_from_v1_proto
    nfproxy.Nftables.Chains.add_service_chains nfproxy.Nftables.Chains.create_rules
    nfproxy.Nftables.Chains.delete_chain_rules nfproxy.Nftables.Chains.delete_service_rules
    nfproxy.Nftables.Chains.program_chain_rules nfproxy.Nftables.Program.add_service_match_act_rule
    nfproxy.Nftables.Program.affinity_rules nfproxy.Nftables.Program.all_some
    nfproxy.Nftables.Program.place_rules nfproxy.Nftables.Program.program_service_endpoints
    nfproxy.Nftables.Rules.add_endpoint_rules nfproxy.Nftables.Rules.add_endpoint_update_rule
    nfproxy.Nftables.Rules.affinity_actions nfproxy.Nftables.Sets.add_service_affinity_map
    nfproxy.Nftables.Sets.add_to_nodeport_set nfproxy.Nftables.Sets.add_to_set
    nfproxy.Nftables.Sets.remove_from_set nfproxy.Nftables.Types.get_svc_chain
    nfproxy.Prelude.insert nfproxy.Prelude.lookup nfproxy.Proxy.Cache.find
    nfproxy.Proxy.Cache.get_last_known_ep_from_cache
    nfproxy.Proxy.Cache.get_last_known_svc_from_cache nfproxy.Proxy.Cache.put
    nfproxy.Proxy.Cache.remove nfproxy.Proxy.Cache.store_ep_in_cache
    nfproxy.Proxy.Cache.store_svc_in_cache nfproxy.Proxy.Endpoint.filter_topology_endpoint
    nfproxy.Proxy.Endpoint.new_endpoint_info nfproxy.Proxy.Endpoints.Handlers.add_each
    nfproxy.Proxy.Endpoints.Handlers.add_endpoints nfproxy.Proxy.Endpoints.Subsets.process_addresses
    nfproxy.Proxy.Endpoints.Subsets.process_ep_subsets nfproxy.Proxy.Endpoints.Subsets.process_ports
    nfproxy.Proxy.Endpoints.Subsets.process_subsets nfproxy.Proxy.Endpoints.add_endpoint
    nfproxy.Proxy.Endpoints.add_endpoint_rules nfproxy.Proxy.Invariant.Events.handle
    nfproxy.Proxy.Service.new_base_service_info nfproxy.Proxy.Service.new_service_info
    nfproxy.Proxy.Services.Handlers.add_service nfproxy.Proxy.Services.Handlers.change_service
    nfproxy.Proxy.Services.add_affinity nfproxy.Proxy.Services.add_new_service_port
    nfproxy.Proxy.Services.add_service_port nfproxy.Proxy.Sets.add_service_port_to_sets
    nfproxy.Proxy.Sets.add_to_no_endpoints_list nfproxy.Proxy.Sets.remove_from_no_endpoints_list
    nfproxy.Proxy.State.cache_act nfproxy.Proxy.State.kernel_act nfproxy.Proxy.State.kernel_call
    nfproxy.Proxy.State.new_proxy nfproxy.Proxy.State.set_cache nfproxy.Proxy.State.set_endpoints
    nfproxy.Proxy.State.set_service nfproxy.Proxy.Tools.find_port nfproxy.Proxy.Tools.get_ip_family
    nfproxy.Proxy.Tools.is_port_at_addresses nfproxy.Proxy.Tools.is_port_in_endpoint_slice
    nfproxy.Proxy.Tools.is_port_in_endpoints nfproxy.Proxy.Tools.is_port_in_ports
    nfproxy.Proxy.Tools.is_port_in_subset nfproxy.Proxy.Tools.is_port_of_endpoint
    nfproxy.Proxy.Tools.is_service_port_in_ports nfproxy.Proxy.Tools.is_string_in_slice
    nfproxy.Proxy.Update.chain_rule nfproxy.Proxy.Update.endpoint_chains
    nfproxy.Proxy.Update.mark_endpoints nfproxy.Proxy.Update.program_endpoints
    nfproxy.Proxy.Update.set_rule_id nfproxy.Proxy.Update.update_known_chain
    nfproxy.Proxy.Update.update_service_chain nfproxy.Nftables.Program.replace_rules
    nfproxy.Nftables.Program.replace_rule nfproxy.Proxy.Services.delete_service_port
    nfproxy.Proxy.Services.delete_known_service_port nfproxy.Proxy.Services.delete_rules_of
    nfproxy.Proxy.Services.delete_affinity nfproxy.Proxy.Sets.remove_service_port_from_sets
    nfproxy.Nftables.Chains.delete_service_chains nfproxy.Proxy.State.drop_service
    nfproxy.Nftables.Sets.remove_from_nodeport_set nfproxy.Prelude.erase
removed_runs = refl

delete_service_port-others_example :
    (service_of https_name removed ≡ service_of https_name with_endpoint)
    × (lookup https_name removed.endpoints_map ≡ lookup https_name with_endpoint.endpoints_map)
delete_service_port-others_example =
    delete_service_port-others counting http_name https_name with_endpoint removed tt refl
      removed_runs
