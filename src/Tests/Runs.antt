-- ===== src/Tests/Runs.antt =====
-- Runs of the handlers at concrete inputs.
use nfproxy.Prelude.{
  ℕ, ◌≡◌, refl, Bool, true, false, none, some, Option, List, [], ◌∷◌, lookup, or_else,
}
use nfproxy.Go.{⊤, Result, ok, err}
use nfproxy.Go.Act.{if_ok}
use nfproxy.Kube.{Service}
use nfproxy.Proxy.Types.{port_name_Eq}
use nfproxy.Proxy.State.{Proxy, cache_act, new_proxy, service_of}
use nfproxy.Proxy.Cache.{
  store_ep_in_cache, get_last_known_svc_from_cache, get_last_known_ep_from_cache, find,
}
use nfproxy.Proxy.Tools.{is_service_port_in_ports, find_port}
use nfproxy.Proxy.Endpoints.Subsets.{process_ep_subsets}
use nfproxy.Proxy.Endpoints.Handlers.{update_endpoints}
use nfproxy.Proxy.Endpoints.Resync.{update_endpoints-resync}
use nfproxy.Proxy.Services.Handlers.{update_service}
use nfproxy.Proxy.Services.Panics.{update_service-Panics}
use nfproxy.Proxy.Invariant.{IsConsistent}
use nfproxy.Proxy.Invariant.Events.{
  Event, service_added, endpoints_added, handle, Reachable, started, handled,
  Reachable-IsConsistent,
}
use nfproxy.Proxy.Stores.Events.{Records, handle-Records}
use nfproxy.External.{Url}
use nfproxy.Proxy.Bootstrap.{bootstrap_rules}
use nfproxy.Proxy.Stores.Bootstrap.{HasApi, bootstrap_rules-HasApi}
use nfproxy.Controller.{handle_add_service}
use nfproxy.Controller.Notify.{notify}
use nfproxy.Controller.Versions.{Mirrors, learn, nothing_known}
use nfproxy.Controller.Services.{Watched, begun, service_seen, Watched-Mirrors}
use nfproxy.Tests.{counting, interface, kube_port, service, http, endpoints, fresh}

update_endpoints-resync_example :
    update_endpoints counting endpoints endpoints fresh
    ≡ if_ok (λ _. cache_act (store_ep_in_cache endpoints)) (process_ep_subsets endpoints) fresh
unfolding new_proxy get_last_known_ep_from_cache find lookup
update_endpoints-resync_example = update_endpoints-resync counting endpoints fresh refl refl

-- A port comes in before "http", and "http" gets a node port.
abbrev grown : Service
grown = service (kube_port "https" 443 0 ∷ kube_port "http" 80 30080 ∷ [])

update_service-Panics_example : update_service counting (service (http ∷ [])) grown fresh ≡ none
unfolding new_proxy get_last_known_svc_from_cache find lookup is_service_port_in_ports find_port
update_service-Panics_example =
    update_service-Panics counting (service (http ∷ [])) grown (service (http ∷ [])) 1 0
      (kube_port "http" 80 30080) http fresh refl refl refl refl refl refl refl

-- The state after an event, or the one before it if there was a panic.
abbrev after : Event → Proxy ℕ → Proxy ℕ
after e p = elim (handle counting e p) [ none ↦ p | some (_, q) ↦ q ]

abbrev with_service : Proxy ℕ
with_service = after (service_added (service (http ∷ []))) fresh

abbrev with_endpoints : Proxy ℕ
with_endpoints = after (endpoints_added endpoints) with_service

service_runs : handle counting (service_added (service (http ∷ []))) fresh ≡ some (tt, with_service)
unfolding nfproxy.Go.Act.deref nfproxy.Go.Act.for_each nfproxy.Go.Act.gets nfproxy.Go.Act.if_ok
    nfproxy.Go.Act.if_some nfproxy.Go.Act.modify nfproxy.Go.Act.on_ok nfproxy.Go.Act.panic
    nfproxy.Go.Act.pure nfproxy.Go.Act.run nfproxy.Go.Act.when nfproxy.Go.Act.◌>>=◌
    nfproxy.Go.Exec.for_each nfproxy.Nftables.Base.proto_byte_from_v1_proto
    nfproxy.Nftables.Chains.add_service_chains nfproxy.Nftables.Chains.create_rules
    nfproxy.Nftables.Chains.delete_chain_rules nfproxy.Nftables.Chains.delete_service_rules
    nfproxy.Nftables.Chains.program_chain_rules nfproxy.Nftables.Program.add_service_match_act_rule
    nfproxy.Nftables.Program.affinity_rules nfproxy.Nftables.Program.all_some
    nfproxy.Nftables.Program.place_rules nfproxy.Nftables.Program.program_service_endpoints
    nfproxy.Nftables.Rules.add_endpoint_rules nfproxy.Nftables.Rules.add_endpoint_update_rule
    nfproxy.Nftables.Rules.affinity_actions nfproxy.Nftables.Sets.add_service_affinity_map
    nfproxy.Nftables.Sets.add_to_nodeport_set nfproxy.Nftables.Sets.add_to_set
    nfproxy.Nftables.Sets.remove_from_set nfproxy.Nftables.Types.get_svc_chain
    nfproxy.Prelude.insert nfproxy.Prelude.lookup nfproxy.Proxy.Cache.find
    nfproxy.Proxy.Cache.get_last_known_ep_from_cache
    nfproxy.Proxy.Cache.get_last_known_svc_from_cache nfproxy.Proxy.Cache.put
    nfproxy.Proxy.Cache.remove nfproxy.Proxy.Cache.store_ep_in_cache
    nfproxy.Proxy.Cache.store_svc_in_cache nfproxy.Proxy.Endpoint.filter_topology_endpoint
    nfproxy.Proxy.Endpoint.new_endpoint_info nfproxy.Proxy.Endpoints.Handlers.add_each
    nfproxy.Proxy.Endpoints.Handlers.add_endpoints nfproxy.Proxy.Endpoints.Subsets.process_addresses
    nfproxy.Proxy.Endpoints.Subsets.process_ep_subsets nfproxy.Proxy.Endpoints.Subsets.process_ports
    nfproxy.Proxy.Endpoints.Subsets.process_subsets nfproxy.Proxy.Endpoints.add_endpoint
    nfproxy.Proxy.Endpoints.add_endpoint_rules nfproxy.Proxy.Invariant.Events.handle
    nfproxy.Proxy.Service.new_base_service_info nfproxy.Proxy.Service.new_service_info
    nfproxy.Proxy.Services.Handlers.add_service nfproxy.Proxy.Services.Handlers.change_service
    nfproxy.Proxy.Services.add_affinity nfproxy.Proxy.Services.add_new_service_port
    nfproxy.Proxy.Services.add_service_port nfproxy.Proxy.Sets.add_service_port_to_sets
    nfproxy.Proxy.Sets.add_to_no_endpoints_list nfproxy.Proxy.Sets.remove_from_no_endpoints_list
    nfproxy.Proxy.State.cache_act nfproxy.Proxy.State.kernel_act nfproxy.Proxy.State.kernel_call
    nfproxy.Proxy.State.new_proxy nfproxy.Proxy.State.set_cache nfproxy.Proxy.State.set_endpoints
    nfproxy.Proxy.State.set_service nfproxy.Proxy.Tools.find_port nfproxy.Proxy.Tools.get_ip_family
    nfproxy.Proxy.Tools.is_port_at_addresses nfproxy.Proxy.Tools.is_port_in_endpoint_slice
    nfproxy.Proxy.Tools.is_port_in_endpoints nfproxy.Proxy.Tools.is_port_in_ports
    nfproxy.Proxy.Tools.is_port_in_subset nfproxy.Proxy.Tools.is_port_of_endpoint
    nfproxy.Proxy.Tools.is_service_port_in_ports nfproxy.Proxy.Tools.is_string_in_slice
    nfproxy.Proxy.Update.chain_rule nfproxy.Proxy.Update.endpoint_chains
    nfproxy.Proxy.Update.mark_endpoints nfproxy.Proxy.Update.program_endpoints
    nfproxy.Proxy.Update.set_rule_id nfproxy.Proxy.Update.update_known_chain
    nfproxy.Proxy.Update.update_service_chain
service_runs = refl

endpoints_run : handle counting (endpoints_added endpoints) with_service ≡ some (tt, with_endpoints)
unfolding nfproxy.Go.Act.deref nfproxy.Go.Act.for_each nfproxy.Go.Act.gets nfproxy.Go.Act.if_ok
    nfproxy.Go.Act.if_some nfproxy.Go.Act.modify nfproxy.Go.Act.on_ok nfproxy.Go.Act.panic
    nfproxy.Go.Act.pure nfproxy.Go.Act.run nfproxy.Go.Act.when nfproxy.Go.Act.◌>>=◌
    nfproxy.Go.Exec.for_each nfproxy.Nftables.Base.proto_byte_from_v1_proto
    nfproxy.Nftables.Chains.add_service_chains nfproxy.Nftables.Chains.create_rules
    nfproxy.Nftables.Chains.delete_chain_rules nfproxy.Nftables.Chains.delete_service_rules
    nfproxy.Nftables.Chains.program_chain_rules nfproxy.Nftables.Program.add_service_match_act_rule
    nfproxy.Nftables.Program.affinity_rules nfproxy.Nftables.Program.all_some
    nfproxy.Nftables.Program.place_rules nfproxy.Nftables.Program.program_service_endpoints
    nfproxy.Nftables.Rules.add_endpoint_rules nfproxy.Nftables.Rules.add_endpoint_update_rule
    nfproxy.Nftables.Rules.affinity_actions nfproxy.Nftables.Sets.add_service_affinity_map
    nfproxy.Nftables.Sets.add_to_nodeport_set nfproxy.Nftables.Sets.add_to_set
    nfproxy.Nftables.Sets.remove_from_set nfproxy.Nftables.Types.get_svc_chain
    nfproxy.Prelude.insert nfproxy.Prelude.lookup nfproxy.Proxy.Cache.find
    nfproxy.Proxy.Cache.get_last_known_ep_from_cache
    nfproxy.Proxy.Cache.get_last_known_svc_from_cache nfproxy.Proxy.Cache.put
    nfproxy.Proxy.Cache.remove nfproxy.Proxy.Cache.store_ep_in_cache
    nfproxy.Proxy.Cache.store_svc_in_cache nfproxy.Proxy.Endpoint.filter_topology_endpoint
    nfproxy.Proxy.Endpoint.new_endpoint_info nfproxy.Proxy.Endpoints.Handlers.add_each
    nfproxy.Proxy.Endpoints.Handlers.add_endpoints nfproxy.Proxy.Endpoints.Subsets.process_addresses
    nfproxy.Proxy.Endpoints.Subsets.process_ep_subsets nfproxy.Proxy.Endpoints.Subsets.process_ports
    nfproxy.Proxy.Endpoints.Subsets.process_subsets nfproxy.Proxy.Endpoints.add_endpoint
    nfproxy.Proxy.Endpoints.add_endpoint_rules nfproxy.Proxy.Invariant.Events.handle
    nfproxy.Proxy.Service.new_base_service_info nfproxy.Proxy.Service.new_service_info
    nfproxy.Proxy.Services.Handlers.add_service nfproxy.Proxy.Services.Handlers.change_service
    nfproxy.Proxy.Services.add_affinity nfproxy.Proxy.Services.add_new_service_port
    nfproxy.Proxy.Services.add_service_port nfproxy.Proxy.Sets.add_service_port_to_sets
    nfproxy.Proxy.Sets.add_to_no_endpoints_list nfproxy.Proxy.Sets.remove_from_no_endpoints_list
    nfproxy.Proxy.State.cache_act nfproxy.Proxy.State.kernel_act nfproxy.Proxy.State.kernel_call
    nfproxy.Proxy.State.new_proxy nfproxy.Proxy.State.set_cache nfproxy.Proxy.State.set_endpoints
    nfproxy.Proxy.State.set_service nfproxy.Proxy.Tools.find_port nfproxy.Proxy.Tools.get_ip_family
    nfproxy.Proxy.Tools.is_port_at_addresses nfproxy.Proxy.Tools.is_port_in_endpoint_slice
    nfproxy.Proxy.Tools.is_port_in_endpoints nfproxy.Proxy.Tools.is_port_in_ports
    nfproxy.Proxy.Tools.is_port_in_subset nfproxy.Proxy.Tools.is_port_of_endpoint
    nfproxy.Proxy.Tools.is_service_port_in_ports nfproxy.Proxy.Tools.is_string_in_slice
    nfproxy.Proxy.Update.chain_rule nfproxy.Proxy.Update.endpoint_chains
    nfproxy.Proxy.Update.mark_endpoints nfproxy.Proxy.Update.program_endpoints
    nfproxy.Proxy.Update.set_rule_id nfproxy.Proxy.Update.update_known_chain
    nfproxy.Proxy.Update.update_service_chain nfproxy.Nftables.Program.replace_rules
    nfproxy.Nftables.Program.replace_rule
endpoints_run = refl

Reachable-IsConsistent_example : IsConsistent with_endpoints
Reachable-IsConsistent_example = Reachable-IsConsistent counting with_endpoints (
    handled with_service with_endpoints (endpoints_added endpoints)
      (handled fresh with_service (service_added (service (http ∷ [])))
        (started interface 0 "node" false) service_runs)
      endpoints_run)

watched : Watched counting (learn (service (http ∷ [])) nothing_known) with_service
unfolding notify handle_add_service handle nfproxy.Go.Act.if_some
watched =
    service_seen nothing_known fresh with_service (service (http ∷ []))
      (begun interface 0 "node" false) service_runs

Watched-Mirrors_example : Mirrors (learn (service (http ∷ [])) nothing_known) with_service.cache
Watched-Mirrors_example =
    Watched-Mirrors counting (learn (service (http ∷ [])) nothing_known) with_service watched

abbrev api_url : Url
api_url = record { scheme = "https"; host = "192.0.2.1" }

abbrev with_api : Proxy ℕ
with_api = elim (bootstrap_rules counting "10.0.0.1" "443" api_url false fresh) [
  | none ↦ fresh
  | some (_, q) ↦ q
]

api_runs : bootstrap_rules counting "10.0.0.1" "443" api_url false fresh ≡ some (tt, with_api)
unfolding nfproxy.Go.Act.deref nfproxy.Go.Act.for_each nfproxy.Go.Act.gets nfproxy.Go.Act.if_ok
    nfproxy.Go.Act.if_some nfproxy.Go.Act.modify nfproxy.Go.Act.on_ok nfproxy.Go.Act.panic
    nfproxy.Go.Act.pure nfproxy.Go.Act.run nfproxy.Go.Act.when nfproxy.Go.Act.◌>>=◌
    nfproxy.Go.Exec.for_each nfproxy.Nftables.Base.proto_byte_from_v1_proto
    nfproxy.Nftables.Chains.add_service_chains nfproxy.Nftables.Chains.create_rules
    nfproxy.Nftables.Chains.delete_chain_rules nfproxy.Nftables.Chains.delete_service_rules
    nfproxy.Nftables.Chains.program_chain_rules nfproxy.Nftables.Program.add_service_match_act_rule
    nfproxy.Nftables.Program.affinity_rules nfproxy.Nftables.Program.all_some
    nfproxy.Nftables.Program.place_rules nfproxy.Nftables.Program.program_service_endpoints
    nfproxy.Nftables.Rules.add_endpoint_rules nfproxy.Nftables.Rules.add_endpoint_update_rule
    nfproxy.Nftables.Rules.affinity_actions nfproxy.Nftables.Sets.add_service_affinity_map
    nfproxy.Nftables.Sets.add_to_nodeport_set nfproxy.Nftables.Sets.add_to_set
    nfproxy.Nftables.Sets.remove_from_set nfproxy.Nftables.Types.get_svc_chain
    nfproxy.Prelude.insert nfproxy.Prelude.lookup nfproxy.Proxy.Cache.find
    nfproxy.Proxy.Cache.get_last_known_ep_from_cache
    nfproxy.Proxy.Cache.get_last_known_svc_from_cache nfproxy.Proxy.Cache.put
    nfproxy.Proxy.Cache.remove nfproxy.Proxy.Cache.store_ep_in_cache
    nfproxy.Proxy.Cache.store_svc_in_cache nfproxy.Proxy.Endpoint.filter_topology_endpoint
    nfproxy.Proxy.Endpoint.new_endpoint_info nfproxy.Proxy.Endpoints.Handlers.add_each
    nfproxy.Proxy.Endpoints.Handlers.add_endpoints nfproxy.Proxy.Endpoints.Subsets.process_addresses
    nfproxy.Proxy.Endpoints.Subsets.process_ep_subsets nfproxy.Proxy.Endpoints.Subsets.process_ports
    nfproxy.Proxy.Endpoints.Subsets.process_subsets nfproxy.Proxy.Endpoints.add_endpoint
    nfproxy.Proxy.Endpoints.add_endpoint_rules nfproxy.Proxy.Invariant.Events.handle
    nfproxy.Proxy.Service.new_base_service_info nfproxy.Proxy.Service.new_service_info
    nfproxy.Proxy.Services.Handlers.add_service nfproxy.Proxy.Services.Handlers.change_service
    nfproxy.Proxy.Services.add_affinity nfproxy.Proxy.Services.add_new_service_port
    nfproxy.Proxy.Services.add_service_port nfproxy.Proxy.Sets.add_service_port_to_sets
    nfproxy.Proxy.Sets.add_to_no_endpoints_list nfproxy.Proxy.Sets.remove_from_no_endpoints_list
    nfproxy.Proxy.State.cache_act nfproxy.Proxy.State.kernel_act nfproxy.Proxy.State.kernel_call
    nfproxy.Proxy.State.new_proxy nfproxy.Proxy.State.set_cache nfproxy.Proxy.State.set_endpoints
    nfproxy.Proxy.State.set_service nfproxy.Proxy.Tools.find_port nfproxy.Proxy.Tools.get_ip_family
    nfproxy.Proxy.Tools.is_port_at_addresses nfproxy.Proxy.Tools.is_port_in_endpoint_slice
    nfproxy.Proxy.Tools.is_port_in_endpoints nfproxy.Proxy.Tools.is_port_in_ports
    nfproxy.Proxy.Tools.is_port_in_subset nfproxy.Proxy.Tools.is_port_of_endpoint
    nfproxy.Proxy.Tools.is_service_port_in_ports nfproxy.Proxy.Tools.is_string_in_slice
    nfproxy.Proxy.Update.chain_rule nfproxy.Proxy.Update.endpoint_chains
    nfproxy.Proxy.Update.mark_endpoints nfproxy.Proxy.Update.program_endpoints
    nfproxy.Proxy.Update.set_rule_id nfproxy.Proxy.Update.update_known_chain
    nfproxy.Proxy.Update.update_service_chain nfproxy.Nftables.Program.replace_rules
    nfproxy.Nftables.Program.replace_rule nfproxy.Proxy.Bootstrap.bootstrap_rules
api_runs = refl

bootstrap_rules-HasApi_example : HasApi counting "10.0.0.1" "443" api_url false with_api.cache
bootstrap_rules-HasApi_example =
    bootstrap_rules-HasApi counting "10.0.0.1" "443" api_url false fresh with_api refl refl api_runs

handle-Records_example : Records (endpoints_added endpoints) with_service.cache with_endpoints.cache
handle-Records_example =
    handle-Records counting (endpoints_added endpoints) with_service with_endpoints endpoints_run
