-- ===== src/Tests/Process.antt =====
-- The start of the process and notifications, at concrete inputs.
use nfproxy.Prelude.{
  ℕ, ◌<◌, ◌≤◌, ◌≡◌, refl, String, true, false, none, some, Option, List, [], ◌∷◌, map, is_nil,
  is_some, arith, length,
}
use nfproxy.Go.{⊤, Result, ok, err}
use nfproxy.Go.Returns.{OnOk}
use nfproxy.Go.Total.{Ends}
use nfproxy.External.{Url, Rule, counter}
use nfproxy.Nftables.Setup.Init.{init_nftables, program_cluster_ip_rules}
use nfproxy.Nftables.Setup.Positions.{program_cluster_ip_rules-length}
use nfproxy.Nftables.Setup.Ready.{IsReady, init_nftables-IsReady}
use nfproxy.Proxy.State.{Proxy, new_proxy}
use nfproxy.Proxy.Bootstrap.{to_int32}
use nfproxy.Controller.{service_object, handle_update_service}
use nfproxy.Controller.Notify.{services, endpoints, Notification, updated, notify}
use nfproxy.Command.{Flags, Environment, start, validate_api_endpoint, bootstrap}
use nfproxy.Command.Laws.{port_of, validate_api_endpoint-bounds}
use nfproxy.Command.Served.{begun, notified, Served-CanStore, CanStore}
use nfproxy.Tests.{counting, service, http, fresh}

init_nftables-IsReady_example :
    Ends (OnOk (IsReady "10.0.0.0/8" "" "10.0.0.0/8")) (init_nftables counting "10.0.0.0/8" "" 0)
init_nftables-IsReady_example = init_nftables-IsReady counting "10.0.0.0/8" "" 0

abbrev counted_rule : Rule String String
counted_rule = record { body = counter; position = 0; user_data = none }

program_cluster_ip_rules-length_example :
    Ends
      (OnOk (λ (ids : List ℕ). length ids ≡ 2))
      (program_cluster_ip_rules counting 1 (counted_rule ∷ counted_rule ∷ []) 0)
program_cluster_ip_rules-length_example =
    program_cluster_ip_rules-length counting 1 counted_rule (counted_rule ∷ []) 0

abbrev api_url : Url
api_url = record { scheme = "https"; host = "192.0.2.1" }

validate_api_endpoint-bounds_example :
    (counting.url_parse "192.0.2.1" ≡ ok api_url)
    × (is_nil (counting.parse_ip (counting.split_host_port "192.0.2.1").0) ≡ false)
    × (0 < port_of counting api_url)
    × (port_of counting api_url ≤ 65535)
    × (to_int32 (port_of counting api_url) ≡ port_of counting api_url)
unfolding validate_api_endpoint
validate_api_endpoint-bounds_example =
    validate_api_endpoint-bounds counting "192.0.2.1" api_url (λ e h. omega arith) refl

-- A resync: the update of a service that has not changed.
abbrev resync : Notification
resync = updated (service_object (service (http ∷ []))) (service_object (service (http ∷ [])))

resync_run : (p : Proxy ℕ) → notify counting services resync p ≡ some (tt, p)
unfolding notify handle_update_service nfproxy.Go.Act.pure nfproxy.Go.Act.if_some
resync_run p = refl

abbrev flags : Flags
flags = record { ipv4_cluster_cidr = "10.0.0.0/8"; ipv6_cluster_cidr = ""; endpoint_slice = false }

abbrev env : Environment
env = record {
  client = ok tt;
  hostname = ok "node";
  service_host = "";
  service_port = "";
  api_endpoint = "";
}

abbrev started_with : Option (Result (Proxy ℕ)) → Proxy ℕ
started_with (some (ok p)) = p
started_with _ = fresh

abbrev first_proxy : Proxy ℕ
first_proxy = started_with (start counting flags env 0)

start_run : start counting flags env 0 ≡ some (ok first_proxy)
unfolding start bootstrap init_nftables nfproxy.Go.Act.◌>>=◌ nfproxy.Go.Act.pure nfproxy.Go.Act.run
    nfproxy.Go.Act.when nfproxy.Go.Act.on_ok nfproxy.Go.Act.deref
    nfproxy.Nftables.Setup.Init.remove_table nfproxy.Nftables.Setup.Init.get_nft_interface
    nfproxy.Nftables.Setup.Init.program_common_chains_rules nfproxy.Nftables.Setup.Init.setup_family
    nfproxy.Nftables.Setup.Init.setup_table nfproxy.Nftables.Setup.Chains.setup_nfproxy_chains
    nfproxy.Go.Exec.for_each nfproxy.Nftables.Setup.Sets.setup_common_sets
    nfproxy.Nftables.Setup.Sets.create_sets nfproxy.Nftables.Setup.Filter.setup_static_filter_rules
    nfproxy.Nftables.Chains.program_chain_rules nfproxy.Nftables.Chains.create_rules
    nfproxy.Nftables.Setup.Filter.setup_k8s_filter_rules
    nfproxy.Nftables.Setup.Nat.setup_static_nat_rules nfproxy.Nftables.Setup.Nat.setup_set_rules
    nfproxy.Prelude.lookup nfproxy.Prelude.insert new_proxy
start_run = refl

Served-CanStore_example : CanStore endpoints first_proxy.cache
Served-CanStore_example =
    Served-CanStore counting flags env first_proxy endpoints
      (notified first_proxy first_proxy services resync refl (begun 0 first_proxy start_run)
        (resync_run first_proxy))
      refl
