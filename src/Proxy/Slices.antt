-- ===== src/Proxy/Slices.antt =====
-- pkg/proxy/proxy_endpointslice.go: processEpSlice and the handlers of EndpointSlice events.
use nfproxy.Prelude.{
  String, text_append, Bool, true, false, not, ◌&&◌, ◌==◌, text_Eq, nat_Eq, none, some, List, [],
  ◌∷◌, ◌++◌, Assoc, lookup, or_else, if◌then◌else◌,
}
use nfproxy.Go.{⊤, Result, ok, err, message}
use nfproxy.Go.Act.{if_ok, Act, pure, deref, gets, when, on_ok, ◌>>=◌, ◌>>◌, for_each}
use nfproxy.External.{External}
use nfproxy.Kube.{SliceEndpoint, SlicePort, EndpointSlice}
use nfproxy.Proxy.Types.{ServicePortName, EpInfo}
use nfproxy.Proxy.Tools.{get_svc_port_name, is_port_in_endpoint_slice}
use nfproxy.Proxy.Cache.{
  store_ep_sl_in_cache, remove_ep_sl_from_cache, get_last_known_ep_sl_from_cache,
}
use nfproxy.Proxy.State.{Proxy, cache_act, set_cache}
use nfproxy.Proxy.Endpoints.{add_endpoint}
use nfproxy.Proxy.Endpoints.Handlers.{add_each, delete_known, infos, stored_or}

abbrev pub label_service_name : String
label_service_name = "kubernetes.io/service-name"

unfoldable pub get_service_name_from_service_name_label : Assoc String String → String × Bool
get_service_name_from_service_name_label labels = elim (lookup label_service_name labels) [
  | none ↦ ("", false)
  | some name ↦ (name, true)
]

abbrev slice_info : ServicePortName → SliceEndpoint → SlicePort → Bool → String → EpInfo
slice_info name e p ready ip = record {
  name = name;
  addr = record { ip = ip; hostname = or_else e.hostname ""; node_name = e.hostname };
  port = record {
    name = or_else p.name "";
    port = or_else p.port 0;
    protocol = or_else p.protocol "";
  };
  ready = ready;
}

module _ {S : Type 0} where
  -- The loop over the addresses of one endpoint, for one port.
  unfoldable pub slice_addresses :
      ServicePortName → SliceEndpoint → SlicePort → List String → Act S (List EpInfo)
  slice_addresses name e p [] = pure []
  slice_addresses name e p (ip ∷ ips) = do
    ready ← deref e.ready
    rest ← slice_addresses name e p ips
    pure (slice_info name e p ready ip ∷ rest)

  unfoldable pub slice_port :
      String → String → SliceEndpoint → SlicePort → Act S (Result (List EpInfo))
  slice_port svc_name namespace e p = do
    number ← deref p.port
    port_name ← deref p.name
    if number == 0
        then pure (err (message (text_append "found invalid endpoint slice port " port_name)))
        else do
          protocol ← deref p.protocol
          xs ←
              slice_addresses (get_svc_port_name svc_name namespace port_name protocol) e p
                e.addresses
          pure (ok xs)

  unfoldable pub slice_ports :
      String → String → SliceEndpoint → List SlicePort → Act S (Result (List EpInfo))
  slice_ports svc_name namespace e [] = pure (ok [])
  slice_ports svc_name namespace e (p ∷ ps) = do
    r ← slice_port svc_name namespace e p
    on_ok (λ xs. do q ← slice_ports svc_name namespace e ps; on_ok (λ ys. pure (ok (xs ++ ys))) q) r

  unfoldable pub slice_endpoints :
      String → String → List SlicePort → List SliceEndpoint → Act S (Result (List EpInfo))
  slice_endpoints svc_name namespace ps [] = pure (ok [])
  slice_endpoints svc_name namespace ps (e ∷ es) = do
    r ← slice_ports svc_name namespace e ps
    on_ok
        (λ xs. do
          q ← slice_endpoints svc_name namespace ps es
          on_ok (λ ys. pure (ok (xs ++ ys))) q)
        r

  -- A slice without the service's label has no endpoints.
  unfoldable pub process_ep_slice : EndpointSlice → Act S (Result (List EpInfo))
  process_ep_slice epsl =
      let (svc_name, found) = get_service_name_from_service_name_label epsl.meta.labels in
      if found
      then slice_endpoints svc_name epsl.meta.namespace epsl.ports epsl.endpoints
      else pure (ok [])

module _ (ext : External) where
  open ext use {Kernel}

  -- Only ready endpoints are added; the loop ends at the first error.
  unfoldable pub add_endpoint_slice : EndpointSlice → Act (Proxy Kernel) ⊤
  add_endpoint_slice epsl = do
    cache_act (store_ep_sl_in_cache epsl)
    r ← process_ep_slice epsl
    if_ok (λ info. add_each ext (λ e. e.ready) info >> pure tt) r

  unfoldable pub delete_endpoint_slice : EndpointSlice → Act (Proxy Kernel) ⊤
  delete_endpoint_slice epsl = do
    r ← process_ep_slice epsl
    if_ok
        (λ info.
          for_each info (λ e. when e.ready (delete_known ext e))
          >> set_cache (remove_ep_sl_from_cache epsl.meta.name epsl.meta.namespace))
        r

  -- An address and port of the new slice: what the old slice says of it is (ready, found).
  unfoldable pub update_slice_port : Bool → Bool → EpInfo → Act (Proxy Kernel) ⊤
  update_slice_port old_ready found e =
      if not found && e.ready
      then (add_endpoint ext e.name e.addr e.port >> pure tt)
      else if not found && not e.ready
      then pure tt
      else if found && (e.ready && old_ready)
      then pure tt
      else if found && (not e.ready && old_ready)
      then delete_known ext e
      else if found && (e.ready && not old_ready)
      then (add_endpoint ext e.name e.addr e.port >> pure tt)
      else pure tt

  unfoldable pub replace_new_slice_ports : EndpointSlice → List EpInfo → Act (Proxy Kernel) ⊤
  replace_new_slice_ports stored info = for_each info λ e. do
    (old_ready, found) ← deref (is_port_in_endpoint_slice stored e.port e.addr)
    update_slice_port old_ready found e

  -- What the new slice has no more.
  unfoldable pub remove_old_slice_ports : EndpointSlice → List EpInfo → Act (Proxy Kernel) ⊤
  remove_old_slice_ports new info = for_each info λ e. do
    (_, found) ← deref (is_port_in_endpoint_slice new e.port e.addr)
    when (not found && e.ready) (delete_known ext e)

  unfoldable pub replace_endpoint_slice : EndpointSlice → EndpointSlice → Act (Proxy Kernel) ⊤
  replace_endpoint_slice stored new = do
    r ← process_ep_slice new
    if_ok
        (λ info. do
          replace_new_slice_ports stored info
          q ← process_ep_slice stored
          remove_old_slice_ports new (infos q)
          cache_act (store_ep_sl_in_cache new))
        r

  unfoldable pub update_endpoint_slice : EndpointSlice → EndpointSlice → Act (Proxy Kernel) ⊤
  update_endpoint_slice old new = do
    cache ← gets (λ p. p.cache)
    replace_endpoint_slice
        (stored_or (get_last_known_ep_sl_from_cache cache new.meta.name new.meta.namespace) old) new
