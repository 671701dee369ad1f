-- ===== src/Proxy/Invariant/Slices.antt =====
-- The endpoint slice handlers keep the invariant.
use nfproxy.Prelude.{String, Bool, List, [], ◌∷◌}
use nfproxy.Go.{ok}
use nfproxy.Go.Hoare.{Keeps, Keeps-pure, Keeps-bind, Keeps-deref, Keeps-on_ok, keeps_rules}
use nfproxy.External.{External}
use nfproxy.Kube.{SliceEndpoint, SlicePort, EndpointSlice}
use nfproxy.Proxy.Types.{ServicePortName, EpInfo}
use nfproxy.Proxy.Slices.{
  slice_addresses, slice_port, slice_ports, slice_endpoints, process_ep_slice, add_endpoint_slice,
  delete_endpoint_slice, update_slice_port, replace_new_slice_ports, remove_old_slice_ports,
  replace_endpoint_slice, update_endpoint_slice,
}
use nfproxy.Proxy.Invariant.{IsConsistent}
use nfproxy.Proxy.Invariant.Endpoints.{endpoint_rules, add_endpoint-IsConsistent}

-- Reading a slice changes no state.
module _ {S : Type 0} {P : S → Type 0} where
  slice_addresses-Keeps :
      (name : ServicePortName) (e : SliceEndpoint) (p : SlicePort) (ips : List String)
      → Keeps P (slice_addresses {S = S} name e p ips)
  unfolding slice_addresses
  slice_addresses-Keeps name e p [] = Keeps-pure []
  slice_addresses-Keeps name e p (ip ∷ ips) =
      Keeps-bind _ _ (Keeps-deref e.ready)
        (λ ready. Keeps-bind _ _ (slice_addresses-Keeps name e p ips) (λ rest. Keeps-pure _))

  slice_port-Keeps :
      (svc_name namespace : String) (e : SliceEndpoint) (p : SlicePort)
      → Keeps P (slice_port {S = S} svc_name namespace e p)
  unfolding slice_port
  slice_port-Keeps svc_name namespace e p = search (keeps_rules, slice_addresses-Keeps) depth 10

  slice_ports-Keeps :
      (svc_name namespace : String) (e : SliceEndpoint) (ps : List SlicePort)
      → Keeps P (slice_ports {S = S} svc_name namespace e ps)
  unfolding slice_ports
  slice_ports-Keeps svc_name namespace e [] = Keeps-pure (ok [])
  slice_ports-Keeps svc_name namespace e (p ∷ ps) =
      Keeps-bind _ _ (slice_port-Keeps svc_name namespace e p) (λ r. Keeps-on_ok _ r (λ xs.
        Keeps-bind _ _ (slice_ports-Keeps svc_name namespace e ps)
          (λ q. Keeps-on_ok _ q (λ ys. Keeps-pure _))))

  slice_endpoints-Keeps :
      (svc_name namespace : String) (ps : List SlicePort) (es : List SliceEndpoint)
      → Keeps P (slice_endpoints {S = S} svc_name namespace ps es)
  unfolding slice_endpoints
  slice_endpoints-Keeps svc_name namespace ps [] = Keeps-pure (ok [])
  slice_endpoints-Keeps svc_name namespace ps (e ∷ es) =
      Keeps-bind _ _ (slice_ports-Keeps svc_name namespace e ps) (λ r. Keeps-on_ok _ r (λ xs.
        Keeps-bind _ _ (slice_endpoints-Keeps svc_name namespace ps es)
          (λ q. Keeps-on_ok _ q (λ ys. Keeps-pure _))))

  pub process_ep_slice-Keeps : (epsl : EndpointSlice) → Keeps P (process_ep_slice {S = S} epsl)
  unfolding process_ep_slice
  process_ep_slice-Keeps epsl = search (keeps_rules, slice_endpoints-Keeps)

module _ (ext : External) where
  update_slice_port-IsConsistent :
      (old_ready found : Bool) (e : EpInfo)
      → Keeps IsConsistent (update_slice_port ext old_ready found e)
  unfolding update_slice_port
  update_slice_port-IsConsistent old_ready found e =
      search (endpoint_rules, add_endpoint-IsConsistent) depth 12

  replace_new_slice_ports-IsConsistent :
      (stored : EndpointSlice) (info : List EpInfo)
      → Keeps IsConsistent (replace_new_slice_ports ext stored info)
  unfolding replace_new_slice_ports
  replace_new_slice_ports-IsConsistent stored info =
      search (endpoint_rules, update_slice_port-IsConsistent)

  remove_old_slice_ports-IsConsistent :
      (new : EndpointSlice) (info : List EpInfo)
      → Keeps IsConsistent (remove_old_slice_ports ext new info)
  unfolding remove_old_slice_ports
  remove_old_slice_ports-IsConsistent new info = search endpoint_rules

  ruleset slice_rules = (
    endpoint_rules, process_ep_slice-Keeps, replace_new_slice_ports-IsConsistent,
    remove_old_slice_ports-IsConsistent,
  )

  pub add_endpoint_slice-IsConsistent :
      (epsl : EndpointSlice) → Keeps IsConsistent (add_endpoint_slice ext epsl)
  unfolding add_endpoint_slice
  add_endpoint_slice-IsConsistent epsl = search slice_rules depth 8

  pub delete_endpoint_slice-IsConsistent :
      (epsl : EndpointSlice) → Keeps IsConsistent (delete_endpoint_slice ext epsl)
  unfolding delete_endpoint_slice
  delete_endpoint_slice-IsConsistent epsl = search slice_rules depth 8

  replace_endpoint_slice-IsConsistent :
      (stored new : EndpointSlice) → Keeps IsConsistent (replace_endpoint_slice ext stored new)
  unfolding replace_endpoint_slice
  replace_endpoint_slice-IsConsistent stored new = search slice_rules depth 10

  pub update_endpoint_slice-IsConsistent :
      (old new : EndpointSlice) → Keeps IsConsistent (update_endpoint_slice ext old new)
  unfolding update_endpoint_slice
  update_endpoint_slice-IsConsistent old new =
      search (slice_rules, replace_endpoint_slice-IsConsistent)
