-- ===== src/Proxy/Invariant/Events.antt =====
-- The whole of pkg/proxy: what the Proxy interface offers to the controllers, one event after the
-- other.
use nfproxy.Prelude.{◌≡◌, String, Bool, subst, some, lookup}
use nfproxy.Go.{⊤}
use nfproxy.Go.Act.{Act}
use nfproxy.Go.Hoare.{Keeps, Post}
use nfproxy.External.{External}
use nfproxy.Kube.{Service, Endpoints, EndpointSlice}
use nfproxy.Nftables.Base.{NftInterface}
use nfproxy.Proxy.State.{Proxy, new_proxy}
use nfproxy.Proxy.Endpoints.Handlers.{add_endpoints, delete_endpoints, update_endpoints}
use nfproxy.Proxy.Slices.{add_endpoint_slice, delete_endpoint_slice, update_endpoint_slice}
use nfproxy.Proxy.Services.Handlers.{add_service, delete_service, update_service}
use nfproxy.Proxy.Invariant.{IsConsistent}
use nfproxy.Proxy.Invariant.Endpoints.{
  add_endpoints-IsConsistent, delete_endpoints-IsConsistent, update_endpoints-IsConsistent,
}
use nfproxy.Proxy.Invariant.Slices.{
  add_endpoint_slice-IsConsistent, delete_endpoint_slice-IsConsistent,
  update_endpoint_slice-IsConsistent,
}
use nfproxy.Proxy.Invariant.Handlers.{
  add_service-IsConsistent, delete_service-IsConsistent, update_service-IsConsistent,
}

-- The methods of the Proxy interface.
pub data Event : Type 0 where
  service_added : Service → Event
  service_deleted : Service → Event
  service_updated : Service → Service → Event
  endpoints_added : Endpoints → Event
  endpoints_deleted : Endpoints → Event
  endpoints_updated : Endpoints → Endpoints → Event
  slice_added : EndpointSlice → Event
  slice_deleted : EndpointSlice → Event
  slice_updated : EndpointSlice → EndpointSlice → Event

module _ (ext : External) where
  unfoldable pub handle : Event → Act (Proxy ext.Kernel) ⊤
  handle (service_added svc) = add_service ext svc
  handle (service_deleted svc) = delete_service ext svc
  handle (service_updated old new) = update_service ext old new
  handle (endpoints_added ep) = add_endpoints ext ep
  handle (endpoints_deleted ep) = delete_endpoints ext ep
  handle (endpoints_updated old new) = update_endpoints ext old new
  handle (slice_added epsl) = add_endpoint_slice ext epsl
  handle (slice_deleted epsl) = delete_endpoint_slice ext epsl
  handle (slice_updated old new) = update_endpoint_slice ext old new

  handle-IsConsistent : (e : Event) → Keeps IsConsistent (handle e)
  unfolding handle
  handle-IsConsistent (service_added svc) = add_service-IsConsistent ext svc
  handle-IsConsistent (service_deleted svc) = delete_service-IsConsistent ext svc
  handle-IsConsistent (service_updated old new) = update_service-IsConsistent ext old new
  handle-IsConsistent (endpoints_added ep) = add_endpoints-IsConsistent ext ep
  handle-IsConsistent (endpoints_deleted ep) = delete_endpoints-IsConsistent ext ep
  handle-IsConsistent (endpoints_updated old new) = update_endpoints-IsConsistent ext old new
  handle-IsConsistent (slice_added epsl) = add_endpoint_slice-IsConsistent ext epsl
  handle-IsConsistent (slice_deleted epsl) = delete_endpoint_slice-IsConsistent ext epsl
  handle-IsConsistent (slice_updated old new) = update_endpoint_slice-IsConsistent ext old new

  -- The states that a proxy can be in between two events, from NewProxy on.
  pub data Reachable : Proxy ext.Kernel → Type 0 where
    started :
        (nfti : NftInterface) (k : ext.Kernel) (host : String) (slices : Bool)
        → Reachable (new_proxy nfti k host slices)
    handled :
        (p q : Proxy ext.Kernel) (e : Event) → Reachable p → handle e p ≡ some (tt, q) → Reachable q

  new_proxy-IsConsistent :
      (nfti : NftInterface) (k : ext.Kernel) (host : String) (slices : Bool)
      → IsConsistent (new_proxy nfti k host slices)
  unfolding new_proxy lookup
  new_proxy-IsConsistent nfti k host slices = record { at_name = λ name. tt }

  -- In every reachable state, a service port that is in the service map is marked as having endpoints
  -- exactly if the endpoints map has some for it.
  pub Reachable-IsConsistent : (p : Proxy ext.Kernel) → Reachable p → IsConsistent p
  Reachable-IsConsistent _ (started nfti k host slices) = new_proxy-IsConsistent nfti k host slices
  Reachable-IsConsistent _ (handled p q e r h) =
      subst (Post (λ (_ : ⊤). IsConsistent)) h
        ((handle-IsConsistent e).at p (Reachable-IsConsistent p r))
