-- ===== src/Controller.antt =====
-- pkg/controller: the handlers that the informers call. What an informer delivers is an object of
-- any type; a nil pointer that is dereferenced panics.
pub mod Notify
pub mod Refinement
pub mod Versions
pub mod Services
use nfproxy.Prelude.{
  String, text_Eq, ◌==◌, Bool, true, false, ◌||◌, Option, none, some, is_some, if◌then◌else◌,
}
use nfproxy.Go.{⊤}
use nfproxy.Go.Act.{Act, pure, deref, if_some, ◌>>=◌}
use nfproxy.External.{External}
use nfproxy.Kube.{ObjectMeta, Service, Endpoints, EndpointSlice}
use nfproxy.Proxy.State.{Proxy}
use nfproxy.Proxy.Endpoints.Handlers.{add_endpoints, delete_endpoints, update_endpoints}
use nfproxy.Proxy.Slices.{add_endpoint_slice, delete_endpoint_slice, update_endpoint_slice}
use nfproxy.Proxy.Services.Handlers.{add_service, delete_service, update_service}

-- `interface{}`; a tombstone is cache.DeletedFinalStateUnknown, with the object in it.
pub data Object : Type 0 where
  service_object : Service → Object
  endpoints_object : Endpoints → Object
  slice_object : EndpointSlice → Object
  tombstone : Object → Object
  other_object : Object

-- The type assertions.
abbrev pub as_service : Object → Option Service
as_service (service_object svc) = some svc
as_service _ = none

abbrev pub as_endpoints : Object → Option Endpoints
as_endpoints (endpoints_object ep) = some ep
as_endpoints _ = none

abbrev pub as_slice : Object → Option EndpointSlice
as_slice (slice_object epsl) = some epsl
as_slice _ = none

abbrev pub same_version : ObjectMeta → ObjectMeta → Bool
same_version old new = old.resource_version == new.resource_version

-- The Endpoints that change all the time.
abbrev is_leader : ObjectMeta → Bool
is_leader meta = (meta.name == "kube-controller-manager") || (meta.name == "kube-scheduler")

-- The test of a tombstone and of the object in it, after which the handler of a delete event goes on.
abbrev pub is_tombstone_of : (Object → Bool) → Object → Bool
is_tombstone_of expected (tombstone o) = expected o
is_tombstone_of expected _ = false

module _ {S A : Type 0} where
  -- A delete event, by the pointer of the first type assertion: nil if the object has another type.
  -- The test of a tombstone does not set it. Its metadata is read for a log line.
  unfoldable pub delete_object : (Object → Bool) → (A → Act S ⊤) → Option A → Object → Act S ⊤
  delete_object expected delete pointer o =
      if is_some pointer || is_tombstone_of expected o then deref pointer >>= delete else pure tt

module _ (ext : External) where
  open ext use {Kernel}

  unfoldable pub handle_add_service : Object → Act (Proxy Kernel) ⊤
  handle_add_service o = if_some (pure tt) (λ svc. add_service ext svc) (as_service o)

  unfoldable pub handle_update_service : Object → Object → Act (Proxy Kernel) ⊤
  handle_update_service old new =
      if_some (pure tt)
        (λ svc_old.
          if_some (pure tt)
            (λ svc_new.
              if same_version svc_old.meta svc_new.meta
              then pure tt
              else update_service ext svc_old svc_new)
            (as_service new))
        (as_service old)

  unfoldable pub handle_delete_service : Object → Act (Proxy Kernel) ⊤
  unfolding delete_object
  handle_delete_service o =
      delete_object (λ x. is_some (as_service x)) (λ svc. delete_service ext svc) (as_service o) o

  unfoldable pub handle_add_endpoint : Object → Act (Proxy Kernel) ⊤
  handle_add_endpoint o = if_some (pure tt) (λ ep. add_endpoints ext ep) (as_endpoints o)

  unfoldable pub handle_update_endpoint : Object → Object → Act (Proxy Kernel) ⊤
  handle_update_endpoint old new =
      if_some (pure tt)
        (λ ep_old.
          if_some (pure tt)
            (λ ep_new.
              if same_version ep_old.meta ep_new.meta
              then pure tt
              else if is_leader ep_new.meta
              then pure tt
              else update_endpoints ext ep_old ep_new)
            (as_endpoints new))
        (as_endpoints old)

  unfoldable pub handle_delete_endpoint : Object → Act (Proxy Kernel) ⊤
  unfolding delete_object
  handle_delete_endpoint o =
      delete_object (λ x. is_some (as_endpoints x)) (λ ep. delete_endpoints ext ep) (as_endpoints o)
        o

  unfoldable pub handle_add_endpoint_slice : Object → Act (Proxy Kernel) ⊤
  handle_add_endpoint_slice o = if_some (pure tt) (λ epsl. add_endpoint_slice ext epsl) (as_slice o)

  unfoldable pub handle_update_endpoint_slice : Object → Object → Act (Proxy Kernel) ⊤
  handle_update_endpoint_slice old new =
      if_some (pure tt)
        (λ epsl_old.
          if_some (pure tt)
            (λ epsl_new.
              if same_version epsl_old.meta epsl_new.meta
              then pure tt
              else update_endpoint_slice ext epsl_old epsl_new)
            (as_slice new))
        (as_slice old)

  -- The object in a tombstone is tested for a service here too.
  unfoldable pub handle_delete_endpoint_slice : Object → Act (Proxy Kernel) ⊤
  unfolding delete_object
  handle_delete_endpoint_slice o =
      delete_object (λ x. is_some (as_service x)) (λ epsl. delete_endpoint_slice ext epsl)
        (as_slice o) o
