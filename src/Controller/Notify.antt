-- ===== src/Controller/Notify.antt =====
-- pkg/controller: which handlers the three controllers register with their informers.
use nfproxy.Go.{⊤}
use nfproxy.Go.Act.{Act}
use nfproxy.External.{External}
use nfproxy.Proxy.State.{Proxy}
use nfproxy.Controller.{
  Object, handle_add_service, handle_update_service, handle_delete_service, handle_add_endpoint,
  handle_update_endpoint, handle_delete_endpoint, handle_add_endpoint_slice,
  handle_update_endpoint_slice, handle_delete_endpoint_slice,
}

pub data Informer : Type 0 where
  services endpoints endpoint_slices : Informer

-- AddFunc, UpdateFunc and DeleteFunc, by their arguments.
pub data Notification : Type 0 where
  added : Object → Notification
  updated : Object → Object → Notification
  deleted : Object → Notification

module _ (ext : External) where
  abbrev service_controller : Notification → Act (Proxy ext.Kernel) ⊤
  service_controller (added o) = handle_add_service ext o
  service_controller (updated old new) = handle_update_service ext old new
  service_controller (deleted o) = handle_delete_service ext o

  abbrev endpoints_controller : Notification → Act (Proxy ext.Kernel) ⊤
  endpoints_controller (added o) = handle_add_endpoint ext o
  endpoints_controller (updated old new) = handle_update_endpoint ext old new
  endpoints_controller (deleted o) = handle_delete_endpoint ext o

  abbrev endpoint_slice_controller : Notification → Act (Proxy ext.Kernel) ⊤
  endpoint_slice_controller (added o) = handle_add_endpoint_slice ext o
  endpoint_slice_controller (updated old new) = handle_update_endpoint_slice ext old new
  endpoint_slice_controller (deleted o) = handle_delete_endpoint_slice ext o

  unfoldable pub notify : Informer → Notification → Act (Proxy ext.Kernel) ⊤
  notify services n = service_controller n
  notify endpoints n = endpoints_controller n
  notify endpoint_slices n = endpoint_slice_controller n
