-- ===== src/Controller/Refinement.antt =====
-- pkg/controller: how a notification reaches the Proxy interface.
use nfproxy.Prelude.{◌≡◌, refl, ◌⊎◌, Bool, true, false, Option, none, some, inl, inr, if◌then◌else◌}
use nfproxy.Go.{⊤}
use nfproxy.Go.Act.{Act, pure, if_some, deref, ◌>>=◌}
use nfproxy.External.{External}
use nfproxy.Proxy.State.{Proxy}
use nfproxy.Proxy.Invariant.Events.{
  Event, service_added, service_deleted, service_updated, endpoints_added, endpoints_deleted,
  endpoints_updated, slice_added, slice_deleted, slice_updated, handle,
}
use nfproxy.Controller.{
  Object, as_service, as_endpoints, as_slice, delete_object, handle_add_service,
  handle_update_service, handle_delete_service, handle_add_endpoint, handle_update_endpoint,
  handle_delete_endpoint, handle_add_endpoint_slice, handle_update_endpoint_slice,
  handle_delete_endpoint_slice,
}
use nfproxy.Controller.Notify.{
  Informer, services, endpoints, endpoint_slices, Notification, added, updated, deleted, notify,
}

-- The informer that an event is for.
abbrev pub subject : Event → Informer
subject (service_added svc) = services
subject (service_deleted svc) = services
subject (service_updated old new) = services
subject (endpoints_added ep) = endpoints
subject (endpoints_deleted ep) = endpoints
subject (endpoints_updated old new) = endpoints
subject (slice_added epsl) = endpoint_slices
subject (slice_deleted epsl) = endpoint_slices
subject (slice_updated old new) = endpoint_slices

module _ (ext : External) where
  open ext use {Kernel}

  -- The state is as before, or as after one event of the kind that the informer is for.
  abbrev pub Moved : Informer → Proxy Kernel → Proxy Kernel → Type 0
  Moved i p q = (q ≡ p) ⊎ ((e : Event) × (subject e ≡ i) × (handle ext e p ≡ some (tt, q)))

  record Steps (i : Informer) (m : Act (Proxy Kernel) ⊤) : Type 0 where
    at : (p q : Proxy Kernel) → m p ≡ some (tt, q) → Moved i p q

  Steps-pure : {i : Informer} → Steps i (pure tt)
  unfolding ◌>>=◌
  Steps-pure = record { at = λ p q h. inl (cc h) }

  Steps-event : (e : Event) → Steps (subject e) (handle ext e)
  Steps-event e = record { at = λ p q h. inr (e, refl, h) }

  Steps-if :
      {i : Informer} (b : Bool) (m n : Act (Proxy Kernel) ⊤)
      → Steps i m
      → Steps i n
      → Steps i (if b then m else n)
  Steps-if true m n hm hn = hm
  Steps-if false m n hm hn = hn

  Steps-deref :
      {A : Type 0} {i : Informer} (f : A → Act (Proxy Kernel) ⊤) (o : Option A)
      → ((a : A) → Steps i (f a))
      → Steps i (deref o >>= f)
  unfolding ◌>>=◌
  Steps-deref f none hf = record { at = λ p q h. cc h }
  Steps-deref f (some a) hf = record { at = λ p q h. (hf a).at p q h }

  Steps-delete :
      {A : Type 0} {i : Informer} (expected : Object → Bool) (f : A → Act (Proxy Kernel) ⊤)
      (pointer : Option A) (o : Object)
      → ((a : A) → Steps i (f a))
      → Steps i (delete_object expected f pointer o)
  unfolding delete_object
  Steps-delete expected f pointer o hf = Steps-if _ _ _ (Steps-deref f pointer hf) Steps-pure

  Steps-if_some :
      {A : Type 0} {i : Informer} (m : Act (Proxy Kernel) ⊤) (f : A → Act (Proxy Kernel) ⊤)
      (o : Option A)
      → Steps i m
      → ((a : A) → Steps i (f a))
      → Steps i (if_some m f o)
  unfolding ◌>>=◌
  Steps-if_some m f none hm hf = hm
  Steps-if_some m f (some a) hm hf = hf a

  notify-Steps : (i : Informer) (n : Notification) → Steps i (notify ext i n)
  unfolding notify handle_add_service handle_update_service handle_delete_service
      handle_add_endpoint handle_update_endpoint handle_delete_endpoint handle_add_endpoint_slice
      handle_update_endpoint_slice handle_delete_endpoint_slice handle
  notify-Steps services (added o) =
      Steps-if_some _ _ (as_service o) Steps-pure (λ svc. Steps-event (service_added svc))
  notify-Steps services (updated old new) = Steps-if_some _ _ (as_service old) Steps-pure λ svc_old.
      Steps-if_some _ _ (as_service new) Steps-pure
        λ svc_new. Steps-if _ _ _ Steps-pure (Steps-event (service_updated svc_old svc_new))
  notify-Steps services (deleted o) =
      Steps-delete _ _ (as_service o) o (λ svc. Steps-event (service_deleted svc))
  notify-Steps endpoints (added o) =
      Steps-if_some _ _ (as_endpoints o) Steps-pure (λ ep. Steps-event (endpoints_added ep))
  notify-Steps endpoints (updated old new) =
      Steps-if_some _ _ (as_endpoints old) Steps-pure λ ep_old.
        Steps-if_some _ _ (as_endpoints new) Steps-pure λ ep_new.
          Steps-if _ _ _ Steps-pure
            (Steps-if _ _ _ Steps-pure (Steps-event (endpoints_updated ep_old ep_new)))
  notify-Steps endpoints (deleted o) =
      Steps-delete _ _ (as_endpoints o) o (λ ep. Steps-event (endpoints_deleted ep))
  notify-Steps endpoint_slices (added o) =
      Steps-if_some _ _ (as_slice o) Steps-pure (λ epsl. Steps-event (slice_added epsl))
  notify-Steps endpoint_slices (updated old new) =
      Steps-if_some _ _ (as_slice old) Steps-pure λ epsl_old.
        Steps-if_some _ _ (as_slice new) Steps-pure
          λ epsl_new. Steps-if _ _ _ Steps-pure (Steps-event (slice_updated epsl_old epsl_new))
  notify-Steps endpoint_slices (deleted o) =
      Steps-delete _ _ (as_slice o) o (λ epsl. Steps-event (slice_deleted epsl))

  pub notify-Moved :
      (i : Informer) (n : Notification) (p q : Proxy Kernel)
      → notify ext i n p ≡ some (tt, q)
      → Moved i p q
  notify-Moved i n p q h = (notify-Steps i n).at p q h
