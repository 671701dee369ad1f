-- ===== src/Proxy/Services/Panics.antt =====
-- pkg/proxy/proxy_service.go: updates of a service that end in an index out of range.
use nfproxy.Prelude.{
  ℕ, zero, suc, ◌+◌, subst, ◌≡◌, refl, ap, true, false, not, ◌==◌, text_Eq, nat_Eq, none, some,
  List, [], ◌∷◌, get_elem?, arith,
}
use nfproxy.Go.Act.{◌>>=◌}
use nfproxy.Go.Panics.{
  Panics, Panics-left, Panics-right, Panics-deref, Panics-found, Panics-else, Panics-when,
}
use nfproxy.External.{External}
use nfproxy.Kube.{KubePort, Service}
use nfproxy.Proxy.Cache.{get_last_known_svc_from_cache}
use nfproxy.Proxy.Tools.{is_service_port_in_ports}
use nfproxy.Proxy.Service.{BaseServiceInfo}
use nfproxy.Proxy.State.{Proxy}
use nfproxy.Proxy.Endpoints.Handlers.{stored_or}
use nfproxy.Proxy.Services.Changes.{
  change_node_port, change_port, process_new_port, process_new_ports, process_service_port_changes,
}
use nfproxy.Proxy.Services.Handlers.{change_service, update_service}

module _ (ext : External) (new stored : Service) where
  change_node_port-Panics :
      (i : ℕ) (port old : KubePort)
      → get_elem? stored.spec.ports i ≡ none
      → Panics (change_node_port ext new stored i port old)
  unfolding change_node_port
  change_node_port-Panics i port old h =
      Panics-right _ _
        (λ known. Panics-right _ _ (λ svc. Panics-right _ _ (λ _. Panics-deref _ _ h)))

  change_port-Panics :
      (i : ℕ) (port old : KubePort) (base : BaseServiceInfo)
      → get_elem? stored.spec.ports i ≡ none
      → (old.name == port.name) ≡ true
      → (old.node_port == port.node_port) ≡ false
      → Panics (change_port ext new stored i port base old)
  unfolding change_port
  change_port-Panics i port old base h same changed = Panics-else _ _ _ (ap not same) (
      Panics-right _ _
        (λ _. Panics-when _ _ (ap not changed) (change_node_port-Panics i port old h)))

  process_new_port-Panics :
      (i id : ℕ) (port old : KubePort)
      → get_elem? stored.spec.ports i ≡ none
      → is_service_port_in_ports stored.spec.ports port ≡ (id, true)
      → get_elem? stored.spec.ports id ≡ some old
      → (old.name == port.name) ≡ true
      → (old.node_port == port.node_port) ≡ false
      → Panics (process_new_port ext new stored i port)
  unfolding process_new_port
  process_new_port-Panics i id port old h found at same changed = Panics-right _ _ (λ base.
      Panics-right _ _ (λ known.
        rw found (Panics-found _ old _ at (change_port-Panics i port old base h same changed))))

  process_new_ports-Panics :
      (ports : List KubePort) (start j i id : ℕ) (port old : KubePort)
      → get_elem? ports j ≡ some port
      → i ≡ start + j
      → get_elem? stored.spec.ports i ≡ none
      → is_service_port_in_ports stored.spec.ports port ≡ (id, true)
      → get_elem? stored.spec.ports id ≡ some old
      → (old.name == port.name) ≡ true
      → (old.node_port == port.node_port) ≡ false
      → Panics (process_new_ports ext new stored start ports)
  unfolding process_new_ports
  process_new_ports-Panics [] start j i id port old here e h found at same changed = cc
  process_new_ports-Panics (p ∷ ps) start zero i id port old here e h found at same changed =
      let moved : port ≡ p = ground arith in
      let start_out : get_elem? stored.spec.ports start ≡ none =
        subst (λ n. get_elem? stored.spec.ports n ≡ none) (omega arith) h in
      Panics-left _ _ (
        subst (λ q. Panics (process_new_port ext new stored start q)) moved
          (process_new_port-Panics start id port old start_out found at same changed))
  process_new_ports-Panics (p ∷ ps) start (suc j) i id port old here e h found at same changed =
      Panics-right _ _ (λ _.
        process_new_ports-Panics ps (suc start) j i id port old here (omega arith) h found at same
          changed)

-- An update of a service in which a port is kept under its name, has another node port than
-- before, and stands at an index at which the stored service has no port, panics in every state.
pub update_service-Panics :
    (ext : External) (old new stored : Service) (i id : ℕ) (port old_port : KubePort)
    (p : Proxy ext.Kernel)
    → stored_or (get_last_known_svc_from_cache p.cache new.meta.name new.meta.namespace) old
      ≡ stored
    → get_elem? new.spec.ports i ≡ some port
    → get_elem? stored.spec.ports i ≡ none
    → is_service_port_in_ports stored.spec.ports port ≡ (id, true)
    → get_elem? stored.spec.ports id ≡ some old_port
    → (old_port.name == port.name) ≡ true
    → (old_port.node_port == port.node_port) ≡ false
    → update_service ext old new p ≡ none
unfolding update_service change_service process_service_port_changes ◌>>=◌
update_service-Panics ext old new stored i id port old_port p cached here h found at same changed =
    rw
      (
        cached,
        (process_new_ports-Panics ext new stored new.spec.ports 0 i i id port old_port here
              (omega arith) h found at same changed).at
            p,
      )
      refl
