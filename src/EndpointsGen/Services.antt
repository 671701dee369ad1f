-- ===== src/EndpointsGen/Services.antt =====
-- The services of the generator have the ports of their endpoints, as the proxy names them.
use nfproxy.Prelude.{
  ◌≡◌, subst, Bool, true, false, ◌==◌, text_Eq, nat_Eq, List, [], ◌∷◌, ◌++◌, map, any, All, All-map,
  if◌then◌else◌, beq_refl, any_here, any_there, any-append_left, any-append_right,
}
use nfproxy.Go.{Result, ok, err}
use nfproxy.Kube.{ObjectMeta, KubePort, EndpointAddress, EndpointPort, EndpointSubset, Endpoints}
use nfproxy.Proxy.Types.{ServicePortName, port_name_Eq, EpInfo}
use nfproxy.Proxy.Tools.{get_svc_port_name}
use nfproxy.Proxy.Services.Changes.{name_of}
use nfproxy.Proxy.Endpoints.Subsets.{
  ep_info, process_addresses, process_ports, process_subsets, process_ep_subsets,
}
use nfproxy.Proxy.Endpoints.Laws.{AllOk, AllOk-also}
use nfproxy.EndpointsGen.Objects.{service_port, service_ports, generate_service}

if-AllOk :
    (P : EpInfo → Type 0) (b : Bool) (r q : Result (List EpInfo))
    → AllOk P r
    → AllOk P q
    → AllOk P (if b then r else q)
if-AllOk P true r q h k = h
if-AllOk P false r q h k = k

abbrev is_named : ObjectMeta → ServicePortName → KubePort → Bool
is_named meta name p = get_svc_port_name meta.name meta.namespace p.name p.protocol == name

-- A port of that name is in the list.
abbrev HasPort : ObjectMeta → List KubePort → EpInfo → Type 0
HasPort meta ports info = any (is_named meta info.name) ports ≡ true

AllOk-weaken :
    (P Q : EpInfo → Type 0) (r : Result (List EpInfo))
    → ((info : EpInfo) → P info → Q info)
    → AllOk P r
    → AllOk Q r
AllOk-weaken P Q (ok xs) f h = All-map xs f h
AllOk-weaken P Q (err e) f h = tt

process_addresses-AllOk :
    (P : EpInfo → Type 0) (name : ServicePortName) (port : EndpointPort)
    (addrs : List EndpointAddress)
    → ((a : EndpointAddress) → P (ep_info name port a))
    → AllOk P (process_addresses name port addrs)
unfolding process_addresses
process_addresses-AllOk P name port [] h = tt
process_addresses-AllOk P name port (a ∷ addrs) h = if-AllOk P (a.ip == "") _ _ tt (
    AllOk-also P (ok (ep_info name port a ∷ [])) _ (h a, tt)
      (process_addresses-AllOk P name port addrs h))

module _ (meta : ObjectMeta) where
  process_ports-AllOk :
      (ss : EndpointSubset) (ports : List EndpointPort)
      → AllOk (HasPort meta (map service_port ports)) (process_ports meta ss ports)
  unfolding process_ports
  process_ports-AllOk ss [] = tt
  process_ports-AllOk ss (p ∷ ports) =
      let name = get_svc_port_name meta.name meta.namespace p.name p.protocol in
      let P = HasPort meta (map service_port (p ∷ ports)) in
      let own =
        any_here (is_named meta name) (service_port p) (map service_port ports) (beq_refl name) in
      if-AllOk P (p.port == 0) _ _ tt (
        AllOk-also P _ _ (process_addresses-AllOk P name p ss.addresses (λ a. own)) (
          AllOk-also P _ _ (process_addresses-AllOk P name p ss.not_ready_addresses (λ a. own)) (
            AllOk-weaken (HasPort meta (map service_port ports)) P (process_ports meta ss ports)
              (λ info h.
                any_there (is_named meta info.name) (service_port p) (map service_port ports) h)
              (process_ports-AllOk ss ports))))

  process_subsets-AllOk :
      (subsets : List EndpointSubset)
      → AllOk (HasPort meta (service_ports subsets)) (process_subsets meta subsets)
  unfolding process_subsets service_ports
  process_subsets-AllOk [] = tt
  process_subsets-AllOk (ss ∷ rest) =
      let P = HasPort meta (map service_port ss.ports ++ service_ports rest) in
      AllOk-also P _ _
        (AllOk-weaken (HasPort meta (map service_port ss.ports)) P (process_ports meta ss ss.ports)
          (λ info h.
            any-append_left (is_named meta info.name) (map service_port ss.ports)
              (service_ports rest) h)
          (process_ports-AllOk ss ss.ports))
        (AllOk-weaken (HasPort meta (service_ports rest)) P (process_subsets meta rest)
          (λ info h.
            any-append_right (is_named meta info.name) (map service_port ss.ports)
              (service_ports rest) h)
          (process_subsets-AllOk rest))

-- Each endpoint that the proxy finds in an Endpoints object belongs, by its name, to a port of the
-- service that generateServices makes for the object.
pub generate_service-ports :
    (ep : Endpoints) (infos : List EpInfo)
    → process_ep_subsets ep ≡ ok infos
    → All
        (λ (info : EpInfo).
          any (λ p. name_of (generate_service ep) p == info.name) (generate_service ep).spec.ports
          ≡ true)
        infos
unfolding process_ep_subsets generate_service service_ports
generate_service-ports ep infos h =
    subst (AllOk (HasPort ep.meta (service_ports ep.subsets))) h
      (process_subsets-AllOk ep.meta ep.subsets)
