-- ===== src/Proxy/Endpoints/Subsets.antt =====
-- pkg/proxy/proxy_endpoints.go: processEpSubsets
use nfproxy.Prelude.{text_append, false, ◌==◌, text_Eq, nat_Eq, List, [], ◌∷◌, ◌++◌, if◌then◌else◌}
use nfproxy.Go.{Result, ok, err, message}
use nfproxy.Kube.{EndpointAddress, EndpointPort, EndpointSubset, Endpoints, ObjectMeta}
use nfproxy.Proxy.Types.{ServicePortName, EpInfo}
use nfproxy.Proxy.Tools.{get_svc_port_name}

-- Both lists, or the first error.
abbrev pub also : {A : Type 0} → Result (List A) → Result (List A) → Result (List A)
also (ok xs) (ok ys) = ok (xs ++ ys)
also (ok xs) (err e) = err e
also (err e) r = err e

-- The field `ready` is not set here.
abbrev pub ep_info : ServicePortName → EndpointPort → EndpointAddress → EpInfo
ep_info name port addr = record { name = name; addr = addr; port = port; ready = false }

unfoldable pub process_addresses :
    ServicePortName → EndpointPort → List EndpointAddress → Result (List EpInfo)
process_addresses name port [] = ok []
process_addresses name port (a ∷ rest) =
    if a.ip == ""
    then err (message (text_append "found invalid endpoint port with empty host " port.name))
    else also (ok (ep_info name port a ∷ [])) (process_addresses name port rest)

unfoldable pub process_ports :
    ObjectMeta → EndpointSubset → List EndpointPort → Result (List EpInfo)
unfolding process_addresses
process_ports meta ss [] = ok []
process_ports meta ss (p ∷ ports) =
    let name = get_svc_port_name meta.name meta.namespace p.name p.protocol in
    if p.port == 0
    then err (message (text_append "found invalid endpoint port " p.name))
    else also (process_addresses name p ss.addresses)
        (also (process_addresses name p ss.not_ready_addresses) (process_ports meta ss ports))

unfoldable pub process_subsets : ObjectMeta → List EndpointSubset → Result (List EpInfo)
unfolding process_ports
process_subsets meta [] = ok []
process_subsets meta (ss ∷ rest) = also (process_ports meta ss ss.ports) (process_subsets meta rest)

unfoldable pub process_ep_subsets : Endpoints → Result (List EpInfo)
unfolding process_subsets
process_ep_subsets ep = process_subsets ep.meta ep.subsets
