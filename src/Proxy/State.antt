-- ===== src/Proxy/State.antt =====
-- pkg/proxy/proxy.go: the proxy's state. Its mutex is held from the first to the last access of
-- one operation, so an operation is one step. `kernel` is the state behind `nfti`.
use nfproxy.Prelude.{
  String, Bool, none, some, Option, List, [], Assoc, lookup, insert, erase, or_else, if◌then◌else◌,
}
use nfproxy.Go.{⊤}
use nfproxy.Go.Act.{Act}
use nfproxy.Nftables.Base.{NftInterface}
use nfproxy.Proxy.Types.{ServicePortName, port_name_Eq}
use nfproxy.Proxy.Cache.{Cache}
use nfproxy.Proxy.Service.{ServiceInfo}
use nfproxy.Proxy.Endpoint.{EndpointInfo}

pub record Proxy (K : Type 0) : Type 0 where
  pub hostname : String
  pub nfti : NftInterface
  pub kernel : K
  pub service_map : Assoc ServicePortName ServiceInfo
  pub endpoints_map : Assoc ServicePortName (List EndpointInfo)
  pub cache : Cache

-- NewProxy: only one of the endpoint caches is made.
unfoldable pub new_proxy : {K : Type 0} → NftInterface → K → String → Bool → Proxy K
new_proxy nfti kernel hostname endpoint_slice = record {
  hostname = hostname;
  nfti = nfti;
  kernel = kernel;
  service_map = [];
  endpoints_map = [];
  cache = record {
    svc_cache = some [];
    ep_cache = if endpoint_slice then none else some [];
    epsl_cache = if endpoint_slice then some [] else none;
  };
}

module _ {K : Type 0} where
  -- A call of the nftables package.
  unfoldable pub kernel_call : {A : Type 0} → (NftInterface → K → A × K) → Act (Proxy K) A
  kernel_call m p = let (a, k) = m p.nfti p.kernel in some (a, record p { kernel = k })

  unfoldable pub kernel_act : {A : Type 0} → (NftInterface → Act K A) → Act (Proxy K) A
  kernel_act m p = elim (m p.nfti p.kernel) [
    | none ↦ none
    | some (a, k) ↦ some (a, record p { kernel = k })
  ]

  unfoldable pub cache_act : Act Cache ⊤ → Act (Proxy K) ⊤
  cache_act m p = elim (m p.cache) [ none ↦ none | some (_, c) ↦ some (tt, record p { cache = c }) ]

  unfoldable pub set_cache : (Cache → Cache) → Act (Proxy K) ⊤
  set_cache f p = some (tt, record p { cache = f p.cache })

  -- `p.serviceMap[name]`
  abbrev pub service_of : ServicePortName → Proxy K → Option ServiceInfo
  service_of name p = lookup name p.service_map

  -- `p.endpointsMap[name]`, nil if the key is missing
  abbrev pub endpoints_of : ServicePortName → Proxy K → List EndpointInfo
  endpoints_of name p = or_else (lookup name p.endpoints_map) []

  unfoldable pub set_service : ServicePortName → ServiceInfo → Act (Proxy K) ⊤
  set_service name svc p = some (tt, record p { service_map = insert name svc p.service_map })

  unfoldable pub drop_service : ServicePortName → Act (Proxy K) ⊤
  drop_service name p = some (tt, record p { service_map = erase name p.service_map })

  unfoldable pub set_endpoints : ServicePortName → List EndpointInfo → Act (Proxy K) ⊤
  set_endpoints name eps p = some (tt, record p { endpoints_map = insert name eps p.endpoints_map })

  unfoldable pub drop_endpoints : ServicePortName → Act (Proxy K) ⊤
  drop_endpoints name p = some (tt, record p { endpoints_map = erase name p.endpoints_map })
