-- ===== src/Proxy/Stores/Bootstrap.antt =====
-- pkg/proxy/tools.go: what BootstrapRules leaves in the cache, and the endpoint that it stands for.
use nfproxy.Prelude.{
  ℕ, String, text_Eq, nat_Eq, ◌==◌, ◌≡◌, refl, ap, ◌∙◌, map, Bool, true, false, Option, none, some,
  List, [], ◌∷◌, lookup,
}
use nfproxy.Go.{⊤, ok}
use nfproxy.Go.Act.{Act, resume, ◌>>=◌}
use nfproxy.External.{External, Url}
use nfproxy.Kube.{KubePort, Service, Endpoints, EndpointSlice}
use nfproxy.Proxy.Types.{EpInfo}
use nfproxy.Proxy.Cache.{
  Cache, key, find, svc_text, get_last_known_svc_from_cache, get_last_known_ep_from_cache,
  get_last_known_ep_sl_from_cache,
}
use nfproxy.Proxy.State.{Proxy}
use nfproxy.Proxy.Tools.{get_svc_port_name, get_ip_family}
use nfproxy.Proxy.Bootstrap.{to_int32, api_service, api_slice, api_endpoints, bootstrap_rules}
use nfproxy.Proxy.Endpoints.Subsets.{
  process_ep_subsets, process_subsets, process_ports, process_addresses,
}
use nfproxy.Proxy.Slices.{
  process_ep_slice, get_service_name_from_service_name_label, slice_endpoints, slice_ports,
  slice_port, slice_addresses,
}
use nfproxy.Proxy.Services.Changes.{name_of}
use nfproxy.Proxy.Invariant.Events.{service_added, endpoints_added, slice_added, handle}
use nfproxy.Proxy.Stores.Reads.{read_svc, read_ep, read_epsl, store_ep-same, store_ep_sl-same}
use nfproxy.Proxy.Stores.Events.{Records, handle-Records}

-- The cache has Endpoints, or a slice, of the API server, of which the handlers make these.
abbrev pub ServesApi : Bool → Cache → List EpInfo → Type 0
ServesApi false c infos =
    (ep : Endpoints) × (get_last_known_ep_from_cache c "kubernetes" "default" ≡ ok ep)
    × (process_ep_subsets ep ≡ ok infos)
ServesApi true c infos =
    (epsl : EndpointSlice) × (get_last_known_ep_sl_from_cache c "kubernetes" "default" ≡ ok epsl)
    × (process_ep_slice epsl c ≡ some (ok infos, c))

module _ {S : Type 0} where
  bind-runs :
      (o : Option (⊤ × S)) (n : Act S ⊤) (q : S)
      → resume o (λ _. n) ≡ some (tt, q)
      → (p : S) × (o ≡ some (tt, p)) × (n p ≡ some (tt, q))
  bind-runs none n q h = cc h
  bind-runs (some (_, p)) n q h = (p, refl, h)

-- The endpoint of the API server.
abbrev api_info : String → String → ℕ → Bool → EpInfo
api_info scheme host port ready = record {
  name = get_svc_port_name "kubernetes" "default" scheme "TCP";
  addr = record { ip = host; hostname = ""; node_name = none };
  port = record { name = scheme; port = port; protocol = "TCP" };
  ready = ready;
}

module _ (scheme host : String) (port : ℕ) (named : (host == "") ≡ false)
    (numbered : (port == 0) ≡ false) where
  api_endpoints-info :
      process_ep_subsets (api_endpoints scheme host port)
      ≡ ok (api_info scheme host port false ∷ [])
  unfolding process_ep_subsets process_subsets process_ports process_addresses
  api_endpoints-info = rw (named, numbered) refl

  api_slice-info :
      {S : Type 0} (family : String) (s : S)
      → process_ep_slice (api_slice scheme host port family) s
        ≡ some (ok (api_info scheme host port true ∷ []), s)
  unfolding process_ep_slice get_service_name_from_service_name_label slice_endpoints slice_ports
      slice_port slice_addresses lookup ◌>>=◌
  api_slice-info family s = rw numbered refl

module _ (ext : External) (in_host in_port : String) (endpoint : Url) where
  open ext use {Kernel}

  abbrev host : String
  host = (ext.split_host_port endpoint.host).0

  abbrev port : ℕ
  port = to_int32 (ext.atoi (ext.split_host_port endpoint.host).1).0

  -- The service of the API server.
  abbrev pub api : Service
  api =
      api_service endpoint.scheme in_host (to_int32 (ext.atoi in_port).0)
        (get_ip_family ext in_host).0

  service_stays :
      (c c' d : Cache)
      → Records (service_added api) c c'
      → d.svc_cache ≡ c'.svc_cache
      → get_last_known_svc_from_cache d "kubernetes" "default" ≡ ok api
  unfolding get_last_known_svc_from_cache
  service_stays c c' d s e =
      ap (λ o. find svc_text (key "kubernetes" "default") o) e
      ∙ read_svc c c' api s "kubernetes" "default"

  -- The services at the end are those after the service was stored.
  pub bootstrap_rules-stores :
      (slices : Bool) (p q : Proxy Kernel)
      → bootstrap_rules ext in_host in_port endpoint slices p ≡ some (tt, q)
      → (r : Proxy Kernel) × Records (service_added api) p.cache r.cache
        × (q.cache.svc_cache ≡ r.cache.svc_cache)
  unfolding bootstrap_rules handle ◌>>=◌
  bootstrap_rules-stores false p q h =
      let (r, added, ended) = bind-runs (handle ext (service_added api) p) _ q h in
      let ep = api_endpoints endpoint.scheme host port in
      (
        r,
        handle-Records ext (service_added api) p r added,
        store_ep-same r.cache ep q.cache (handle-Records ext (endpoints_added ep) r q ended),
      )
  bootstrap_rules-stores true p q h =
      let (r, added, ended) = bind-runs (handle ext (service_added api) p) _ q h in
      let epsl = api_slice endpoint.scheme host port (get_ip_family ext in_host).0 in
      (
        r,
        handle-Records ext (service_added api) p r added,
        store_ep_sl-same r.cache epsl q.cache (handle-Records ext (slice_added epsl) r q ended),
      )

  -- The cache at the end, in both modes.
  pub record HasApi (slices : Bool) (c : Cache) : Type 0 where
    pub svc : Service
    pub info : EpInfo
    pub svc_cached : get_last_known_svc_from_cache c "kubernetes" "default" ≡ ok svc
    pub svc_host : svc.spec.cluster_ip ≡ in_host
    pub svc_port :
        map (λ (p : KubePort). p.port) svc.spec.ports ≡ to_int32 (ext.atoi in_port).0 ∷ []
    pub svc_name : map (name_of svc) svc.spec.ports ≡ info.name ∷ []
    pub info_cached : ServesApi slices c (info ∷ [])
    pub info_host : info.addr.ip ≡ host
    pub info_port : info.port.port ≡ port

  -- After BootstrapRules has ended, the cache has the service "kubernetes" of the namespace "default"
  -- with the host and the port of the cluster, and, by the mode, Endpoints or a slice of the same
  -- name, which the handlers process to one endpoint: the host and the port of the API server, under
  -- the name of the service's port; if that host is not empty and its port is not 0.
  pub bootstrap_rules-HasApi :
      (slices : Bool) (p q : Proxy Kernel)
      → (host == "") ≡ false
      → (port == 0) ≡ false
      → bootstrap_rules ext in_host in_port endpoint slices p ≡ some (tt, q)
      → HasApi slices q.cache
  unfolding bootstrap_rules handle ◌>>=◌
  bootstrap_rules-HasApi false p q named numbered h =
      let (r, added, ended) = bind-runs (handle ext (service_added api) p) _ q h in
      let first = handle-Records ext (service_added api) p r added in
      let ep = api_endpoints endpoint.scheme host port in
      let second = handle-Records ext (endpoints_added ep) r q ended in
      record {
        svc = api;
        info = api_info endpoint.scheme host port false;
        svc_cached =
            service_stays p.cache r.cache q.cache first (store_ep-same r.cache ep q.cache second);
        svc_host = refl;
        svc_port = refl;
        svc_name = refl;
        info_cached = (
          ep,
          read_ep r.cache q.cache ep second "kubernetes" "default",
          api_endpoints-info endpoint.scheme host port named numbered,
        );
        info_host = refl;
        info_port = refl;
      }
  bootstrap_rules-HasApi true p q named numbered h =
      let (r, added, ended) = bind-runs (handle ext (service_added api) p) _ q h in
      let first = handle-Records ext (service_added api) p r added in
      let epsl = api_slice endpoint.scheme host port (get_ip_family ext in_host).0 in
      let second = handle-Records ext (slice_added epsl) r q ended in
      record {
        svc = api;
        info = api_info endpoint.scheme host port true;
        svc_cached =
            service_stays p.cache r.cache q.cache first
              (store_ep_sl-same r.cache epsl q.cache second);
        svc_host = refl;
        svc_port = refl;
        svc_name = refl;
        info_cached = (
          epsl,
          read_epsl r.cache q.cache epsl second "kubernetes" "default",
          api_slice-info endpoint.scheme host port named numbered (get_ip_family ext in_host).0
              q.cache,
        );
        info_host = refl;
        info_port = refl;
      }
