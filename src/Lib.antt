-- ===== src/Lib.antt =====
-- nfproxy is a Kubernetes proxy that programs nftables rules for services. Informers call the
-- handlers of pkg/controller, and these call the methods of the Proxy interface (pkg/proxy/proxy.go)
-- with the API objects that were added, deleted or updated; the methods keep a map of service ports,
-- a map of their endpoints and a cache of the objects, and call pkg/nftables, which programs chains,
-- rules and sets through the library nftableslib.
--
-- Which file models which part:
--   Prelude, Go      lists, maps and searches; Go's errors, code that may panic (`Act`) and code
--                    that returns an error (`Exec`), and the rules to reason about them
--   Kube             the fields of the API objects that the program reads
--   External         what the program calls and does not contain, as one record of parameters:
--                    nftableslib with the state of netfilter, the standard library, and the
--                    Kubernetes helpers. Nothing is assumed of its functions, but for what a
--                    theorem names as its hypothesis.
--   Nftables         pkg/nftables/nftables.go: elements of sets (Sets), chains and lists of rules
--                    (Chains), an endpoint's rules (Rules), a service's rules (Program); the names
--                    of pkg/nftables/common.go (Base)
--   Nftables.Setup   pkg/nftables/common.go and InitNFTables: the static chains (Chains), sets
--                    (Sets) and rules (Filter, Nat), and their creation (Init)
--   Proxy.Cache      pkg/proxy/cache.go
--   Proxy.Types, Proxy.Service, Proxy.Endpoint
--                    types.go, service.go, endpoints.go and topology.go of pkg/proxy
--   Proxy.Tools      pkg/proxy/tools.go
--   Proxy.State, Proxy.Update, Proxy.EndpointAffinity
--                    pkg/proxy/proxy.go: the state, updateServiceChain with addEndpointRules, and
--                    the update rules of endpoints
--   Proxy.Sets       pkg/proxy/sets.go
--   Proxy.Endpoints  pkg/proxy/proxy_endpoints.go
--   Proxy.Slices     pkg/proxy/proxy_endpointslice.go
--   Proxy.Services   pkg/proxy/proxy_service.go: service ports, the handlers, and the steps of an
--                    update (Changes, Addresses, Affinity)
--   Proxy.Invariant  the invariant of the two maps, by operation, and the events (Events)
--   Proxy.Isolation  what an operation on one service port leaves alone
--   Proxy.Stores     what each event does to the cache
--   Proxy.Bootstrap  BootstrapRules of pkg/proxy/tools.go; Proxy.Stores.Bootstrap: the API server in
--                    the cache
--   Controller       pkg/controller: the handlers that the informers call, how they are
--                    registered (Notify), and what the cache has of the informer (Versions, Services)
--   Command          cmd/nfproxy.go: main up to the start of the informers, the API endpoint, and
--                    the states of the whole process (Served)
--   EndpointsGen     pkg/endpointsgen/util.go: the generator of test services and endpoints
--   Tests            runs at concrete inputs
--
-- How the state is modelled: `Proxy` is the struct proxy, with the state of netfilter behind
-- `nfti` as one more field. The mutex is held from the first to the last access of an operation on
-- one service port, so that such an operation is one step; handlers are run one after the other.
-- A service and its SVCnft, which the source changes through a pointer, are written back to the
-- map after each change; an endpoint whose pointer stood twice in a slice would be two endpoints
-- here. A panic (a nil dereference, an index out of range, a write to a nil map) is
-- `none`. A slice that is shortened in place while it is walked is modelled with its shifted
-- array. Log lines are left out where they evaluate nothing that can fail. Numbers are natural
-- numbers, with the conversions to uint16 and uint32 written out. The loops are recursions on the
-- slice that they walk; the one over a slice that changes has one round for each of its elements.
--
-- The generator's bytes wrap at 256, its ports at 2 ^ 16 and its ints at 2 ^ 64, with the
-- highest bit as the sign. The counters of its loops stay below their bounds and do not wrap.
--
-- Not modelled: what is input and output only (the Kubernetes client, the netlink connection, flags,
-- signals, the label selector, printGenAddr), and functions that nothing calls, as getLocalEndpointIPs
-- and some getters. A concurrent handler between two operations of another one is not modelled.
pub mod Prelude
pub mod Go
pub mod Kube
pub mod External
pub mod Nftables
pub mod Proxy
pub mod Tests
pub mod Controller
pub mod Command
pub mod EndpointsGen
