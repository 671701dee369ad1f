-- ===== src/Proxy.antt =====
-- pkg/proxy: the proxy's state and the handlers of the Kubernetes events.
pub mod Types
pub mod Cache
pub mod Tools
pub mod Service
pub mod Endpoint
pub mod State
pub mod Sets
pub mod Update
pub mod Endpoints
pub mod Slices
pub mod EndpointAffinity
pub mod Services
pub mod Invariant
pub mod Isolation
pub mod Bootstrap
pub mod Stores
