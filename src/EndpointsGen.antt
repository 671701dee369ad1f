-- ===== src/EndpointsGen.antt =====
-- pkg/endpointsgen/util.go: the generator of test services and endpoints.
pub mod Addresses
pub mod Objects
pub mod Cluster
pub mod Groups
pub mod Totals
pub mod Laws
pub mod Sizes
pub mod Services
pub mod Modes
