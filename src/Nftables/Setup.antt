-- ===== src/Nftables/Setup.antt =====
-- pkg/nftables/common.go, and InitNFTables of nftables.go: the tables, chains, sets and rules that
-- are there before the first event.
pub mod Chains
pub mod Sets
pub mod Filter
pub mod Nat
pub mod Init
pub mod Laws
pub mod Ready
pub mod Positions
