-- ===== src/Nftables.antt =====
-- pkg/nftables: the program's calls of the nftables library, by what they program.
pub mod Base
pub mod Types
pub mod Sets
pub mod Chains
pub mod Rules
pub mod Program
pub mod Handles
pub mod Runs
pub mod Setup
