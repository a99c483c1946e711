-- ===== src/Benchmarks.antt =====
-- pallet-ismp/src/benchmarking.rs: the benchmarks as runs on a state.
pub mod Mocks
pub mod Incoming
pub mod Outgoing
pub mod Blocks
pub mod Dispatches
