-- ===== src/Ismp.antt =====
-- The data of the `ismp` crate (ismp-rs) that the pallet builds, matches on and stores. Only what
-- pallet-ismp's own text shows of a type is kept: its fields where the source writes a literal, its
-- variants where the source matches on them. The crate's functions are parameters (`Library`).
mod Data
mod Router
mod Consensus
mod Messages
mod Error
pub mod Library
unfoldable pub use Data.*
unfoldable pub use Router.*
unfoldable pub use Consensus.*
pub use Messages.*
pub use Error.*
