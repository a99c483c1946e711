-- ===== src/Mmr.antt =====
-- pallet-ismp/src/mmr: the Merkle mountain range of the outgoing requests and responses.
pub mod Utils
pub mod Mountains
pub mod Forest
pub mod Sizes
pub mod Storage
pub mod Operations
pub mod Push
pub mod Trees
pub mod Root
pub mod Shapes
pub mod Inputs
pub mod Binding
pub mod Bounds
