-- ===== src/Pallet.antt =====
-- pallet-ismp/src/lib.rs: the pallet's storage and the functions that read and write it.
mod Errors
mod Events
mod Store
mod Parameters
mod Traits
mod Getters
pub mod Conversions
unfoldable pub use Errors.*
unfoldable pub use Events.*
unfoldable pub use Store.*
unfoldable pub use Getters.*
pub use Parameters.*
pub use Traits.*
