-- ===== src/Host.antt =====
-- pallet-ismp/src/host.rs: the pallet's storage as the host that the `ismp` crate's handlers read
-- and write. A method that writes returns the state; those whose `Result` is always `Ok(())` keep
-- it.
mod Reads
mod Writes
pub mod Laws
unfoldable pub use Reads.*
unfoldable pub use Writes.*
