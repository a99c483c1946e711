-- ===== src/Tests.antt =====
-- Concrete instances of everything that stands outside the repository, and each theorem with
-- hypotheses applied to them.
pub mod Serial
pub mod Wire
pub mod Scale
pub mod Ranges
pub mod Chain
pub mod Mountains
pub mod Dispatch
pub mod Batches
pub mod Services
pub mod Transfers
pub mod Listing
pub mod Steps
pub mod Logs
pub mod Sessions
pub mod Requests
pub mod Blocks
pub mod Updates
pub mod Responses
pub mod Bridge
pub mod Benchmarks
