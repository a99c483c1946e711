-- ===== src/Lib.antt =====
-- Verification of pallet-ismp, the ISMP implementation for substrate-based chains.
--
-- The program. A module dispatches requests and responses through pallet-ismp/src/dispatcher.rs, which
-- numbers them and hands them to pallet-ismp/src/handlers.rs. There each becomes a leaf of a Merkle
-- mountain range (pallet-ismp/src/mmr), a commitment in storage and an event; only the peaks of the
-- range stay on chain, all nodes and the index of each leaf go to the offchain database. At the end
-- of a block the hook of pallet-ismp/src/lib.rs puts the root of the range into the digest, where
-- other chains read it with pallet-ismp/primitives/src/lib.rs. Incoming batches of messages go through
-- `handle_messages`, which calls the `ismp` crate over the storage that pallet-ismp/src/host.rs gives
-- it, and are charged by pallet-ismp/src/weight_info.rs.
--
-- The files.
--   Base, StorageMap: shared names and lemmas; a FRAME storage map as its entries.
--   Ismp: the data of the `ismp` crate, and `Library`, the functions of it that the pallet calls.
--   Primitives: pallet-ismp/src/primitives.rs and pallet-ismp/primitives/src. Primitives.Digest is
--     `fetch_overlay_root_and_timestamp`, Primitives.Leaves is mmr.rs there.
--   Pallet: the storage items of pallet-ismp/src/lib.rs as the record `State`, the events, the errors
--     of pallet-ismp/src/errors.rs, and the parameters of a `Runtime`.
--   Mmr: Mmr.Utils, Mmr.Storage and Mmr.Operations are utils.rs, storage.rs and mmr.rs of
--     pallet-ismp/src/mmr. Mmr.Mountains defines ranges independently, leaf by leaf, and Mmr.Sizes,
--     Mmr.Storage.Peaks, Append, Invariant and Mmr.Push compare the code with it. Mmr.Forest is the
--     abstract view, the log of leaves and the perfect trees over it; Mmr.Trees says when the chain
--     holds them, Mmr.Root what their root is, and Mmr.Binding what a root says of the leaves,
--     by the shapes of trees in Mmr.Shapes and the hashed inputs in Mmr.Inputs.
--   Leaves: `mmr_push` and the leaf queries of pallet-ismp/src/lib.rs. Leaves.Log has `Represents`,
--     what a state promises of a log, and Leaves.Serving and Leaves.Pending what is read from it, and
--     Leaves.Index (with Handlers.Index) has `Indexed`, that each request of a log is found by its
--     chains and nonce.
--   Handlers: pallet-ismp/src/handlers.rs, and Handlers.Dispatcher dispatcher.rs.
--   Host: the methods of `IsmpHost` in pallet-ismp/src/host.rs.
--   Weights: pallet-ismp/src/weight_info.rs. Messages: `handle_messages`. Hooks: `on_initialize` and
--     `on_finalize`, with Hooks.Log, Binding and Fetched on the root of a log. Calls: the four calls.
--   Chain: the states that dispatches, ends of blocks and the administrator's calls reach. Chain.Ranges
--     has what leaves the range alone, and Messages.Ranges the same for a batch; Chain.Incoming
--     says how the `ismp` crate acts on the chain, Chain.Batches what a batch does then, and
--     Chain.Sessions has everything that a chain does, in any order. Chain.Moves brings that down to
--     dispatches, from which Chain.Indexed follows the nonces and the index of the log's requests.
--     Messages.Announced and Entered count the updates of state machines that are announced or wait,
--     Handlers.Quiet and Chain.Quiet have what leaves them alone, and Chain.Announced follows them.
--     Handlers.Answered and Chain.Answered follow the responses of the log in the same way.
--   Rpc: the queries of pallet-ismp/rpc/src/lib.rs. Rpc.Api is pallet-ismp/runtime-api/src/lib.rs, and
--     Rpc.Serves what an implementation of it answers from the storage of a block and the current
--     offchain database, which Chain.Past shows is enough; Rpc.Server has the interface `IsmpApi`.
--   Benchmarks: pallet-ismp/src/benchmarking.rs, with what pallet-ismp/src/mocks/ismp.rs sets up.
--   Demo: ismp-demo/src/lib.rs, over the dispatcher of pallet-ismp, with its currency as a parameter.
--     Demo.Bridge has two chains that run it, with the transfers on their way;
--     Demo.Bridge.Supply adds up what is issued and what is on its way.
--   Tests: concrete instances of all parameters, at which the theorems are applied.
--
-- State is passed on explicitly: an operation that writes takes the `State` and returns the new one.
-- A Rust field `data` is called `body` here, and `ModuleId` keeps its arrays as lists with their
-- length as a predicate. `Option`, `Result` and early returns are values.
--
-- Bounds and fuel. Arithmetic on `u64` wraps at 2^64 where the code computes it; theorems on ranges ask
-- that twice the number of leaves is below 2^64. The one loop without a bound of its own, which skips
-- the common peaks in `peaks_to_prune_and_store`, has one round more than there are old peaks, which
-- is enough whenever it ends at all. A run of type `Run` is `none` where the code does not return.
--
-- Parameters: the `ismp` crate, SCALE (`Codec`), the hash function, the library
-- ckb-merkle-mountain-range (`MmrLib`), FRAME's origins, the runtime's weights, Aura's slots, the
-- client of the RPC, and the currency of the demo. What they are relied on for are the records
-- `IsScale`, `FindsPeaks`, `AppendsLeaf`, `BagsPeaks`, `Has32Bytes`, `Adds`, `InKind`, `Answers`,
-- `Acts`, `Behaves`, `ReadsRequests`, `Serves`, `ServesBlock`, `MovesFunds`
-- and `Issues`.
-- Numbers that the code keeps in `u64` fields of messages are unbounded there.
--
-- Not modelled: tests and mocks, but for the client that the benchmarks create; logging; the storage
-- transaction around a call, which FRAME rolls back on an error, as Calls and Demo leave what was
-- written; the weights that the attributes of the calls declare; the reset of the events at the start
-- of a block, which FRAME does, so that only `ServesBlock` is about one block's events; and the hashers of storage maps.
pub mod Base
pub mod StorageMap
pub mod Ismp
pub mod Primitives
pub mod Pallet
pub mod Mmr
pub mod Leaves
pub mod Host
pub mod Handlers
pub mod Weights
pub mod Messages
pub mod Hooks
pub mod Calls
pub mod Benchmarks
pub mod Chain
pub mod Demo
pub mod Rpc
pub mod Tests
