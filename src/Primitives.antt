-- ===== src/Primitives.antt =====
-- pallet-ismp/primitives/src/lib.rs and pallet-ismp/src/primitives.rs: the pallet's own data.
pub mod Leaves
pub mod Digest
pub mod ModuleId
use ismp_substrate.Base.{ℕ, List}
use ismp_substrate.Ismp.{H256, Bytes, StateMachine}

-- Queries a request leaf in the mmr
pub record LeafIndexQuery : Type 0 where
  pub source_chain : StateMachine
  pub dest_chain : StateMachine
  pub nonce : ℕ

-- Hashing algorithm for the state proof
pub data HashAlgorithm : Type 0 where
  keccak blake2 : HashAlgorithm

pub record SubstrateStateProof : Type 0 where
  pub hasher : HashAlgorithm
  pub storage_proof : List Bytes

pub record MembershipProof : Type 0 where
  pub mmr_size : ℕ
  pub leaf_indices : List ℕ
  pub proof : List H256

-- An MMR proof data for a group of leaves; the source takes the hash type as a parameter.
pub record Proof : Type 0 where
  pub leaf_indices : List ℕ
  pub leaf_count : ℕ
  pub items : List H256

-- Merkle Mountain Range operation error
pub data MmrError : Type 0 where
  invalid_numeric_op push get_root commit generate_proof verify leaf_not_found : MmrError
  pallet_not_included invalid_leaf_index invalid_best_known_block : MmrError

-- `frame_support::weights::Weight`, two `u64` dimensions
pub record Weight : Type 0 where
  pub ref_time : ℕ
  pub proof_size : ℕ

-- Accumulated Weight consumed by contract callbacks in a transaction
pub record WeightUsed : Type 0 where
  pub weight_used : Weight
  pub weight_limit : Weight
