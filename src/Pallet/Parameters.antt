-- ===== src/Pallet/Parameters.antt =====
-- What the pallet takes from its configuration and calls outside the repository: the
-- `ismp` crate, SCALE, the hash function and the library of Merkle mountain ranges.
use ismp_substrate.Base.{ℕ, ◌≡◌, ◌≢◌, ◌<◌, u64_mod, List, Option, some, Result}
use ismp_substrate.Ismp.{Bytes, H256, StateMachine}
use ismp_substrate.Ismp.Library.{Library}
use ismp_substrate.Primitives.Leaves.{DataOrHash}
use ismp_substrate.Pallet.Store.{State}

-- SCALE encodings, one for each type at which the source calls `encode` or `decode`
pub record Codec : Type 0 where
  -- `(prefix, label, position).encode()`
  pub encode_node_key : Bytes → Bytes → ℕ → Bytes
  -- `(prefix, label, source_chain, dest_chain, nonce).encode()`
  pub encode_index_key : Bytes → Bytes → StateMachine → StateMachine → ℕ → Bytes
  pub encode_leaf_index : ℕ → Bytes
  pub decode_leaf_index : Bytes → Option ℕ
  pub encode_node : DataOrHash → Bytes
  pub decode_node : Bytes → Option DataOrHash
  pub encode_hash : H256 → Bytes

-- SCALE decodes what it encoded, and tuples with different parts have different encodings.
pub record IsScale (c : Codec) : Type 0 where
  pub leaf_index_back : (n : ℕ) → n < u64_mod → c.decode_leaf_index (c.encode_leaf_index n) ≡ some n
  pub node_back : (x : DataOrHash) → c.decode_node (c.encode_node x) ≡ some x
  pub node_key_injective :
      (p l : Bytes) (n m : ℕ) → c.encode_node_key p l n ≡ c.encode_node_key p l m → n ≡ m
  pub index_key_injective :
      (p l l' : Bytes) (s d s' d' : StateMachine) (n n' : ℕ)
      → c.encode_index_key p l s d n ≡ c.encode_index_key p l' s' d' n'
      → (l ≡ l') × (s ≡ s') × (d ≡ d') × (n ≡ n')
  pub keys_apart :
      (p l l' : Bytes) (s d : StateMachine) (n m : ℕ)
      → l ≢ l'
      → c.encode_node_key p l m ≢ c.encode_index_key p l' s d n
  pub hash_raw : (h : H256) → c.encode_hash h ≡ h

-- `mmr_lib::Error`: the variant that the pallet's store returns
pub data StoreError : Type 0 where
  inconsistent_store : StoreError

-- A run that may fail to return: `none` stands for a loop that does not end, or a panic.
abbrev pub Run : Type 0 → Type 0
Run A = Option A

-- What `push` leaves in memory for `commit`: runs of new nodes, each with its first position.
abbrev pub Batch : Type 0
Batch = List (ℕ × List DataOrHash)

-- `MMRStore::get_elem` of a store in a given state
abbrev pub Elements : Type 0
Elements = ℕ → Option DataOrHash

-- `MMRStore::append`
abbrev pub Append : Type 0
Append = ℕ → List DataOrHash → State → Run (Result StoreError Unit × State)

-- `ckb-merkle-mountain-range`, over the elements of a store, a merge and the size of the range;
-- `none` is an error of the library
pub record MmrLib : Type 0 where
  pub get_peaks : ℕ → List ℕ
  pub push : Elements → (DataOrHash → DataOrHash → DataOrHash) → ℕ → DataOrHash → Option (ℕ × Batch)
  pub commit : Append → Batch → State → Run (Result StoreError Unit × State)
  pub get_root : Elements → (DataOrHash → DataOrHash → DataOrHash) → ℕ → Option DataOrHash
  pub gen_proof :
      Elements → (DataOrHash → DataOrHash → DataOrHash) → ℕ → List ℕ → Option (List DataOrHash)

pub record Runtime : Type 0 where
  pub indexing_prefix : Bytes
  pub state_machine : StateMachine
  -- `sp_io::hashing::keccak_256`
  pub keccak_256 : Bytes → H256
  pub ismp : Library
  pub codec : Codec
  pub mmr_lib : MmrLib
