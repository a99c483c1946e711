-- ===== src/Primitives/Leaves.antt =====
-- pallet-ismp/primitives/src/mmr.rs: leaves, nodes and the merge of two nodes.
use ismp_substrate.Base.{◌++◌}
use ismp_substrate.Ismp.{Bytes, H256, Request, Response}
use ismp_substrate.Ismp.Library.{Library}

-- A concrete Leaf for the MMR
pub data Leaf : Type 0 where
  request : Request → Leaf
  response : Response → Leaf

-- An element representing either full data or its hash.
pub data DataOrHash : Type 0 where
  data_of : Leaf → DataOrHash
  hash_of : H256 → DataOrHash

-- `From<Leaf> for DataOrHash`
unfoldable pub from_leaf : Leaf → DataOrHash
from_leaf l = DataOrHash.data_of l

module _ (l : Library) (keccak : Bytes → H256) where
  -- `Leaf::hash`
  unfoldable pub leaf_hash : Leaf → H256
  leaf_hash (Leaf.request req) = l.hash_request keccak req
  leaf_hash (Leaf.response res) = l.hash_response keccak res

  -- `DataOrHash::hash`
  unfoldable pub hash : DataOrHash → H256
  unfolding leaf_hash
  hash (DataOrHash.data_of leaf) = leaf_hash leaf
  hash (DataOrHash.hash_of h) = h

  -- `MmrHasher::merge`; the source calls `sp_io::hashing::keccak_256`, which is also what the
  -- host's `Keccak256` calls. The bytes of the left hash come first.
  unfoldable pub merge : DataOrHash → DataOrHash → DataOrHash
  unfolding hash
  merge left right = DataOrHash.hash_of (keccak (hash left ++ hash right))
