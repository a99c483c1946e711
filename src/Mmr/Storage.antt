-- ===== src/Mmr/Storage.antt =====
-- pallet-ismp/src/mmr/storage.rs: the two stores behind the Merkle mountain range, and the nodes of
-- pallet-ismp/src/lib.rs that they read and write.
pub mod Peaks
pub mod Append
pub mod Invariant
use ismp_substrate.Base.{
  ℕ, zero, suc, ◌+◌, Bool, true, false, Option, none, some, List, [], ◌∷◌, length, Result, ok, err,
  if◌then◌else◌, ◌==◌, wrap64, dec_lt,
}
use ismp_substrate.StorageMap
use ismp_substrate.StorageMap.{nat_key}
use ismp_substrate.Ismp.{Bytes, H256, text, bytes_key}
use ismp_substrate.Primitives.Leaves.{DataOrHash, hash}
use ismp_substrate.Pallet.{State, Runtime, Run, StoreError, Elements}
use ismp_substrate.Mmr.Utils.{size_of}
use Peaks.{peaks_to_prune_and_store}

-- `Pallet::get_node`
unfoldable pub get_node : State → ℕ → Option DataOrHash
get_node s pos = elim (StorageMap.get s.nodes pos) [
  | none ↦ none
  | some h ↦ some (DataOrHash.hash_of h)
]

-- `Pallet::remove_node`
unfoldable pub remove_node : ℕ → State → State
remove_node pos s = record s { nodes = StorageMap.remove s.nodes pos }

-- `Pallet::insert_node`
unfoldable pub insert_node : ℕ → H256 → State → State
insert_node pos node s = record s { nodes = StorageMap.insert s.nodes pos node }

-- `Pallet::get_num_leaves`
unfoldable pub get_num_leaves : State → ℕ
get_num_leaves s = s.number_of_leaves

-- `Pallet::set_num_leaves`
unfoldable pub set_num_leaves : ℕ → State → State
set_num_leaves num_leaves s = record s { number_of_leaves = num_leaves }

-- `for pos in peaks_to_prune`
unfoldable pub prune_nodes : List ℕ → State → State
unfolding remove_node
prune_nodes [] s = s
prune_nodes (pos ∷ rest) s = prune_nodes rest (remove_node pos s)

-- `Peekable::next_if_eq`: what remains, and whether the next item was the one asked for
unfoldable pub next_if_eq : List ℕ → ℕ → List ℕ × Bool
next_if_eq [] n = ([], false)
next_if_eq (x ∷ xs) n = if x == n then (xs, true) else (x ∷ xs, false)

-- `if let DataOrHash::Data(..) = elem { leaf_index += 1 }`
unfoldable pub count_leaf : DataOrHash → ℕ → ℕ
count_leaf (DataOrHash.data_of leaf) leaf_index = wrap64 (leaf_index + 1)
count_leaf (DataOrHash.hash_of h) leaf_index = leaf_index

module _ (r : Runtime) where
  -- `Pallet::offchain_key`
  unfoldable pub offchain_key : ℕ → Bytes
  offchain_key pos = r.codec.encode_node_key r.indexing_prefix (text "leaves") pos

  -- `store_to_offchain`
  unfoldable pub store_to_offchain : ℕ → DataOrHash → State → State
  unfolding offchain_key
  store_to_offchain pos node s = record s {
    offchain = StorageMap.insert s.offchain (offchain_key pos) (r.codec.encode_node node);
  }

  -- `MMRStore::get_elem` of the offchain store
  unfoldable pub offchain_get_elem : State → Elements
  unfolding offchain_key
  offchain_get_elem s pos = elim (StorageMap.get s.offchain (offchain_key pos)) [
    | none ↦ none
    | some elem ↦ r.codec.decode_node elem
  ]

  -- `MMRStore::get_elem` of the runtime store
  unfoldable pub runtime_get_elem : State → Elements
  unfolding get_node
  runtime_get_elem s pos = get_node s pos

  -- The write of one element: to `nodes` if it is the next new peak, and to the offchain database.
  unfoldable pub store_elem : Bool → ℕ → DataOrHash → State → State
  unfolding insert_node store_to_offchain
  store_elem true node_index elem s =
      store_to_offchain node_index elem (insert_node node_index (hash r.ismp r.keccak_256 elem) s)
  store_elem false node_index elem s = store_to_offchain node_index elem s

  -- `for elem in elems`, over the peaks still to store and the two running indices; the result is
  -- the leaf index at the end, with the state.
  unfoldable pub append_loop : List DataOrHash → List ℕ → ℕ → ℕ → State → ℕ × State
  unfolding next_if_eq count_leaf store_elem
  append_loop [] peaks_to_store leaf_index node_index s = (leaf_index, s)
  append_loop (elem ∷ elems) peaks_to_store leaf_index node_index s =
      let (peaks_left, is_peak) = next_if_eq peaks_to_store node_index in
      append_loop elems peaks_left (count_leaf elem leaf_index) (wrap64 (node_index + 1))
        (store_elem is_peak node_index elem s)

  -- the loop, the new number of leaves, and the loop over the peaks to prune
  unfoldable pub store_new : ℕ → ℕ → List DataOrHash → State → List ℕ → List ℕ → State
  unfolding append_loop set_num_leaves prune_nodes
  store_new leaves size elems s peaks_to_prune peaks_to_store =
      let (leaf_index, s') = append_loop elems peaks_to_store leaves size s in
      prune_nodes peaks_to_prune (set_num_leaves leaf_index s')

  -- what follows the two guards of `append`
  unfoldable pub append_new : ℕ → ℕ → List DataOrHash → State → Run State
  unfolding store_new
  append_new leaves size elems s =
      let new_size = wrap64 (size + length elems) in
      elim (peaks_to_prune_and_store r.mmr_lib.get_peaks size new_size) [
        | none ↦ none
        | some (peaks_to_prune, peaks_to_store) ↦
            some (store_new leaves size elems s peaks_to_prune peaks_to_store)
      ]

  -- `MMRStore::append` of the runtime store
  unfoldable pub append : ℕ → List DataOrHash → State → Run (Result StoreError Unit × State)
  unfolding append_new get_num_leaves
  append pos [] s = some (ok tt, s)
  append pos (elem ∷ elems) s =
      let leaves = get_num_leaves s in
      let size = size_of leaves in
      if pos == size
      then elim (append_new leaves size (elem ∷ elems) s) [
        | none ↦ none
        | some s' ↦ some (ok tt, s')
      ]
      else some (err StoreError.inconsistent_store, s)

-- `MMRStore::append` of the offchain store: it panics, whatever is handed to it.
unfoldable pub offchain_append : ℕ → List DataOrHash → State → Run (Result StoreError Unit × State)
offchain_append pos elems s = none
