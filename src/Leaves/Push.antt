-- ===== src/Leaves/Push.antt =====
-- The state after `mmr_push` of pallet-ismp/src/lib.rs, and what its offchain database holds.
use ismp_substrate.Base.{
  ℕ, suc, ◌+◌, ◌*◌, ◌<◌, ◌≡◌, ◌≢◌, refl, ◌∙◌, some, List, [], ◌∷◌, map, u64_mod, arith,
}
use ismp_substrate.StorageMap
use ismp_substrate.StorageMap.{StorageMap, get-insert}
use ismp_substrate.Ismp.{Bytes, text, bytes_key}
use ismp_substrate.Primitives.Leaves.{Leaf, DataOrHash}
use ismp_substrate.Pallet.{State, Runtime, IsScale}
use ismp_substrate.Mmr.Mountains.{range, nodes-range}
use ismp_substrate.Mmr.Storage.{offchain_key}
use ismp_substrate.Mmr.Storage.Append.{write_offchain}
use ismp_substrate.Mmr.Storage.Invariant.{HoldsPeaks, appended, new_nodes}
use ismp_substrate.Mmr.Push.{AppendsLeaf, pushed_joins, push_lem}
use ismp_substrate.Leaves.{index_key, mmr_push, store_leaf_index_offchain, read_leaf}
use ismp_substrate.Leaves.Keys.{
  request_leaf_index_offchain_key, response_leaf_index_offchain_key, requests_label,
  responses_label,
}

abbrev pub leaves_label : Bytes
leaves_label = text "leaves"

module _ (r : Runtime) (scale : IsScale r.codec) where
  abbrev pub node_key : ℕ → Bytes
  node_key i = r.codec.encode_node_key r.indexing_prefix leaves_label i

  -- Writing nodes leaves the entries under other keys alone.
  pub get-write_offchain_other :
      (es : List DataOrHash) (i : ℕ) (m : StorageMap Bytes Bytes) (k : Bytes)
      → ((j : ℕ) → i < suc j → node_key j ≢ k)
      → StorageMap.get (write_offchain r i es m) k ≡ StorageMap.get m k
  get-write_offchain_other [] i m k h = refl
  get-write_offchain_other (e ∷ es) i m k h =
      get-write_offchain_other es (i + 1) (StorageMap.insert m (node_key i) (r.codec.encode_node e))
        k (λ j later. h j (omega arith))
      ∙ ground (arith, get-insert m (node_key i) k (r.codec.encode_node e), h i)

  -- The first of the nodes stands under the key of its position.
  get-write_offchain_first :
      (e : DataOrHash) (es : List DataOrHash) (i : ℕ) (m : StorageMap Bytes Bytes)
      → StorageMap.get (write_offchain r i (e ∷ es) m) (node_key i) ≡ some (r.codec.encode_node e)
  get-write_offchain_first e es i m =
      get-write_offchain_other es (i + 1) (StorageMap.insert m (node_key i) (r.codec.encode_node e))
        (node_key i)
        (λ j later same.
          absurd (omega (arith, scale.node_key_injective r.indexing_prefix leaves_label j i same)))
      ∙ ground (arith, get-insert m (node_key i) (node_key i) (r.codec.encode_node e))

  pub index_key_apart_lem : (leaf : Leaf) (j : ℕ) → node_key j ≢ index_key r leaf
  unfolding index_key request_leaf_index_offchain_key response_leaf_index_offchain_key
  index_key_apart_lem (Leaf.request req) j =
      scale.keys_apart r.indexing_prefix leaves_label requests_label (r.ismp.source_chain req)
        (r.ismp.dest_chain req) (r.ismp.nonce req) j (λ e. grind (arith, e))
  index_key_apart_lem (Leaf.response res) j =
      scale.keys_apart r.indexing_prefix leaves_label responses_label
        (r.ismp.response_dest_chain res) (r.ismp.response_source_chain res)
        (r.ismp.response_nonce res) j (λ e. grind (arith, e))

module _ (r : Runtime) (lib : AppendsLeaf r.mmr_lib) (leaf : Leaf) (s : State) where
  -- where the leaf goes
  abbrev pub position : ℕ
  position = (range s.number_of_leaves).nodes

  -- the state after the push and the write of the leaf's index
  abbrev pub after_push : State
  after_push =
      store_leaf_index_offchain r (index_key r leaf) position
        (appended r leaf (pushed_joins r lib leaf s) s)

  -- `mmr_push` returns the next free position, in the state of `after_push`.
  pub mmr_push_lem :
      HoldsPeaks s
      → 2 * (s.number_of_leaves + 1) < u64_mod
      → mmr_push r leaf s ≡ some (some position, after_push)
  unfolding mmr_push
  mmr_push_lem h small = ground (arith, push_lem r lib leaf s h small)

  module _ (scale : IsScale r.codec) where
    pub position_bound : HoldsPeaks s → position < u64_mod
    position_bound h = omega (arith, nodes-range s.number_of_leaves, h.bounded)

    -- the keys of nodes are not the key of the leaf's index
    pub index_key_apart : (j : ℕ) → node_key r scale j ≢ index_key r leaf
    index_key_apart = index_key_apart_lem r scale leaf

    -- The pushed leaf is read back from its position.
    pub read_leaf-after_push : read_leaf r after_push position ≡ some (DataOrHash.data_of leaf)
    unfolding read_leaf store_leaf_index_offchain offchain_key
    read_leaf-after_push = ground (
      arith,
      get-insert (appended r leaf (pushed_joins r lib leaf s) s).offchain (index_key r leaf)
          (node_key r scale position) (r.codec.encode_leaf_index position),
      index_key_apart position,
      get-write_offchain_first r scale (DataOrHash.data_of leaf)
          (map DataOrHash.hash_of (pushed_joins r lib leaf s)) position s.offchain,
      scale.node_back (DataOrHash.data_of leaf),
    )

    -- The entry under the leaf's own key is its position.
    pub index-after_push :
        StorageMap.get after_push.offchain (index_key r leaf)
        ≡ some (r.codec.encode_leaf_index position)
    unfolding store_leaf_index_offchain
    index-after_push = ground (
      arith,
      get-insert (appended r leaf (pushed_joins r lib leaf s) s).offchain (index_key r leaf)
          (index_key r leaf) (r.codec.encode_leaf_index position),
    )

    -- Every other index key has the entry that it had.
    pub index-after_push_other :
        (k : Bytes)
        → ((j : ℕ) → node_key r scale j ≢ k)
        → index_key r leaf ≢ k
        → StorageMap.get after_push.offchain k ≡ StorageMap.get s.offchain k
    unfolding store_leaf_index_offchain
    index-after_push_other k apart other = ground (
      arith,
      get-insert (appended r leaf (pushed_joins r lib leaf s) s).offchain (index_key r leaf) k
          (r.codec.encode_leaf_index position),
      get-write_offchain_other r scale (new_nodes leaf (pushed_joins r lib leaf s)) position
          s.offchain k (λ j later. apart j),
    )
