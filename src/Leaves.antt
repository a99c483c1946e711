-- ===== src/Leaves.antt =====
-- The leaves of the range as pallet-ismp/src/lib.rs stores and finds them: `mmr_push`, the index of
-- a leaf by the chains and the nonce of its message, and the queries over the offchain database.
pub mod Keys
pub mod Push
pub mod Queries
pub mod Log
pub mod Serving
pub mod Pending
pub mod Index
use ismp_substrate.Base.{
  ℕ, Bool, true, false, not, ◌&&◌, Option, none, some, List, [], ◌∷◌, Result, ok, err, to_option,
  if◌then◌else◌,
}
use ismp_substrate.StorageMap
use ismp_substrate.Ismp.{Bytes, H256, StateMachine, Request, Response, Get, bytes_key}
use ismp_substrate.Primitives.{LeafIndexQuery, MmrError, Proof}
use ismp_substrate.Primitives.Leaves.{Leaf, DataOrHash}
use ismp_substrate.Pallet.{State, Runtime, Run}
use ismp_substrate.Mmr.Operations.{new, push, generate_proof as mmr_generate_proof}
use ismp_substrate.Mmr.Storage.{offchain_key}
use Keys.{request_leaf_index_offchain_key, response_leaf_index_offchain_key}

-- `Iterator::filter_map` and `collect`
unfoldable pub filter_map : {A B : Type 0} → (A → Option B) → List A → List B
filter_map f [] = []
filter_map f (x ∷ xs) = let rest = filter_map f xs in elim (f x) [ none ↦ rest | some y ↦ y ∷ rest ]

-- `store_leaf_index_offchain`
unfoldable pub store_leaf_index_offchain : Runtime → Bytes → ℕ → State → State
store_leaf_index_offchain r key leaf_index s = record s {
  offchain = StorageMap.insert s.offchain key (r.codec.encode_leaf_index leaf_index);
}

module _ (r : Runtime) where
  -- the key under which `mmr_push` stores the index of a leaf
  unfoldable pub index_key : Leaf → Bytes
  index_key (Leaf.request req) =
      request_leaf_index_offchain_key r (r.ismp.source_chain req) (r.ismp.dest_chain req)
        (r.ismp.nonce req)
  index_key (Leaf.response res) =
      response_leaf_index_offchain_key r (r.ismp.response_dest_chain res)
        (r.ismp.response_source_chain res) (r.ismp.response_nonce res)

  -- what follows the push itself
  abbrev pub indexed : Bytes → Option ℕ × State → Option ℕ × State
  indexed key (none, s) = (none, s)
  indexed key (some pos, s) = (some pos, store_leaf_index_offchain r key pos s)

  -- `mmr_push`: insert a leaf into the mmr
  unfoldable pub mmr_push : Leaf → State → Run (Option ℕ × State)
  mmr_push leaf s = elim (push r (new s.number_of_leaves) leaf s) [
    | none ↦ none
    | some answer ↦ some (indexed (index_key leaf) answer)
  ]

  -- `generate_proof`
  unfoldable pub generate_proof : List ℕ → State → Result MmrError (List Leaf × Proof)
  generate_proof leaf_indices s = mmr_generate_proof r (new s.number_of_leaves) leaf_indices s

  -- the leaf of an offchain entry, decoded
  unfoldable pub read_leaf : State → ℕ → Option DataOrHash
  read_leaf s leaf_index = elim (StorageMap.get s.offchain (offchain_key r leaf_index)) [
    | none ↦ none
    | some elem ↦ r.codec.decode_node elem
  ]

  unfoldable pub get_request : ℕ → State → Option Request
  unfolding read_leaf
  get_request leaf_index s = elim (read_leaf s leaf_index) [
    | some (DataOrHash.data_of (Leaf.request req)) ↦ some req
    | _ ↦ none
  ]

  unfoldable pub get_response : ℕ → State → Option Response
  unfolding read_leaf
  get_response leaf_index s = elim (read_leaf s leaf_index) [
    | some (DataOrHash.data_of (Leaf.response res)) ↦ some res
    | _ ↦ none
  ]

  unfoldable pub get_leaf_index : StateMachine → StateMachine → ℕ → Bool → State → Option ℕ
  get_leaf_index source dest nonce is_req s =
      let key =
        if is_req
        then request_leaf_index_offchain_key r source dest nonce
        else response_leaf_index_offchain_key r source dest nonce in
      elim (StorageMap.get s.offchain key) [
        | none ↦ none
        | some elem ↦ r.codec.decode_leaf_index elem
      ]

  unfoldable pub get_request_leaf_indices : List LeafIndexQuery → State → List ℕ
  unfolding filter_map
  get_request_leaf_indices leaf_queries s =
      filter_map
        (λ (query : LeafIndexQuery).
          get_leaf_index query.source_chain query.dest_chain query.nonce true s)
        leaf_queries

  unfoldable pub get_response_leaf_indices : List LeafIndexQuery → State → List ℕ
  unfolding filter_map
  get_response_leaf_indices leaf_queries s =
      filter_map
        (λ (query : LeafIndexQuery).
          get_leaf_index query.source_chain query.dest_chain query.nonce false s)
        leaf_queries

  unfoldable pub get_requests : List ℕ → State → List Request
  unfolding filter_map
  get_requests leaf_indices s = filter_map (λ i. get_request i s) leaf_indices

  unfoldable pub get_responses : List ℕ → State → List Response
  unfolding filter_map
  get_responses leaf_indices s = filter_map (λ i. get_response i s) leaf_indices

  -- one commitment of an outgoing request: its Get request, if that is what it is and no response
  -- has been received
  unfoldable pub pending_get : State → H256 × LeafIndexQuery → Option Get
  unfolding get_leaf_index get_request
  pending_get s (key, query) =
      elim (get_leaf_index query.source_chain query.dest_chain query.nonce true s) [
        | none ↦ none
        | some leaf_index ↦ elim (get_request leaf_index s) [
          | none ↦ none
          | some req ↦
              if r.ismp.is_type_get req && not (StorageMap.contains_key s.response_receipts key)
              then to_option (r.ismp.get_request req)
              else none
        ]
      ]

  unfoldable pub pending_get_requests : State → List Get
  unfolding filter_map pending_get
  pending_get_requests s = filter_map (pending_get s) s.request_commitments
