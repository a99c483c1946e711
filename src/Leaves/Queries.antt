-- ===== src/Leaves/Queries.antt =====
-- What the queries of pallet-ismp/src/lib.rs find after a leaf has been pushed.
use ismp_substrate.Base.{◌+◌, ◌*◌, ◌<◌, ◌≡◌, ◌≢◌, sym, true, false, some, u64_mod, arith}
use ismp_substrate.Ismp.{Request, Response, bytes_key}
use ismp_substrate.Primitives.Leaves.{Leaf}
use ismp_substrate.Pallet.{State, Runtime, IsScale}
use ismp_substrate.Mmr.Mountains.{range}
use ismp_substrate.Mmr.Storage.Invariant.{HoldsPeaks}
use ismp_substrate.Mmr.Push.{AppendsLeaf}
use ismp_substrate.Leaves.{index_key, mmr_push, get_request, get_response, get_leaf_index}
use ismp_substrate.Leaves.Keys.{response_leaf_index_offchain_key, responses_label}
use ismp_substrate.Leaves.Push.{
  position, after_push, mmr_push_lem, position_bound, read_leaf-after_push, index-after_push,
  index-after_push_other, leaves_label,
}

module _ (r : Runtime) (lib : AppendsLeaf r.mmr_lib) (scale : IsScale r.codec) (s : State)
    (h : HoldsPeaks s) (small : 2 * (s.number_of_leaves + 1) < u64_mod) where
  -- The index of a pushed request is found by its chains and nonce, and the request by its index.
  pub found_after_push :
      (req : Request)
      → (get_leaf_index r
            (r.ismp.source_chain req)
            (r.ismp.dest_chain req)
            (r.ismp.nonce req)
            true
            (after_push r lib (Leaf.request req) s)
          ≡ some (range s.number_of_leaves).nodes)
        × (get_request r (range s.number_of_leaves).nodes (after_push r lib (Leaf.request req) s)
            ≡ some req)
  unfolding get_leaf_index get_request index_key
  found_after_push req =
      let leaf = Leaf.request req in
      (
        ground (
          arith,
          index-after_push r lib leaf s scale,
          scale.leaf_index_back (position r lib leaf s) (position_bound r lib leaf s scale h),
        ),
        ground (arith, read_leaf-after_push r lib leaf s scale),
      )

  -- On a chain that holds exactly its peaks, with twice one more leaf below 2^64, and libraries
  -- that behave as documented: after an outgoing request is pushed, its leaf index is found by its
  -- chains and nonce, and the full request by that index.
  pub request_found :
      (req : Request)
      → (s' : State) × (mmr_push r (Leaf.request req) s
          ≡ some (some (range s.number_of_leaves).nodes, s'))
        × (get_leaf_index r
              (r.ismp.source_chain req)
              (r.ismp.dest_chain req)
              (r.ismp.nonce req)
              true
              s'
            ≡ some (range s.number_of_leaves).nodes)
        × (get_request r (range s.number_of_leaves).nodes s' ≡ some req)
  request_found req =
      let (index, full) = found_after_push req in
      (
        after_push r lib (Leaf.request req) s,
        mmr_push_lem r lib (Leaf.request req) s h small,
        index,
        full,
      )

  -- Over libraries that behave as documented, on a chain that holds exactly its peaks, with twice
  -- one more leaf below 2^64: after an outgoing response is pushed, its leaf index is found by the
  -- response's destination in the place of the source and its source in the place of the
  -- destination, and the full response by that index.
  pub response_found :
      (res : Response)
      → (s' : State) × (mmr_push r (Leaf.response res) s
          ≡ some (some (range s.number_of_leaves).nodes, s'))
        × (get_leaf_index r
              (r.ismp.response_dest_chain res)
              (r.ismp.response_source_chain res)
              (r.ismp.response_nonce res)
              false
              s'
            ≡ some (range s.number_of_leaves).nodes)
        × (get_response r (range s.number_of_leaves).nodes s' ≡ some res)
  unfolding get_leaf_index get_response index_key
  response_found res =
      let leaf = Leaf.response res in
      (
        after_push r lib leaf s,
        mmr_push_lem r lib leaf s h small,
        ground (
          arith,
          index-after_push r lib leaf s scale,
          scale.leaf_index_back (position r lib leaf s) (position_bound r lib leaf s scale h),
        ),
        ground (arith, read_leaf-after_push r lib leaf s scale),
      )

  -- Over libraries that behave as documented, on a chain that holds exactly its peaks, with twice
  -- one more leaf below 2^64: asked for by its own source, destination and nonce, as its event
  -- gives them, the index of a pushed response is not found: the answer is the one from before the
  -- push, whenever the two chains differ.
  pub response_missed :
      (res : Response)
      → r.ismp.response_source_chain res ≢ r.ismp.response_dest_chain res
      → (s' : State) × (mmr_push r (Leaf.response res) s
          ≡ some (some (range s.number_of_leaves).nodes, s'))
        × (get_leaf_index r
              (r.ismp.response_source_chain res)
              (r.ismp.response_dest_chain res)
              (r.ismp.response_nonce res)
              false
              s'
            ≡ get_leaf_index r
                (r.ismp.response_source_chain res)
                (r.ismp.response_dest_chain res)
                (r.ismp.response_nonce res)
                false
                s)
  unfolding get_leaf_index index_key response_leaf_index_offchain_key
  response_missed res differ =
      let leaf = Leaf.response res in
      let source = r.ismp.response_source_chain res in
      let dest = r.ismp.response_dest_chain res in
      let nonce = r.ismp.response_nonce res in
      let asked = r.codec.encode_index_key r.indexing_prefix responses_label source dest nonce in
      let kept =
        index-after_push_other r lib leaf s scale asked
          (λ j.
            scale.keys_apart r.indexing_prefix leaves_label responses_label source dest nonce j
              (λ e. grind (arith, e)))
          (λ same. differ (
            sym
              (scale.index_key_injective r.indexing_prefix responses_label responses_label dest
                source source dest nonce nonce same).1)) in
      (after_push r lib leaf s, mmr_push_lem r lib leaf s h small, ground (arith, kept))
