-- ===== src/Rpc/Listed.antt =====
-- What the events of a block list after a dispatch in it.
use ismp_substrate.Base.{
  subst, ℕ, ◌+◌, ◌*◌, ◌<◌, ◌≡◌, ◌≢◌, ◌∙◌, sym, ap, true, false, Option, none, some, [], ◌∷◌, ◌++◌,
  ok, u64_mod, arith,
}
use ismp_substrate.StorageMap
use ismp_substrate.Ismp.{H256, bytes_key, Request, Response}
use ismp_substrate.Primitives.{LeafIndexQuery}
use ismp_substrate.Primitives.Leaves.{Leaf}
use ismp_substrate.Pallet.{State, Runtime, IsScale, PalletEvent, to_core_protocol_event}
use ismp_substrate.Mmr.Mountains.{range}
use ismp_substrate.Mmr.Storage.Invariant.{HoldsPeaks}
use ismp_substrate.Mmr.Push.{AppendsLeaf}
use ismp_substrate.Leaves.{
  filter_map, get_leaf_index, get_request, get_request_leaf_indices, get_response_leaf_indices,
  get_requests, get_responses, store_leaf_index_offchain,
}
use ismp_substrate.Leaves.Push.{mmr_push_lem, after_push}
use ismp_substrate.Leaves.Queries.{found_after_push, response_missed}
use ismp_substrate.Handlers.{
  dispatch_request, dispatch_response, request_hash, response_hash, record_request, record_response,
}
use ismp_substrate.Handlers.Outgoing.{
  after_request, after_response, dispatch_request_new, dispatch_response_new,
}
use ismp_substrate.Rpc.Serves.{ServesBlock}
use ismp_substrate.Rpc.{
  Client, add_requests, add_responses, collect_event, collect_events, full_events, query_block,
  request_event,
}

module _ (r : Runtime) (lib : AppendsLeaf r.mmr_lib) (scale : IsScale r.codec) (client : Client)
    (at : H256) (s : State) (h : HoldsPeaks s)
    (small : 2 * (s.number_of_leaves + 1) < u64_mod) where
  -- a block with the event of one request, whose index and leaf are found
  one_request :
      (req : Request) (i : ℕ) (t : State)
      → ServesBlock r client at t
      → t.events
        ≡ PalletEvent.request (r.ismp.dest_chain req) (r.ismp.source_chain req) (r.ismp.nonce req)
          ∷ []
      → get_leaf_index r (r.ismp.source_chain req) (r.ismp.dest_chain req) (r.ismp.nonce req) true t
        ≡ some i
      → get_request r i t ≡ some req
      → query_block client at ≡ ok (request_event req ∷ [])
  unfolding query_block collect_events collect_event add_requests full_events filter_map
      get_request_leaf_indices get_requests get_responses to_core_protocol_event
  one_request req i t serves event index full =
      let q : LeafIndexQuery = record {
        source_chain = r.ismp.source_chain req;
        dest_chain = r.ismp.dest_chain req;
        nonce = r.ismp.nonce req;
      } in
      let indices : get_request_leaf_indices r (q ∷ []) t ≡ i ∷ [] = ground (arith, index) in
      let reqs : get_requests r (i ∷ []) t ≡ req ∷ [] = ground (arith, full) in
      let block = serves.events ∙ ap (λ es. ok (filter_map to_core_protocol_event es)) event in
      let found = serves.answers.request_indices (q ∷ []) ∙ ap ok indices in
      let answered = serves.answers.requests (i ∷ []) ∙ ap ok reqs in
      ground (arith, block, found, answered, serves.answers.responses [])

  -- a block with the event of one response, whose index is not found
  one_response :
      (res : Response) (t : State)
      → ServesBlock r client at t
      → t.events
        ≡ PalletEvent.response
            (r.ismp.response_dest_chain res)
            (r.ismp.response_source_chain res)
            (r.ismp.response_nonce res)
          ∷ []
      → get_leaf_index r
          (r.ismp.response_source_chain res)
          (r.ismp.response_dest_chain res)
          (r.ismp.response_nonce res)
          false
          t
        ≡ none
      → query_block client at ≡ ok []
  unfolding query_block collect_events collect_event add_responses full_events filter_map
      get_response_leaf_indices get_requests get_responses to_core_protocol_event
  one_response res t serves event index =
      let q : LeafIndexQuery = record {
        source_chain = r.ismp.response_source_chain res;
        dest_chain = r.ismp.response_dest_chain res;
        nonce = r.ismp.response_nonce res;
      } in
      let indices : get_response_leaf_indices r (q ∷ []) t ≡ [] = ground (arith, index) in
      let block = serves.events ∙ ap (λ es. ok (filter_map to_core_protocol_event es)) event in
      let found = serves.answers.response_indices (q ∷ []) ∙ ap ok indices in
      ground (arith, block, found, serves.answers.requests [], serves.answers.responses [])

  same_state :
      {A : Type 0} (a : A) (t t' : State)
      → ◌≡◌ {A = Option (A × State)} (some (a, t)) (some (a, t'))
      → t ≡ t'
  same_state a t t' e = cc

  -- Over libraries that behave as documented, a new request is dispatched in a block without other
  -- events of the pallet, on a chain that holds exactly its peaks, while twice one more leaf is
  -- below 2^64. Where the client answers from the state after it, the events of the block list
  -- exactly the full request.
  pub request_listed :
      (req : Request)
      → StorageMap.contains_key s.request_commitments (request_hash r req) ≡ false
      → s.events ≡ []
      → ServesBlock r client at (after_request r lib s h small req)
      → (dispatch_request r req s ≡ some (ok tt, after_request r lib s h small req))
        × (query_block client at ≡ ok (request_event req ∷ []))
  unfolding record_request store_leaf_index_offchain get_leaf_index get_request
  request_listed req new empty serves =
      let (index, full) = found_after_push r lib scale s h small req in
      (
        dispatch_request_new r lib s h small req new,
        one_request req (range s.number_of_leaves).nodes (after_request r lib s h small req) serves
            (ap
              (λ es.
                es
                ++ PalletEvent.request (r.ismp.dest_chain req) (r.ismp.source_chain req)
                    (r.ismp.nonce req)
                  ∷ [])
              empty)
            index full,
      )

  -- Over libraries that behave as documented, a response that is not sent before is dispatched in a
  -- block without other events of the pallet, on a chain that holds exactly its peaks, while twice
  -- one more leaf is below 2^64, to a request with a commitment, between chains that differ, and
  -- with no index for its source, destination and nonce before it. Where the client answers from
  -- the state after it, the events of the block do not list it: they are empty.
  pub response_not_listed :
      (res : Response)
      → StorageMap.contains_key s.request_commitments (request_hash r (r.ismp.request res)) ≡ true
      → StorageMap.contains_key s.response_commitments (response_hash r res) ≡ false
      → r.ismp.response_source_chain res ≢ r.ismp.response_dest_chain res
      → get_leaf_index r
          (r.ismp.response_source_chain res)
          (r.ismp.response_dest_chain res)
          (r.ismp.response_nonce res)
          false
          s
        ≡ none
      → s.events ≡ []
      → ServesBlock r client at (after_response r lib s h small res)
      → (dispatch_response r res s ≡ some (ok tt, after_response r lib s h small res))
        × (query_block client at ≡ ok [])
  unfolding record_response store_leaf_index_offchain get_leaf_index
  response_not_listed res known new differ unindexed empty serves =
      let (s', run, kept) = response_missed r lib scale s h small res differ in
      let same =
        same_state _ s' (after_push r lib (Leaf.response res) s)
          (sym run ∙ mmr_push_lem r lib (Leaf.response res) s h small) in
      (
        dispatch_response_new r lib s h small res known new,
        one_response res (after_response r lib s h small res) serves
            (ap
              (λ es.
                es
                ++ PalletEvent.response (r.ismp.response_dest_chain res)
                    (r.ismp.response_source_chain res) (r.ismp.response_nonce res)
                  ∷ [])
              empty)
            (subst
              (λ t.
                get_leaf_index r (r.ismp.response_source_chain res) (r.ismp.response_dest_chain res)
                  (r.ismp.response_nonce res) false t
                ≡ none)
              same (kept ∙ unindexed)),
      )
