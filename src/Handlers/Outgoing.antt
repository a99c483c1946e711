-- ===== src/Handlers/Outgoing.antt =====
-- What dispatching a request or a response does, over a library that behaves as documented.
use ismp_substrate.Base.{
  ite, ◌+◌, ◌*◌, ◌<◌, ◌≡◌, refl, true, false, some, [], ◌∷◌, ◌++◌, ok, err, u64_mod, arith,
}
use ismp_substrate.StorageMap
use ismp_substrate.StorageMap.{get-insert}
use ismp_substrate.Ismp.{H256, text, bytes_key, Request, Response, IsmpError}
use ismp_substrate.Primitives.Leaves.{Leaf}
use ismp_substrate.Pallet.{State, Runtime, Receipt, PalletEvent}
use ismp_substrate.Mmr.Storage.Invariant.{HoldsPeaks, appended-HoldsPeaks}
use ismp_substrate.Mmr.Push.{AppendsLeaf, pushed_joins}
use ismp_substrate.Leaves.{store_leaf_index_offchain}
use ismp_substrate.Leaves.Push.{after_push, mmr_push_lem}
use ismp_substrate.Handlers.{
  dispatch_request, dispatch_response, record_request, record_response, request_hash, response_hash,
  query_of,
}

pub after_push-HoldsPeaks :
    (r : Runtime) (lib : AppendsLeaf r.mmr_lib) (leaf : Leaf) (s : State)
    → HoldsPeaks s
    → 2 * (s.number_of_leaves + 1) < u64_mod
    → HoldsPeaks (after_push r lib leaf s)
unfolding store_leaf_index_offchain
after_push-HoldsPeaks r lib leaf s h small =
    let kept = appended-HoldsPeaks r leaf (pushed_joins r lib leaf s) s h small in
    record { bounded = kept.bounded; held = kept.held }

module _ (r : Runtime) where
  -- A request whose commitment is known is refused, and nothing changes.
  pub dispatch_request_duplicate :
      (req : Request) (s : State)
      → StorageMap.contains_key s.request_commitments (request_hash r req) ≡ true
      → dispatch_request r req s
        ≡ some (err (IsmpError.implementation_specific (text "Duplicate request")), s)
  unfolding dispatch_request
  dispatch_request_duplicate req s known = ground arith

  -- A response to a request with no commitment is refused, and nothing changes.
  pub dispatch_response_unknown :
      (res : Response) (s : State)
      → StorageMap.contains_key s.request_commitments (request_hash r (r.ismp.request res)) ≡ false
      → dispatch_response r res s
        ≡ some (err (IsmpError.implementation_specific (text "Unknown request for response")), s)
  unfolding dispatch_response
  dispatch_response_unknown res s unknown = ground arith

  pub dispatch_response_duplicate :
      (res : Response) (s : State)
      → StorageMap.contains_key s.request_commitments (request_hash r (r.ismp.request res)) ≡ true
      → StorageMap.contains_key s.response_commitments (response_hash r res) ≡ true
      → dispatch_response r res s
        ≡ some (err (IsmpError.implementation_specific (text "Duplicate response")), s)
  unfolding dispatch_response
  dispatch_response_duplicate res s known twice = ground arith

module _ (r : Runtime) (lib : AppendsLeaf r.mmr_lib) (s : State) (h : HoldsPeaks s)
    (small : 2 * (s.number_of_leaves + 1) < u64_mod) where
  -- the state after a request that is new
  abbrev pub after_request : Request → State
  after_request req = record_request r req (after_push r lib (Leaf.request req) s)

  abbrev pub after_response : Response → State
  after_response res = record_response r res (after_push r lib (Leaf.response res) s)

  pub dispatch_request_new :
      (req : Request)
      → StorageMap.contains_key s.request_commitments (request_hash r req) ≡ false
      → dispatch_request r req s ≡ some (ok tt, after_request req)
  unfolding dispatch_request
  dispatch_request_new req new = ground (arith, mmr_push_lem r lib (Leaf.request req) s h small)

  pub dispatch_response_new :
      (res : Response)
      → StorageMap.contains_key s.request_commitments (request_hash r (r.ismp.request res)) ≡ true
      → StorageMap.contains_key s.response_commitments (response_hash r res) ≡ false
      → dispatch_response r res s ≡ some (ok tt, after_response res)
  unfolding dispatch_response
  dispatch_response_new res known new =
      ground (arith, mmr_push_lem r lib (Leaf.response res) s h small)

  pub after_request-HoldsPeaks : (req : Request) → HoldsPeaks (after_request req)
  unfolding record_request
  after_request-HoldsPeaks req =
      let kept = after_push-HoldsPeaks r lib (Leaf.request req) s h small in
      record { bounded = kept.bounded; held = kept.held }

  pub after_response-HoldsPeaks : (res : Response) → HoldsPeaks (after_response res)
  unfolding record_response
  after_response-HoldsPeaks res =
      let kept = after_push-HoldsPeaks r lib (Leaf.response res) s h small in
      record { bounded = kept.bounded; held = kept.held }

  -- the entry of the new commitment
  after_request-commitment :
      (req : Request)
      → StorageMap.get (after_request req).request_commitments (request_hash r req)
        ≡ some (query_of r req)
  unfolding record_request store_leaf_index_offchain
  after_request-commitment req = ground (
    arith,
    get-insert s.request_commitments (request_hash r req) (request_hash r req) (query_of r req),
  )

  after_response-commitment :
      (res : Response)
      → StorageMap.get (after_response res).response_commitments (response_hash r res)
        ≡ some Receipt.ok
  unfolding record_response store_leaf_index_offchain
  after_response-commitment res = ground (
    arith,
    get-insert s.response_commitments (response_hash r res) (response_hash r res) Receipt.ok,
  )

  -- On a chain that holds exactly its peaks, with twice one more leaf below 2^64, and a library
  -- that behaves as documented: a request that has no commitment is dispatched: it returns, the
  -- nodes on chain are the peaks of one more leaf, the commitment stands with its query and the
  -- others as they were, one event is added, the nonce is untouched, and the same request is from
  -- then on refused as a duplicate.
  pub dispatch_request_once :
      (req : Request)
      → StorageMap.contains_key s.request_commitments (request_hash r req) ≡ false
      → (s' : State) × (dispatch_request r req s ≡ some (ok tt, s'))
        × HoldsPeaks s'
        × (s'.number_of_leaves ≡ s.number_of_leaves + 1)
        × ((k : H256)
            → StorageMap.get s'.request_commitments k
              ≡ ite
                  (bytes_key.dec (request_hash r req) k)
                  (some (query_of r req))
                  (StorageMap.get s.request_commitments k))
        × (s'.events
            ≡ s.events
              ++ PalletEvent.request
                  (r.ismp.dest_chain req)
                  (r.ismp.source_chain req)
                  (r.ismp.nonce req)
                ∷ [])
        × (s'.nonce ≡ s.nonce)
        × (dispatch_request r req s'
            ≡ some (err (IsmpError.implementation_specific (text "Duplicate request")), s'))
  unfolding record_request store_leaf_index_offchain StorageMap.contains_key
  dispatch_request_once req new = (
    after_request req,
    dispatch_request_new req new,
    after_request-HoldsPeaks req,
    refl,
    λ k. get-insert s.request_commitments (request_hash r req) k (query_of r req),
    refl,
    refl,
    dispatch_request_duplicate r req (after_request req)
        (ground (arith, after_request-commitment req)),
  )

  -- Over libraries that behave as documented, on a chain that holds exactly its peaks, with twice
  -- one more leaf below 2^64: a response to a request with a commitment, not sent before, is
  -- dispatched: it returns, the nodes on chain are the peaks of one more leaf, its commitment
  -- stands, one event is added, and the same response is from then on refused as a duplicate.
  pub dispatch_response_once :
      (res : Response)
      → StorageMap.contains_key s.request_commitments (request_hash r (r.ismp.request res)) ≡ true
      → StorageMap.contains_key s.response_commitments (response_hash r res) ≡ false
      → (s' : State) × (dispatch_response r res s ≡ some (ok tt, s'))
        × HoldsPeaks s'
        × (s'.number_of_leaves ≡ s.number_of_leaves + 1)
        × (StorageMap.get s'.response_commitments (response_hash r res) ≡ some Receipt.ok)
        × (s'.events
            ≡ s.events
              ++ PalletEvent.response
                  (r.ismp.response_dest_chain res)
                  (r.ismp.response_source_chain res)
                  (r.ismp.response_nonce res)
                ∷ [])
        × (dispatch_response r res s'
            ≡ some (err (IsmpError.implementation_specific (text "Duplicate response")), s'))
  unfolding record_response store_leaf_index_offchain StorageMap.contains_key
  dispatch_response_once res known new = (
    after_response res,
    dispatch_response_new res known new,
    after_response-HoldsPeaks res,
    refl,
    after_response-commitment res,
    refl,
    dispatch_response_duplicate r res (after_response res) known
        (ground (arith, after_response-commitment res)),
  )
