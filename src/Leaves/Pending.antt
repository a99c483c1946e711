-- ===== src/Leaves/Pending.antt =====
-- The Get requests that `pending_get_requests` of pallet-ismp/src/lib.rs lists: from their dispatch
-- until a response to them is received.
use ismp_substrate.Base.{
  List, ap, ◌∙◌, ite, ◌+◌, ◌*◌, ◌<◌, ◌≡◌, refl, false, none, some, [], ◌∷◌, ok, u64_mod, arith,
}
use ismp_substrate.StorageMap
use ismp_substrate.StorageMap.{StorageMap, get-insert, remove-insert}
use ismp_substrate.Ismp.{H256, bytes_key, Get, Request}
use ismp_substrate.Ismp.Library.{ReadsRequests}
use ismp_substrate.Primitives.{LeafIndexQuery}
use ismp_substrate.Pallet.{State, Runtime, IsScale, Receipt}
use ismp_substrate.Mmr.Storage.Invariant.{HoldsPeaks}
use ismp_substrate.Mmr.Push.{AppendsLeaf}
use ismp_substrate.Leaves.{
  filter_map, get_leaf_index, get_request, read_leaf, pending_get, pending_get_requests,
  store_leaf_index_offchain,
}
use ismp_substrate.Leaves.Queries.{found_after_push}
use ismp_substrate.Handlers.{dispatch_request, request_hash, query_of, record_request}
use ismp_substrate.Handlers.Outgoing.{after_request, dispatch_request_new}
use ismp_substrate.Host.{store_response_receipt}

module _ (r : Runtime) where
  -- An entry under another hash is pending as before a receipt, the one under its hash is not.
  pending_get-store_response_receipt :
      (req : Request) (s : State) (k : H256) (q : LeafIndexQuery)
      → pending_get r (store_response_receipt r req s) (k, q)
        ≡ ite (bytes_key.dec k (request_hash r req)) none (pending_get r s (k, q))
  unfolding pending_get store_response_receipt StorageMap.contains_key get_leaf_index get_request
      read_leaf
  pending_get-store_response_receipt req s k q =
      ground (arith, get-insert s.response_receipts (request_hash r req) k Receipt.ok)

  receipt_entries :
      (req : Request) (s : State) (m : StorageMap H256 LeafIndexQuery)
      → filter_map (pending_get r (store_response_receipt r req s)) m
        ≡ filter_map (pending_get r s) (StorageMap.remove m (request_hash r req))
  unfolding filter_map StorageMap.remove
  receipt_entries req s [] = refl
  receipt_entries req s ((k, q) ∷ m) =
      ground (arith, receipt_entries req s m, pending_get-store_response_receipt req s k q)

  -- In any state: after the receipt of a response to a request, the pending requests are those that
  -- the commitments of all other requests list before it.
  pub pending_get_requests-store_response_receipt :
      (req : Request) (s : State)
      → pending_get_requests r (store_response_receipt r req s)
        ≡ filter_map
            (pending_get r s)
            (StorageMap.remove s.request_commitments (request_hash r req))
  unfolding pending_get_requests store_response_receipt
  pending_get_requests-store_response_receipt req s = receipt_entries req s s.request_commitments

module _ (r : Runtime) (lib : AppendsLeaf r.mmr_lib) (scale : IsScale r.codec)
    (reads : ReadsRequests r.ismp) (s : State) (h : HoldsPeaks s)
    (small : 2 * (s.number_of_leaves + 1) < u64_mod) where
  -- Over libraries that behave as documented, on a chain that holds exactly its peaks, with twice
  -- one more leaf below 2^64: a Get request without a commitment and without a receipt of its
  -- response is dispatched, and is listed as pending then, beside what the other commitments list;
  -- once the receipt of its response is stored, those alone are listed.
  pub pending_get_requests-dispatch_request :
      (g : Get)
      → StorageMap.contains_key s.request_commitments (request_hash r (Request.get g)) ≡ false
      → StorageMap.contains_key s.response_receipts (request_hash r (Request.get g)) ≡ false
      → (t : State) × (others : List Get) × (dispatch_request r (Request.get g) s ≡ some (ok tt, t))
        × (others
            ≡ filter_map
                (pending_get r t)
                (StorageMap.remove s.request_commitments (request_hash r (Request.get g))))
        × (pending_get_requests r t ≡ g ∷ others)
        × (pending_get_requests r (store_response_receipt r (Request.get g) t) ≡ others)
  unfolding pending_get_requests pending_get record_request store_leaf_index_offchain get_leaf_index
      get_request StorageMap.insert filter_map
  pending_get_requests-dispatch_request g new unanswered =
      let req = Request.get g in
      let t = after_request r lib s h small req in
      let rest = StorageMap.remove s.request_commitments (request_hash r req) in
      (
        t,
        filter_map (pending_get r t) rest,
        dispatch_request_new r lib s h small req new,
        refl,
        ground (
          arith,
          found_after_push r lib scale s h small req,
          reads.type_get g,
          reads.request_get g,
          unanswered,
        ),
        pending_get_requests-store_response_receipt r req t
            ∙ ap (filter_map (pending_get r t))
                (remove-insert s.request_commitments (request_hash r req) (query_of r req)),
      )
