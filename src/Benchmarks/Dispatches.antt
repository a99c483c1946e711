-- ===== src/Benchmarks/Dispatches.antt =====
-- The benchmarks of pallet-ismp/src/benchmarking.rs that dispatch measure a dispatch that succeeds.
use ismp_substrate.Base.{
  ◌+◌, ◌*◌, ◌<◌, ◌≡◌, refl, ap, true, false, some, List, [], ◌∷◌, ◌++◌, wrap64, u64_mod, arith,
}
use ismp_substrate.StorageMap
use ismp_substrate.StorageMap.{get-insert}
use ismp_substrate.Ismp.{bytes_key, Post, Request, Response, DispatchRequest}
use ismp_substrate.Primitives.Leaves.{Leaf}
use ismp_substrate.Pallet.{State, Runtime, IsScale}
use ismp_substrate.Mmr.Push.{AppendsLeaf}
use ismp_substrate.Leaves.Log.{Represents, Represents-same}
use ismp_substrate.Handlers.{request_hash, response_hash}
use ismp_substrate.Handlers.Dispatcher
use ismp_substrate.Handlers.Dispatcher.{outgoing}
use ismp_substrate.Handlers.Outgoing.{dispatch_request_new, dispatch_response_new}
use ismp_substrate.Handlers.Log.{after_request-Represents, after_response-Represents}
use ismp_substrate.Benchmarks.Mocks.{unwrap, committed}
use ismp_substrate.Benchmarks.Outgoing.{
  benched_post, benched_get, benched_response, filler, dispatch_post_request, dispatch_get_request,
  dispatch_response,
}

committed-known :
    (r : Runtime) (post : Post) (s : State)
    → StorageMap.contains_key
        (committed r post s).request_commitments
        (request_hash r (Request.post post))
      ≡ true
unfolding StorageMap.contains_key
committed-known r post s = ground (
  arith,
  get-insert s.request_commitments (request_hash r (Request.post post))
      (request_hash r (Request.post post))
      (record { source_chain = post.source; dest_chain = post.dest; nonce = post.nonce }),
)

module _ (r : Runtime) where
  -- what a dispatch of the benchmarks becomes
  abbrev pub sent_request : State → DispatchRequest → Request
  sent_request s d = (outgoing r d s).0

  -- the response of `dispatch_response`
  abbrev pub sent_response : Response
  sent_response = Response.post (benched_response r)

module _ (r : Runtime) (lib : AppendsLeaf r.mmr_lib) (scale : IsScale r.codec) (s : State)
    (log : List Leaf) (h : Represents r s log)
    (small : 2 * (s.number_of_leaves + 1) < u64_mod) where
  numbered-Represents : Represents r (record s { nonce = wrap64 (s.nonce + 1) }) log
  numbered-Represents = Represents-same r s _ log refl refl refl h

  -- Over libraries that behave as documented, on a state that represents a log, with twice one more
  -- leaf below 2^64: where the Post request of `dispatch_post_request` has no commitment, the
  -- benchmark returns, and the log has that request at its end.
  pub dispatch_post_request-Represents :
      StorageMap.contains_key s.request_commitments
          (request_hash r (sent_request r s (DispatchRequest.post (benched_post r))))
        ≡ false
      → (t : State) × (dispatch_post_request r s ≡ some t)
        × Represents r t
            (log ++ Leaf.request (sent_request r s (DispatchRequest.post (benched_post r))) ∷ [])
  unfolding dispatch_post_request Dispatcher.dispatch_request outgoing
  dispatch_post_request-Represents new =
      let u = record s { nonce = wrap64 (s.nonce + 1) } in
      let req = sent_request r s (DispatchRequest.post (benched_post r)) in
      (
        _,
        ground (arith, dispatch_request_new r lib u numbered-Represents.peaks small req new),
        after_request-Represents r lib scale req u log numbered-Represents small,
      )

  -- The same for the Get request of `dispatch_get_request`.
  pub dispatch_get_request-Represents :
      StorageMap.contains_key s.request_commitments
          (request_hash r (sent_request r s (DispatchRequest.get (benched_get r))))
        ≡ false
      → (t : State) × (dispatch_get_request r s ≡ some t)
        × Represents r t
            (log ++ Leaf.request (sent_request r s (DispatchRequest.get (benched_get r))) ∷ [])
  unfolding dispatch_get_request Dispatcher.dispatch_request outgoing
  dispatch_get_request-Represents new =
      let u = record s { nonce = wrap64 (s.nonce + 1) } in
      let req = sent_request r s (DispatchRequest.get (benched_get r)) in
      (
        _,
        ground (arith, dispatch_request_new r lib u numbered-Represents.peaks small req new),
        after_request-Represents r lib scale req u log numbered-Represents small,
      )

  -- Over libraries that behave as documented, on a state that represents a log, with twice one more
  -- leaf below 2^64: where the response of `dispatch_response` answers the request that the
  -- benchmark inserts, and has no commitment, the benchmark returns, and the log has the response
  -- at its end.
  pub dispatch_response-Represents :
      r.ismp.request (sent_response r) ≡ Request.post (filler r 0)
      → StorageMap.contains_key s.response_commitments (response_hash r (sent_response r)) ≡ false
      → (t : State) × (dispatch_response r s ≡ some t)
        × Represents r t (log ++ Leaf.response (sent_response r) ∷ [])
  unfolding dispatch_response Dispatcher.dispatch_response
  dispatch_response-Represents answers new =
      let u = committed r (filler r 0) s in
      let kept = Represents-same r s u log refl refl refl h in
      let known : StorageMap.contains_key u.request_commitments
            (request_hash r (r.ismp.request (sent_response r)))
          ≡ true =
        rw answers (committed-known r (filler r 0) s) in
      (
        _,
        ap unwrap (dispatch_response_new r lib u kept.peaks small (sent_response r) known new),
        after_response-Represents r lib scale (sent_response r) u log kept small,
      )
